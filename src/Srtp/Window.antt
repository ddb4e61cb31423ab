-- ===== src/Srtp/Window.antt =====
-- The replay window against the policy over the indices accepted so far.
use wave.Common.{ℕ, ◌≡◌, refl, ap, sym, ◌∙◌, arith, Bool, List, [], ◌∷◌, Bool-cases, inl, inr}
use wave.Sframe.Replay.{Window, slide, accept_old}
use wave.Sframe.Replay.{accept as accept_counter}
use wave.Sframe.Replay.Stream.{accept_all, admit_all, replay_refines}
use native.Mathlib.Decide.{dec_lt}
use wave.Srtp.{Replay, create, accept}

-- The same three fields under the names of the other window.
unfoldable window : Replay → Window
window w = record { highest = w.highest; seen = w.bitmap; initialized = w.initialized }

accept-window :
    (w : Replay) (index : ℕ)
    → ((accept w index).0 ≡ (accept_counter (window w) index).0)
      × (window (accept w index).1 ≡ (accept_counter (window w) index).1)
unfolding accept window accept_counter slide accept_old
accept-window w index = elim (Bool-cases w.initialized) [
  | inl e ↦ elim (dec_lt w.highest index) [
    | yes up ↦ rw e (ground arith)
    | no down ↦ rw e (ground arith)
  ]
  | inr e ↦ rw e (refl, refl)
]

-- The verdicts on a sequence of indices.
unfoldable pub verdicts : Replay → List ℕ → List Bool
verdicts w [] = []
verdicts w (i ∷ is) = let (verdict, w') = accept w i in verdict ∷ verdicts w' is

verdicts-window : (w : Replay) (is : List ℕ) → verdicts w is ≡ accept_all (window w) is
unfolding verdicts accept_all
verdicts-window w [] = refl
verdicts-window w (i ∷ is) =
    let (verdict, next) = accept-window w i in
    rw (verdict, sym next)
      (ap (λ l. (accept_counter (window w) i).0 ∷ l) (verdicts-window (accept w i).1 is))

-- On every sequence of packet indices the replay window, new at first, gives one by one the verdicts
-- of the policy `admits` on the indices accepted so far: an index is taken when it is above all of
-- them, or less than 64 below the highest and not among them.
pub verdicts-admit_all : (is : List ℕ) → verdicts create is ≡ admit_all [] is
unfolding create window
verdicts-admit_all is = verdicts-window create is ∙ replay_refines is
