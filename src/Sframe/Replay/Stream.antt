-- ===== src/Sframe/Replay/Stream.antt =====
-- The replay window on whole sequences of counters.
use wave.Common.{ℕ, ◌≡◌, refl, sym, ◌∙◌, arith, Bool, true, false, List, [], ◌∷◌}
use wave.Sframe.Replay.{Window, empty, accept}
use wave.Sframe.Replay.Spec.{elem, elem-le, admits, remember, Tracks, accept_refines}

-- The verdicts on a sequence of counters.
unfoldable pub accept_all : Window → List ℕ → List Bool
accept_all w [] = []
accept_all w (c ∷ cs) = let (verdict, w') = accept w c in verdict ∷ accept_all w' cs

unfoldable pub admit_all : List ℕ → List ℕ → List Bool
admit_all h [] = []
admit_all h (c ∷ cs) = admits h c ∷ admit_all (remember h c) cs

accept_all_refines :
    (cs : List ℕ) (w : Window) (h : List ℕ) → Tracks w h → accept_all w cs ≡ admit_all h cs
unfolding accept_all admit_all
accept_all_refines [] w h t = refl
accept_all_refines (c ∷ cs) w h t =
    let (answer, next) = accept_refines w h c t in
    rw (answer, accept_all_refines cs (accept w c).1 (remember h c) next) refl

-- On every sequence of counters the window, empty at first, gives one by one the verdicts of the
-- policy `admits` on the counters accepted so far: a counter is taken when it is above all of them,
-- or less than 64 below the highest and not among them.
pub replay_refines : (cs : List ℕ) → accept_all empty cs ≡ admit_all [] cs
replay_refines cs = accept_all_refines cs empty [] refl

admits-elem : (c : ℕ) (h : List ℕ) → elem c h ≡ true → admits h c ≡ false
unfolding admits
admits-elem c [] e = cc
admits-elem c (x ∷ h) e = ground (arith, elem-le c (x ∷ h) e)

-- The window and the history after a sequence of counters.
unfoldable pub after : Window → List ℕ → Window
after w [] = w
after w (c ∷ cs) = after (accept w c).1 cs

history : List ℕ → List ℕ → List ℕ
history h [] = h
history h (c ∷ cs) = history (remember h c) cs

after-Tracks :
    (cs : List ℕ) (w : Window) (h : List ℕ) → Tracks w h → Tracks (after w cs) (history h cs)
unfolding after history
after-Tracks [] w h t = t
after-Tracks (c ∷ cs) w h t = after-Tracks cs _ _ (accept_refines w h c t).1

elem-remember : (c x : ℕ) (h : List ℕ) → elem c h ≡ true → elem c (remember h x) ≡ true
elem-remember c x h e = ground arith

elem-history : (c : ℕ) (cs h : List ℕ) → elem c h ≡ true → elem c (history h cs) ≡ true
unfolding history
elem-history c [] h e = e
elem-history c (x ∷ cs) h e = elem-history c cs (remember h x) (elem-remember c x h e)

elem-taken : (c : ℕ) (h : List ℕ) → admits h c ≡ true → elem c (remember h c) ≡ true
elem-taken c h e = ground arith

-- Whatever counters came before to an empty window, and whatever counters come between, a counter
-- that was accepted once is refused the second time.
pub no_replay :
    (before between : List ℕ) (c : ℕ)
    → (accept (after empty before) c).0 ≡ true
    → (accept (after (accept (after empty before) c).1 between) c).0 ≡ false
no_replay before between c taken =
    let (answer, next) = accept_refines (after empty before) (history [] before) c tracked in
    (accept_refines _ _ c (after-Tracks between _ _ next)).0
    ∙ admits-elem c _
        (elem-history c between _ (elem-taken c (history [] before) (sym answer ∙ taken)))
  where
    tracked : Tracks (after empty before) (history [] before)
    tracked = after-Tracks before empty [] refl
