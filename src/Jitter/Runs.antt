-- ===== src/Jitter/Runs.antt =====
-- A window that wraps round sequence number 0, and the theorems on it.
use wave.Common.{◌≡◌, refl, arith, true, false, some, [], ◌∷◌}
use wave.Jitter.{
  JitterBuffer, empty_meta, new, rebase, store, insert, next_ready, waiting_on_hole, skip_loop,
  skip_hole, release,
}
use wave.Jitter.Invariant.{IsValid, new-IsValid, insert-IsValid}
use wave.Jitter.Reach.{fresh, inserted, let_go, hole_skipped, reachable-IsValid}
use wave.Jitter.Advance.{release-IsValid}
use wave.Jitter.Window.{packet_of, held}
use wave.Jitter.Insert.{insert-held}
use wave.Jitter.Skip.{HoleSkipped, skip_hole_lem}

-- The first packet sets the base; the second is three ahead of it.
abbrev first_in : JitterBuffer
first_in = (insert 65534 (10 ∷ 11 ∷ []) empty_meta new).1

abbrev two_in : JitterBuffer
two_in = (insert 1 (20 ∷ []) empty_meta first_in).1

abbrev hole : JitterBuffer
hole = release two_in

first_in-IsValid : IsValid first_in
first_in-IsValid = insert-IsValid 65534 (10 ∷ 11 ∷ []) empty_meta new (omega arith) new-IsValid

two_in-IsValid : IsValid two_in
two_in-IsValid = insert-IsValid 1 (20 ∷ []) empty_meta first_in (omega arith) first_in-IsValid

hole-IsValid : IsValid hole
hole-IsValid = release-IsValid two_in two_in-IsValid

two_ready : next_ready two_in ≡ true
unfolding next_ready insert rebase store
two_ready = refl

hole_waits : waiting_on_hole hole ≡ true
unfolding waiting_on_hole next_ready release insert rebase store
hole_waits = refl

hole_skips : ((skip_hole hole).0 ≡ 2) × (next_ready (skip_hole hole).1 ≡ true)
unfolding skip_hole skip_loop waiting_on_hole next_ready release insert rebase store
hole_skips = (refl, refl)

late_refused : (insert 65534 (9 ∷ []) empty_meta hole).0 ≡ false
unfolding next_ready release insert rebase store
late_refused = refl

skip_hole_lem_example : HoleSkipped hole (skip_hole hole).1 (skip_hole hole).0
skip_hole_lem_example = skip_hole_lem hole hole-IsValid hole_waits

insert-held_example :
    ((insert 1 (20 ∷ []) empty_meta first_in).0 ≡ true)
    × (held (insert 1 (20 ∷ []) empty_meta first_in).1 3 ≡ some (20 ∷ [], empty_meta))
    × ((insert 1 (20 ∷ []) empty_meta first_in).1.packets_received ≡ 2)
unfolding insert rebase store packet_of
insert-held_example =
    insert-held 1 (20 ∷ []) empty_meta first_in 3 (omega arith) first_in-IsValid (omega arith)

reachable-IsValid_example : IsValid (skip_hole (release two_in)).1
reachable-IsValid_example = reachable-IsValid (skip_hole (release two_in)).1 (
    hole_skipped (
      let_go (
        inserted 1 (20 ∷ []) empty_meta (omega arith)
          (inserted 65534 (10 ∷ 11 ∷ []) empty_meta (omega arith) fresh))))
