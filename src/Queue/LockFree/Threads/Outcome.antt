-- ===== src/Queue/LockFree/Threads/Outcome.antt =====
-- What any schedule of any number of threads does to a new ring.
use mathlib.Core.Path.{subst}
use edge_flow.Prelude.{
  ℕ, zero, suc, ◌+◌, ◌-◌, ◌^◌, ◌≤◌, ◌<◌, ◌≡◌, List, arith, length, All, All-map,
}
use edge_flow.Prelude.Except.{ok, >>=-eq-ok}
use edge_flow.Queue.Types.{BackpressurePolicy}
use edge_flow.Queue.LockFree.{Ring, make, validated_capacity}
use edge_flow.Queue.LockFree.Capacity.{validated_capacity-IsRingSize}
use edge_flow.Queue.LockFree.Invariant.{IsReady, contents}
use edge_flow.Queue.LockFree.Threads.{System, Move, run}
use edge_flow.Queue.LockFree.Threads.Invariant.{Has, AreDistinct, Inv}
use edge_flow.Queue.LockFree.Threads.Run.{run-Inv, opened, opened-Inv}
use edge_flow.Queue.LockFree.Threads.Quiet.{
  IsQuiet, claims, quiet-IsReady, quiet-contents, quiet-Has,
}

module _ {A : Type 0} where
  -- A return of a position that was claimed by a consumer, with the item of that position.
  abbrev pub IsReturn : System A → ℕ × A → Type 0
  IsReturn s (p, a) = (p < s.ring.dequeue_pos) × (a ≡ s.claimed p)

  -- Every position below `p` has been returned.
  abbrev pub AreReturned : List (ℕ × A) → ℕ → Type 0
  AreReturned taken zero = Unit
  AreReturned taken (suc p) = Has p taken × AreReturned taken p

  all_Has : (taken : List (ℕ × A)) (p : ℕ) → ((q : ℕ) → q < p → Has q taken) → AreReturned taken p
  all_Has taken zero h = tt
  all_Has taken (suc p) h =
      (h p (omega arith), all_Has taken p (λ q (lt : q < p). h q (omega arith)))

  module _ (fill : A) (c : ℕ) (policy : BackpressurePolicy) {r : Ring A}
      (made : make fill c policy ≡ ok r) (ms : List (Move A)) (few : length ms ≤ 2 ^ 62) where
    made-Inv : Inv (2 ^ 62) (opened fill r)
    unfolding make
    made-Inv =
        let (size, valid, same) = >>=-eq-ok (validated_capacity c) _ made in
        subst (λ (r : Ring A). Inv (2 ^ 62) (opened fill r)) (cc same)
          (opened-Inv fill policy c size (validated_capacity-IsRingSize c valid))

    after-Inv : Inv (2 ^ 62 - length ms) (run (opened fill r) ms)
    after-Inv =
        let enough : 2 ^ 62 ≡ length ms + (2 ^ 62 - length ms) = omega (arith, few) in
        run-Inv ms (subst (λ (n : ℕ). Inv n (opened fill r)) enough made-Inv)

    -- On a ring that the constructor returned, whatever any threads do in up to 2^62 accesses: each
    -- item that a try_pop returned is the one that a try_push claimed its position for, no position
    -- is returned twice, and the cursors are in order and at most the size of the ring apart.
    pub run-AreDistinct :
        let s = run (opened fill r) ms in
        All (IsReturn s) s.taken
        × AreDistinct s.taken
        × (s.ring.dequeue_pos ≤ s.ring.enqueue_pos)
        × (s.ring.enqueue_pos ≤ s.ring.dequeue_pos + (s.ring.mask + 1))
    run-AreDistinct =
        let inv = after-Inv in
        (
          All-map (λ t h. (h.0, h.2)) _ inv.returned,
          inv.distinct,
          inv.sound.ordered,
          inv.sound.within,
        )

    -- When the threads are all out of their calls, after up to 2^62 accesses on a ring that the
    -- constructor returned: the ring is ready for the pushes that are left, its items are those
    -- claimed for the positions between the cursors, in the order of the claims, and every position
    -- before them has been returned.
    pub run-IsReady :
        IsQuiet (run (opened fill r) ms)
        → let s = run (opened fill r) ms in
          IsReady (2 ^ 62 - length ms) s.ring
          × (contents s.ring
              ≡ claims s.claimed s.ring.dequeue_pos (s.ring.enqueue_pos - s.ring.dequeue_pos))
          × AreReturned s.taken s.ring.dequeue_pos
    run-IsReady quiet =
        let inv = after-Inv in
        let ordered = inv.sound.ordered in
        (
          quiet-IsReady inv quiet,
          quiet-contents inv quiet _ _ (omega arith) (omega (arith, ordered)),
          all_Has _ _ (quiet-Has inv quiet),
        )
