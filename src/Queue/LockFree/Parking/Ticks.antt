-- ===== src/Queue/LockFree/Parking/Ticks.antt =====
-- What one access inside of `try_push` or `try_pop` does to the cursors, and what an empty-handed
-- `try_pop` has seen.
use Prim.Native.Nat.{Ordering}
use native.Mathlib.Decide.{dec_lt}
use edge_flow.Prelude.{
  ℕ, suc, ◌+◌, ◌^◌, ◌≤◌, ◌<◌, ◌≡◌, refl, sym, ◌∙◌, ap, ◌⊎◌, inl, inr, Bool, true, false, arith,
  some, Bool-cases, ◌==◌,
}
use edge_flow.Queue.LockFree.{
  Ring, u64, slot, tick, signed_compare, Pc, push_start, push_look, push_claim, push_store,
  push_publish, pushed, push_full, pop_start, pop_look, pop_claim, pop_take, pop_release, popped,
  pop_empty, after_push_look, after_pop_look,
}
use edge_flow.Queue.LockFree.Invariant.{slot_injective}
use edge_flow.Queue.LockFree.Threads.{System}
use edge_flow.Queue.LockFree.Threads.Invariant.{bit, writing, Inv}
use edge_flow.Queue.LockFree.Threads.Looks.{own, sequence_lt}
use edge_flow.Queue.LockFree.Threads.Claims.{slot_lt}

looked_lt : (a b : ℕ) → a < 2 ^ 63 → b < 2 ^ 63 → signed_compare a (u64 b) ≡ Ordering.lt → a < b
looked_lt a b h k e = ground arith

module _ {A : Type 0} where
  abbrev pub is_push : Pc A → Bool
  is_push (push_start a) = true
  is_push (push_look a p) = true
  is_push (push_claim a p) = true
  is_push (push_store a p) = true
  is_push (push_publish p) = true
  is_push pushed = true
  is_push push_full = true
  is_push _ = false

  -- 1 for a producer that has claimed a position.
  abbrev pub armed : Pc A → ℕ
  armed (push_store a p) = 1
  armed (push_publish p) = 1
  armed pushed = 1
  armed _ = 0

  -- 1 for a consumer that may still claim one.
  abbrev pub eager : Pc A → ℕ
  eager pop_start = 1
  eager (pop_look p) = 1
  eager (pop_claim p) = 1
  eager _ = 0

  abbrev pub is_empty : Pc A → Bool
  is_empty pop_empty = true
  is_empty _ = false

  pub record Ticked (r : Ring A) (pc pc' : Pc A) (r' : Ring A) : Type 0 where
    pub filled : r'.enqueue_pos + armed pc ≡ r.enqueue_pos + armed pc'
    pub emptied : is_empty pc' ≡ false → r'.dequeue_pos + eager pc' ≡ r.dequeue_pos + eager pc
    pub forward : r.dequeue_pos ≤ r'.dequeue_pos
    pub written : (p : ℕ) → writing pc' ≡ some p → (writing pc ≡ some p) ⊎ (p + 1 ≡ r'.enqueue_pos)
    pub kind : is_push pc' ≡ is_push pc
    pub waiters : r'.waiters ≡ r.waiters
    pub flag : r'.shutting_down ≡ r.shutting_down

  -- An access that leaves the cursors alone.
  still_there :
      (r r' : Ring A) (pc pc' : Pc A)
      → (r'.enqueue_pos ≡ r.enqueue_pos) × (r'.dequeue_pos ≡ r.dequeue_pos)
      → (r'.waiters ≡ r.waiters) × (r'.shutting_down ≡ r.shutting_down)
      → (armed pc' ≡ armed pc) × (is_push pc' ≡ is_push pc)
      → (is_empty pc' ≡ false → eager pc' ≡ eager pc)
      → writing pc' ≡ writing pc
      → Ticked r pc pc' r'
  still_there r r' pc pc' (e, d) (w, f) (a, k) g v = record {
    filled = omega (arith, e, a);
    emptied = λ x. omega (arith, d, g x);
    forward = omega (arith, d);
    written = λ p x. inl (sym v ∙ x);
    kind = k;
    waiters = w;
    flag = f;
  }

  push_looked :
      (r : Ring A) (a : A) (p : ℕ) (o : Ordering)
      → Ticked r (push_look a p) (after_push_look a p o) r
  unfolding after_push_look
  push_looked r a p Ordering.lt =
      still_there r r (push_look a p) push_full (refl, refl) (refl, refl) (refl, refl) (λ x. refl)
        refl
  push_looked r a p Ordering.eq =
      still_there r r (push_look a p) (push_claim a p) (refl, refl) (refl, refl) (refl, refl)
        (λ x. refl) refl
  push_looked r a p Ordering.gt =
      still_there r r (push_look a p) (push_start a) (refl, refl) (refl, refl) (refl, refl)
        (λ x. refl) refl

  pop_looked : (r : Ring A) (p : ℕ) (o : Ordering) → Ticked r (pop_look p) (after_pop_look p o) r
  unfolding after_pop_look
  pop_looked r p Ordering.lt =
      still_there r r (pop_look p) pop_empty (refl, refl) (refl, refl) (refl, refl) (λ x. cc) refl
  pop_looked r p Ordering.eq =
      still_there r r (pop_look p) (pop_claim p) (refl, refl) (refl, refl) (refl, refl) (λ x. refl)
        refl
  pop_looked r p Ordering.gt =
      still_there r r (pop_look p) pop_start (refl, refl) (refl, refl) (refl, refl) (λ x. refl) refl

  empty_lt :
      (pc : Pc A) (p : ℕ) (o : Ordering)
      → after_pop_look p o ≡ pc
      → is_empty pc ≡ true
      → o ≡ Ordering.lt
  unfolding after_pop_look
  empty_lt pc p Ordering.lt e h = refl
  empty_lt pc p Ordering.eq e h = cc
  empty_lt pc p Ordering.gt e h = cc

  module _ {n : ℕ} {s : System A} (inv : Inv (suc n) s) (i : ℕ) where
    open inv use {turn, full, sound}

    abbrev Ticks : Bool → Pc A → Type 0
    Ticks weak pc = let (pc', r') = tick weak pc s.ring in Ticked s.ring pc pc' r'

    pub tick-Ticked : (weak : Bool) (pc : Pc A) → s.threads i ≡ pc → Ticks weak pc
    unfolding tick
    tick-Ticked weak (push_start a) e =
        still_there _ _ _ _ (refl, refl) (refl, refl) (refl, refl) (λ x. refl) refl
    tick-Ticked weak (push_look a p) e = push_looked s.ring a p _
    tick-Ticked true (push_claim a p) e =
        still_there _ _ _ _ (refl, refl) (refl, refl) (refl, refl) (λ x. refl) refl
    tick-Ticked false (push_claim a p) e = elim (Bool-cases (s.ring.enqueue_pos == p)) [
      | inl same ↦
          let at_tail : s.ring.enqueue_pos ≡ p = ground arith in
          rw same (record {
            filled = omega (arith, at_tail, sound.far);
            emptied = λ x. refl;
            forward = omega arith;
            written =
                λ q x. let here : p ≡ q = cc (x) in inr (omega (arith, here, at_tail, sound.far));
            kind = refl;
            waiters = refl;
            flag = refl;
          })
      | inr other ↦
          rw other (still_there _ _ _ _ (refl, refl) (refl, refl) (refl, refl) (λ x. refl) refl)
    ]
    tick-Ticked weak (push_store a p) e =
        still_there _ _ _ _ (refl, refl) (refl, refl) (refl, refl) (λ x. refl) refl
    tick-Ticked weak (push_publish p) e = record {
      filled = refl;
      emptied = λ x. refl;
      forward = omega arith;
      written = λ q x. cc;
      kind = refl;
      waiters = refl;
      flag = refl;
    }
    tick-Ticked weak pop_start e =
        still_there _ _ _ _ (refl, refl) (refl, refl) (refl, refl) (λ x. refl) refl
    tick-Ticked weak (pop_look p) e = pop_looked s.ring p _
    tick-Ticked true (pop_claim p) e =
        still_there _ _ _ _ (refl, refl) (refl, refl) (refl, refl) (λ x. refl) refl
    tick-Ticked false (pop_claim p) e = elim (Bool-cases (s.ring.dequeue_pos == p)) [
      | inl same ↦
          let at_head : s.ring.dequeue_pos ≡ p = ground arith in
          rw same (record {
            filled = refl;
            emptied = λ x. omega (arith, at_head, sound.ordered, sound.far);
            forward = omega (arith, at_head, sound.ordered, sound.far);
            written = λ q x. cc;
            kind = refl;
            waiters = refl;
            flag = refl;
          })
      | inr other ↦
          rw other (still_there _ _ _ _ (refl, refl) (refl, refl) (refl, refl) (λ x. refl) refl)
    ]
    tick-Ticked weak (pop_take p) e =
        still_there _ _ _ _ (refl, refl) (refl, refl) (refl, refl) (λ x. refl) refl
    tick-Ticked weak (pop_release a p) e =
        still_there _ _ _ _ (refl, refl) (refl, refl) (refl, refl) (λ x. refl) refl
    tick-Ticked weak pushed e =
        still_there _ _ _ _ (refl, refl) (refl, refl) (refl, refl) (λ x. refl) refl
    tick-Ticked weak push_full e =
        still_there _ _ _ _ (refl, refl) (refl, refl) (refl, refl) (λ x. refl) refl
    tick-Ticked weak (popped a) e =
        still_there _ _ _ _ (refl, refl) (refl, refl) (refl, refl) (λ x. refl) refl
    tick-Ticked weak pop_empty e =
        still_there _ _ _ _ (refl, refl) (refl, refl) (refl, refl) (λ x. refl) refl

    -- A consumer that finds its slot not ready looked at a ring with no item, or with one that a
    -- producer has not published yet.
    pub empty_seen :
        (weak : Bool) (p : ℕ)
        → s.threads i ≡ pop_look p
        → is_empty (tick weak (pop_look p) s.ring).0 ≡ true
        → (s.ring.enqueue_pos ≤ s.ring.dequeue_pos)
          ⊎ ((j : ℕ) × (writing (s.threads j) ≡ some s.ring.dequeue_pos))
    unfolding tick
    empty_seen weak p e none_there =
        let k : ℕ = slot s.ring p in
        let near : k < s.ring.mask + 1 = slot_lt s.ring p in
        let behind : p ≤ s.ring.dequeue_pos = own inv i e in
        let early : s.ring.sequence k < p + 1 =
          looked_lt (s.ring.sequence k) (p + 1) (sequence_lt inv i p)
            (omega (arith, sound.ordered, sound.far)) (empty_lt _ p _ refl none_there) in
        elim (Bool-cases (full k)) [
          | inl published ↦
              let turned : turn k < p =
                omega (arith, sound.sequenced k near, ap bit published, early) in
              elim (dec_lt p (turn k + (s.ring.mask + 1))) [
                | yes lap ↦ absurd (
                    slot_injective (s.ring.mask + 1) (turn k) p (omega arith) turned lap
                      (sound.in_slot k near))
                | no far ↦ inl (omega (arith, sound.filled_to k near))
              ]
          | inr free ↦
              let turned : turn k < p + 1 =
                omega (arith, sound.sequenced k near, ap bit free, early) in
              let at_head : turn k ≡ s.ring.dequeue_pos =
                omega (arith, sound.emptied_to k near free) in
              elim (dec_lt (turn k) s.ring.enqueue_pos) [
                | yes filling ↦
                    let (j, w) = inv.writer k near free filling in inr (j, w ∙ ap some at_head)
                | no drained ↦ inl (omega (arith, at_head))
              ]
        ]
