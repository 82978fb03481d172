-- ===== src/Queue/LockFree/Pop.antt =====
-- `try_pop` of a thread that runs alone, on a ring that is ready.
use Prim.Native.Nat.{Ordering}
use mathlib.Core.Path.{ap₂}
use native.Mathlib.Nat.{add-mod_right}
use native.Mathlib.Decide.{dec_lt, ℕ_discrete}
use edge_flow.Prelude.{
  ℕ, ◌+◌, ◌-◌, ◌<◌, ◌≡◌, refl, ap, ◌∙◌, ◌⊎◌, inl, inr, [], ◌∷◌, arith, some, none, Option,
}
use edge_flow.Queue.LockFree.{Ring, signed_compare, slot, update, u64, tick, solo, try_pop}
use edge_flow.Queue.LockFree.Invariant.{
  IsReady, slot_injective, signed_compare_eq, signed_compare_lt, window, contents, view,
  window_of_pos, update_self, update_ne,
}

-- What a call of `try_pop` does to a ring that is ready.
abbrev pub Pops : {A : Type 0} → ℕ → Ring A → Option (Option A) × Ring A → Type 0
Pops n r p =
    ((contents r ≡ []) × (p ≡ (some none, r)))
    ⊎ ((contents r ≡ r.storage (slot r r.dequeue_pos) ∷ contents p.1)
        × (p ≡ (some (some (r.storage (slot r r.dequeue_pos))), p.1))
        × IsReady n p.1
        × (view p.1 ≡ record (view r) { items = contents p.1 }))

module _ {A : Type 0} where
  -- The ring after a successful `try_pop`.
  abbrev pub without_item : Ring A → Ring A
  without_item r = record r {
    sequence = update r.sequence (slot r r.dequeue_pos) (u64 (r.dequeue_pos + r.mask + 1));
    dequeue_pos = u64 (r.dequeue_pos + 1);
  }

  try_pop-item :
      (r : Ring A)
      → signed_compare (r.sequence (slot r r.dequeue_pos)) (u64 (r.dequeue_pos + 1)) ≡ Ordering.eq
      → try_pop r ≡ (some (some (r.storage (slot r r.dequeue_pos))), without_item r)
  unfolding try_pop solo tick
  try_pop-item r e = rw (e, tick) (ground arith)

  try_pop-empty :
      (r : Ring A)
      → signed_compare (r.sequence (slot r r.dequeue_pos)) (u64 (r.dequeue_pos + 1)) ≡ Ordering.lt
      → try_pop r ≡ (some none, r)
  unfolding try_pop solo tick
  try_pop-empty r e = rw (e, tick)

  module _ {n : ℕ} {r : Ring A} (ready : IsReady n r) where
    open ready use {two_slots, small, ordered, within, far, filled, free}

    -- The freed slot, one lap ahead.
    next_lap : u64 (r.dequeue_pos + r.mask + 1) ≡ r.dequeue_pos + (r.mask + 1)
    next_lap = omega arith

    lap_slot : slot r (r.dequeue_pos + (r.mask + 1)) ≡ slot r r.dequeue_pos
    lap_slot = add-mod_right r.dequeue_pos (r.mask + 1)

    without_item-IsReady : r.dequeue_pos < r.enqueue_pos → IsReady n (without_item r)
    without_item-IsReady some_left = record {
      two_slots = two_slots;
      small = small;
      ordered = omega arith;
      within = omega arith;
      far = far;
      filled = λ p lo hi.
          update_ne r.sequence _
            (slot_injective (r.mask + 1) r.dequeue_pos p (omega arith) (omega arith) (omega arith))
          ∙ filled p (omega arith) hi;
      free = λ p lo hi. elim (ℕ_discrete p (r.dequeue_pos + (r.mask + 1))) [
        | yes lap ↦
            ap (update r.sequence (slot r r.dequeue_pos) _) (ap (slot r) lap ∙ lap_slot)
            ∙ update_self r.sequence _ _
            ∙ omega arith
        | no before ↦
            update_ne r.sequence _ (
              slot_injective (r.mask + 1) r.dequeue_pos p (omega arith) (omega arith) (omega arith))
            ∙ free p lo (omega arith)
      ];
    }

    contents-without_item :
        r.dequeue_pos < r.enqueue_pos
        → contents r ≡ r.storage (slot r r.dequeue_pos) ∷ contents (without_item r)
    contents-without_item some_left =
        window_of_pos r.storage (r.mask + 1) r.dequeue_pos (r.enqueue_pos - r.dequeue_pos)
          (omega arith)
        ∙ ap₂ (λ (p k : ℕ). r.storage (slot r r.dequeue_pos) ∷ window r.storage (r.mask + 1) p k)
            (omega arith) (omega arith)

    item_turn :
        r.dequeue_pos < r.enqueue_pos
        → signed_compare (r.sequence (slot r r.dequeue_pos)) (u64 (r.dequeue_pos + 1)) ≡ Ordering.eq
    item_turn some_left =
        signed_compare_eq _ _ (filled r.dequeue_pos (omega arith) some_left ∙ omega arith)

    empty_turn :
        r.dequeue_pos ≡ r.enqueue_pos
        → signed_compare (r.sequence (slot r r.dequeue_pos)) (u64 (r.dequeue_pos + 1)) ≡ Ordering.lt
    empty_turn e =
        signed_compare_lt _ _ (omega (arith, free r.dequeue_pos (omega arith) (omega arith)))
          (omega arith)

    -- The call returns, with the oldest item if there is one.
    pub try_pop-Pops : Pops n r (try_pop r)
    try_pop-Pops = elim (dec_lt r.dequeue_pos r.enqueue_pos) [
      | yes some_left ↦
          rw (try_pop-item r (item_turn some_left))
            (inr (contents-without_item some_left, refl, without_item-IsReady some_left, refl))
      | no none_left ↦
          let gone : r.enqueue_pos - r.dequeue_pos ≡ 0 = omega arith in
          rw (try_pop-empty r (empty_turn (omega arith)))
            (inl (ap (window r.storage (r.mask + 1) r.dequeue_pos) gone, refl))
    ]
