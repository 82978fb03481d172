-- ===== src/Queue/LockFree/Push.antt =====
-- `try_push` of a thread that runs alone, on a ring that is ready.
use Prim.Native.Nat.{Ordering}
use edge_flow.Prelude.{
  ℕ, suc, ◌+◌, ◌-◌, ◌≤◌, ◌<◌, ◌≡◌, refl, sym, ap, ◌∙◌, ◌≢◌, ◌⊎◌, inl, inr, [], ◌∷◌, ◌++◌, arith,
  length, some, Bool, true, false, Option,
}
use native.Mathlib.Nat.{add-mod_right}
use native.Mathlib.Decide.{dec_lt, ℕ_discrete}
use edge_flow.Queue.LockFree.{Ring, signed_compare, slot, update, u64, tick, solo, try_push}
use edge_flow.Queue.LockFree.Invariant.{
  IsReady, slot_injective, signed_compare_eq, signed_compare_lt, window, contents, view,
  window-update, length-window, update_self, update_ne,
}

-- What a call of `try_push` does to a ring that is ready for one more push.
abbrev pub Pushes : {A : Type 0} → ℕ → A → Ring A → Option Bool × Ring A → Type 0
Pushes n a r p =
    ((length (contents r) ≡ r.mask + 1) × (p ≡ (some false, r)))
    ⊎ ((length (contents r) < r.mask + 1)
        × (p ≡ (some true, p.1))
        × IsReady n p.1
        × (view p.1 ≡ record (view r) { items = contents r ++ a ∷ [] }))

module _ {A : Type 0} where
  -- The ring after a successful `try_push`.
  abbrev pub with_item : A → Ring A → Ring A
  with_item a r = record r {
    sequence = update r.sequence (slot r r.enqueue_pos) (u64 (r.enqueue_pos + 1));
    storage = update r.storage (slot r r.enqueue_pos) a;
    enqueue_pos = u64 (r.enqueue_pos + 1);
  }

  try_push-room :
      (a : A) (r : Ring A)
      → signed_compare (r.sequence (slot r r.enqueue_pos)) r.enqueue_pos ≡ Ordering.eq
      → try_push a r ≡ (some true, with_item a r)
  unfolding try_push solo tick
  try_push-room a r e = rw (e, tick) (ground arith)

  try_push-full :
      (a : A) (r : Ring A)
      → signed_compare (r.sequence (slot r r.enqueue_pos)) r.enqueue_pos ≡ Ordering.lt
      → try_push a r ≡ (some false, r)
  unfolding try_push solo tick
  try_push-full a r e = rw (e, tick)

  module _ {n : ℕ} {r : Ring A} (ready : IsReady (suc n) r) where
    open ready use {two_slots, small, ordered, within, far, filled, free}

    -- No cursor wraps.
    next_pos : u64 (r.enqueue_pos + 1) ≡ r.enqueue_pos + 1
    next_pos = omega arith

    other_slot :
        (p : ℕ)
        → r.dequeue_pos ≤ p
        → p < r.dequeue_pos + (r.mask + 1)
        → p ≢ r.enqueue_pos
        → r.enqueue_pos < r.dequeue_pos + (r.mask + 1)
        → slot r r.enqueue_pos ≢ slot r p
    other_slot p lo hi ne room = elim (dec_lt p r.enqueue_pos) [
      | yes less ↦
          λ e. slot_injective (r.mask + 1) p r.enqueue_pos (omega arith) less (omega arith) (sym e)
      | no more ↦
          slot_injective (r.mask + 1) r.enqueue_pos p (omega arith) (omega arith) (omega arith)
    ]

    same_slot :
        (v p : ℕ) → p ≡ r.enqueue_pos → update r.sequence (slot r r.enqueue_pos) v (slot r p) ≡ v
    same_slot v p e =
        ap (update r.sequence (slot r r.enqueue_pos) v) (ap (slot r) e) ∙ update_self r.sequence _ v

    with_item-IsReady :
        (a : A) → r.enqueue_pos < r.dequeue_pos + (r.mask + 1) → IsReady n (with_item a r)
    with_item-IsReady a room = record {
      two_slots = two_slots;
      small = small;
      ordered = omega arith;
      within = omega arith;
      far = omega arith;
      filled = λ p lo hi. elim (ℕ_discrete p r.enqueue_pos) [
        | yes last ↦ same_slot _ p last ∙ omega (arith, last)
        | no before ↦
            update_ne r.sequence _ (other_slot p lo (omega arith) before room)
            ∙ filled p lo (omega arith)
      ];
      free = λ p lo hi.
          update_ne r.sequence _ (other_slot p (omega arith) hi (omega arith) room)
          ∙ free p (omega arith) hi;
    }

    contents-with_item :
        (a : A)
        → r.enqueue_pos < r.dequeue_pos + (r.mask + 1)
        → contents (with_item a r) ≡ contents r ++ a ∷ []
    contents-with_item a room =
        ap (window (with_item a r).storage (r.mask + 1) r.dequeue_pos) grown
        ∙ window-update r.storage (r.mask + 1) r.dequeue_pos (r.enqueue_pos - r.dequeue_pos)
            (slot r r.enqueue_pos) a (omega arith) (ap (slot r) (omega arith))
      where
        grown : u64 (r.enqueue_pos + 1) - r.dequeue_pos ≡ suc (r.enqueue_pos - r.dequeue_pos)
        grown = omega arith

    view-with_item :
        (a : A)
        → r.enqueue_pos < r.dequeue_pos + (r.mask + 1)
        → view (with_item a r) ≡ record (view r) { items = contents r ++ a ∷ [] }
    view-with_item a room = λ i. record (view r) { items = contents-with_item a room i }

    -- The slot at the enqueue cursor is free for this lap while there is room.
    free_turn :
        r.enqueue_pos < r.dequeue_pos + (r.mask + 1)
        → signed_compare (r.sequence (slot r r.enqueue_pos)) r.enqueue_pos ≡ Ordering.eq
    free_turn room = signed_compare_eq _ _ (free r.enqueue_pos (omega arith) room)

    -- In a full ring it is the oldest item's, one lap behind.
    full_turn :
        r.enqueue_pos ≡ r.dequeue_pos + (r.mask + 1)
        → signed_compare (r.sequence (slot r r.enqueue_pos)) r.enqueue_pos ≡ Ordering.lt
    full_turn e = signed_compare_lt _ _ (omega (arith, lapped)) (omega arith)
      where
        lapped : r.sequence (slot r r.enqueue_pos) ≡ r.dequeue_pos + 1
        lapped =
            ap (λ (p : ℕ). r.sequence (slot r p)) e
            ∙ ap r.sequence (add-mod_right r.dequeue_pos (r.mask + 1))
            ∙ filled r.dequeue_pos (omega arith) (omega arith)

    -- The call returns, and puts the item behind the others if and only if there is room.
    pub try_push-Pushes : (a : A) → Pushes n a r (try_push a r)
    try_push-Pushes a = elim (dec_lt r.enqueue_pos (r.dequeue_pos + (r.mask + 1))) [
      | yes room ↦
          rw (try_push-room a r (free_turn room))
            (inr (omega (arith, held), refl, with_item-IsReady a room, view-with_item a room))
      | no none_left ↦
          rw (try_push-full a r (full_turn (omega arith))) (inl (omega (arith, held), refl))
    ]
      where
        held : length (contents r) ≡ r.enqueue_pos - r.dequeue_pos
        held = length-window r.storage (r.mask + 1) r.dequeue_pos (r.enqueue_pos - r.dequeue_pos)
