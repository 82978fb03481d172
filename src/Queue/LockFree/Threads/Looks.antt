-- ===== src/Queue/LockFree/Threads/Looks.antt =====
-- Loads of a slot's sequence, and the claims that follow, keep the invariant.
use mathlib.Core.Path.{subst}
use Prim.Native.Nat.{Ordering}
use native.Mathlib.Nat.{add-zero}
use edge_flow.Prelude.{
  ℕ, suc, ◌+◌, ◌^◌, ◌≤◌, ◌<◌, ◌≡◌, refl, sym, ◌∙◌, ap, inl, inr, Bool, true, false, arith,
}
use edge_flow.Queue.LockFree.{
  u64, slot, update, signed_compare, after_push_look, after_pop_look, Pc, push_start, push_look,
  push_claim, push_store, push_full, pop_start, pop_look, pop_claim, pop_take, pop_empty,
}
use edge_flow.Queue.LockFree.Invariant.{slot_injective}
use edge_flow.Queue.LockFree.Threads.{System, note_claim}
use edge_flow.Queue.LockFree.Threads.Invariant.{bit, writing, reading, Serves, Locals, Inv}
use edge_flow.Queue.LockFree.Threads.Roles.{keep}
use edge_flow.Queue.LockFree.Threads.Claims.{slot_lt, claim_write-Inv, claim_read-Inv}

signed_compare-eq : (a b : ℕ) → a < 2 ^ 63 → b < 2 ^ 63 → signed_compare a b ≡ Ordering.eq → a ≡ b
signed_compare-eq a b h k e = ground arith

module _ {A : Type 0} {n : ℕ} {s : System A} (inv : Inv (suc n) s) (i : ℕ) where
  open inv use {turn, full, sound, locals}

  -- What a slot's sequence says of the position that it serves.
  looked_at :
      (p : ℕ) (f b : Bool)
      → full (slot s.ring p) ≡ f
      → turn (slot s.ring p) + bit f ≡ p + bit b
      → Serves s.ring turn full p b
  looked_at p true true e same = (omega (arith, same), e)
  looked_at p false false e same = (omega (arith, same), e)
  looked_at p true false e same = absurd (
      slot_injective (s.ring.mask + 1) (turn (slot s.ring p)) p (omega arith) (omega (arith, same))
        (omega (arith, same, sound.two_slots)) (sound.in_slot (slot s.ring p) (slot_lt s.ring p)))
  looked_at p false true e same = absurd (
      slot_injective (s.ring.mask + 1) p (turn (slot s.ring p)) (omega arith) (omega (arith, same))
        (omega (arith, same, sound.two_slots))
        (sym (sound.in_slot (slot s.ring p) (slot_lt s.ring p))))

  pub looked :
      (p : ℕ) (b : Bool) → s.ring.sequence (slot s.ring p) ≡ p + bit b → Serves s.ring turn full p b
  looked p b e =
      looked_at p (full (slot s.ring p)) b refl
        (sym (sound.sequenced (slot s.ring p) (slot_lt s.ring p)) ∙ e)

  bit_le : (b : Bool) → bit b ≤ 1
  bit_le true = omega arith
  bit_le false = omega arith

  pub sequence_lt : (p : ℕ) → s.ring.sequence (slot s.ring p) < 2 ^ 63
  sequence_lt p =
      let lt = slot_lt s.ring p in
      omega (
        arith,
        sound.sequenced (slot s.ring p) lt,
        sound.lapped (slot s.ring p) lt,
        bit_le (full (slot s.ring p)),
        sound.ordered,
        sound.far,
        sound.small,
      )

  pub own : {pc : Pc A} → s.threads i ≡ pc → Locals s.ring s.claimed turn full pc
  own e = subst (Locals s.ring s.claimed turn full) e (locals i)

  pub push_look-Inv :
      (a : A) (p : ℕ) (o : Ordering)
      → signed_compare (s.ring.sequence (slot s.ring p)) p ≡ o
      → s.threads i ≡ push_look a p
      → Inv n (record s {
        threads = update s.threads i (after_push_look a p o);
        claimed = note_claim (after_push_look a p o) s.claimed;
      })
  unfolding after_push_look
  push_look-Inv a p Ordering.lt o e =
      keep inv i push_full tt (ap writing (sym e)) (ap reading (sym e))
  push_look-Inv a p Ordering.gt o e =
      keep inv i (push_start a) tt (ap writing (sym e)) (ap reading (sym e))
  push_look-Inv a p Ordering.eq o e =
      let behind : p ≤ s.ring.enqueue_pos = own e in
      keep inv i (push_claim a p)
        (
          behind,
          inr (
              looked p false (
                signed_compare-eq _ p (sequence_lt p) (omega (arith, sound.far)) o
                ∙ sym (add-zero p))),
        )
        (ap writing (sym e)) (ap reading (sym e))

  pub pop_look-Inv :
      (p : ℕ) (o : Ordering)
      → signed_compare (s.ring.sequence (slot s.ring p)) (u64 (p + 1)) ≡ o
      → s.threads i ≡ pop_look p
      → Inv n (record s {
        threads = update s.threads i (after_pop_look p o);
        claimed = note_claim (after_pop_look p o) s.claimed;
      })
  unfolding after_pop_look
  pop_look-Inv p Ordering.lt o e = keep inv i pop_empty tt (ap writing (sym e)) (ap reading (sym e))
  pop_look-Inv p Ordering.gt o e = keep inv i pop_start tt (ap writing (sym e)) (ap reading (sym e))
  pop_look-Inv p Ordering.eq o e =
      let behind : p ≤ s.ring.dequeue_pos = own e in
      let wrap : u64 (p + 1) ≡ p + 1 = omega (arith, sound.ordered, sound.far) in
      keep inv i (pop_claim p)
        (
          behind,
          inr (
              looked p true (
                signed_compare-eq _ (p + 1) (sequence_lt p)
                  (omega (arith, sound.ordered, sound.far))
                  (ap (signed_compare (s.ring.sequence (slot s.ring p))) (sym wrap) ∙ o))),
        )
        (ap writing (sym e)) (ap reading (sym e))

  pub push_won-Inv :
      (a : A) (p : ℕ)
      → s.threads i ≡ push_claim a p
      → s.ring.enqueue_pos ≡ p
      → Inv n (record s {
        ring = record s.ring { enqueue_pos = u64 (p + 1) };
        threads = update s.threads i (push_store a p);
        claimed = update s.claimed p a;
      })
  push_won-Inv a p e same =
      let wrap : s.ring.enqueue_pos + 1 ≡ u64 (p + 1) = omega (arith, sound.far, same) in
      let mine : Serves s.ring turn full s.ring.enqueue_pos false = elim (own e).1 [
        | inl past ↦ absurd (omega (arith, past, same))
        | inr free ↦ subst (λ (x : ℕ). Serves s.ring turn full x false) (sym same) free
      ] in
      subst
        (λ (x : ℕ). Inv n (record s {
          ring = record s.ring { enqueue_pos = x };
          threads = update s.threads i (push_store a p);
          claimed = update s.claimed p a;
        }))
        wrap
        (subst
          (λ (x : ℕ). Inv n (record s {
            ring = record s.ring { enqueue_pos = s.ring.enqueue_pos + 1 };
            threads = update s.threads i (push_store a x);
            claimed = update s.claimed x a;
          }))
          same (claim_write-Inv inv i a mine (ap writing e) (ap reading e)))

  pub pop_won-Inv :
      (p : ℕ)
      → s.threads i ≡ pop_claim p
      → s.ring.dequeue_pos ≡ p
      → Inv n (record s {
        ring = record s.ring { dequeue_pos = u64 (p + 1) };
        threads = update s.threads i (pop_take p);
      })
  pop_won-Inv p e same =
      let wrap : s.ring.dequeue_pos + 1 ≡ u64 (p + 1) =
        omega (arith, sound.far, sound.ordered, same) in
      let mine : Serves s.ring turn full s.ring.dequeue_pos true = elim (own e).1 [
        | inl past ↦ absurd (omega (arith, past, same))
        | inr ready ↦ subst (λ (x : ℕ). Serves s.ring turn full x true) (sym same) ready
      ] in
      subst
        (λ (x : ℕ). Inv n (record s {
          ring = record s.ring { dequeue_pos = x };
          threads = update s.threads i (pop_take p);
        }))
        wrap
        (subst
          (λ (x : ℕ). Inv n (record s {
            ring = record s.ring { dequeue_pos = s.ring.dequeue_pos + 1 };
            threads = update s.threads i (pop_take x);
          }))
          same (claim_read-Inv inv i mine (ap writing e) (ap reading e)))
