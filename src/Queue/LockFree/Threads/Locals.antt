-- ===== src/Queue/LockFree/Threads/Locals.antt =====
-- What a thread's locals say stays true while another thread changes the ring.
use native.Mathlib.Decide.{ℕ_discrete}
use edge_flow.Prelude.{
  ℕ, ◌+◌, ◌≤◌, ◌<◌, ◌≡◌, sym, ◌∙◌, ap, ◌≢◌, inl, inr, Bool, true, false, arith, some,
}
use edge_flow.Queue.LockFree.{
  Ring, slot, update, Pc, push_look, push_claim, push_store, push_publish, pop_look, pop_claim,
  pop_take, pop_release,
}
use edge_flow.Queue.LockFree.Invariant.{update_ne}
use edge_flow.Queue.LockFree.Threads.Invariant.{writing, reading, Serves, Locals}

-- A slot serves one position, in one state.
pub one_position :
    {A : Type 0} (r : Ring A) (turn : ℕ → ℕ) (full : ℕ → Bool) {p q : ℕ} {b c : Bool}
    → Serves r turn full p b
    → Serves r turn full q c
    → slot r p ≡ slot r q
    → (p ≡ q) × (b ≡ c)
one_position r turn full h k same = (sym h.0 ∙ ap turn same ∙ k.0, sym h.1 ∙ ap full same ∙ k.1)

module _ {A : Type 0} (r : Ring A) (claimed : ℕ → A) (turn : ℕ → ℕ) (full : ℕ → Bool) where
  -- Another thread claims the position at the cursor, to put `a` there.
  pub Locals-claim_write :
      (a : A) (pc : Pc A)
      → r.dequeue_pos ≤ r.enqueue_pos
      → Locals r claimed turn full pc
      → Locals
          (record r { enqueue_pos = r.enqueue_pos + 1 })
          (update claimed r.enqueue_pos a)
          turn
          full
          pc
  Locals-claim_write a (push_look b p) le h = omega arith
  Locals-claim_write a (push_claim b p) le h =
      (omega arith, elim h.1 [ inl past ↦ inl (omega arith) | inr mine ↦ inr mine ])
  Locals-claim_write a (push_store b p) le h =
      (omega arith, h.1, update_ne claimed a (λ e. omega (arith, e, h.0)) ∙ h.2)
  Locals-claim_write a (push_publish p) le h =
      (omega arith, h.1, h.2 ∙ sym (update_ne claimed a (λ e. omega (arith, e, h.0))))
  Locals-claim_write a (pop_release b p) le h =
      (h.0, h.1, h.2 ∙ sym (update_ne claimed a (λ e. omega (arith, e, h.0))))
  Locals-claim_write a pc le h = h

  -- Another thread claims the position at the other cursor.
  pub Locals-claim_read :
      (pc : Pc A)
      → Locals r claimed turn full pc
      → Locals (record r { dequeue_pos = r.dequeue_pos + 1 }) claimed turn full pc
  Locals-claim_read (pop_look p) h = omega arith
  Locals-claim_read (pop_claim p) h =
      (omega arith, elim h.1 [ inl past ↦ inl (omega arith) | inr mine ↦ inr mine ])
  Locals-claim_read (pop_take p) h = (omega arith, h.1)
  Locals-claim_read (pop_release b p) h = (omega arith, h.1, h.2)
  Locals-claim_read pc h = h

  module _ (p : ℕ) where
    -- Another thread, which claimed `p`, stores its item.
    pub Locals-store :
        (a : A) (pc : Pc A)
        → Serves r turn full p false
        → writing pc ≢ some p
        → Locals r claimed turn full pc
        → Locals (record r { storage = update r.storage (slot r p) a }) claimed turn full pc
    Locals-store a (push_publish q) mine other h = (
      h.0,
      h.1,
      update_ne r.storage a
            (λ same. other (ap some (sym (one_position r turn full mine h.1 same).0)))
          ∙ h.2,
    )
    Locals-store a pc mine other h = h

    -- A change of `full` at the slot of `p`.
    filled : ℕ → Bool
    filled = update full (slot r p) true

    Serves-filled :
        (q : ℕ) (b : Bool) → slot r p ≢ slot r q → Serves r turn full q b → Serves r turn filled q b
    unfolding filled
    Serves-filled q b ne h = (h.0, update_ne full true ne ∙ h.1)

    -- Another thread, which claimed `p`, publishes its item.
    pub Locals-publish :
        (v : ℕ) (pc : Pc A)
        → Serves r turn full p false
        → p < r.enqueue_pos
        → writing pc ≢ some p
        → Locals r claimed turn full pc
        → Locals
            (record r { sequence = update r.sequence (slot r p) v })
            claimed
            turn
            (update full (slot r p) true)
            pc
    unfolding filled
    Locals-publish v (push_claim b q) mine lt other h = (
      h.0,
      elim h.1 [
        | inl past ↦ inl past
        | inr free ↦ elim (ℕ_discrete (slot r p) (slot r q)) [
          | yes same ↦ inl (omega (arith, (one_position r turn full mine free same).0))
          | no ne ↦ inr (Serves-filled q false ne free)
        ]
      ],
    )
    Locals-publish v (push_store b q) mine lt other h = (
      h.0,
      Serves-filled q false
          (λ same. other (ap some (sym (one_position r turn full mine h.1 same).0))) h.1,
      h.2,
    )
    Locals-publish v (push_publish q) mine lt other h = (
      h.0,
      Serves-filled q false
          (λ same. other (ap some (sym (one_position r turn full mine h.1 same).0))) h.1,
      h.2,
    )
    Locals-publish v (pop_claim q) mine lt other h = (
      h.0,
      elim h.1 [
        | inl past ↦ inl past
        | inr ready ↦
            inr (
              Serves-filled q true (λ same. cc ((one_position r turn full mine ready same).1))
                ready)
      ],
    )
    Locals-publish v (pop_take q) mine lt other h =
        (h.0, Serves-filled q true (λ same. cc ((one_position r turn full mine h.1 same).1)) h.1)
    Locals-publish v (pop_release b q) mine lt other h = (
      h.0,
      Serves-filled q true (λ same. cc ((one_position r turn full mine h.1 same).1)) h.1,
      h.2,
    )
    Locals-publish v pc mine lt other h = h

    Serves-released :
        (t q : ℕ) (b : Bool)
        → slot r p ≢ slot r q
        → Serves r turn full q b
        → Serves r (update turn (slot r p) t) (update full (slot r p) false) q b
    Serves-released t q b ne h = (update_ne turn t ne ∙ h.0, update_ne full false ne ∙ h.1)

    -- Another thread, which claimed `p` to read, hands the slot to a later lap.
    pub Locals-release :
        (v t : ℕ) (pc : Pc A)
        → Serves r turn full p true
        → p < r.dequeue_pos
        → reading pc ≢ some p
        → Locals r claimed turn full pc
        → Locals
            (record r { sequence = update r.sequence (slot r p) v })
            claimed
            (update turn (slot r p) t)
            (update full (slot r p) false)
            pc
    Locals-release v t (push_claim b q) mine lt other h = (
      h.0,
      elim h.1 [
        | inl past ↦ inl past
        | inr free ↦ inr (
            Serves-released t q false (λ same. cc ((one_position r turn full mine free same).1))
              free)
      ],
    )
    Locals-release v t (push_store b q) mine lt other h = (
      h.0,
      Serves-released t q false (λ same. cc ((one_position r turn full mine h.1 same).1)) h.1,
      h.2,
    )
    Locals-release v t (push_publish q) mine lt other h = (
      h.0,
      Serves-released t q false (λ same. cc ((one_position r turn full mine h.1 same).1)) h.1,
      h.2,
    )
    Locals-release v t (pop_claim q) mine lt other h = (
      h.0,
      elim h.1 [
        | inl past ↦ inl past
        | inr ready ↦ elim (ℕ_discrete (slot r p) (slot r q)) [
          | yes same ↦ inl (omega (arith, (one_position r turn full mine ready same).0))
          | no ne ↦ inr (Serves-released t q true ne ready)
        ]
      ],
    )
    Locals-release v t (pop_take q) mine lt other h = (
      h.0,
      Serves-released t q true
          (λ same. other (ap some (sym (one_position r turn full mine h.1 same).0))) h.1,
    )
    Locals-release v t (pop_release b q) mine lt other h = (
      h.0,
      Serves-released t q true
          (λ same. other (ap some (sym (one_position r turn full mine h.1 same).0))) h.1,
      h.2,
    )
    Locals-release v t pc mine lt other h = h
