-- ===== src/Queue/LockFree/Parking/Ends.antt =====
-- What follows a `try_push` or `try_pop`, as a move of a thread.
use edge_flow.Prelude.{
  ℕ, suc, ◌<◌, ◌≡◌, refl, sym, ◌∙◌, ap, ◌⊎◌, inl, inr, Bool, true, false, Option, Bool-cases,
}
use edge_flow.Queue.Bounded.{is_drop_oldest}
use edge_flow.Queue.LockFree.{Pc, pushed, push_full, popped, pop_empty}
use edge_flow.Queue.LockFree.Threads.{is_done}
use edge_flow.Queue.LockFree.Parking.{
  alerting, Frame, pushing, discarding, pushing_again, spinning, last_try, rechecking, final_try,
  Shared, after_try, owner_after, in_try, end_try,
}
use edge_flow.Queue.LockFree.Parking.Invariant.{place, fits, holds, is_alerting, Safe}
use edge_flow.Queue.LockFree.Parking.Hops.{first_pc}
use edge_flow.Queue.LockFree.Parking.Plain.{is_plain, plain_hop-Safe}
use edge_flow.Queue.LockFree.Parking.Tries.{act-Safe}

module _ {A : Type 0} where
  abbrev pub is_running : Frame A → Bool
  is_running (pushing a) = true
  is_running (pushing_again a) = true
  is_running (discarding a) = true
  is_running (spinning k) = true
  is_running last_try = true
  is_running rechecking = true
  is_running final_try = true
  is_running _ = false

  abbrev Ends : Bool → Frame A → Pc A → Type 0
  Ends drop f pc =
      let (op, f') = after_try drop f pc in
      (is_plain f pc f' (first_pc op pc) ≡ true)
      × (fits (place f') (first_pc op pc) ≡ true)
      × ((o : Option ℕ) → holds f' ≡ true → (holds f ≡ true) × (owner_after f o ≡ o))

  after_try-Ends :
      (drop : Bool) (f : Frame A) (pc : Pc A)
      → is_running f ≡ true
      → fits (place f) pc ≡ true
      → is_done pc ≡ true
      → Ends drop f pc
  unfolding after_try
  after_try-Ends drop (pushing a) pushed r h d = (refl, refl, λ o x. cc)
  after_try-Ends true (pushing a) push_full r h d = (refl, refl, λ o x. cc)
  after_try-Ends false (pushing a) push_full r h d = (refl, refl, λ o x. cc)
  after_try-Ends drop (discarding a) (popped old) r h d = (refl, refl, λ o x. cc)
  after_try-Ends drop (discarding a) pop_empty r h d = (refl, refl, λ o x. cc)
  after_try-Ends drop (pushing_again a) pushed r h d = (refl, refl, λ o x. cc)
  after_try-Ends drop (pushing_again a) push_full r h d = (refl, refl, λ o x. cc)
  after_try-Ends drop (spinning n) (popped a) r h d = (refl, refl, λ o x. cc)
  after_try-Ends drop (spinning n) pop_empty r h d = (refl, refl, λ o x. cc)
  after_try-Ends drop last_try (popped a) r h d = (refl, refl, λ o x. cc)
  after_try-Ends drop last_try pop_empty r h d = (refl, refl, λ o x. cc)
  after_try-Ends drop rechecking (popped a) r h d = (refl, refl, λ o x. (refl, refl))
  after_try-Ends drop rechecking pop_empty r h d = (refl, refl, λ o x. (refl, refl))
  after_try-Ends drop final_try (popped a) r h d = (refl, refl, λ o x. cc)
  after_try-Ends drop final_try pop_empty r h d = (refl, refl, λ o x. cc)
  after_try-Ends drop f pc r h d = cc

  owner_kept : (f : Frame A) → (holds f ≡ true) ⊎ ((o : Option ℕ) → owner_after f o ≡ o)
  owner_kept final_try = inl refl
  owner_kept f = inr (λ o. refl)

  running-calm : (f : Frame A) → is_running f ≡ true → is_alerting f ≡ false
  running-calm alerting r = cc
  running-calm f r = refl

  module _ {m n : ℕ} {q : Shared A} (v : Safe (suc m) 0 n q) (i : ℕ) (near : i < n) {f : Frame A}
      (at_frame : q.frames i ≡ f) (runs : is_running f ≡ true) where
    end_try-Safe : is_done (q.system.threads i) ≡ true → Safe m 0 n (end_try i f q)
    unfolding end_try
    end_try-Safe done =
        let fit : fits (place f) (q.system.threads i) ≡ true =
          ap (λ (g : Frame A). fits (place g) (q.system.threads i)) (sym at_frame) ∙ v.fitting i in
        let (plain, fit', lock) =
          after_try-Ends (is_drop_oldest q.system.ring.policy) f (q.system.threads i) runs fit
            done in
        plain_hop-Safe v i near at_frame refl done _ _ (owner_after f q.owner) fit' plain
          (λ h. let (held, same) = lock q.owner h in same ∙ v.locked i (ap holds at_frame ∙ held))
          (λ j ne h. elim (owner_kept f) [
            | inl held ↦ absurd (ne (cc (h, v.locked i (ap holds at_frame ∙ held))))
            | inr same ↦ same q.owner ∙ h
          ])

    pub in_try-Safe : (weak : Bool) → Safe m 0 n (in_try weak i f q)
    unfolding in_try
    in_try-Safe weak = elim (Bool-cases (is_done (q.system.threads i))) [
      | inl done ↦ rw done (end_try-Safe done)
      | inr busy ↦ rw busy (act-Safe v i near at_frame busy weak (running-calm f runs))
    ]
