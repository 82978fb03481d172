-- ===== src/Queue/LockFree/Threads/Claims.antt =====
-- A successful compare-exchange of a cursor keeps the invariant.
use mathlib.Core.Path.{subst}
use native.Mathlib.Decide.{ℕ_discrete}
use native.Mathlib.Nat.{mod-lt, add-mod_right}
use edge_flow.Prelude.{
  ℕ, suc, ◌+◌, ◌%◌, ◌<◌, ◌≡◌, refl, sym, ◌∙◌, ap, ◌≢◌, inl, inr, Bool, true, false, arith, All-map,
  some, none,
}
use edge_flow.Queue.LockFree.{
  Ring, slot, update, Pc, push_store, push_publish, pop_take, pop_release,
}
use edge_flow.Queue.LockFree.Invariant.{update_self, update_ne}
use edge_flow.Queue.LockFree.Threads.{System}
use edge_flow.Queue.LockFree.Threads.Invariant.{
  everywhere, writing, reading, Sound, Serves, Locals, Returned, Inv,
}
use edge_flow.Queue.LockFree.Threads.Locals.{Locals-claim_write, Locals-claim_read}
use edge_flow.Queue.LockFree.Threads.Roles.{same_role, one_of, some_of, one_more, still}

module _ {A : Type 0} where
  pub slot_lt : (r : Ring A) (p : ℕ) → slot r p < r.mask + 1
  slot_lt r p = mod-lt p (omega arith)

  -- What the locals of a thread with a role say.
  pub writing-Serves :
      (r : Ring A) (claimed : ℕ → A) (turn : ℕ → ℕ) (full : ℕ → Bool) (pc : Pc A) {p : ℕ}
      → Locals r claimed turn full pc
      → writing pc ≡ some p
      → (p < r.enqueue_pos) × Serves r turn full p false
  writing-Serves r claimed turn full (push_store a q) h e =
      let same : q ≡ _ = cc e in
      subst (λ (x : ℕ). (x < r.enqueue_pos) × Serves r turn full x false) same (h.0, h.1)
  writing-Serves r claimed turn full (push_publish q) h e =
      let same : q ≡ _ = cc e in
      subst (λ (x : ℕ). (x < r.enqueue_pos) × Serves r turn full x false) same (h.0, h.1)
  writing-Serves r claimed turn full pc h e = cc

  pub reading-Serves :
      (r : Ring A) (claimed : ℕ → A) (turn : ℕ → ℕ) (full : ℕ → Bool) (pc : Pc A) {p : ℕ}
      → Locals r claimed turn full pc
      → reading pc ≡ some p
      → (p < r.dequeue_pos) × Serves r turn full p true
  reading-Serves r claimed turn full (pop_take q) h e =
      let same : q ≡ _ = cc e in
      subst (λ (x : ℕ). (x < r.dequeue_pos) × Serves r turn full x true) same (h.0, h.1)
  reading-Serves r claimed turn full (pop_release a q) h e =
      let same : q ≡ _ = cc e in
      subst (λ (x : ℕ). (x < r.dequeue_pos) × Serves r turn full x true) same (h.0, h.1)
  reading-Serves r claimed turn full pc h e = cc

  module _ {n : ℕ} {s : System A} (inv : Inv (suc n) s) (i : ℕ) where
    open inv use {turn, full, sound, locals}

    abbrev tail : ℕ
    tail = s.ring.enqueue_pos

    abbrev claim_write : A → System A
    claim_write a = record s {
      ring = record s.ring { enqueue_pos = tail + 1 };
      threads = update s.threads i (push_store a tail);
      claimed = update s.claimed tail a;
    }

    -- Only the slot of the cursor serves the cursor's position.
    tail_slot :
        Serves s.ring turn full tail false
        → (k : ℕ) → k < s.ring.mask + 1
        → tail ≡ turn k + (s.ring.mask + 1)
        → ⊥
    tail_slot mine k lt e =
        let there : slot s.ring tail ≡ k =
          ap (λ (p : ℕ). p % (s.ring.mask + 1)) e
          ∙ add-mod_right (turn k) (s.ring.mask + 1)
          ∙ sound.in_slot k lt in
        omega (arith, e, mine.0, ap turn there)

    claim_write-Sound :
        (a : A)
        → Serves s.ring turn full tail false
        → Sound n (claim_write a).ring (claim_write a).claimed turn full
    claim_write-Sound a mine = record {
      two_slots = sound.two_slots;
      small = sound.small;
      ordered = omega (arith, sound.ordered);
      within = omega (arith, sound.lapped (slot s.ring tail) (slot_lt s.ring tail), mine.0);
      far = omega (arith, sound.far);
      in_slot = sound.in_slot;
      sequenced = sound.sequenced;
      filled_to = λ k lt. omega (
        arith,
        sound.filled_to k lt,
        λ (e : tail ≡ turn k + (s.ring.mask + 1)). tail_slot mine k lt e,
      );
      emptied_to = sound.emptied_to;
      published = λ k lt e.
          let (below, same) = sound.published k lt e in
          (omega arith, same ∙ sym (update_ne s.claimed a (λ e. omega (arith, e))));
      lapped = sound.lapped;
    }

    pub claim_write-Inv :
        (a : A)
        → Serves s.ring turn full tail false
        → writing (s.threads i) ≡ none
        → reading (s.threads i) ≡ none
        → Inv n (claim_write a)
    claim_write-Inv a mine w r =
        let rs = same_role reading s.threads i (push_store a tail) (sym r) in
        record {
          turn = turn;
          full = full;
          sound = claim_write-Sound a mine;
          locals =
              everywhere (λ j. Locals (claim_write a).ring (claim_write a).claimed turn full)
                s.threads i (push_store a tail) (omega arith, mine, update_self s.claimed tail a)
                (λ j ne.
                  Locals-claim_write s.ring s.claimed turn full a (s.threads j) sound.ordered
                    (locals j));
          one_writer =
              one_more writing s.threads i (push_store a tail) tail refl
                (λ j e.
                  omega (
                    arith,
                    (writing-Serves s.ring s.claimed turn full (s.threads j) (locals j) e).0,
                  ))
                inv.one_writer;
          one_reader = one_of reading s.threads (claim_write a).threads rs inv.one_reader;
          writer = λ k lt e h. elim (ℕ_discrete (turn k) tail) [
            | yes new ↦
                (i, ap writing (update_self s.threads i (push_store a tail)) ∙ ap some (sym new))
            | no old ↦
                still writing s.threads i (push_store a tail) (λ x. cc)
                  (inv.writer k lt e (omega arith))
          ];
          reader = λ k lt e h.
              some_of reading s.threads (claim_write a).threads rs (inv.reader k lt e h);
          returned =
              All-map
                (λ (x : ℕ × A) (h : Returned s.ring s.claimed turn x). (
                  h.0,
                  h.1,
                  h.2 ∙ sym (update_ne s.claimed a (λ e. omega (arith, e, h.0, sound.ordered))),
                ))
                s.taken inv.returned;
          distinct = inv.distinct;
          accounted = λ p lt. elim (inv.accounted p lt) [
            | inl busy ↦ inl (some_of reading s.threads (claim_write a).threads rs busy)
            | inr had ↦ inr had
          ];
        }

    abbrev head : ℕ
    head = s.ring.dequeue_pos

    abbrev claim_read : System A
    claim_read = record s {
      ring = record s.ring { dequeue_pos = head + 1 };
      threads = update s.threads i (pop_take head);
    }

    head_slot :
        Serves s.ring turn full head true
        → (k : ℕ) → k < s.ring.mask + 1
        → full k ≡ false
        → turn k ≢ head
    head_slot mine k lt e same =
        let there : k ≡ slot s.ring head =
          sym (sound.in_slot k lt) ∙ ap (λ (p : ℕ). p % (s.ring.mask + 1)) same in
        cc (mine.1, e, ap full there)

    claim_read-Sound :
        Serves s.ring turn full head true → Sound n claim_read.ring s.claimed turn full
    claim_read-Sound mine = record {
      two_slots = sound.two_slots;
      small = sound.small;
      ordered =
          omega
            (arith, mine.0, (sound.published (slot s.ring head) (slot_lt s.ring head) mine.1).0);
      within = omega (arith, sound.within);
      far = omega (arith, sound.far);
      in_slot = sound.in_slot;
      sequenced = sound.sequenced;
      filled_to = sound.filled_to;
      emptied_to = λ k lt e.
          omega
            (arith, sound.emptied_to k lt e, λ (same : turn k ≡ head). head_slot mine k lt e same);
      published = sound.published;
      lapped = λ k lt. omega (arith, sound.lapped k lt);
    }

    pub claim_read-Inv :
        Serves s.ring turn full head true
        → writing (s.threads i) ≡ none
        → reading (s.threads i) ≡ none
        → Inv n claim_read
    claim_read-Inv mine w r =
        let ws = same_role writing s.threads i (pop_take head) (sym w) in
        let new : reading (update s.threads i (pop_take head) i) ≡ some head =
          ap reading (update_self s.threads i (pop_take head)) in
        record {
          turn = turn;
          full = full;
          sound = claim_read-Sound mine;
          locals =
              everywhere (λ j. Locals claim_read.ring s.claimed turn full) s.threads i
                (pop_take head) (omega arith, mine)
                (λ j ne. Locals-claim_read s.ring s.claimed turn full (s.threads j) (locals j));
          one_writer = one_of writing s.threads claim_read.threads ws inv.one_writer;
          one_reader =
              one_more reading s.threads i (pop_take head) head refl
                (λ j e.
                  omega (
                    arith,
                    (reading-Serves s.ring s.claimed turn full (s.threads j) (locals j) e).0,
                  ))
                inv.one_reader;
          writer =
              λ k lt e h. some_of writing s.threads claim_read.threads ws (inv.writer k lt e h);
          reader = λ k lt e h. elim (ℕ_discrete (turn k) head) [
            | yes same ↦ (i, new ∙ ap some (sym same))
            | no old ↦
                still reading s.threads i (pop_take head) (λ x. cc)
                  (inv.reader k lt e (omega arith))
          ];
          returned =
              All-map
                (λ (x : ℕ × A) (h : Returned s.ring s.claimed turn x).
                  (omega (arith, h.0), h.1, h.2))
                s.taken inv.returned;
          distinct = inv.distinct;
          accounted = λ p lt. elim (ℕ_discrete p head) [
            | yes same ↦ inl (i, new ∙ ap some (sym same))
            | no old ↦ elim (inv.accounted p (omega arith)) [
              | inl busy ↦ inl (still reading s.threads i (pop_take head) (λ x. cc) busy)
              | inr had ↦ inr had
            ]
          ];
        }
