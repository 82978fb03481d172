-- ===== src/Queue/LockFree/Threads/Slots.antt =====
-- The accesses of a thread to the slot whose position it has claimed keep the invariant.
use edge_flow.Prelude.{
  ℕ, suc, ◌+◌, ◌%◌, ◌≤◌, ◌<◌, ◌≡◌, refl, sym, ◌∙◌, ap, inl, inr, Bool, true, false, arith, some,
  none,
}
use edge_flow.Queue.LockFree.{slot, update, push_publish, pushed}
use edge_flow.Queue.LockFree.Invariant.{update_self, update_ne}
use edge_flow.Queue.LockFree.Threads.{System}
use edge_flow.Queue.LockFree.Threads.Invariant.{
  bit, everywhere, writing, reading, Sound, Serves, Locals, Inv,
}
use edge_flow.Queue.LockFree.Threads.Locals.{Locals-store, Locals-publish}
use edge_flow.Queue.LockFree.Threads.Roles.{same_role, one_of, some_of, one_less, still, at_place}

module _ {A : Type 0} {n : ℕ} {s : System A} (inv : Inv (suc n) s) (i p : ℕ) where
  open inv use {turn, full, sound, locals}

  abbrev here : ℕ
  here = slot s.ring p

  -- The item goes into the slot.
  abbrev stored : A → System A
  stored a = record s {
    ring = record s.ring { storage = update s.ring.storage here a };
    threads = update s.threads i (push_publish p);
  }

  stored-Sound :
      (a : A) → Serves s.ring turn full p false → Sound n (stored a).ring s.claimed turn full
  stored-Sound a mine = record {
    two_slots = sound.two_slots;
    small = sound.small;
    ordered = sound.ordered;
    within = sound.within;
    far = omega (arith, sound.far);
    in_slot = sound.in_slot;
    sequenced = sound.sequenced;
    filled_to = sound.filled_to;
    emptied_to = sound.emptied_to;
    published = λ k lt e.
        let (below, same) = sound.published k lt e in
        (below, update_ne s.ring.storage a (λ at_here. cc (mine.1, e)) ∙ same);
    lapped = sound.lapped;
  }

  pub stored-Inv :
      (a : A)
      → writing (s.threads i) ≡ some p
      → reading (s.threads i) ≡ none
      → (p < s.ring.enqueue_pos) × Serves s.ring turn full p false × (s.claimed p ≡ a)
      → Inv n (stored a)
  stored-Inv a w r own =
      let ws = same_role writing s.threads i (push_publish p) (sym w) in
      let rs = same_role reading s.threads i (push_publish p) (sym r) in
      record {
        turn = turn;
        full = full;
        sound = stored-Sound a own.1;
        locals =
            everywhere (λ j. Locals (stored a).ring s.claimed turn full) s.threads i
              (push_publish p) (own.0, own.1, update_self s.ring.storage here a ∙ sym own.2)
              (λ j ne.
                Locals-store s.ring s.claimed turn full p a (s.threads j) own.1
                  (λ e. ne (inv.one_writer i j p w e)) (locals j));
        one_writer = one_of writing s.threads (stored a).threads ws inv.one_writer;
        one_reader = one_of reading s.threads (stored a).threads rs inv.one_reader;
        writer = λ k lt e h. some_of writing s.threads (stored a).threads ws (inv.writer k lt e h);
        reader = λ k lt e h. some_of reading s.threads (stored a).threads rs (inv.reader k lt e h);
        returned = inv.returned;
        distinct = inv.distinct;
        accounted = λ q lt. elim (inv.accounted q lt) [
          | inl busy ↦ inl (some_of reading s.threads (stored a).threads rs busy)
          | inr had ↦ inr had
        ];
      }

  -- The item is published.
  abbrev published : System A
  published = record s {
    ring = record s.ring { sequence = update s.ring.sequence here (p + 1) };
    threads = update s.threads i pushed;
  }

  abbrev filled : ℕ → Bool
  filled = update full here true

  published-Sound :
      Serves s.ring turn full p false
      → p < s.ring.enqueue_pos
      → s.ring.storage here ≡ s.claimed p
      → Sound n published.ring s.claimed turn filled
  published-Sound mine below item = record {
    two_slots = sound.two_slots;
    small = sound.small;
    ordered = sound.ordered;
    within = sound.within;
    far = omega (arith, sound.far);
    in_slot = sound.in_slot;
    sequenced =
        at_place (λ k. k < s.ring.mask + 1 → published.ring.sequence k ≡ turn k + bit (filled k))
          here
          (λ lt.
            update_self s.ring.sequence here (p + 1)
            ∙ omega (arith, mine.0)
            ∙ ap (λ (b : Bool). turn here + bit b) (sym (update_self full here true)))
          (λ k ne lt.
            update_ne s.ring.sequence (p + 1) ne
            ∙ sound.sequenced k lt
            ∙ ap (λ (b : Bool). turn k + bit b) (sym (update_ne full true ne)));
    filled_to = sound.filled_to;
    emptied_to =
        at_place (λ k. k < s.ring.mask + 1 → filled k ≡ false → s.ring.dequeue_pos ≤ turn k) here
          (λ lt e. cc (update_self full here true, e))
          (λ k ne lt e. sound.emptied_to k lt (sym (update_ne full true ne) ∙ e));
    published =
        at_place
          (λ k.
            k < s.ring.mask + 1
            → filled k ≡ true
            → (turn k < s.ring.enqueue_pos) × (s.ring.storage k ≡ s.claimed (turn k)))
          here (λ lt e. (omega (arith, mine.0), item ∙ ap s.claimed (sym mine.0)))
          (λ k ne lt e. sound.published k lt (sym (update_ne full true ne) ∙ e));
    lapped = sound.lapped;
  }

  pub published-Inv :
      writing (s.threads i) ≡ some p
      → reading (s.threads i) ≡ none
      → (p < s.ring.enqueue_pos)
        × Serves s.ring turn full p false
        × (s.ring.storage here ≡ s.claimed p)
      → Inv n published
  published-Inv w r own =
      let rs = same_role reading s.threads i pushed (sym r) in
      record {
        turn = turn;
        full = filled;
        sound = published-Sound own.1 own.0 own.2;
        locals =
            everywhere (λ j. Locals published.ring s.claimed turn filled) s.threads i pushed tt
              (λ j ne.
                Locals-publish s.ring s.claimed turn full p (p + 1) (s.threads j) own.1 own.0
                  (λ e. ne (inv.one_writer i j p w e)) (locals j));
        one_writer = one_less writing s.threads i pushed refl inv.one_writer;
        one_reader = one_of reading s.threads published.threads rs inv.one_reader;
        writer =
            at_place
              (λ k.
                k < s.ring.mask + 1
                → filled k ≡ false
                → turn k < s.ring.enqueue_pos
                → (j : ℕ) × (writing (published.threads j) ≡ some (turn k)))
              here (λ lt e h. cc (update_self full here true, e))
              (λ k ne lt e h.
                still writing s.threads i pushed
                  (λ x. ne (ap (λ (q : ℕ). q % (s.ring.mask + 1)) (cc (w, x)) ∙ sound.in_slot k lt))
                  (inv.writer k lt (sym (update_ne full true ne) ∙ e) h));
        reader =
            at_place
              (λ k.
                k < s.ring.mask + 1
                → filled k ≡ true
                → turn k < s.ring.dequeue_pos
                → (j : ℕ) × (reading (published.threads j) ≡ some (turn k)))
              here (λ lt e h. absurd (omega (arith, sound.emptied_to here lt own.1.1)))
              (λ k ne lt e h.
                some_of reading s.threads published.threads rs
                  (inv.reader k lt (sym (update_ne full true ne) ∙ e) h));
        returned = inv.returned;
        distinct = inv.distinct;
        accounted = λ q lt. elim (inv.accounted q lt) [
          | inl busy ↦ inl (some_of reading s.threads published.threads rs busy)
          | inr had ↦ inr had
        ];
      }
