-- ===== src/Queue/LockFree/Parking/Hops.antt =====
-- Moves of a thread outside of `try_push` and `try_pop`, and those that begin one: the cursors stay.
use edge_flow.Prelude.{
  ℕ, suc, ◌+◌, ◌≤◌, ◌<◌, ◌≡◌, refl, sym, ◌∙◌, ap, ◌≢◌, Bool, true, arith, Option, none, some,
}
use edge_flow.Queue.LockFree.{
  Ring, Pc, update, push_look, push_claim, push_store, push_publish, pop_look, pop_claim, pop_take,
  pop_release,
}
use edge_flow.Queue.LockFree.Invariant.{update_self, update_ne}
use edge_flow.Queue.LockFree.Threads
use edge_flow.Queue.LockFree.Threads.{System, Op, pushes, pops, calls, first_access, is_done}
use edge_flow.Queue.LockFree.Threads.Invariant.{writing, Locals, Inv}
use edge_flow.Queue.LockFree.Threads.Roles.{at_place}
use edge_flow.Queue.LockFree.Threads.Run.{step-Inv, stay-Inv, done-roles}
use edge_flow.Queue.LockFree.Parking.{Frame, Shared, moved, begin_try, with_ring}
use edge_flow.Queue.LockFree.Parking.Invariant.{
  place, fits, is_pusher, holds, counted, is_sleepy, weight, IsFlagged, Safe, changed-Safe,
  balanced,
}

module _ {A : Type 0} where
  -- The ring with another count of waiters and another flag.
  abbrev pub noted : System A → ℕ → Bool → System A
  noted s w b = with_ring (record s.ring { waiters = w; shutting_down = b }) s

  Locals-noted :
      (r : Ring A) (claimed : ℕ → A) (turn : ℕ → ℕ) (full : ℕ → Bool) (w : ℕ) (b : Bool) (pc : Pc A)
      → Locals r claimed turn full pc
      → Locals (record r { waiters = w; shutting_down = b }) claimed turn full pc
  Locals-noted r claimed turn full w b (push_look a p) h = h
  Locals-noted r claimed turn full w b (push_claim a p) h = h
  Locals-noted r claimed turn full w b (push_store a p) h = h
  Locals-noted r claimed turn full w b (push_publish p) h = h
  Locals-noted r claimed turn full w b (pop_look p) h = h
  Locals-noted r claimed turn full w b (pop_claim p) h = h
  Locals-noted r claimed turn full w b (pop_take p) h = h
  Locals-noted r claimed turn full w b (pop_release a p) h = h
  Locals-noted r claimed turn full w b _ h = tt

  noted-Inv : {m : ℕ} {s : System A} (w : ℕ) (b : Bool) → Inv m s → Inv m (noted s w b)
  noted-Inv {s = s} w b inv = record {
    turn = inv.turn;
    full = inv.full;
    sound = record {
      two_slots = inv.sound.two_slots;
      small = inv.sound.small;
      ordered = inv.sound.ordered;
      within = inv.sound.within;
      far = inv.sound.far;
      in_slot = inv.sound.in_slot;
      sequenced = inv.sound.sequenced;
      filled_to = inv.sound.filled_to;
      emptied_to = inv.sound.emptied_to;
      published = inv.sound.published;
      lapped = inv.sound.lapped;
    };
    locals = λ i. Locals-noted s.ring s.claimed inv.turn inv.full w b (s.threads i) (inv.locals i);
    one_writer = inv.one_writer;
    one_reader = inv.one_reader;
    writer = inv.writer;
    reader = inv.reader;
    returned = inv.returned;
    distinct = inv.distinct;
    accounted = inv.accounted;
  }

  -- Where the thread stands after beginning what follows, if anything does.
  abbrev pub first_pc : Option (Op A) → Pc A → Pc A
  first_pc none pc = pc
  first_pc (some op) pc = first_access op

  first_pc-none :
      (op : Option (Op A)) (pc : Pc A) → is_done pc ≡ true → writing (first_pc op pc) ≡ none
  first_pc-none none pc done = (done-roles pc done).0
  first_pc-none (some (pushes a)) pc done = refl
  first_pc-none (some pops) pc done = refl

  record Begun (m : ℕ) (s : System A) (i : ℕ) (pc : Pc A) (s' : System A) : Type 0 where
    inv : Inv m s'
    ring : s'.ring ≡ s.ring
    mine : s'.threads i ≡ pc
    others : (j : ℕ) → i ≢ j → s'.threads j ≡ s.threads j

  begin_try-Begun :
      {m : ℕ} {s : System A} (inv : Inv (suc m) s) (i : ℕ) (op : Option (Op A)) {pc : Pc A}
      → s.threads i ≡ pc
      → is_done pc ≡ true
      → Begun m s i (first_pc op pc) (begin_try i op s)
  unfolding Threads.step
  begin_try-Begun inv i none e done = record {
    inv = stay-Inv inv;
    ring = refl;
    mine = e;
    others = λ j ne. refl;
  }
  begin_try-Begun {s = s} inv i (some op) e done =
      let ended : is_done (s.threads i) ≡ true = ap is_done e ∙ done in
      record {
        inv = step-Inv inv (calls i op);
        ring = rw ended refl;
        mine = rw ended (update_self s.threads i (first_access op));
        others = λ j ne. rw ended (update_ne s.threads (first_access op) ne);
      }

  module _ {m e n : ℕ} {q : Shared A} (v : Safe (suc m) e n q) (i : ℕ) (near : i < n) {f : Frame A}
      {pc : Pc A} (at_frame : q.frames i ≡ f) (at_pc : q.system.threads i ≡ pc)
      (done : is_done pc ≡ true) where
    pub hop-Safe :
        (e' : ℕ) (op : Option (Op A)) (f' : Frame A) (o : Option ℕ) (w : ℕ) (b : Bool)
        → fits (place f') (first_pc op pc) ≡ true
        → (is_pusher f' ≡ true → i ≡ 0)
        → w + counted f ≡ q.system.ring.waiters + counted f'
        → (holds f' ≡ true → o ≡ some i)
        → ((j : ℕ) → i ≢ j → q.owner ≡ some j → o ≡ some j)
        → (is_sleepy f' (first_pc op pc) ≡ true → is_sleepy f pc ≡ true)
        → ((k : ℕ)
            → k < n
            → is_sleepy (q.frames k) (q.system.threads k) ≡ true
            → e' + weight f pc ≤ e + weight f' (first_pc op pc))
        → IsFlagged n b (update q.frames i f')
        → Safe m e' n (moved q i (begin_try i op (noted q.system w b)) f' o)
    hop-Safe e' op f' o w b fit pusher count lock unlock tied light flags =
        let begun = begin_try-Begun (noted-Inv w b v.inv) i op at_pc done in
        let s' : System A = begin_try i op (noted q.system w b) in
        let tail : s'.ring.enqueue_pos ≡ q.system.ring.enqueue_pos =
          ap Ring.enqueue_pos begun.ring in
        changed-Safe v i near s' f' o (record {
          inv = begun.inv;
          others = begun.others;
          fit = ap (fits (place f')) begun.mine ∙ fit;
          pusher = pusher;
          latest =
              at_place
                (λ j. (p : ℕ) → writing (s'.threads j) ≡ some p → p + 1 ≡ s'.ring.enqueue_pos) i
                (λ p h. cc (h, first_pc-none op pc done, ap writing begun.mine))
                (λ j ne p h. v.latest j p (ap writing (sym (begun.others j ne)) ∙ h) ∙ sym tail);
          count = omega (arith, ap Ring.waiters begun.ring, ap counted at_frame, count);
          lock = lock;
          unlock = unlock;
          cover = λ k lt h.
              let tie : is_sleepy f' (s'.threads i) ≡ true
                  → is_sleepy (q.frames i) (q.system.threads i) ≡ true =
                λ x. here is_sleepy ∙ tied (ap (is_sleepy f') (sym begun.mine) ∙ x) in
              balanced v i near e' s' f' begun.others tie
                (λ k below x. omega (
                  arith,
                  light k below x,
                  here weight,
                  ap (weight f') begun.mine,
                  tail,
                  ap Ring.dequeue_pos begun.ring,
                ))
                k lt h;
          flags = λ h. flags (sym (ap Ring.shutting_down begun.ring) ∙ h);
        })
      where
        here : {B : Type 0} (g : Frame A → Pc A → B) → g (q.frames i) (q.system.threads i) ≡ g f pc
        here g = ap (λ (x : Frame A). g x (q.system.threads i)) at_frame ∙ ap (g f) at_pc
