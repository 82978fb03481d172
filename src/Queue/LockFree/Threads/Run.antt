-- ===== src/Queue/LockFree/Threads/Run.antt =====
-- Every move of every thread keeps the invariant, and so does every run.
use mathlib.Core.Path.{subst}
use native.Mathlib.Nat.{mod-eq_of_lt}
use edge_flow.Prelude.{
  ℕ, suc, ◌+◌, ◌-◌, ◌^◌, ◌≡◌, refl, sym, ◌∙◌, ap, inl, inr, Bool, true, false, List, [], ◌∷◌, arith,
  none, Bool-cases, ◌==◌, length,
}
use edge_flow.Queue.Types.{BackpressurePolicy}
use edge_flow.Queue.LockFree.{
  Ring, u64, slot, update, fresh, tick, Pc, push_start, push_look, push_claim, push_store,
  push_publish, pushed, push_full, pop_start, pop_look, pop_claim, pop_take, pop_release, popped,
  pop_empty, after_push_look, after_pop_look,
}
use edge_flow.Queue.LockFree.Capacity.{IsRingSize, IsRingSize-le}
use edge_flow.Queue.LockFree.Threads.{
  System, Op, pushes, pops, Move, calls, acts, first_access, is_done, note_claim, note_take, step,
  run,
}
use edge_flow.Queue.LockFree.Threads.Invariant.{writing, reading, Inv}
use edge_flow.Queue.LockFree.Threads.Roles.{keep, Sound-weaken}
use edge_flow.Queue.LockFree.Threads.Claims.{slot_lt}
use edge_flow.Queue.LockFree.Threads.Slots.{stored-Inv, published-Inv}
use edge_flow.Queue.LockFree.Threads.Releases.{released-Inv}
use edge_flow.Queue.LockFree.Threads.Looks.{
  own, push_look-Inv, pop_look-Inv, push_won-Inv, pop_won-Inv,
}

module _ {A : Type 0} {n : ℕ} {s : System A} (inv : Inv (suc n) s) (i : ℕ) where
  open inv use {turn, full, sound, locals}

  -- The move of a thread that stands at `pc`.
  abbrev after : Bool → Pc A → System A
  after weak pc =
      let (pc', r) = tick weak pc s.ring in
      record s {
        ring = r;
        threads = update s.threads i pc';
        claimed = note_claim pc' s.claimed;
        taken = note_take pc s.taken;
      }

  after-Inv : (weak : Bool) (pc : Pc A) → s.threads i ≡ pc → Inv n (after weak pc)
  unfolding tick after_push_look after_pop_look
  after-Inv weak (push_start a) e =
      keep inv i (push_look a s.ring.enqueue_pos) (omega arith) (ap writing (sym e))
        (ap reading (sym e))
  after-Inv weak (push_look a p) e = push_look-Inv inv i a p _ refl e
  after-Inv true (push_claim a p) e =
      keep inv i (push_look a s.ring.enqueue_pos) (omega arith) (ap writing (sym e))
        (ap reading (sym e))
  after-Inv false (push_claim a p) e = elim (Bool-cases (s.ring.enqueue_pos == p)) [
    | inl same ↦ rw same (push_won-Inv inv i a p e (ground arith))
    | inr other ↦ rw other (
        keep inv i (push_look a s.ring.enqueue_pos) (omega arith) (ap writing (sym e))
          (ap reading (sym e)))
  ]
  after-Inv weak (push_store a p) e =
      stored-Inv inv i p a (ap writing e) (ap reading e) (own inv i e)
  after-Inv weak (push_publish p) e =
      let mine = own inv i e in
      let wrap : p + 1 ≡ u64 (p + 1) = omega (arith, mine.0, sound.far) in
      subst
        (λ (v : ℕ). Inv n (record s {
          ring = record s.ring { sequence = update s.ring.sequence (slot s.ring p) v };
          threads = update s.threads i pushed;
        }))
        wrap (published-Inv inv i p (ap writing e) (ap reading e) mine)
  after-Inv weak pushed e = keep inv i pushed tt (ap writing (sym e)) (ap reading (sym e))
  after-Inv weak push_full e = keep inv i push_full tt (ap writing (sym e)) (ap reading (sym e))
  after-Inv weak pop_start e =
      keep inv i (pop_look s.ring.dequeue_pos) (omega arith) (ap writing (sym e))
        (ap reading (sym e))
  after-Inv weak (pop_look p) e = pop_look-Inv inv i p _ refl e
  after-Inv true (pop_claim p) e =
      keep inv i (pop_look s.ring.dequeue_pos) (omega arith) (ap writing (sym e))
        (ap reading (sym e))
  after-Inv false (pop_claim p) e = elim (Bool-cases (s.ring.dequeue_pos == p)) [
    | inl same ↦ rw same (pop_won-Inv inv i p e (ground arith))
    | inr other ↦ rw other (
        keep inv i (pop_look s.ring.dequeue_pos) (omega arith) (ap writing (sym e))
          (ap reading (sym e)))
  ]
  after-Inv weak (pop_take p) e =
      let (below, mine) = own inv i e in
      keep inv i (pop_release (s.ring.storage (slot s.ring p)) p)
        (
          below,
          mine,
          (sound.published (slot s.ring p) (slot_lt s.ring p) mine.1).1 ∙ ap s.claimed mine.0,
        )
        (ap writing (sym e)) (ap reading (sym e))
  after-Inv weak (pop_release a p) e =
      let mine = own inv i e in
      let wrap : p + (s.ring.mask + 1) ≡ u64 (p + s.ring.mask + 1) =
        omega (arith, mine.0, sound.ordered, sound.far, sound.small) in
      subst
        (λ (v : ℕ). Inv n (record s {
          ring = record s.ring { sequence = update s.ring.sequence (slot s.ring p) v };
          threads = update s.threads i (popped a);
          taken = (p, a) ∷ s.taken;
        }))
        wrap (released-Inv inv i p a (ap writing e) (ap reading e) mine)
  after-Inv weak (popped a) e = keep inv i (popped a) tt (ap writing (sym e)) (ap reading (sym e))
  after-Inv weak pop_empty e = keep inv i pop_empty tt (ap writing (sym e)) (ap reading (sym e))

  step_act-Inv : (weak : Bool) → Inv n (step s (acts i weak))
  unfolding step
  step_act-Inv weak = after-Inv weak (s.threads i) refl

-- A thread that is in no call has claimed nothing.
pub done-roles :
    {A : Type 0} (pc : Pc A) → is_done pc ≡ true → (writing pc ≡ none) × (reading pc ≡ none)
done-roles pushed e = (refl, refl)
done-roles push_full e = (refl, refl)
done-roles (popped a) e = (refl, refl)
done-roles pop_empty e = (refl, refl)
done-roles pc e = cc

module _ {A : Type 0} where
  calls-Inv :
      {n : ℕ} {s : System A} (inv : Inv (suc n) s) (i : ℕ) (op : Op A)
      → is_done (s.threads i) ≡ true
      → Inv n (record s { threads = update s.threads i (first_access op) })
  calls-Inv {s = s} inv i (pushes a) e =
      let (w, r) = done-roles (s.threads i) e in keep inv i (push_start a) tt (sym w) (sym r)
  calls-Inv {s = s} inv i pops e =
      let (w, r) = done-roles (s.threads i) e in keep inv i pop_start tt (sym w) (sym r)

  pub stay-Inv : {n : ℕ} {s : System A} → Inv (suc n) s → Inv n s
  stay-Inv inv = record {
    turn = inv.turn;
    full = inv.full;
    sound = Sound-weaken inv.sound;
    locals = inv.locals;
    one_writer = inv.one_writer;
    one_reader = inv.one_reader;
    writer = inv.writer;
    reader = inv.reader;
    returned = inv.returned;
    distinct = inv.distinct;
    accounted = inv.accounted;
  }

  pub step-Inv : {n : ℕ} {s : System A} → Inv (suc n) s → (m : Move A) → Inv n (step s m)
  unfolding step
  step-Inv inv (acts i weak) = step_act-Inv inv i weak
  step-Inv {s = s} inv (calls i op) = elim (Bool-cases (is_done (s.threads i))) [
    | inl done ↦ rw done (calls-Inv inv i op done)
    | inr busy ↦ rw busy (stay-Inv inv)
  ]

  pub run-Inv :
      (ms : List (Move A)) {n : ℕ} {s : System A} → Inv (length ms + n) s → Inv n (run s ms)
  unfolding run
  run-Inv [] {n} {s} inv = let same : 0 + n ≡ n = omega arith in subst (λ (k : ℕ). Inv k s) same inv
  run-Inv (m ∷ ms) {n} {s} inv =
      let same : suc (length ms) + n ≡ suc (length ms + n) = omega arith in
      run-Inv ms {s = step s m} (step-Inv (subst (λ (k : ℕ). Inv k s) same inv) m)

  -- A ring with every thread out of a call, and nothing claimed.
  abbrev pub opened : A → Ring A → System A
  opened fill r = record { ring = r; threads = λ i. pop_empty; claimed = λ p. fill; taken = [] }

  pub opened-Inv :
      (fill : A) (policy : BackpressurePolicy) (c size : ℕ)
      → IsRingSize c size
      → Inv (2 ^ 62) (opened fill (fresh fill policy size))
  opened-Inv fill policy c size h =
      let small = IsRingSize-le h in
      record {
        turn = λ k. k;
        full = λ k. false;
        sound = record {
          two_slots = omega (arith, h.floor);
          small = omega (arith, small, h.floor);
          ordered = omega arith;
          within = omega arith;
          far = omega arith;
          in_slot = λ k lt. mod-eq_of_lt {n = k} {m = size - 1 + 1} lt;
          sequenced = λ k lt. omega arith;
          filled_to = λ k lt. omega arith;
          emptied_to = λ k lt e. omega arith;
          published = λ k lt e. cc;
          lapped = λ k lt. omega arith;
        };
        locals = λ i. tt;
        one_writer = λ i j p e. cc;
        one_reader = λ i j p e. cc;
        writer = λ k lt e h. absurd (omega arith);
        reader = λ k lt e h. cc;
        returned = tt;
        distinct = tt;
        accounted = λ p lt. absurd (omega arith);
      }
