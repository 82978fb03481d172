-- ===== src/Queue/LockFree/Threads/Releases.antt =====
-- The end of a `try_pop`: the slot goes to the producer one lap ahead, and the item is returned.
use mathlib.Core.Path.{subst}
use native.Mathlib.Decide.{ℕ_discrete}
use native.Mathlib.Nat.{add-mod_right}
use edge_flow.Prelude.{
  ℕ, suc, ◌+◌, ◌%◌, ◌≤◌, ◌<◌, ◌≡◌, refl, sym, ◌∙◌, ap, inl, inr, Bool, true, false, List, [], ◌∷◌,
  arith, All, All-map, Option, some, none,
}
use edge_flow.Queue.LockFree.{Ring, slot, update, popped}
use edge_flow.Queue.LockFree.Invariant.{update_self, update_ne}
use edge_flow.Queue.LockFree.Threads.{System}
use edge_flow.Queue.LockFree.Threads.Invariant.{
  bit, everywhere, writing, reading, Sound, Serves, Locals, Returned, Has, Inv,
}
use edge_flow.Queue.LockFree.Threads.Locals.{Locals-release}
use edge_flow.Queue.LockFree.Threads.Roles.{same_role, one_of, some_of, one_less, still, at_place}
use edge_flow.Queue.LockFree.Threads.Claims.{slot_lt}

retarget :
    {f : ℕ → Option ℕ} {p q : ℕ} → p ≡ q → (j : ℕ) × (f j ≡ some p) → (j : ℕ) × (f j ≡ some q)
retarget e (j, h) = (j, h ∙ ap some e)

module _ {A : Type 0} where
  -- A position that was returned is behind its slot's turn.
  Has-lt :
      (r : Ring A) (claimed : ℕ → A) (turn : ℕ → ℕ) (p : ℕ) (taken : List (ℕ × A))
      → All (Returned r claimed turn) taken
      → Has p taken
      → p < turn (slot r p)
  Has-lt r claimed turn p [] all h = absurd h
  Has-lt r claimed turn p ((q, a) ∷ rest) all (inl same) =
      subst (λ (x : ℕ). x < turn (slot r x)) (sym same) all.0.1
  Has-lt r claimed turn p ((q, a) ∷ rest) all (inr later) = Has-lt r claimed turn p rest all.1 later

module _ {A : Type 0} {n : ℕ} {s : System A} (inv : Inv (suc n) s) (i p : ℕ) (a : A) where
  open inv use {turn, full, sound, locals}

  abbrev here : ℕ
  here = slot s.ring p

  abbrev length_of : ℕ
  length_of = s.ring.mask + 1

  abbrev released : System A
  released = record s {
    ring = record s.ring { sequence = update s.ring.sequence here (p + length_of) };
    threads = update s.threads i (popped a);
    taken = (p, a) ∷ s.taken;
  }

  abbrev next_turn : ℕ → ℕ
  next_turn = update turn here (p + length_of)

  abbrev emptied : ℕ → Bool
  emptied = update full here false

  released-Sound :
      Serves s.ring turn full p true
      → p < s.ring.dequeue_pos
      → Sound n released.ring s.claimed next_turn emptied
  released-Sound mine below =
      let now : next_turn here ≡ p + length_of = update_self turn here (p + length_of) in
      let empty : emptied here ≡ false = update_self full here false in
      let bound = sound.filled_to here (slot_lt s.ring p) in
      record {
        two_slots = sound.two_slots;
        small = sound.small;
        ordered = sound.ordered;
        within = sound.within;
        far = omega (arith, sound.far);
        in_slot =
            at_place (λ k. k < length_of → next_turn k % length_of ≡ k) here
              (λ lt. ap (λ (q : ℕ). q % length_of) now ∙ add-mod_right p length_of)
              (λ k ne lt.
                ap (λ (q : ℕ). q % length_of) (update_ne turn (p + length_of) ne)
                ∙ sound.in_slot k lt);
        sequenced =
            at_place (λ k. k < length_of → released.ring.sequence k ≡ next_turn k + bit (emptied k))
              here
              (λ lt.
                update_self s.ring.sequence here (p + length_of)
                ∙ omega (arith, now)
                ∙ ap (λ (b : Bool). next_turn here + bit b) (sym empty))
              (λ k ne lt.
                update_ne s.ring.sequence (p + length_of) ne
                ∙ sound.sequenced k lt
                ∙ ap (λ (b : Bool). turn k + bit b) (sym (update_ne full false ne))
                ∙ ap (λ (t : ℕ). t + bit (emptied k)) (sym (update_ne turn (p + length_of) ne)));
        filled_to =
            at_place (λ k. k < length_of → s.ring.enqueue_pos ≤ next_turn k + length_of) here
              (λ lt. omega (arith, now, bound, mine.0))
              (λ k ne lt. omega (arith, update_ne turn (p + length_of) ne, sound.filled_to k lt));
        emptied_to =
            at_place (λ k. k < length_of → emptied k ≡ false → s.ring.dequeue_pos ≤ next_turn k)
              here (λ lt e. omega (arith, now, bound, mine.0, sound.ordered))
              (λ k ne lt e. omega (
                arith,
                update_ne turn (p + length_of) ne,
                sound.emptied_to k lt (sym (update_ne full false ne) ∙ e),
              ));
        published =
            at_place
              (λ k.
                k < length_of
                → emptied k ≡ true
                → (next_turn k < s.ring.enqueue_pos) × (s.ring.storage k ≡ s.claimed (next_turn k)))
              here (λ lt e. cc (empty, e))
              (λ k ne lt e.
                let (lower, item) = sound.published k lt (sym (update_ne full false ne) ∙ e) in
                let same = update_ne turn (p + length_of) ne in
                (omega (arith, same), item ∙ ap s.claimed (sym same)));
        lapped =
            at_place (λ k. k < length_of → next_turn k < s.ring.dequeue_pos + length_of) here
              (λ lt. omega (arith, now))
              (λ k ne lt. omega (arith, update_ne turn (p + length_of) ne, sound.lapped k lt));
      }

  released-Returned :
      Serves s.ring turn full p true
      → (x : ℕ × A) → Returned s.ring s.claimed turn x
      → Returned released.ring s.claimed next_turn x
  released-Returned mine (q, b) h = (
    h.0,
    at_place (λ k. (q < turn k) → q < next_turn k) here
        (λ lt. omega (arith, update_self turn here (p + length_of), mine.0))
        (λ k ne lt. omega (arith, update_ne turn (p + length_of) ne)) (slot s.ring q) h.1,
    h.2,
  )

  pub released-Inv :
      writing (s.threads i) ≡ none
      → reading (s.threads i) ≡ some p
      → (p < s.ring.dequeue_pos) × Serves s.ring turn full p true × (a ≡ s.claimed p)
      → Inv n released
  released-Inv w r own =
      let ws = same_role writing s.threads i (popped a) (sym w) in
      let now : next_turn here ≡ p + length_of = update_self turn here (p + length_of) in
      let empty : emptied here ≡ false = update_self full here false in
      record {
        turn = next_turn;
        full = emptied;
        sound = released-Sound own.1 own.0;
        locals =
            everywhere (λ j. Locals released.ring s.claimed next_turn emptied) s.threads i
              (popped a) tt
              (λ j ne.
                Locals-release s.ring s.claimed turn full p (p + length_of) (p + length_of)
                  (s.threads j) own.1 own.0 (λ e. ne (inv.one_reader i j p r e)) (locals j));
        one_writer = one_of writing s.threads released.threads ws inv.one_writer;
        one_reader = one_less reading s.threads i (popped a) refl inv.one_reader;
        writer =
            at_place
              (λ k.
                k < length_of
                → emptied k ≡ false
                → next_turn k < s.ring.enqueue_pos
                → (j : ℕ) × (writing (released.threads j) ≡ some (next_turn k)))
              here (λ lt e h. absurd (omega (arith, now, own.1.0, sound.filled_to here lt)))
              (λ k ne lt e h.
                let same = update_ne turn (p + length_of) ne in
                retarget {f = λ j. writing (released.threads j)} (sym same) (
                  some_of writing s.threads released.threads ws
                    (inv.writer k lt (sym (update_ne full false ne) ∙ e) (omega (arith, same)))));
        reader =
            at_place
              (λ k.
                k < length_of
                → emptied k ≡ true
                → next_turn k < s.ring.dequeue_pos
                → (j : ℕ) × (reading (released.threads j) ≡ some (next_turn k)))
              here (λ lt e h. cc (empty, e))
              (λ k ne lt e h.
                let same = update_ne turn (p + length_of) ne in
                retarget {f = λ j. reading (released.threads j)} (sym same) (
                  still reading s.threads i (popped a)
                    (λ x. ne (ap (λ (q : ℕ). q % length_of) (cc (r, x)) ∙ sound.in_slot k lt))
                    (inv.reader k lt (sym (update_ne full false ne) ∙ e) (omega (arith, same)))));
        returned = (
          (own.0, omega (arith, now), own.2),
          All-map (released-Returned own.1) s.taken inv.returned,
        );
        distinct = (
          (λ had. omega (arith, own.1.0, Has-lt s.ring s.claimed turn p s.taken inv.returned had)),
          inv.distinct,
        );
        accounted = λ q lt. elim (ℕ_discrete q p) [
          | yes same ↦ inr (inl same)
          | no ne ↦ elim (inv.accounted q lt) [
            | inl busy ↦ inl (still reading s.threads i (popped a) (λ x. ne (cc (r, x))) busy)
            | inr had ↦ inr (inr had)
          ]
        ];
      }
