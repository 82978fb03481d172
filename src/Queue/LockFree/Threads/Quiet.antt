-- ===== src/Queue/LockFree/Threads/Quiet.antt =====
-- The ring once no thread is in a call: what was popped, and what is left.
use native.Mathlib.Nat.{add-zero}
use native.Mathlib.Decide.{dec_lt}
use edge_flow.Prelude.{
  ℕ, zero, suc, ◌+◌, ◌≤◌, ◌<◌, ◌≡◌, refl, sym, ◌∙◌, ap, ◌≢◌, inl, inr, Bool, true, false, List, [],
  ◌∷◌, arith, some, Bool-cases,
}
use mathlib.Core.Path.{ap₂}
use edge_flow.Queue.LockFree.{Ring, slot, Pc, pushed, push_full, popped, pop_empty}
use edge_flow.Queue.LockFree.Invariant.{IsReady, slot_injective, window}
use edge_flow.Queue.LockFree.Threads.{System, is_done}
use edge_flow.Queue.LockFree.Threads.Invariant.{bit, writing, reading, Serves, Has, Inv}
use edge_flow.Queue.LockFree.Threads.Claims.{slot_lt}

module _ {A : Type 0} where
  abbrev pub IsQuiet : System A → Type 0
  IsQuiet s = (i : ℕ) → is_done (s.threads i) ≡ true

  -- The items that were claimed for `n` positions from `p` on.
  abbrev pub claims : (ℕ → A) → ℕ → ℕ → List A
  claims claimed p zero = []
  claims claimed p (suc n) = claimed p ∷ claims claimed (p + 1) n

  idle-writing : (pc : Pc A) {p : ℕ} → is_done pc ≡ true → writing pc ≢ some p
  idle-writing pushed e h = cc
  idle-writing push_full e h = cc
  idle-writing (popped a) e h = cc
  idle-writing pop_empty e h = cc
  idle-writing pc e h = cc

  idle-reading : (pc : Pc A) {p : ℕ} → is_done pc ≡ true → reading pc ≢ some p
  idle-reading pushed e h = cc
  idle-reading push_full e h = cc
  idle-reading (popped a) e h = cc
  idle-reading pop_empty e h = cc
  idle-reading pc e h = cc

  module _ {n : ℕ} {s : System A} (inv : Inv n s) (quiet : IsQuiet s) where
    open inv use {turn, full, sound}

    abbrev r : Ring A
    r = s.ring

    -- With no thread in a call, a slot is full exactly when its position waits to be popped.
    no_writer : (k : ℕ) → k < r.mask + 1 → full k ≡ false → r.enqueue_pos ≤ turn k
    no_writer k lt e = elim (dec_lt (turn k) r.enqueue_pos) [
      | yes h ↦ let (j, w) = inv.writer k lt e h in absurd (idle-writing (s.threads j) (quiet j) w)
      | no h ↦ omega arith
    ]

    no_reader : (k : ℕ) → k < r.mask + 1 → full k ≡ true → r.dequeue_pos ≤ turn k
    no_reader k lt e = elim (dec_lt (turn k) r.dequeue_pos) [
      | yes h ↦ let (j, w) = inv.reader k lt e h in absurd (idle-reading (s.threads j) (quiet j) w)
      | no h ↦ omega arith
    ]

    -- Two positions of one slot, less than a lap apart, are one.
    one_lap : (p q : ℕ) → slot r p ≡ slot r q → p < q + (r.mask + 1) → q < p + (r.mask + 1) → p ≡ q
    one_lap p q same lo hi = elim (dec_lt p q) [
      | yes less ↦ absurd (slot_injective (r.mask + 1) p q (omega arith) less hi same)
      | no more ↦ elim (dec_lt q p) [
        | yes less ↦ absurd (slot_injective (r.mask + 1) q p (omega arith) less lo (sym same))
        | no equal ↦ omega arith
      ]
    ]

    served : (p : ℕ) → r.dequeue_pos ≤ p → p < r.dequeue_pos + (r.mask + 1) → turn (slot r p) ≡ p
    served p lo hi =
        let lt = slot_lt r p in
        one_lap (turn (slot r p)) p (sound.in_slot (slot r p) lt)
          (omega (arith, sound.lapped (slot r p) lt))
          (elim (Bool-cases (full (slot r p))) [
            | inl e ↦ omega (arith, no_reader (slot r p) lt e)
            | inr e ↦ omega (arith, sound.emptied_to (slot r p) lt e)
          ])

    filled_slot : (p : ℕ) → r.dequeue_pos ≤ p → p < r.enqueue_pos → Serves r turn full p true
    filled_slot p lo hi =
        let here = served p lo (omega (arith, sound.within)) in
        (
          here,
          elim (Bool-cases (full (slot r p))) [
            | inl e ↦ e
            | inr e ↦ absurd (omega (arith, no_writer (slot r p) (slot_lt r p) e, here))
          ],
        )

    free_slot :
        (p : ℕ) → r.enqueue_pos ≤ p → p < r.dequeue_pos + (r.mask + 1) → Serves r turn full p false
    free_slot p lo hi =
        let here = served p (omega (arith, sound.ordered)) hi in
        (
          here,
          elim (Bool-cases (full (slot r p))) [
            | inl e ↦ absurd (omega (arith, (sound.published (slot r p) (slot_lt r p) e).0, here))
            | inr e ↦ e
          ],
        )

    pub quiet-IsReady : IsReady n r
    quiet-IsReady = record {
      two_slots = sound.two_slots;
      small = sound.small;
      ordered = sound.ordered;
      within = sound.within;
      far = sound.far;
      filled = λ p lo hi.
          let (here, e) = filled_slot p lo hi in
          sound.sequenced (slot r p) (slot_lt r p) ∙ ap₂ (λ (t : ℕ) (b : Bool). t + bit b) here e;
      free = λ p lo hi.
          let (here, e) = free_slot p lo hi in
          sound.sequenced (slot r p) (slot_lt r p)
          ∙ ap₂ (λ (t : ℕ) (b : Bool). t + bit b) here e
          ∙ add-zero p;
    }

    -- What is left is what was claimed and not popped, in the order of the claims.
    pub quiet-contents :
        (p k : ℕ)
        → r.dequeue_pos ≤ p
        → p + k ≤ r.enqueue_pos
        → window r.storage (r.mask + 1) p k ≡ claims s.claimed p k
    quiet-contents p zero lo hi = refl
    quiet-contents p (suc k) lo hi =
        let (here, e) = filled_slot p lo (omega arith) in
        ap₂ ◌∷◌ ((sound.published (slot r p) (slot_lt r p) e).1 ∙ ap s.claimed here)
          (quiet-contents (p + 1) k (omega arith) (omega arith))

    pub quiet-Has : (p : ℕ) → p < r.dequeue_pos → Has p s.taken
    quiet-Has p lt = elim (inv.accounted p lt) [
      | inl busy ↦ absurd (idle-reading (s.threads busy.0) (quiet busy.0) busy.1)
      | inr had ↦ had
    ]
