-- ===== src/Batcher/Age.antt =====
-- The age of a batch (core/src/batcher.cpp): which reading of the clock it counts from, over any calls.
use mathlib.Core.Path.{subst}
use edge_flow.Prelude.{
  ℕ, suc, ◌+◌, ◌*◌, ◌≤◌, ◌<◌, ◌≡◌, refl, sym, ◌∙◌, ◌⊎◌, inl, inr, ◌↔◌, true, false, Bool-cases,
  List, [], ◌∷◌, ◌++◌, none, some, arith, length, length-append, if◌then◌else◌, get_elem?,
}
use edge_flow.Batcher.{
  Batcher, is_empty, should_flush, add_event, append_event, flush, flush_locked,
}
use edge_flow.Batcher.Order.{Call, adds, flushes, step, run}

module _ {ℓ} {A : Type ℓ} where
  -- The clock's readings at the start of the calls of add_event, the last one first, before `seen`.
  abbrev pub readings : List ℕ → List (Call A) → List ℕ
  readings seen [] = seen
  readings seen (adds a start now ∷ cs) = readings (start ∷ seen) cs
  readings seen (flushes ∷ cs) = readings seen cs

  -- A buffer of k + 1 events began with the reading that has k later ones.
  abbrev IsDated : List ℕ → List A → ℕ → Type 0
  IsDated seen [] started = Unit
  IsDated seen (x ∷ rest) started = get_elem? seen (length rest) ≡ some started

  dated_oldest :
      (seen : List ℕ) (buffer : List A) (start started : ℕ)
      → IsDated seen buffer started
      → get_elem? (start ∷ seen) (length buffer) ≡ some (if is_empty buffer then start else started)
  dated_oldest seen [] start started h = refl
  dated_oldest seen (x ∷ rest) start started h = h

  IsDated-append :
      (seen : List ℕ) (buffer : List A) (a : A) (started : ℕ)
      → get_elem? seen (length buffer) ≡ some started
      → IsDated seen (buffer ++ a ∷ []) started
  IsDated-append seen [] a started h = h
  IsDated-append seen (x ∷ rest) a started h =
      let longer : suc (length rest) ≡ length (rest ++ a ∷ []) =
        omega (arith, length-append rest (a ∷ [])) in
      subst (λ (k : ℕ). get_elem? seen k ≡ some started) longer h

  step-IsDated :
      (seen : List ℕ) (b : Batcher A) (c : Call A)
      → IsDated seen b.buffer b.batch_started_at
      → IsDated (readings seen (c ∷ [])) (step b c).1.buffer (step b c).1.batch_started_at
  unfolding step add_event append_event flush flush_locked
  step-IsDated seen b (adds a start now) h =
      elim (Bool-cases (should_flush now (append_event a start b))) [
        | inl due ↦ simp due tt
        | inr young ↦ simp young (
            IsDated-append (start ∷ seen) b.buffer a _
              (dated_oldest seen b.buffer start b.batch_started_at h))
      ]
  step-IsDated seen b flushes h = elim (Bool-cases (is_empty b.buffer)) [
    | inl nothing ↦ simp nothing h
    | inr filled ↦ simp filled tt
  ]

  run-IsDated :
      (seen : List ℕ) (b : Batcher A) (cs : List (Call A))
      → IsDated seen b.buffer b.batch_started_at
      → IsDated (readings seen cs) (run b cs).buffer (run b cs).batch_started_at
  unfolding run
  run-IsDated seen b [] h = h
  run-IsDated seen b (adds a start now ∷ cs) h =
      run-IsDated (start ∷ seen) (step b (adds a start now)).1 cs
        (step-IsDated seen b (adds a start now) h)
  run-IsDated seen b (flushes ∷ cs) h =
      run-IsDated seen (step b flushes).1 cs (step-IsDated seen b flushes h)

  step_thresholds :
      (b : Batcher A) (c : Call A)
      → ((step b c).1.max_batch_size ≡ b.max_batch_size)
        × ((step b c).1.max_batch_age ≡ b.max_batch_age)
  unfolding step add_event append_event flush flush_locked
  step_thresholds b (adds a start now) = ground arith
  step_thresholds b flushes = ground arith

  run_thresholds :
      (b : Batcher A) (cs : List (Call A))
      → ((run b cs).max_batch_size ≡ b.max_batch_size)
        × ((run b cs).max_batch_age ≡ b.max_batch_age)
  unfolding run
  run_thresholds b [] = (refl, refl)
  run_thresholds b (c ∷ cs) =
      let (size, age) = run_thresholds (step b c).1 cs in
      let (size', age') = step_thresholds b c in (size ∙ size', age ∙ age')

  -- What the two thresholds say of a buffer.
  abbrev IsDue : ℕ → Batcher A → Type 0
  IsDue now b =
      (b.max_batch_size ≤ length b.buffer) ⊎ (b.batch_started_at + b.max_batch_age * 1000000 ≤ now)

  abbrev IsYoung : ℕ → Batcher A → Type 0
  IsYoung now b =
      (length b.buffer < b.max_batch_size) × (now < b.batch_started_at + b.max_batch_age * 1000000)

  is_due : (now : ℕ) (b : Batcher A) → should_flush now b ≡ true → IsDue now b
  unfolding should_flush
  is_due now b e = ground arith

  is_young : (now : ℕ) (b : Batcher A) → should_flush now b ≡ false → IsYoung now b
  unfolding should_flush
  is_young now b e = ground arith

  not_both : (now : ℕ) (b : Batcher A) → IsDue now b → IsYoung now b → ⊥
  not_both now b (inl full) (small, young) = omega arith
  not_both now b (inr old) (small, young) = omega arith

  -- What a call hands over, with `n` events and the one that began the batch at `s`.
  abbrev Decides : Batcher A → A → ℕ → ℕ → ℕ → ℕ → ℕ → ℕ → Type ℓ
  Decides b a start now s n size age =
      (((add_event a start now b).0 ≡ some (b.buffer ++ a ∷ []))
        ↔ ((size ≤ n) ⊎ (s + age * 1000000 ≤ now)))
      × (((add_event a start now b).0 ≡ none) ↔ ((n < size) × (now < s + age * 1000000)))

  add_event_due :
      (b : Batcher A) (a : A) (start now : ℕ)
      → Decides b a start now
          (append_event a start b).batch_started_at
          (length (append_event a start b).buffer)
          b.max_batch_size
          b.max_batch_age
  unfolding add_event flush_locked append_event
  add_event_due b a start now = elim (Bool-cases (should_flush now (append_event a start b))) [
    | inl e ↦
        let due = is_due now (append_event a start b) e in
        rw e ((λ h. due, λ h. refl), (λ h. cc, λ y. elim (not_both now _ due y) [ ]))
    | inr e ↦
        let young = is_young now (append_event a start b) e in
        rw e ((λ h. cc, λ d. elim (not_both now _ d young) [ ]), (λ h. young, λ h. refl))
  ]

  -- From an empty batcher, after any calls: take the events that are buffered with the one that is added,
  -- and `s`, the clock's reading at the start of the call that added the oldest of them. The call hands
  -- over those events exactly if they reach the size threshold or `s` is the age threshold ago, and hands
  -- over nothing exactly if neither holds.
  pub add_event-run :
      (b : Batcher A) (cs : List (Call A)) (a : A) (start now : ℕ)
      → b.buffer ≡ []
      → (s : ℕ) × (get_elem? (start ∷ readings [] cs) (length (run b cs).buffer) ≡ some s)
        × (((add_event a start now (run b cs)).0 ≡ some ((run b cs).buffer ++ a ∷ [])) ↔ (
            (b.max_batch_size ≤ length (run b cs).buffer + 1)
            ⊎ (s + b.max_batch_age * 1000000 ≤ now)))
        × (((add_event a start now (run b cs)).0 ≡ none) ↔ (
            (length (run b cs).buffer + 1 < b.max_batch_size)
            × (now < s + b.max_batch_age * 1000000)))
  unfolding append_event
  add_event-run b cs a start now empty =
      let dated =
        run-IsDated [] b cs
          (subst (λ (l : List A). IsDated [] l b.batch_started_at) (sym empty) tt) in
      let (size, age) = run_thresholds b cs in
      let longer : length ((run b cs).buffer ++ a ∷ []) ≡ length (run b cs).buffer + 1 =
        length-append (run b cs).buffer (a ∷ []) in
      let s = (append_event a start (run b cs)).batch_started_at in
      let before = run b cs in
      let decided = add_event_due before a start now in
      let counted =
        subst (λ (n : ℕ). Decides before a start now s n before.max_batch_size before.max_batch_age)
          longer decided in
      let sized =
        subst
          (λ (m : ℕ).
            Decides before a start now s (length before.buffer + 1) m before.max_batch_age)
          size counted in
      let aged =
        subst
          (λ (m : ℕ). Decides before a start now s (length before.buffer + 1) b.max_batch_size m)
          age sized in
      (
        s,
        dated_oldest (readings [] cs) (run b cs).buffer start (run b cs).batch_started_at dated,
        aged.0,
        aged.1,
      )
