-- ===== src/Queue/LockFree/Threads/Roles.antt =====
-- Which thread fills or empties which position, while one thread moves.
use edge_flow.Prelude.{
  ℕ, suc, ◌≡◌, refl, sym, ◌∙◌, ap, ◌≢◌, ◌⊎◌, inl, inr, Bool, arith, Option, some, none,
}
use mathlib.Core.Path.{subst}
use native.Mathlib.Decide.{ℕ_discrete}
use edge_flow.Queue.LockFree.{Ring, update, Pc}
use edge_flow.Queue.LockFree.Threads.{System}
use edge_flow.Queue.LockFree.Threads.Invariant.{everywhere, writing, reading, Sound, Locals, Inv}

-- What holds at one place and at all others holds everywhere.
pub at_place : (P : ℕ → Type 0) (i : ℕ) → P i → ((j : ℕ) → i ≢ j → P j) → (j : ℕ) → P j
at_place P i here others j = elim (ℕ_discrete i j) [
  | yes same ↦ subst P same here
  | no ne ↦ others j ne
]

module _ {A : Type 0} where
  pub Sound-weaken :
      {n : ℕ} {r : Ring A} {claimed : ℕ → A} {turn : ℕ → ℕ} {full : ℕ → Bool}
      → Sound (suc n) r claimed turn full
      → Sound n r claimed turn full
  Sound-weaken v = record {
    two_slots = v.two_slots;
    small = v.small;
    ordered = v.ordered;
    within = v.within;
    far = omega arith;
    in_slot = v.in_slot;
    sequenced = v.sequenced;
    filled_to = v.filled_to;
    emptied_to = v.emptied_to;
    published = v.published;
    lapped = v.lapped;
  }

  -- A function of the threads that the move of one of them leaves alone.
  pub same_role :
      {B : Type 0} (f : Pc A → B) (threads : ℕ → Pc A) (i : ℕ) (pc : Pc A)
      → f pc ≡ f (threads i)
      → (j : ℕ) → f (update threads i pc j) ≡ f (threads j)
  same_role f threads i pc e = everywhere (λ j b. f b ≡ f (threads j)) threads i pc e (λ j ne. refl)

  pub one_of :
      (f : Pc A → Option ℕ) (threads threads' : ℕ → Pc A)
      → ((j : ℕ) → f (threads' j) ≡ f (threads j))
      → ((i j p : ℕ) → f (threads i) ≡ some p → f (threads j) ≡ some p → i ≡ j)
      → (i j p : ℕ) → f (threads' i) ≡ some p
      → f (threads' j) ≡ some p
      → i ≡ j
  one_of f threads threads' same one i j p ei ej = one i j p (sym (same i) ∙ ei) (sym (same j) ∙ ej)

  pub some_of :
      (f : Pc A → Option ℕ) (threads threads' : ℕ → Pc A) {p : ℕ}
      → ((j : ℕ) → f (threads' j) ≡ f (threads j))
      → (i : ℕ) × (f (threads i) ≡ some p)
      → (i : ℕ) × (f (threads' i) ≡ some p)
  some_of f threads threads' same (i, e) = (i, same i ∙ e)

  module _ {n : ℕ} {s : System A} (inv : Inv (suc n) s) (i : ℕ) (pc : Pc A) where
    open inv use {turn, full, sound, locals}

    abbrev moved : ℕ → Pc A
    moved = update s.threads i pc

    -- A thread that changes its place only.
    pub keep :
        Locals s.ring s.claimed turn full pc
        → writing pc ≡ writing (s.threads i)
        → reading pc ≡ reading (s.threads i)
        → Inv n (record s { threads = moved })
    keep own w r =
        let ws = same_role writing s.threads i pc w in
        let rs = same_role reading s.threads i pc r in
        record {
          turn = turn;
          full = full;
          sound = Sound-weaken sound;
          locals =
              everywhere (λ j. Locals s.ring s.claimed turn full) s.threads i pc own
                (λ j ne. locals j);
          one_writer = one_of writing s.threads moved ws inv.one_writer;
          one_reader = one_of reading s.threads moved rs inv.one_reader;
          writer = λ k lt e h. some_of writing s.threads moved ws (inv.writer k lt e h);
          reader = λ k lt e h. some_of reading s.threads moved rs (inv.reader k lt e h);
          returned = inv.returned;
          distinct = inv.distinct;
          accounted = λ p lt. elim (inv.accounted p lt) [
            | inl busy ↦ inl (some_of reading s.threads moved rs busy)
            | inr had ↦ inr had
          ];
        }

  -- The thread that moved, or one that did not.
  pub at_thread :
      (threads : ℕ → Pc A) (i : ℕ) (pc : Pc A) (j : ℕ)
      → ((i ≡ j) × (update threads i pc j ≡ pc)) ⊎ (update threads i pc j ≡ threads j)
  at_thread threads i pc =
      everywhere (λ j b. ((i ≡ j) × (b ≡ pc)) ⊎ (b ≡ threads j)) threads i pc (inl (refl, refl))
        (λ j ne. inr refl)

  -- A role that the moving thread takes up at a position that no other thread has.
  pub one_more :
      (f : Pc A → Option ℕ) (threads : ℕ → Pc A) (i : ℕ) (pc : Pc A) (p : ℕ)
      → f pc ≡ some p
      → ((j : ℕ) → f (threads j) ≢ some p)
      → ((j k q : ℕ) → f (threads j) ≡ some q → f (threads k) ≡ some q → j ≡ k)
      → (j k q : ℕ) → f (update threads i pc j) ≡ some q
      → f (update threads i pc k) ≡ some q
      → j ≡ k
  one_more f threads i pc p e free one j k q ej ek = elim (at_thread threads i pc j) [
    | inl mine ↦ elim (at_thread threads i pc k) [
      | inl also ↦ sym mine.0 ∙ also.0
      | inr other ↦ absurd (free k (cc))
    ]
    | inr theirs ↦ elim (at_thread threads i pc k) [
      | inl mine ↦ absurd (free j (cc))
      | inr other ↦ one j k q (cc) (cc)
    ]
  ]

  -- A role that the moving thread gives up.
  pub one_less :
      (f : Pc A → Option ℕ) (threads : ℕ → Pc A) (i : ℕ) (pc : Pc A)
      → f pc ≡ none
      → ((j k q : ℕ) → f (threads j) ≡ some q → f (threads k) ≡ some q → j ≡ k)
      → (j k q : ℕ) → f (update threads i pc j) ≡ some q
      → f (update threads i pc k) ≡ some q
      → j ≡ k
  one_less f threads i pc e one j k q ej ek = elim (at_thread threads i pc j) [
    | inl mine ↦ cc
    | inr theirs ↦ elim (at_thread threads i pc k) [
      | inl mine ↦ cc
      | inr other ↦ one j k q (cc) (cc)
    ]
  ]

  -- A role that some thread has and the moving thread has not stays with it.
  pub still :
      (f : Pc A → Option ℕ) (threads : ℕ → Pc A) (i : ℕ) (pc : Pc A) {p : ℕ}
      → f (threads i) ≢ some p
      → (j : ℕ) × (f (threads j) ≡ some p)
      → (j : ℕ) × (f (update threads i pc j) ≡ some p)
  still f threads i pc no_role (j, e) = elim (at_thread threads i pc j) [
    | inl mine ↦ absurd (no_role (ap (λ (k : ℕ). f (threads k)) mine.0 ∙ e))
    | inr theirs ↦ (j, ap f theirs ∙ e)
  ]
