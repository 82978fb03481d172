-- ===== src/Queue/LockFree/Threads/Invariant.antt =====
-- Whose turn each slot is while threads are in the middle of their calls.
use mathlib.Core.Path.{subst}
use native.Mathlib.Decide.{ℕ_discrete}
use edge_flow.Prelude.{
  ℕ, ◌+◌, ◌%◌, ◌^◌, ◌≤◌, ◌<◌, ◌≡◌, sym, ◌≢◌, ◌⊎◌, Bool, true, false, List, [], ◌∷◌, All, Option,
  some, none,
}
use edge_flow.Queue.LockFree.{
  Ring, slot, update, max_capacity, Pc, push_look, push_claim, push_store, push_publish, pop_look,
  pop_claim, pop_take, pop_release,
}
use edge_flow.Queue.LockFree.Invariant.{update_self, update_ne}
use edge_flow.Queue.LockFree.Threads.{System}

abbrev pub bit : Bool → ℕ
bit true = 1
bit false = 0

-- What holds at one place holds everywhere after a change at that place.
pub everywhere {ℓ} :
    {B : Type ℓ} (P : ℕ → B → Type 0) (f : ℕ → B) (i : ℕ) (b : B)
    → P i b
    → ((j : ℕ) → i ≢ j → P j (f j))
    → (j : ℕ) → P j (update f i b j)
everywhere P f i b here others j = elim (ℕ_discrete i j) [
  | yes same ↦ subst (λ k. P k (update f i b k)) same (subst (P i) (sym (update_self f i b)) here)
  | no ne ↦ subst (P j) (sym (update_ne f b ne)) (others j ne)
]

module _ {A : Type 0} where
  -- The position that a thread has claimed to fill, or to empty.
  abbrev pub writing : Pc A → Option ℕ
  writing (push_store a p) = some p
  writing (push_publish p) = some p
  writing _ = none

  abbrev pub reading : Pc A → Option ℕ
  reading (pop_take p) = some p
  reading (pop_release a p) = some p
  reading _ = none

  -- `turn s` is the position that slot `s` serves, and `full s` whether its item is published.
  pub record Sound (n : ℕ) (r : Ring A) (claimed : ℕ → A) (turn : ℕ → ℕ) (full : ℕ → Bool)
      : Type 0 where
    pub two_slots : 2 ≤ r.mask + 1
    pub small : r.mask + 1 ≤ max_capacity
    pub ordered : r.dequeue_pos ≤ r.enqueue_pos
    pub within : r.enqueue_pos ≤ r.dequeue_pos + (r.mask + 1)
    pub far : r.enqueue_pos + n + 2 ^ 31 ≤ 2 ^ 63
    pub in_slot : (s : ℕ) → s < r.mask + 1 → turn s % (r.mask + 1) ≡ s
    pub sequenced : (s : ℕ) → s < r.mask + 1 → r.sequence s ≡ turn s + bit (full s)
    pub filled_to : (s : ℕ) → s < r.mask + 1 → r.enqueue_pos ≤ turn s + (r.mask + 1)
    pub emptied_to : (s : ℕ) → s < r.mask + 1 → full s ≡ false → r.dequeue_pos ≤ turn s
    pub published :
        (s : ℕ)
        → s < r.mask + 1
        → full s ≡ true
        → (turn s < r.enqueue_pos) × (r.storage s ≡ claimed (turn s))
    pub lapped : (s : ℕ) → s < r.mask + 1 → turn s < r.dequeue_pos + (r.mask + 1)

  -- The slot of `p` serves `p`, and is full or not.
  abbrev pub Serves : Ring A → (ℕ → ℕ) → (ℕ → Bool) → ℕ → Bool → Type 0
  Serves r turn full p b = (turn (slot r p) ≡ p) × (full (slot r p) ≡ b)

  -- What the locals of a thread say of the ring.
  abbrev pub Locals : Ring A → (ℕ → A) → (ℕ → ℕ) → (ℕ → Bool) → Pc A → Type 0
  Locals r claimed turn full (push_look a p) = p ≤ r.enqueue_pos
  Locals r claimed turn full (push_claim a p) =
      (p ≤ r.enqueue_pos) × ((p < r.enqueue_pos) ⊎ Serves r turn full p false)
  Locals r claimed turn full (push_store a p) =
      (p < r.enqueue_pos) × Serves r turn full p false × (claimed p ≡ a)
  Locals r claimed turn full (push_publish p) =
      (p < r.enqueue_pos) × Serves r turn full p false × (r.storage (slot r p) ≡ claimed p)
  Locals r claimed turn full (pop_look p) = p ≤ r.dequeue_pos
  Locals r claimed turn full (pop_claim p) =
      (p ≤ r.dequeue_pos) × ((p < r.dequeue_pos) ⊎ Serves r turn full p true)
  Locals r claimed turn full (pop_take p) = (p < r.dequeue_pos) × Serves r turn full p true
  Locals r claimed turn full (pop_release a p) =
      (p < r.dequeue_pos) × Serves r turn full p true × (a ≡ claimed p)
  Locals r claimed turn full _ = Unit

  -- What is known of a return: the position is given back, and the item is the one claimed for it.
  abbrev pub Returned : Ring A → (ℕ → A) → (ℕ → ℕ) → ℕ × A → Type 0
  Returned r claimed turn (q, a) = (q < r.dequeue_pos) × (q < turn (slot r q)) × (a ≡ claimed q)

  abbrev pub Has : ℕ → List (ℕ × A) → Type 0
  Has p [] = ⊥
  Has p ((q, a) ∷ rest) = (p ≡ q) ⊎ Has p rest

  -- The positions of the returns are all different.
  abbrev pub AreDistinct : List (ℕ × A) → Type 0
  AreDistinct [] = Unit
  AreDistinct ((q, a) ∷ rest) = ¬ Has q rest × AreDistinct rest

  pub record Inv (n : ℕ) (s : System A) : Type 0 where
    pub turn : ℕ → ℕ
    pub full : ℕ → Bool
    pub sound : Sound n s.ring s.claimed turn full
    pub locals : (i : ℕ) → Locals s.ring s.claimed turn full (s.threads i)
    pub one_writer :
        (i j p : ℕ) → writing (s.threads i) ≡ some p → writing (s.threads j) ≡ some p → i ≡ j
    pub one_reader :
        (i j p : ℕ) → reading (s.threads i) ≡ some p → reading (s.threads j) ≡ some p → i ≡ j
    pub writer :
        (k : ℕ)
        → k < s.ring.mask + 1
        → full k ≡ false
        → turn k < s.ring.enqueue_pos
        → (i : ℕ) × (writing (s.threads i) ≡ some (turn k))
    pub reader :
        (k : ℕ)
        → k < s.ring.mask + 1
        → full k ≡ true
        → turn k < s.ring.dequeue_pos
        → (i : ℕ) × (reading (s.threads i) ≡ some (turn k))
    pub returned : All (Returned s.ring s.claimed turn) s.taken
    pub distinct : AreDistinct s.taken
    pub accounted :
        (p : ℕ)
        → p < s.ring.dequeue_pos
        → ((i : ℕ) × (reading (s.threads i) ≡ some p)) ⊎ Has p s.taken
