-- ===== src/Queue/LockFree/Invariant.antt =====
-- The ring between calls: whose turn each slot is, and the items that the ring holds.
use Prim.Native.Nat.{Ordering}
use native.Mathlib.Nat.{div-add-mod, mul-le-mul_left, add-zero}
use native.Mathlib.Decide.{dec_lt, ℕ_discrete}
use mathlib.Core.Logic.{if_pos, if_neg}
use mathlib.Core.Path.{ap₂}
use edge_flow.Prelude.{
  ℕ, zero, suc, ◌+◌, ◌-◌, ◌/◌, ◌%◌, ◌^◌, ◌≤◌, ◌<◌, ◌≡◌, refl, sym, ◌∙◌, ap, ◌≢◌, Bool, List, [],
  ◌∷◌, ◌++◌, arith, length,
}
use edge_flow.Queue.Contract.{View}
use edge_flow.Queue.LockFree.{Ring, signed_compare, slot, update, max_capacity}

-- Positions that a ring's length or more apart separates may share a slot; nearer ones do not.
pub slot_injective : (c p q : ℕ) → 0 < c → p < q → q < p + c → p % c ≢ q % c
slot_injective c p q pos lt near same = elim (dec_lt (p / c) (q / c)) [
  | yes up ↦ omega (
    arith,
    div-add-mod p c,
    div-add-mod q c,
    same,
    mul-le-mul_left {m = suc (p / c)} {n = q / c} c up,
  )
  | no down ↦ omega (
    arith,
    div-add-mod p c,
    div-add-mod q c,
    same,
    mul-le-mul_left {m = q / c} {n = p / c} c (omega arith),
  )
]

-- While no position has reached 2^63, the signed difference compares positions.
pub signed_compare_eq : (a b : ℕ) → a ≡ b → signed_compare a b ≡ Ordering.eq
signed_compare_eq a b e = ground arith

pub signed_compare_lt : (a b : ℕ) → a < b → b < 2 ^ 63 → signed_compare a b ≡ Ordering.lt
signed_compare_lt a b h k = ground arith

-- Good for `n` more pushes before a cursor comes near 2^63.
pub record IsReady {ℓ} {A : Type ℓ} (n : ℕ) (r : Ring A) : Type 0 where
  pub two_slots : 2 ≤ r.mask + 1
  pub small : r.mask + 1 ≤ max_capacity
  pub ordered : r.dequeue_pos ≤ r.enqueue_pos
  pub within : r.enqueue_pos ≤ r.dequeue_pos + (r.mask + 1)
  pub far : r.enqueue_pos + n + 2 ^ 31 ≤ 2 ^ 63
  pub filled : (p : ℕ) → r.dequeue_pos ≤ p → p < r.enqueue_pos → r.sequence (slot r p) ≡ p + 1
  pub free :
      (p : ℕ) → r.enqueue_pos ≤ p → p < r.dequeue_pos + (r.mask + 1) → r.sequence (slot r p) ≡ p

module _ {ℓ} {A : Type ℓ} where
  -- The items at `n` positions from `p` on.
  abbrev pub window : (ℕ → A) → ℕ → ℕ → ℕ → List A
  window storage c p zero = []
  window storage c p (suc n) = storage (p % c) ∷ window storage c (p + 1) n

  abbrev pub contents : Ring A → List A
  contents r = window r.storage (r.mask + 1) r.dequeue_pos (r.enqueue_pos - r.dequeue_pos)

  pub contents_drained : (r : Ring A) → r.enqueue_pos ≤ r.dequeue_pos → contents r ≡ []
  contents_drained r le =
      let none_left : r.enqueue_pos - r.dequeue_pos ≡ 0 = omega (arith, le) in
      ap (window r.storage (r.mask + 1) r.dequeue_pos) none_left

  abbrev pub view : Ring A → View A
  view r = record {
    items = contents r;
    capacity = r.mask + 1;
    policy = r.policy;
    shut = r.shutting_down;
  }

  pub length-window : (s : ℕ → A) (c p n : ℕ) → length (window s c p n) ≡ n
  length-window s c p zero = refl
  length-window s c p (suc n) = ap suc (length-window s c (p + 1) n)

  pub update_self : (s : ℕ → A) (i : ℕ) (a : A) → update s i a i ≡ a
  update_self s i a = if_pos (ℕ_discrete i i) refl a (s i)

  pub update_ne : (s : ℕ → A) {i j : ℕ} (a : A) → i ≢ j → update s i a j ≡ s j
  update_ne s {i} {j} a ne = if_neg (ℕ_discrete i j) ne a (s j)

  -- A write at the position behind a window extends it by that item.
  pub window-update :
      (s : ℕ → A) (c p n i : ℕ) (a : A)
      → n < c
      → i ≡ (p + n) % c
      → window (update s i a) c p (suc n) ≡ window s c p n ++ a ∷ []
  window-update s c p zero i a h e =
      let here : i ≡ p % c = e ∙ ap (λ (k : ℕ). k % c) (add-zero p) in
      rw here (rw (update_self s (p % c) a))
  window-update s c p (suc n) i a h e =
      ap₂ ◌∷◌
        (update_ne s a (λ same.
          slot_injective c p (p + suc n) (omega arith) (omega arith) (omega arith)
            (sym (sym e ∙ same))))
        (window-update s c (p + 1) n i a (omega arith) (e ∙ ap (λ (k : ℕ). k % c) (omega arith)))

  -- The first item of a window that is not empty.
  pub window_of_pos :
      (s : ℕ → A) (c p n : ℕ) → 0 < n → window s c p n ≡ s (p % c) ∷ window s c (p + 1) (n - 1)
  window_of_pos s c p zero h = absurd (omega arith)
  window_of_pos s c p (suc n) h = ap (λ k. window s c p (suc k)) (omega arith)

  pub IsReady-weaken : {n : ℕ} {r : Ring A} → IsReady (suc n) r → IsReady n r
  IsReady-weaken ready = record {
    two_slots = ready.two_slots;
    small = ready.small;
    ordered = ready.ordered;
    within = ready.within;
    far = omega arith;
    filled = ready.filled;
    free = ready.free;
  }

  -- The flag and the count of sleepers are no part of the representation.
  pub IsReady-flags :
      {n : ℕ} {r : Ring A} (b : Bool) (w : ℕ)
      → IsReady n r
      → IsReady n (record r { shutting_down = b; waiters = w })
  IsReady-flags b w ready = record {
    two_slots = ready.two_slots;
    small = ready.small;
    ordered = ready.ordered;
    within = ready.within;
    far = ready.far;
    filled = ready.filled;
    free = ready.free;
  }
