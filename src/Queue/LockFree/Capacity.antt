-- ===== src/Queue/LockFree/Capacity.antt =====
-- LockFreeBoundedQueue::validated_capacity: rounding up to a power of two, with a floor of two.
use edge_flow.Prelude.{
  ℕ, zero, suc, ◌+◌, ◌*◌, ◌%◌, ◌^◌, ◌≤◌, ◌<◌, ◌≡◌, refl, ap, true, ◌⊎◌, inl, inr, arith, ltb, tests,
  Bool-cases, if◌then◌else◌,
}
use mathlib.Core.Path.{subst}
use native.Mathlib.Nat.{pow-le-pow_right, pow-succ'}
use edge_flow.Prelude.Except.{ok, throw, Exception, invalid_argument}
use edge_flow.Prelude.Text.{codes}
use edge_flow.Queue.LockFree.{max_capacity, round_up, validated_capacity}

-- What the loop returns from 2^k: the least power of two from there on that is not below `c`.
record Rounded (k c r : ℕ) : Type 0 where
  exponent : ℕ
  small : exponent ≤ 30
  power : r ≡ 2 ^ exponent
  enough : c ≤ r
  tight : (k ≡ exponent) ⊎ (r < 2 * c)

round_up-Rounded :
    (fuel k c : ℕ) → fuel + k ≡ 30 → c ≤ max_capacity → Rounded k c (round_up fuel (2 ^ k) c)
unfolding round_up
round_up-Rounded zero k c e h = record {
  exponent = k;
  small = omega arith;
  power = refl;
  enough = let k30 : k ≡ 30 = omega arith in rw k30 (omega arith);
  tight = inl refl;
}
round_up-Rounded (suc fuel) k c e h = elim (Bool-cases (ltb (2 ^ k) c)) [
  | inl more ↦ rw more (rw doubled (widen (round_up-Rounded fuel (suc k) c (omega arith) h) more))
  | inr done ↦ rw done (record {
    exponent = k;
    small = omega arith;
    power = refl;
    enough = omega tests;
    tight = inl refl;
  })
]
  where
    below : 2 ^ k ≤ 2 ^ 29
    below = pow-le-pow_right {n = 2} (omega arith) {i = k} {j = 29} (omega arith)

    doubled : 2 * 2 ^ k % 2 ^ 64 ≡ 2 ^ suc k
    doubled = omega (arith, pow-succ' 2 k, below)

    widen : {r : ℕ} → Rounded (suc k) c r → ltb (2 ^ k) c ≡ true → Rounded k c r
    widen {r} w more = record {
      exponent = w.exponent;
      small = w.small;
      power = w.power;
      enough = w.enough;
      tight = inr (elim w.tight [
        | inl same ↦ omega (tests, w.power, ap (λ (i : ℕ). 2 ^ i) same, pow-succ' 2 k)
        | inr less ↦ less
      ]);
    }

-- What the ring is given: a power of two, at least two, that holds the capacity asked for and is
-- less than twice that much (or two).
pub record IsRingSize (c r : ℕ) : Type 0 where
  pub exponent : ℕ
  pub small : exponent ≤ 30
  pub power : r ≡ 2 ^ exponent
  pub floor : 2 ≤ r
  pub enough : c ≤ r
  pub tight : (r ≡ 2) ⊎ (r < 2 * c)

-- The floor: `rounded < 2 ? 2 : rounded`.
floor_two : {c r : ℕ} → Rounded 0 c r → 0 < c → IsRingSize c (if ltb r 2 then 2 else r)
floor_two {c} {r} w h = elim (Bool-cases (ltb r 2)) [
  | inl one ↦ rw one (record {
    exponent = 1;
    small = omega arith;
    power = refl;
    floor = omega arith;
    enough = omega (tests, w.enough);
    tight = inl refl;
  })
  | inr more ↦ rw more (record {
    exponent = w.exponent;
    small = w.small;
    power = w.power;
    floor = omega tests;
    enough = w.enough;
    tight = inr (elim w.tight [
      | inl same ↦ omega (tests, w.power, ap (λ (i : ℕ). 2 ^ i) same)
      | inr less ↦ less
    ]);
  })
]

pub accepts :
    (c : ℕ) → 0 < c → c ≤ max_capacity → (r : ℕ) × (validated_capacity c ≡ ok r) × IsRingSize c r
unfolding validated_capacity
accepts c lo hi = (
  (if ltb (round_up 30 1 c) 2 then 2 else round_up 30 1 c),
  ground arith,
  floor_two (round_up-Rounded 30 0 c (omega arith) hi) lo,
)

refuses :
    (c : ℕ) → (c ≡ 0) ⊎ (max_capacity < c) → (e : Exception) × (validated_capacity c ≡ throw e)
unfolding validated_capacity
refuses c (inl z) = (invalid_argument (codes "capacity must be greater than 0"), ground arith)
refuses c (inr big) =
    (invalid_argument (codes "capacity exceeds maximum of 1073741824"), ground arith)

-- A capacity from 1 to 2^30 is accepted, and rounded up to the least power of two that holds it,
-- from two on; 0 and any capacity above 2^30 throws. The 30 rounds that the loop is given are enough.
pub validated_capacity_lem :
    (c : ℕ)
    → ((r : ℕ) × (validated_capacity c ≡ ok r) × (0 < c) × (c ≤ max_capacity) × IsRingSize c r)
      ⊎ ((e : Exception) × (validated_capacity c ≡ throw e) × ((c ≡ 0) ⊎ (max_capacity < c)))
validated_capacity_lem c = elim (Bool-cases (ltb 0 c)) [
  | inr none_asked ↦
      let (e, thrown) = refuses c (inl (omega tests)) in inr (e, thrown, inl (omega tests))
  | inl positive ↦ elim (Bool-cases (ltb max_capacity c)) [
    | inl big ↦
        let (e, thrown) = refuses c (inr (omega tests)) in inr (e, thrown, inr (omega tests))
    | inr fine ↦
        let (r, returned, good) = accepts c (omega tests) (omega tests) in
        inl (r, returned, omega tests, omega tests, good)
  ]
]

pub IsRingSize-le : {c r : ℕ} → IsRingSize c r → r ≤ max_capacity
IsRingSize-le w =
    omega (arith, w.power, pow-le-pow_right {n = 2} (omega arith) {i = w.exponent} {j = 30} w.small)

pub validated_capacity-IsRingSize : (c : ℕ) {r : ℕ} → validated_capacity c ≡ ok r → IsRingSize c r
validated_capacity-IsRingSize c {r} e = elim (validated_capacity_lem c) [
  | inl (r', returned, _, _, good) ↦
      let same : r' ≡ r = cc (e, returned) in subst (IsRingSize c) same good
  | inr (x, thrown, _) ↦ cc (e, thrown)
]
