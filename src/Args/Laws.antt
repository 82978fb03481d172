-- ===== src/Args/Laws.antt =====
-- Which values the flags of a number take, and what they throw for the others.
use mathlib.Core.Path.{ap₂, subst}
use edge_flow.Prelude.{
  ℕ, zero, suc, ◌+◌, ◌/◌, ◌%◌, ◌^◌, ◌≤◌, ◌<◌, ◌≡◌, refl, sym, ◌∙◌, ap, ◌↔◌, ◌⊎◌, inl, inr, false,
  [], ◌∷◌, ◌++◌, List, ltb→lt, arith, All, Option, none, some, if◌then◌else◌, length, ltb, ◌==◌,
  ==_iff, Bool-cases, Option-cases, ◌||◌,
}
use edge_flow.Prelude.Except.{Text, Exception, ok, throw, >>=-eq-ok}
use edge_flow.Prelude.Text.{codes, starts_with, is_empty, split_at}
use edge_flow.Prelude.Decimal.{decimal, value-decimal, to_string}
use edge_flow.Prelude.Ends.{Ends, ok-Ends, throw-Ends, then-Ends}
use edge_flow.Args.{
  arg_value, missing_value, invalid_value, take_whole, parse_positive_size, parse_port,
}
use edge_flow.Args.Number.{stoul}
use edge_flow.Args.Size.{AreDigits, unsigned, sign_text, IsSize, stoul_of_size, stoul-IsSize}

All-append {ℓ} :
    {B : Type ℓ} (P : B → Type 0) (xs ys : List B) → All P xs → All P ys → All P (xs ++ ys)
All-append P [] ys h k = k
All-append P (x ∷ xs) ys h k = (h.0, All-append P xs ys h.1 k)

filled_append : (s t : Text) → is_empty t ≡ false → is_empty (s ++ t) ≡ false
filled_append [] t h = h
filled_append (c ∷ s) t h = refl

IsSize-is_empty : (s : Text) {n : ℕ} → IsSize s n → is_empty s ≡ false
IsSize-is_empty s h =
    ap is_empty h.text
    ∙ filled_append h.spaces _ (filled_append (sign_text h.sign) h.digits h.not_empty)

take_whole_lem :
    (s f : Text) (n : ℕ) (o : Option (ℕ × ℕ)) → (take_whole s f o ≡ ok n) ↔ (o ≡ some (n, length s))
take_whole_lem s f n none = (λ e. cc, λ e. cc)
take_whole_lem s f n (some (m, pos)) = elim (Bool-cases (pos == length s)) [
  | inl here ↦
      let same = (==_iff pos (length s)).0 here in
      (λ e. let e' = rw here at e in cc, λ e. rw here cc)
  | inr other ↦ (
    λ e. let e' = rw other at e in cc,
    λ (e : some (m, pos) ≡ some (n, length s)).
        let same : pos ≡ length s = cc in let here = (==_iff pos (length s)).1 same in cc,
  )
]

IsSize-stoul : (s : Text) {n : ℕ} → IsSize s n → stoul s ≡ some (n, length s)
IsSize-stoul s h =
    ap stoul h.text
    ∙ stoul_of_size h.spaces h.sign h.digits h.are_spaces h.are_digits h.not_empty h.fits
    ∙ ap₂ (λ (k l : ℕ). some (k, l)) (sym h.number) (sym (ap length h.text))

-- A flag of a number accepts a value, and as that number, exactly if it is white space, a sign and
-- digits below 2^64, with no '-' at the front; a '-' behind white space negates the 64-bit word.
pub parse_positive_size_iff :
    (value flag_name : Text) (n : ℕ) → (parse_positive_size value flag_name ≡ ok n) ↔ IsSize value n
unfolding parse_positive_size
parse_positive_size_iff [] f n = (λ e. cc, λ h. let full = IsSize-is_empty [] h in cc)
parse_positive_size_iff (c ∷ s) f n = elim (Bool-cases (starts_with (c ∷ s) (codes "-"))) [
  | inl dash ↦ (λ e. let e' = rw dash at e in cc, λ h. let none_there = h.no_minus in cc)
  | inr fine ↦ (
    λ e. stoul-IsSize (c ∷ s) n refl fine ((take_whole_lem (c ∷ s) f n _).0 (rw fine at e)),
    λ h. rw fine ((take_whole_lem (c ∷ s) f n _).1 (IsSize-stoul (c ∷ s) h)),
  )
]

take_whole-cases {ℓ} :
    {B : Type ℓ} (s f : Text) (o : Option (B × ℕ))
    → ((b : B) × (take_whole s f o ≡ ok b)) ⊎ (take_whole s f o ≡ throw (invalid_value f s))
take_whole-cases s f none = inr refl
take_whole-cases s f (some (b, pos)) = elim (Bool-cases (pos == length s)) [
  | inl here ↦ inl (b, rw here refl)
  | inr other ↦ inr (rw other refl)
]

-- What is not accepted throws, with the flag's name and the value in the message.
refuses_size :
    (value flag_name : Text)
    → ((n : ℕ) × (parse_positive_size value flag_name ≡ ok n))
      ⊎ (parse_positive_size value flag_name ≡ throw (invalid_value flag_name value))
unfolding parse_positive_size
refuses_size [] f = inr refl
refuses_size (c ∷ s) f = elim (Bool-cases (starts_with (c ∷ s) (codes "-"))) [
  | inl dash ↦ inr (rw dash refl)
  | inr fine ↦ rw fine (take_whole-cases (c ∷ s) f (stoul (c ∷ s)))
]

digits_of_decimal : (fuel n : ℕ) → AreDigits (decimal fuel n)
unfolding decimal
digits_of_decimal zero n = tt
digits_of_decimal (suc fuel) n = elim (Bool-cases (ltb n 10)) [
  | inl small ↦ rw small (ground (arith, ltb→lt n 10 small), tt)
  | inr large ↦ rw large (
      All-append _ (decimal fuel (n / 10)) ((b'0' + n % 10) ∷ []) (digits_of_decimal fuel (n / 10))
        (ground arith, tt))
]

filled_decimal : (fuel n : ℕ) → is_empty (decimal (suc fuel) n) ≡ false
unfolding decimal
filled_decimal fuel n = elim (Bool-cases (ltb n 10)) [
  | inl small ↦ rw small refl
  | inr large ↦ rw large (filled_append (decimal fuel (n / 10)) _ refl)
]

no_dash : (ds : Text) → AreDigits ds → starts_with ds (codes "-") ≡ false
no_dash [] h = refl
no_dash (c ∷ s) h = ground (arith, h.0)

to_string-IsSize : (n : ℕ) → n < 2 ^ 64 → IsSize (to_string n) n
unfolding to_string
to_string-IsSize n lt =
    let value = value-decimal 20 n (omega arith) in
    record {
      spaces = [];
      sign = unsigned;
      digits = decimal 20 n;
      are_spaces = tt;
      are_digits = digits_of_decimal 20 n;
      not_empty = filled_decimal 19 n;
      fits = omega (arith, value);
      no_minus = no_dash (decimal 20 n) (digits_of_decimal 20 n);
      text = refl;
      number = sym value;
    }

-- A number below 2^64, as std::to_string prints it, comes back from a flag of a number.
pub parse_positive_size-to_string :
    (n : ℕ) (flag_name : Text) → n < 2 ^ 64 → parse_positive_size (to_string n) flag_name ≡ ok n
parse_positive_size-to_string n f lt =
    (parse_positive_size_iff (to_string n) f n).1 (to_string-IsSize n lt)

in_range :
    (m n : ℕ) (x : Exception)
    → (if m == 0 || ltb 65535 m then throw x else ok m) ≡ ok n
    → (m ≡ n) × (1 ≤ n) × (n ≤ 65535)
in_range m n x e = elim (Bool-cases (m == 0 || ltb 65535 m)) [
  | inl out ↦ let e' = rw out at e in cc
  | inr within ↦
      let e' : ok m ≡ ok n = rw within at e in
      let same : m ≡ n = cc in (same, ground arith, ground arith)
]

in_range_back : (n : ℕ) → 1 ≤ n → n ≤ 65535 → (n == 0 || ltb 65535 n) ≡ false
in_range_back n lo hi = ground arith

-- The port flag accepts exactly the numbers from 1 to 65535.
parse_port_iff :
    (value : Text) (n : ℕ) → (parse_port value ≡ ok n) ↔ (IsSize value n × (1 ≤ n) × (n ≤ 65535))
unfolding parse_port
parse_port_iff value n = (
  λ e.
      let (m, read, kept) = >>=-eq-ok (parse_positive_size value (codes "--port")) _ e in
      let (same, lo, hi) = in_range m n _ kept in
      (
        subst (IsSize value) same ((parse_positive_size_iff value (codes "--port") m).0 read),
        lo,
        hi,
      ),
  λ h.
      let read = (parse_positive_size_iff value (codes "--port") n).1 h.0 in
      rw read (rw (in_range_back n h.1 h.2) refl),
)

IsSize-lt : (s : Text) {n : ℕ} → IsSize s n → n < 2 ^ 64
IsSize-lt s h = ground (arith, h.number, h.fits)

pub arg_value-Ends : (arg : Text) → Ends (λ t. Unit) (arg_value arg)
unfolding arg_value
arg_value-Ends arg = elim (Option-cases (split_at b'=' arg)) [
  | inl absent ↦ rw (arg_value, absent) (throw-Ends (missing_value arg) tt)
  | inr there ↦ rw (arg_value, there.1) (ok-Ends there.0.1 tt)
]

pub parse_positive_size-Ends :
    (value flag_name : Text) → Ends (λ (n : ℕ). n < 2 ^ 64) (parse_positive_size value flag_name)
parse_positive_size-Ends value f = elim (refuses_size value f) [
  | inl (n, e) ↦ rw e (ok-Ends n (IsSize-lt value ((parse_positive_size_iff value f n).0 e)))
  | inr e ↦ rw e (throw-Ends (invalid_value f value) tt)
]

pub parse_port-Ends : (value : Text) → Ends (λ (n : ℕ). (1 ≤ n) × (n ≤ 65535)) (parse_port value)
unfolding parse_port
parse_port-Ends value = then-Ends (parse_positive_size-Ends value (codes "--port")) (λ raw lt.
    elim (Bool-cases (raw == 0 || ltb 65535 raw)) [
      | inl out ↦ rw out (throw-Ends _ tt)
      | inr within ↦ rw within (ok-Ends raw (ground arith, ground arith))
    ])

pub parse_port-to_string : (n : ℕ) → 1 ≤ n → n ≤ 65535 → parse_port (to_string n) ≡ ok n
parse_port-to_string n lo hi =
    (parse_port_iff (to_string n) n).1 (to_string-IsSize n (omega arith), lo, hi)

pub take_whole-Ends {ℓ} :
    {B : Type ℓ} (s f : Text) (o : Option (B × ℕ)) → Ends (λ b. Unit) (take_whole s f o)
take_whole-Ends s f o = elim (take_whole-cases s f o) [
  | inl (b, e) ↦ rw e (ok-Ends b tt)
  | inr e ↦ rw e (throw-Ends (invalid_value f s) tt)
]
