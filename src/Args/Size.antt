-- ===== src/Args/Size.antt =====
-- Which texts std::stoul reads to the end, and as which number.
use mathlib.Core.Path.{ap₂, subst}
use edge_flow.Prelude.{
  ℕ, ◌+◌, ◌-◌, ◌*◌, ◌%◌, ◌^◌, ◌≤◌, ◌<◌, ◌≡◌, refl, sym, ◌∙◌, ap, inl, inr, Bool, true, false, [],
  ◌∷◌, ◌++◌, arith, tests, All, Option, none, some, if◌then◌else◌, length, length-append, ltb, ◌==◌,
  Bool-cases,
}
use edge_flow.Prelude.Except.{Text}
use edge_flow.Prelude.Text.{codes, starts_with, is_empty}
use edge_flow.Prelude.Decimal.{value_from}
use edge_flow.Args.Number.{
  is_space, is_digit, skip_spaces, skip_sign, read_digits, read_number, convert, stoul,
}

abbrev pub AreDigits : Text → Type 0
AreDigits = All (λ c. is_digit c ≡ true)

abbrev pub AreSpaces : Text → Type 0
AreSpaces = All (λ c. is_space c ≡ true)

pub data Sign : Type 0 where
  unsigned : Sign
  plus : Sign
  minus : Sign

abbrev pub sign_text : Sign → Text
sign_text unsigned = []
sign_text plus = codes "+"
sign_text minus = codes "-"

abbrev pub is_minus : Sign → Bool
is_minus minus = true
is_minus _ = false

-- The word that a number below 2^64 gives behind a sign.
abbrev pub signed : Sign → ℕ → ℕ
signed sign n = if is_minus sign then (2 ^ 64 - n) % 2 ^ 64 else n

-- White space, a sign and digits, which stand for `n`; a '-' is not the first character.
pub record IsSize (value : Text) (n : ℕ) : Type 0 where
  pub spaces : Text
  pub sign : Sign
  pub digits : Text
  pub are_spaces : AreSpaces spaces
  pub are_digits : AreDigits digits
  pub not_empty : is_empty digits ≡ false
  pub fits : value_from 0 digits < 2 ^ 64
  pub no_minus : starts_with value (codes "-") ≡ false
  pub text : value ≡ spaces ++ (sign_text sign ++ digits)
  pub number : n ≡ signed sign (value_from 0 digits)

-- Reading forwards.

read_digits_all :
    (acc : ℕ) (ds : Text) → AreDigits ds → read_digits acc ds ≡ (value_from acc ds, [])
unfolding read_digits value_from
read_digits_all acc [] h = refl
read_digits_all acc (c ∷ s) h = rw (h.0) (read_digits_all (acc * 10 + (c - b'0')) s h.1)

skip_spaces-append : (sp t : Text) → AreSpaces sp → skip_spaces t ≡ t → skip_spaces (sp ++ t) ≡ t
unfolding skip_spaces
skip_spaces-append [] t h e = e
skip_spaces-append (c ∷ sp) t h e = rw (h.0) (skip_spaces-append sp t h.1 e)

-- Nothing is skipped of a sign and digits, and the sign is taken off.
signed_number :
    (g : Sign) (ds : Text)
    → AreDigits ds
    → is_empty ds ≡ false
    → (skip_spaces (sign_text g ++ ds) ≡ sign_text g ++ ds)
      × (skip_sign (sign_text g ++ ds) ≡ (is_minus g, ds))
      × (read_number ds ≡ some (read_digits 0 ds))
unfolding skip_spaces
signed_number g [] h e = cc
signed_number unsigned (c ∷ ds) h e = ground (arith, h.0)
signed_number plus (c ∷ ds) h e = (refl, refl, rw (h.0))
signed_number minus (c ∷ ds) h e = (refl, refl, rw (h.0))

-- Reading backwards: what was read was there.

spaces_of : (s : Text) → (sp : Text) × AreSpaces sp × (s ≡ sp ++ skip_spaces s)
unfolding skip_spaces
spaces_of [] = ([], tt, refl)
spaces_of (c ∷ s) = elim (Bool-cases (is_space c)) [
  | inl here ↦ let (sp, all, e) = spaces_of s in rw here (c ∷ sp, (here, all), ap (◌∷◌ c) e)
  | inr other ↦ rw other ([], tt, refl)
]

rest_of_digits : (acc : ℕ) (s : Text) → length (read_digits acc s).1 ≤ length s
unfolding read_digits
rest_of_digits acc [] = omega arith
rest_of_digits acc (c ∷ s) = let shorter = rest_of_digits (acc * 10 + (c - b'0')) s in ground arith

digits_of :
    (acc : ℕ) (s : Text)
    → (read_digits acc s).1 ≡ []
    → AreDigits s × ((read_digits acc s).0 ≡ value_from acc s)
unfolding read_digits value_from
digits_of acc [] e = (tt, refl)
digits_of acc (c ∷ s) e = elim (Bool-cases (is_digit c)) [
  | inl here ↦
      let (all, same) = digits_of (acc * 10 + (c - b'0')) s (rw here at e) in
      ((here, all), rw here same)
  | inr other ↦ let stuck = rw other at e in cc stuck
]

sign_of :
    (t : Text) → (g : Sign) × (t ≡ sign_text g ++ (skip_sign t).1) × ((skip_sign t).0 ≡ is_minus g)
sign_of [] = (unsigned, refl, refl)
sign_of (c ∷ s) = elim (Bool-cases (c == b'-')) [
  | inl here ↦ rw here (minus, ap (λ (x : ℕ). x ∷ s) (ground arith), refl)
  | inr other ↦ elim (Bool-cases (c == b'+')) [
    | inl here ↦ rw (other, here) (plus, ap (λ (x : ℕ). x ∷ s) (ground arith), refl)
    | inr no_sign ↦ rw (other, no_sign) (unsigned, refl, refl)
  ]
]

pub stoul_of_size :
    (sp : Text) (g : Sign) (ds : Text)
    → AreSpaces sp
    → AreDigits ds
    → is_empty ds ≡ false
    → value_from 0 ds < 2 ^ 64
    → let s = sp ++ (sign_text g ++ ds) in stoul s ≡ some (signed g (value_from 0 ds), length s)
unfolding stoul
stoul_of_size sp g ds spaces digits filled fits =
    let (none_skipped, sign, number) = signed_number g ds digits filled in
    let skipped = skip_spaces-append sp (sign_text g ++ ds) spaces none_skipped in
    rw (skipped, sign, number, read_digits_all 0 ds digits) (ground arith)

convert_of :
    (size pos n : ℕ) (negative : Bool) (o : Option (ℕ × Text))
    → convert size negative o ≡ some (n, pos)
    → (v : ℕ) × (rest : Text) × (o ≡ some (v, rest))
      × (v < 2 ^ 64)
      × (size - length rest ≡ pos)
      × (n ≡ (if negative then (2 ^ 64 - v) % 2 ^ 64 else v))
convert_of size pos n negative none e = cc
convert_of size pos n negative (some (v, rest)) e = elim (Bool-cases (ltb v (2 ^ 64))) [
  | inl fits ↦ let e' = rw fits at e in (v, rest, refl, omega tests, cc, cc)
  | inr large ↦ let e' = rw large at e in cc
]

number_of :
    (t : Text) {v : ℕ} {rest : Text}
    → read_number t ≡ some (v, rest)
    → (read_digits 0 t ≡ (v, rest)) × (is_empty t ≡ false)
number_of [] e = cc
number_of (c ∷ s) e = elim (Bool-cases (is_digit c)) [
  | inl here ↦ let e' = rw here at e in (cc, refl)
  | inr other ↦ let e' = rw other at e in cc
]

all_read :
    (s rest : Text)
    → is_empty s ≡ false
    → length rest ≤ length s
    → length s - length rest ≡ length s
    → rest ≡ []
all_read [] rest h le e = cc
all_read (c ∷ s) [] h le e = refl
all_read (c ∷ s) (d ∷ rest) h le e = absurd (omega arith)

pub stoul-IsSize :
    (s : Text) (n : ℕ)
    → is_empty s ≡ false
    → starts_with s (codes "-") ≡ false
    → stoul s ≡ some (n, length s)
    → IsSize s n
unfolding stoul
stoul-IsSize s n filled no_minus e =
    let (sp, spaces, skipped) = spaces_of s in
    let (g, signed_part, same_sign) = sign_of (skip_spaces s) in
    let t = (skip_sign (skip_spaces s)).1 in
    let whole : s ≡ sp ++ (sign_text g ++ t) = skipped ∙ ap (◌++◌ sp) signed_part in
    let shorter : length t ≤ length s = omega (
      arith,
      ap length whole,
      length-append sp (sign_text g ++ t),
      length-append (sign_text g) t,
    ) in
    let (v, rest, read, fits, pos, word) = convert_of (length s) (length s) n _ _ e in
    let (digits, filled_t) = number_of t read in
    let ended =
      all_read s rest filled (omega (arith, rest_of_digits 0 t, ap (λ p. length p.1) digits)) pos in
    let (all, value) = digits_of 0 t (ap (λ p. p.1) digits ∙ ended) in
    let same : v ≡ value_from 0 t = sym (ap (λ p. p.0) digits) ∙ value in
    record {
      spaces = sp;
      sign = g;
      digits = t;
      are_spaces = spaces;
      are_digits = all;
      not_empty = filled_t;
      fits = subst (λ (x : ℕ). x < 2 ^ 64) same fits;
      no_minus = no_minus;
      text = whole;
      number =
          word ∙ ap₂ (λ (b : Bool) (x : ℕ). if b then (2 ^ 64 - x) % 2 ^ 64 else x) same_sign same;
    }
