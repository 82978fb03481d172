-- ===== src/Args/Number.antt =====
-- std::stoul as the standard documents it, in base ten: white space, a sign, digits.
use edge_flow.Prelude.{
  ℕ, ◌+◌, ◌-◌, ◌*◌, ◌%◌, ◌^◌, Bool, true, false, ◌&&◌, ◌||◌, [], ◌∷◌, Option, none, some, ltb, leb,
  ◌==◌, if◌then◌else◌, length,
}
use edge_flow.Prelude.Except.{Text}

-- isspace and isdigit in the C locale.
abbrev pub is_space : ℕ → Bool
is_space c = c == 32 || (leb 9 c && leb c 13)

abbrev pub is_digit : ℕ → Bool
is_digit c = leb b'0' c && leb c b'9'

unfoldable pub skip_spaces : Text → Text
skip_spaces [] = []
skip_spaces (c ∷ s) = let rest = skip_spaces s in if is_space c then rest else c ∷ s

-- Whether there is a '-', and what stands behind the sign.
abbrev pub skip_sign : Text → Bool × Text
skip_sign [] = (false, [])
skip_sign (c ∷ s) =
    if c == b'-' then (true, s) else if c == b'+' then (false, s) else (false, c ∷ s)

-- The digits at the front, read on from `acc`, and what stands behind them.
unfoldable pub read_digits : ℕ → Text → ℕ × Text
read_digits acc [] = (acc, [])
read_digits acc (c ∷ s) =
    let more = read_digits (acc * 10 + (c - b'0')) s in if is_digit c then more else (acc, c ∷ s)

-- At least one digit.
abbrev pub read_number : Text → Option (ℕ × Text)
read_number [] = none
read_number (c ∷ s) = if is_digit c then some (read_digits 0 (c ∷ s)) else none

-- `none` where the function throws: nothing to convert, or 2^64 and more. A '-' negates the word.
abbrev pub convert : ℕ → Bool → Option (ℕ × Text) → Option (ℕ × ℕ)
convert size negative none = none
convert size negative (some (n, rest)) =
    if ltb n (2 ^ 64)
    then some ((if negative then (2 ^ 64 - n) % 2 ^ 64 else n), size - length rest)
    else none

-- The number and how many characters were read.
unfoldable pub stoul : Text → Option (ℕ × ℕ)
stoul s =
    let (negative, t) = skip_sign (skip_spaces s) in convert (length s) negative (read_number t)
