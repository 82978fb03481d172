-- ===== src/Prelude/Text.antt =====
-- Texts as lists of bytes: the literals of the source, prefixes and searches.
use Prim.Native.Nat.{ℕ}
use Prim.Native.Char.{code}
use Prim.Native.String.{String}
use mathlib.Core.Path.{◌≡◌, refl}
use mathlib.Core.List.{[], ◌∷◌, ◌++◌}
use mathlib.Core.Bool.{Bool, true, false, ◌&&◌}
use mathlib.Core.Option.{Option, none, some}
use edge_flow.Prelude.Tests.{◌==◌, ==_refl, if◌then◌else◌}
use edge_flow.Prelude.Except.{Text}

-- The bytes of a literal, all of which are ASCII in the source.
abbrev pub codes : String → Text
codes String.[] = []
codes (String.◌∷◌ c s) = code c ∷ codes s

-- std::string_view::starts_with, and std::string::rfind(prefix, 0) == 0
abbrev pub starts_with : Text → Text → Bool
starts_with s [] = true
starts_with [] (c ∷ p) = false
starts_with (d ∷ s) (c ∷ p) = d == c && starts_with s p

-- ==
abbrev pub text_eq : Text → Text → Bool
text_eq [] [] = true
text_eq [] (c ∷ p) = false
text_eq (d ∷ s) [] = false
text_eq (d ∷ s) (c ∷ p) = d == c && text_eq s p

abbrev pub is_empty : Text → Bool
is_empty [] = true
is_empty (c ∷ s) = false

-- find(c): what stands before and after the first `c`; `none` for npos.
abbrev pub split_at : ℕ → Text → Option (Text × Text)
split_at c [] = none
split_at c (d ∷ s) =
    if d == c
    then some ([], s)
    else elim (split_at c s) [ none ↦ none | some (before, after) ↦ some (d ∷ before, after) ]

-- No byte of the text is `c`.
abbrev pub Lacks : ℕ → Text → Type 0
Lacks c [] = Unit
Lacks c (d ∷ s) = ((d == c) ≡ false) × Lacks c s

pub split_at-append : (c : ℕ) (s r : Text) → Lacks c s → split_at c (s ++ c ∷ r) ≡ some (s, r)
split_at-append c [] r h = rw (==_refl c)
split_at-append c (d ∷ s) r h = rw (h.0, split_at-append c s r h.1)

pub split_at-Lacks : (c : ℕ) (s : Text) → Lacks c s → split_at c s ≡ none
split_at-Lacks c [] h = refl
split_at-Lacks c (d ∷ s) h = rw (h.0, split_at-Lacks c s h.1)

pub starts_with-append : (p s : Text) → starts_with (p ++ s) p ≡ true
starts_with-append [] s = refl
starts_with-append (c ∷ p) s = rw (==_refl c) (starts_with-append p s)
