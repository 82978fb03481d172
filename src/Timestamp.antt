-- ===== src/Timestamp.antt =====
-- The cached timestamp of a device: core/include/edgeflow/iso_timestamp.hpp. `gmtime` stands for
-- gmtime_r; the fields of a broken-down time are signed integers.
mod Tests
use mathlib.Core.Path.{ap₂}
use edge_flow.Prelude.{
  ℕ, zero, suc, ◌+◌, ◌-◌, ◌≡◌, refl, sym, ◌∙◌, ap, Bool, true, false, not, ◌||◌, List, [], ◌∷◌,
  ◌++◌, map, ◌==◌, ==_iff, inl, inr, if◌then◌else◌, Bool-cases, length, take,
}
use edge_flow.Prelude.Int.{ℤ, pos, negsuc, sub_ℕ}
use edge_flow.Prelude.Except.{Text}
use edge_flow.Prelude.Text.{codes}
use edge_flow.Prelude.Decimal.{to_string}

-- std::tm
pub record Tm : Type 0 where
  pub tm_year : ℤ
  pub tm_mon : ℤ
  pub tm_mday : ℤ
  pub tm_hour : ℤ
  pub tm_min : ℤ
  pub tm_sec : ℤ

pub record CachedIsoTimestamp : Type 0 where
  pub cached : Text
  pub cached_second : ℤ
  pub has_value : Bool

abbrev pub new_cache : CachedIsoTimestamp
new_cache = record { cached = []; cached_second = pos 0; has_value = false }

-- An integer and a number.
abbrev pub plus : ℤ → ℕ → ℤ
plus (pos n) k = pos (n + k)
plus (negsuc n) k = sub_ℕ k (n + 1)

abbrev pub zeros : ℕ → Text
zeros zero = []
zeros (suc n) = b'0' ∷ zeros n

-- `%0wd`: the sign counts for the width.
abbrev pub padded : ℕ → ℤ → Text
padded w (pos n) = zeros (w - length (to_string n)) ++ to_string n
padded w (negsuc n) = b'-' ∷ (zeros (w - 1 - length (to_string (n + 1))) ++ to_string (n + 1))

abbrev pub same_second : ℤ → ℤ → Bool
same_second (pos m) (pos n) = m == n
same_second (negsuc m) (negsuc n) = m == n
same_second (pos m) (negsuc n) = false
same_second (negsuc m) (pos n) = false

-- snprintf into `char buffer[32]` keeps 31 characters at most.
unfoldable pub formatted : Tm → Text
formatted utc = take 31 (
    padded 4 (plus utc.tm_year 1900)
    ++ (codes "-"
        ++ (padded 2 (plus utc.tm_mon 1)
            ++ (codes "-"
                ++ (padded 2 utc.tm_mday
                    ++ (codes "T"
                        ++ (padded 2 utc.tm_hour
                            ++ (codes ":"
                                ++ (padded 2 utc.tm_min
                                    ++ (codes ":" ++ (padded 2 utc.tm_sec ++ codes "Z")))))))))))

both : (a b : Bool) → (not a || not b) ≡ false → (a ≡ true) × (b ≡ true)
both true true e = (refl, refl)
both true false e = cc
both false b e = cc

module _ (gmtime : ℤ → Tm) where
  unfoldable pub regenerate : ℤ → CachedIsoTimestamp → CachedIsoTimestamp
  regenerate seconds c = record {
    cached = formatted (gmtime seconds);
    cached_second = seconds;
    has_value = true;
  }

  -- What is returned is `cached` of the result.
  unfoldable pub format : ℤ → CachedIsoTimestamp → CachedIsoTimestamp
  format seconds c =
      if not c.has_value || not (same_second seconds c.cached_second)
      then regenerate seconds c
      else c

  -- The texts of a sequence of calls.
  unfoldable pub formats : List ℤ → CachedIsoTimestamp → List Text
  formats [] c = []
  formats (t ∷ ts) c = let c' = format t c in c'.cached ∷ formats ts c'

  -- The cache holds the text of its second, once it has one.
  IsFresh : CachedIsoTimestamp → Type 0
  IsFresh c = c.has_value ≡ true → c.cached ≡ formatted (gmtime c.cached_second)

  same_second_lem : (a b : ℤ) → same_second a b ≡ true → a ≡ b
  same_second_lem (pos m) (pos n) e = ap pos ((==_iff m n).0 e)
  same_second_lem (negsuc m) (negsuc n) e = ap negsuc ((==_iff m n).0 e)
  same_second_lem (pos m) (negsuc n) e = cc
  same_second_lem (negsuc m) (pos n) e = cc

  format-IsFresh :
      (t : ℤ) (c : CachedIsoTimestamp)
      → IsFresh c
      → IsFresh (format t c) × ((format t c).cached ≡ formatted (gmtime t))
  unfolding format regenerate IsFresh
  format-IsFresh t c fresh =
      elim (Bool-cases (not c.has_value || not (same_second t c.cached_second))) [
        | inl stale ↦ rw stale (λ e. refl, refl)
        | inr kept ↦
            let (full, same) = both _ _ kept in
            rw kept (
              fresh,
              fresh full
                  ∙ ap (λ s. formatted (gmtime s)) (sym (same_second_lem t c.cached_second same)),
            )
      ]

  formats_lem :
      (ts : List ℤ) (c : CachedIsoTimestamp)
      → IsFresh c
      → formats ts c ≡ map (λ t. formatted (gmtime t)) ts
  unfolding formats
  formats_lem [] c fresh = refl
  formats_lem (t ∷ ts) c fresh =
      let (still, same) = format-IsFresh t c fresh in
      ap₂ ◌∷◌ same (formats_lem ts (format t c) still)

  -- From a new cache, whatever seconds are asked for, forwards or back: every call returns what
  -- formatting its second anew gives.
  pub formats-map : (ts : List ℤ) → formats ts new_cache ≡ map (λ t. formatted (gmtime t)) ts
  unfolding IsFresh
  formats-map ts = formats_lem ts new_cache (λ e. cc)
