-- ===== src/Timestamp/Tests.antt =====
-- A cache that is asked for a second twice, for a later one, and for the first again.
use edge_flow.Prelude.{◌≡◌, refl, List, [], ◌∷◌, map}
use edge_flow.Prelude.Int.{ℤ, pos}
use edge_flow.Prelude.Text.{codes}
use edge_flow.Prelude.Decimal.{to_string, decimal}
use edge_flow.Timestamp.{Tm, new_cache, formatted, formats, formats-map}

-- The first minute of 1970.
abbrev first_minute : ℤ → Tm
first_minute t = record {
  tm_year = pos 70;
  tm_mon = pos 0;
  tm_mday = pos 1;
  tm_hour = pos 0;
  tm_min = pos 0;
  tm_sec = t;
}

epoch : formatted (first_minute (pos 7)) ≡ codes "1970-01-01T00:00:07Z"
unfolding formatted to_string decimal
epoch = refl

abbrev asked : List ℤ
asked = pos 7 ∷ pos 7 ∷ pos 8 ∷ pos 7 ∷ []

formats-map_example :
    formats first_minute asked new_cache ≡ map (λ t. formatted (first_minute t)) asked
formats-map_example = formats-map first_minute asked
