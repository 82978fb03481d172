-- ===== src/HttpSink/Keys.antt =====
-- HttpSink::next_idempotency_key (gateway/src/http_sink.cpp). The prefix is drawn at random once.
use edge_flow.Prelude.{ℕ, zero, suc, ◌+◌, ◌^◌, ◌≤◌, ◌<◌, ◌≡◌, ◌≢◌, List, [], ◌∷◌, ◌++◌, arith, All}
use edge_flow.Prelude.Except.{Text}
use edge_flow.Prelude.Text.{codes}
use edge_flow.Prelude.Decimal.{to_string, to_string-injective}
use edge_flow.Stats.{u64}

pub record Keys : Type 0 where
  pub key_prefix : Text
  pub key_counter : ℕ

-- The key, and the counter after fetch_add(1).
unfoldable pub next_idempotency_key : Keys → Text × Keys
next_idempotency_key k = (
  (k.key_prefix ++ codes "-") ++ to_string k.key_counter,
  record k { key_counter = u64 (k.key_counter + 1) },
)

-- The keys of `n` calls.
unfoldable pub mint : ℕ → Keys → List Text
mint zero k = []
mint (suc n) k = let (key, k') = next_idempotency_key k in key ∷ mint n k'

abbrev pub IsDistinct : List Text → Type 0
IsDistinct [] = Unit
IsDistinct (x ∷ xs) = All (λ y. x ≢ y) xs × IsDistinct xs

append_cancel : (p x y : Text) → p ++ x ≡ p ++ y → x ≡ y
append_cancel [] x y e = e
append_cancel (c ∷ p) x y e = append_cancel p x y (cc)

-- Different counters make different keys.
key-apart :
    (i j : ℕ) (k : Keys)
    → i < j
    → j < 2 ^ 64
    → (k.key_prefix ++ codes "-") ++ to_string i ≢ (k.key_prefix ++ codes "-") ++ to_string j
key-apart i j k before fits e = omega (
  arith,
  to_string-injective i j (omega arith) fits
      (append_cancel (k.key_prefix ++ codes "-") (to_string i) (to_string j) e),
)

mint_later :
    (n i : ℕ) (k : Keys)
    → i < k.key_counter
    → k.key_counter + n ≤ 2 ^ 64
    → All (λ y. (k.key_prefix ++ codes "-") ++ to_string i ≢ y) (mint n k)
unfolding mint next_idempotency_key
mint_later zero i k before fits = tt
mint_later (suc zero) i k before fits =
    ((λ e. key-apart i k.key_counter k before (omega arith) e), tt)
mint_later (suc (suc n)) i k before fits = (
  (λ e. key-apart i k.key_counter k before (omega arith) e),
  mint_later (suc n) i (record k { key_counter = u64 (k.key_counter + 1) }) (omega arith)
      (omega arith),
)

-- The keys of the first calls are different from one another, as long as the counter does not pass
-- 2^64.
pub mint-IsDistinct : (n : ℕ) (k : Keys) → k.key_counter + n ≤ 2 ^ 64 → IsDistinct (mint n k)
unfolding mint next_idempotency_key
mint-IsDistinct zero k fits = tt
mint-IsDistinct (suc zero) k fits = (tt, tt)
mint-IsDistinct (suc (suc n)) k fits = (
  mint_later (suc n) k.key_counter (record k { key_counter = u64 (k.key_counter + 1) })
      (omega arith) (omega arith),
  mint-IsDistinct (suc n) (record k { key_counter = u64 (k.key_counter + 1) }) (omega arith),
)
