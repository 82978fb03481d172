-- ===== src/Batcher.antt =====
-- core/include/edgeflow/batcher.hpp and core/src/batcher.cpp. Each call holds the one mutex from
-- start to end. The clock's readings are arguments, in nanoseconds; the batch that goes to the
-- callback is returned, `none` where the callback is not called. Events are only moved.
pub mod Order
pub mod Bounds
pub mod Age
mod Tests
use edge_flow.Prelude.{
  ℕ, ◌+◌, ◌*◌, Bool, true, false, List, [], ◌∷◌, ◌++◌, Option, none, some, length, leb,
  if◌then◌else◌,
}

pub record Batcher {ℓ} (A : Type ℓ) : Type ℓ where
  pub max_batch_size : ℕ
  pub max_batch_age : ℕ  -- in milliseconds
  pub buffer : List A
  pub batch_started_at : ℕ

module _ {ℓ} {A : Type ℓ} where
  -- The constructor, with the clock's reading.
  unfoldable pub make : ℕ → ℕ → ℕ → Batcher A
  make max_batch_size max_batch_age now = record {
    max_batch_size = max_batch_size;
    max_batch_age = max_batch_age;
    buffer = [];
    batch_started_at = now;
  }

  abbrev pub is_empty : List A → Bool
  is_empty [] = true
  is_empty (a ∷ as') = false

  -- `age >= max_batch_age_`, with the batch's start taken to the other side.
  unfoldable pub should_flush : ℕ → Batcher A → Bool
  should_flush now b =
      if leb b.max_batch_size (length b.buffer)
      then true
      else leb (b.batch_started_at + b.max_batch_age * 1000000) now

  unfoldable pub flush_locked : Batcher A → Option (List A) × Batcher A
  flush_locked b = (some b.buffer, record b { buffer = [] })

  -- The event in the buffer, before the thresholds are looked at; the clock reads `start`.
  unfoldable pub append_event : A → ℕ → Batcher A → Batcher A
  append_event a start b = record b {
    buffer = b.buffer ++ a ∷ [];
    batch_started_at = if is_empty b.buffer then start else b.batch_started_at;
  }

  -- The clock reads `start` when the batch begins, and `now` when its age is taken.
  unfoldable pub add_event : A → ℕ → ℕ → Batcher A → Option (List A) × Batcher A
  add_event a start now b =
      if should_flush now (append_event a start b)
      then flush_locked (append_event a start b)
      else (none, append_event a start b)

  unfoldable pub flush : Batcher A → Option (List A) × Batcher A
  flush b = if is_empty b.buffer then (none, b) else flush_locked b
