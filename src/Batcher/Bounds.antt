-- ===== src/Batcher/Bounds.antt =====
-- How large a batch grows.
use edge_flow.Prelude.{
  ◌-◌, ◌≤◌, ◌<◌, ◌≡◌, List, [], ◌∷◌, Option, none, some, arith, length, length-append, max,
}
use edge_flow.Batcher.{Batcher, add_event, append_event, should_flush, flush, flush_locked}
use edge_flow.Batcher.Order.{Call, adds, flushes, step}

-- Between calls the buffer is empty or under the size threshold.
pub record IsValid {ℓ} {A : Type ℓ} (b : Batcher A) : Type 0 where
  pub under : length b.buffer ≤ b.max_batch_size - 1

-- A batch for the callback: not empty, and no larger than the threshold, or one event if that is 0.
abbrev pub IsBatch {ℓ} : {A : Type ℓ} → Batcher A → Option (List A) → Type 0
IsBatch b none = Unit
IsBatch b (some batch) = (0 < length batch) × (length batch ≤ max 1 b.max_batch_size)

module _ {ℓ} {A : Type ℓ} where
  -- From a buffer under the size threshold, every call keeps it there, keeps the threshold, and hands
  -- over no batch but one that is not empty and within the threshold.
  pub step-IsValid :
      (b : Batcher A) (c : Call A)
      → IsValid b
      → IsValid (step b c).1
        × IsBatch b (step b c).0
        × ((step b c).1.max_batch_size ≡ b.max_batch_size)
  unfolding step add_event append_event should_flush flush flush_locked
  step-IsValid b (adds a start now) v = ground (arith, length-append b.buffer (a ∷ []))
  step-IsValid b flushes v = ground arith
