-- ===== src/Batcher/Order.antt =====
-- No event is lost, repeated or reordered between the batcher's calls and its callback.
use edge_flow.Prelude.{
  ℕ, ◌≡◌, ◌∙◌, List, [], ◌∷◌, ◌++◌, append-nil, append_assoc, Option, none, some, arith,
}
use edge_flow.Batcher.{Batcher, add_event, append_event, flush, flush_locked}

pub data Call {ℓ} (A : Type ℓ) : Type ℓ where
  adds : A → ℕ → ℕ → Call A
  flushes : Call A

module _ {ℓ} {A : Type ℓ} where
  unfoldable pub step : Batcher A → Call A → Option (List A) × Batcher A
  step b (adds a start now) = add_event a start now b
  step b flushes = flush b

  abbrev pub added : Call A → List A
  added (adds a start now) = a ∷ []
  added flushes = []

  abbrev pub out : Option (List A) → List A
  out none = []
  out (some batch) = batch

  unfoldable pub run : Batcher A → List (Call A) → Batcher A
  run b [] = b
  run b (c ∷ cs) = run (step b c).1 cs

  -- All events added, and all events handed to the callback, in order.
  abbrev pub all_added : List (Call A) → List A
  all_added [] = []
  all_added (c ∷ cs) = added c ++ all_added cs

  unfoldable pub delivered : Batcher A → List (Call A) → List A
  delivered b [] = []
  delivered b (c ∷ cs) = out (step b c).0 ++ delivered (step b c).1 cs

  pub add_event_order :
      (b : Batcher A) (a : A) (start now : ℕ)
      → b.buffer ++ a ∷ [] ≡ out (add_event a start now b).0 ++ (add_event a start now b).1.buffer
  unfolding add_event append_event flush_locked
  add_event_order b a start now = ground (arith, append-nil (b.buffer ++ a ∷ []))

  pub flush_order : (b : Batcher A) → b.buffer ≡ out (flush b).0 ++ (flush b).1.buffer
  unfolding flush flush_locked
  flush_order b = ground (arith, append-nil b.buffer)

  -- One call keeps the order of what is buffered, added and delivered.
  pub step_order :
      (b : Batcher A) (c : Call A) → b.buffer ++ added c ≡ out (step b c).0 ++ (step b c).1.buffer
  unfolding step
  step_order b (adds a start now) = add_event_order b a start now
  step_order b flushes = append-nil b.buffer ∙ flush_order b

  -- Over any calls: what was buffered, followed by the events added, is what the callback was handed,
  -- followed by what is still buffered.
  pub run_batches_order :
      (b : Batcher A) (cs : List (Call A))
      → b.buffer ++ all_added cs ≡ delivered b cs ++ (run b cs).buffer
  unfolding run delivered
  run_batches_order b [] = append-nil b.buffer
  run_batches_order b (c ∷ cs) =
      simp (← append_assoc, step_order b c)
        (simp append_assoc (rw (run_batches_order (step b c).1 cs)))
