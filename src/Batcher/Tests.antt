-- ===== src/Batcher/Tests.antt =====
-- The batcher at concrete inputs.
use edge_flow.Prelude.{
  ℕ, ◌+◌, ◌*◌, ◌≤◌, ◌<◌, ◌≡◌, ◌⊎◌, ◌↔◌, refl, List, [], ◌∷◌, ◌++◌, some, none, get_elem?, arith,
}
use edge_flow.Batcher
use edge_flow.Batcher.{Batcher, add_event, append_event, should_flush, flush_locked}
use edge_flow.Batcher.Order.{
  Call, adds, flushes, step, run, delivered, all_added, run_batches_order,
}
use edge_flow.Batcher.Bounds.{IsValid, IsBatch, step-IsValid}
use edge_flow.Batcher.Age.{add_event-run}

-- One event buffered at 0, with thresholds of two events and five milliseconds.
abbrev waiting : Batcher ℕ
waiting = record { max_batch_size = 2; max_batch_age = 5; buffer = 7 ∷ []; batch_started_at = 0 }

abbrev script : List (Call ℕ)
script = adds 8 10 10 ∷ adds 9 20 20 ∷ flushes ∷ flushes ∷ []

waiting-IsValid : IsValid waiting
waiting-IsValid = omega arith

run_batches_order_example :
    7 ∷ all_added script ≡ delivered waiting script ++ (run waiting script).buffer
run_batches_order_example = run_batches_order waiting script

step-IsValid_example :
    IsValid (step waiting (adds 8 10 10)).1
    × IsBatch waiting (step waiting (adds 8 10 10)).0
    × ((step waiting (adds 8 10 10)).1.max_batch_size ≡ 2)
step-IsValid_example = step-IsValid waiting (adds 8 10 10) waiting-IsValid

-- An empty batcher, with thresholds of three events and five milliseconds.
abbrev slow : Batcher ℕ
slow = record { max_batch_size = 3; max_batch_age = 5; buffer = []; batch_started_at = 0 }

-- The third event comes long after a flush: only the second one, added at 30, counts for the age.
abbrev history : List (Call ℕ)
history = adds 7 10 10 ∷ flushes ∷ adds 8 30 30 ∷ []

add_event-run_example :
    (s : ℕ) × (get_elem? (5000040 ∷ 30 ∷ 10 ∷ []) 1 ≡ some s)
    × (((add_event 9 5000040 5000050 (run slow history)).0 ≡ some (8 ∷ 9 ∷ []))
        ↔ ((3 ≤ 2) ⊎ (s + 5 * 1000000 ≤ 5000050)))
    × (((add_event 9 5000040 5000050 (run slow history)).0 ≡ none)
        ↔ ((2 < 3) × (5000050 < s + 5 * 1000000)))
unfolding run step add_event should_flush append_event Batcher.flush flush_locked
add_event-run_example = add_event-run slow history 9 5000040 5000050 refl
