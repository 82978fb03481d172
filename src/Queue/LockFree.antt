-- ===== src/Queue/LockFree.antt =====
-- core/include/edgeflow/lock_free_bounded_queue.hpp, one shared access at a time: `tick` is one
-- atomic access of a thread inside `try_push` or `try_pop`, and `solo` runs a thread on its own.
pub mod Capacity
pub mod Invariant
pub mod Push
pub mod Pop
pub mod Calls
pub mod Refine
pub mod Threads
pub mod Parking
use mathlib.Core.Logic.{ite}
use native.Mathlib.Decide.{ℕ_discrete}
use Prim.Native.Nat.{compare, Ordering}
use edge_flow.Prelude.{
  ℕ, zero, suc, ◌+◌, ◌-◌, ◌%◌, ◌^◌, ◌*◌, Bool, true, false, Option, none, some, ltb, ◌==◌,
  if◌then◌else◌,
}
use edge_flow.Prelude.Except.{Except, ok, throw, ◌>>=◌, invalid_argument}
use edge_flow.Prelude.Text.{codes}
use edge_flow.Queue.Types.{
  BackpressurePolicy, PushResult, accepted, dropped_oldest, rejected_backpressure, Popped, item,
  closed, waits,
}
use edge_flow.Queue.Bounded.{is_drop_oldest}

-- std::size_t arithmetic.
abbrev pub u64 : ℕ → ℕ
u64 n = n % 2 ^ 64

-- kMaxCapacity and kSpinAttempts
abbrev pub max_capacity : ℕ
max_capacity = 2 ^ 30

abbrev pub spin_attempts : ℕ
spin_attempts = 64

-- `while (rounded < capacity) rounded <<= 1;`, `fuel` rounds of it.
unfoldable pub round_up : ℕ → ℕ → ℕ → ℕ
round_up zero rounded capacity = rounded
round_up (suc fuel) rounded capacity =
    let next = round_up fuel (u64 (2 * rounded)) capacity in
    if ltb rounded capacity then next else rounded

unfoldable pub validated_capacity : ℕ → Except ℕ
unfolding round_up
validated_capacity capacity =
    if capacity == 0
    then throw (invalid_argument (codes "capacity must be greater than 0"))
    else if ltb max_capacity capacity
    then throw (invalid_argument (codes "capacity exceeds maximum of 1073741824"))
    else let rounded = round_up 30 1 capacity in ok (if ltb rounded 2 then 2 else rounded)

-- The slots as two families by index; an index is always taken `& mask`, so below `mask + 1`.
pub record Ring {ℓ} (A : Type ℓ) : Type ℓ where
  pub sequence : ℕ → ℕ
  pub storage : ℕ → A
  pub mask : ℕ
  pub policy : BackpressurePolicy
  pub enqueue_pos : ℕ
  pub dequeue_pos : ℕ
  pub shutting_down : Bool
  pub waiters : ℕ

abbrev pub update {ℓ} : {A : Type ℓ} → (ℕ → A) → ℕ → A → ℕ → A
update f i a j = ite (ℕ_discrete i j) a (f j)

-- Where a thread stands in `try_push` or `try_pop`, with its live locals.
pub data Pc {ℓ} (A : Type ℓ) : Type ℓ where
  push_start : A → Pc A
  push_look : A → ℕ → Pc A  -- `pos` is read
  push_claim : A → ℕ → Pc A  -- `diff == 0`, before the compare-exchange
  push_store : A → ℕ → Pc A  -- the position is claimed
  push_publish : ℕ → Pc A  -- the item is in the slot
  pushed : Pc A
  push_full : Pc A
  pop_start : Pc A
  pop_look : ℕ → Pc A
  pop_claim : ℕ → Pc A
  pop_take : ℕ → Pc A
  pop_release : A → ℕ → Pc A  -- the item is out of the slot
  popped : A → Pc A
  pop_empty : Pc A

-- The sign of `static_cast<ptrdiff_t>(a) - static_cast<ptrdiff_t>(b)`: the order of the two words
-- read as signed, which adding 2^63 turns into the order of the words.
abbrev pub signed_compare : ℕ → ℕ → Ordering
signed_compare a b = compare (u64 (a + 2 ^ 63)) (u64 (b + 2 ^ 63))

module _ {ℓ} {A : Type ℓ} where
  -- The constructor. T is default-constructible: `fill` is its default value.
  abbrev pub fresh : A → BackpressurePolicy → ℕ → Ring A
  fresh fill policy size = record {
    sequence = λ i. i;
    storage = λ i. fill;
    mask = size - 1;
    policy = policy;
    enqueue_pos = 0;
    dequeue_pos = 0;
    shutting_down = false;
    waiters = 0;
  }

  unfoldable pub make : A → ℕ → BackpressurePolicy → Except (Ring A)
  make fill capacity policy = validated_capacity capacity >>= λ size. ok (fresh fill policy size)

  unfoldable pub capacity : Ring A → ℕ
  capacity r = u64 (r.mask + 1)

  unfoldable pub size : Ring A → ℕ
  size r = if ltb r.dequeue_pos r.enqueue_pos then r.enqueue_pos - r.dequeue_pos else 0

  -- `pos & mask_`, where `mask_ + 1` is a power of two
  abbrev pub slot : Ring A → ℕ → ℕ
  slot r p = p % (r.mask + 1)

  -- What follows the load of the slot's sequence: give up, claim, or read the cursor again.
  pub after_push_look : A → ℕ → Ordering → Pc A
  after_push_look a p Ordering.lt = push_full
  after_push_look a p Ordering.eq = push_claim a p
  after_push_look a p Ordering.gt = push_start a

  pub after_pop_look : ℕ → Ordering → Pc A
  after_pop_look p Ordering.lt = pop_empty
  after_pop_look p Ordering.eq = pop_claim p
  after_pop_look p Ordering.gt = pop_start

  -- One access. `weak` is a spurious failure of compare_exchange_weak; a failure reads the cursor.
  unfoldable pub tick : Bool → Pc A → Ring A → Pc A × Ring A
  unfolding after_push_look after_pop_look
  tick weak (push_start a) r = (push_look a r.enqueue_pos, r)
  tick weak (push_look a p) r = (after_push_look a p (signed_compare (r.sequence (slot r p)) p), r)
  tick weak (push_claim a p) r =
      if not_equal
      then (push_look a r.enqueue_pos, r)
      else (push_store a p, record r { enqueue_pos = u64 (p + 1) })
    where
      not_equal : Bool
      not_equal = if weak then true else if r.enqueue_pos == p then false else true
  tick weak (push_store a p) r =
      (push_publish p, record r { storage = update r.storage (slot r p) a })
  tick weak (push_publish p) r =
      (pushed, record r { sequence = update r.sequence (slot r p) (u64 (p + 1)) })
  tick weak pop_start r = (pop_look r.dequeue_pos, r)
  tick weak (pop_look p) r =
      (after_pop_look p (signed_compare (r.sequence (slot r p)) (u64 (p + 1))), r)
  tick weak (pop_claim p) r =
      if not_equal
      then (pop_look r.dequeue_pos, r)
      else (pop_take p, record r { dequeue_pos = u64 (p + 1) })
    where
      not_equal : Bool
      not_equal = if weak then true else if r.dequeue_pos == p then false else true
  tick weak (pop_take p) r = (pop_release (r.storage (slot r p)) p, r)
  tick weak (pop_release a p) r =
      (popped a, record r { sequence = update r.sequence (slot r p) (u64 (p + r.mask + 1)) })
  tick weak pushed r = (pushed, r)
  tick weak push_full r = (push_full, r)
  tick weak (popped a) r = (popped a, r)
  tick weak pop_empty r = (pop_empty, r)

  -- `n` accesses of one thread with no other thread in between, and no spurious failure.
  unfoldable pub solo : ℕ → Pc A → Ring A → Pc A × Ring A
  solo zero pc r = (pc, r)
  solo (suc n) pc r = let (pc', r') = tick false pc r in solo n pc' r'

  -- The returns of `try_push` and `try_pop`; `none` while the call is still running.
  abbrev pub push_returned : Pc A → Option Bool
  push_returned pushed = some true
  push_returned push_full = some false
  push_returned _ = none

  abbrev pub pop_returned : Pc A → Option (Option A)
  pop_returned (popped a) = some (some a)
  pop_returned pop_empty = some none
  pop_returned _ = none

  -- A call takes five accesses when its first compare-exchange wins.
  unfoldable pub try_push : A → Ring A → Option Bool × Ring A
  try_push a r = let (pc, r') = solo 5 (push_start a) r in (push_returned pc, r')

  unfoldable pub try_pop : Ring A → Option (Option A) × Ring A
  try_pop r = let (pc, r') = solo 5 pop_start r in (pop_returned pc, r')
