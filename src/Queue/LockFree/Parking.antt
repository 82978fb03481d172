-- ===== src/Queue/LockFree/Parking.antt =====
-- `push`, `pop` and `shutdown` of core/include/edgeflow/lock_free_bounded_queue.hpp under several
-- threads, one shared access at a time: the accesses of `try_push` and `try_pop` are those of Threads,
-- and a consumer that finds the ring empty registers in waiters_ and waits on not_empty_. Where a lock
-- guards a notification alone, taking it, notifying and releasing it is one step.
pub mod Sums
pub mod Ticks
pub mod Invariant
pub mod Hops
pub mod Plain
pub mod Steady
pub mod Tries
pub mod Ends
pub mod Wakes
pub mod Alerts
pub mod Advances
pub mod Moves
pub mod Awake
mod Tests
use edge_flow.Prelude.{
  ℕ, zero, suc, ◌+◌, ◌-◌, ◌^◌, Bool, true, false, Option, none, some, List, [], ◌∷◌, ltb, ◌==◌,
  if◌then◌else◌,
}
use edge_flow.Queue.Types.{PushResult, accepted, dropped_oldest, rejected_backpressure}
use edge_flow.Queue.Bounded.{is_drop_oldest}
use edge_flow.Queue.LockFree.{
  Ring, u64, update, Pc, push_start, push_look, push_claim, push_store, push_publish, pushed,
  push_full, pop_start, pop_look, pop_claim, pop_take, pop_release, popped, pop_empty,
}
use edge_flow.Queue.LockFree.Calls.{add_waiter, drop_waiter}
use edge_flow.Queue.LockFree.Threads
use edge_flow.Queue.LockFree.Threads.{System, Op, pushes, pops, calls, acts, is_done}

-- What a call returned, if any was made.
pub data Returned (A : Type 0) : Type 0 where
  nothing : Returned A
  push_result : PushResult → Returned A
  pop_result : Option A → Returned A

-- Where a thread stands in its call, outside of `try_push` and `try_pop` or around one.
pub data Frame (A : Type 0) : Type 0 where
  returned : Returned A → Frame A
  pushing : A → Frame A  -- in the first try_push
  discarding : A → Frame A  -- in the try_pop of DropOldest
  pushing_again : A → Frame A
  notifying : PushResult → Frame A  -- before the load of waiters_
  waking : PushResult → Frame A  -- before the lock of notify_one_waiter
  spinning : ℕ → Frame A  -- in a try_pop of phase 1, with so many attempts left
  checking : ℕ → Frame A  -- before the load of shutting_down_ in phase 1
  last_try : Frame A  -- in the try_pop that ends phase 1
  locking : Frame A  -- before the lock of phase 2
  registering : Frame A  -- before waiters_.fetch_add
  rechecking : Frame A  -- in the try_pop of phase 2
  draining : Option A → Frame A  -- before the load of shutting_down_ in phase 2
  dozing : Frame A  -- before wait(lock)
  asleep : Frame A
  woken : Frame A  -- before wait(lock) takes the lock again
  deregistering : Frame A  -- before the fetch_sub that follows wait(lock)
  leaving : Option A → Frame A  -- before the fetch_sub of a call that returns
  final_try : Frame A  -- in the try_pop after that, when there was no item
  flagging : Frame A  -- before the store of shutdown()
  alerting : Frame A  -- before the lock of shutdown()

pub data Call (A : Type 0) : Type 0 where
  push : A → Call A
  pop : Call A
  shutdown : Call A

-- A thread begins a call, makes its next access, or wakes up for no reason. An access says whether a
-- weak compare-exchange fails spuriously, and which sleeping thread notify_one would wake.
pub data Move (A : Type 0) : Type 0 where
  begins : ℕ → Call A → Move A
  advances : ℕ → Bool → ℕ → Move A
  starts_up : ℕ → Move A

pub record Shared (A : Type 0) : Type 0 where
  pub system : System A
  pub frames : ℕ → Frame A
  pub owner : Option ℕ  -- of wait_mutex_

module _ {A : Type 0} where
  abbrev pub is_asleep : Frame A → Bool
  is_asleep asleep = true
  is_asleep _ = false

  abbrev pub is_returned : Frame A → Bool
  is_returned (returned r) = true
  is_returned _ = false

  -- A thread that waits on not_empty_, among the first `n`.
  unfoldable pub find_asleep : ℕ → (ℕ → Frame A) → Option ℕ
  find_asleep zero frames = none
  find_asleep (suc n) frames =
      let below = find_asleep n frames in if is_asleep (frames n) then some n else below

  -- The thread that notify_one wakes: the one chosen, if it waits, or else another that does.
  unfoldable pub notified : ℕ → ℕ → (ℕ → Frame A) → Option ℕ
  notified n choice frames =
      if ltb choice n
      then if is_asleep (frames choice) then some choice else find_asleep n frames
      else find_asleep n frames

  abbrev pub wake_all : (ℕ → Frame A) → ℕ → Frame A
  wake_all frames i = if is_asleep (frames i) then woken else frames i

  -- Thread `i` comes to stand at `f`.
  abbrev pub moved : Shared A → ℕ → System A → Frame A → Option ℕ → Shared A
  moved q i s f owner = record { system = s; frames = update q.frames i f; owner = owner }

  -- What follows a `try_push` or `try_pop` that has ended: the next one, if any, and the frame.
  unfoldable pub after_try : Bool → Frame A → Pc A → Option (Op A) × Frame A
  after_try drop (pushing a) pushed = (none, notifying accepted)
  after_try true (pushing a) push_full = (some pops, discarding a)
  after_try false (pushing a) push_full = (none, returned (push_result rejected_backpressure))
  after_try drop (discarding a) (popped old) = (some (pushes a), pushing_again a)
  after_try drop (discarding a) pop_empty = (none, returned (push_result rejected_backpressure))
  after_try drop (pushing_again a) pushed = (none, notifying dropped_oldest)
  after_try drop (pushing_again a) push_full = (none, returned (push_result rejected_backpressure))
  after_try drop (spinning n) (popped a) = (none, returned (pop_result (some a)))
  after_try drop (spinning n) pop_empty = (none, checking n)
  after_try drop last_try (popped a) = (none, returned (pop_result (some a)))
  after_try drop last_try pop_empty = (none, returned (pop_result none))
  after_try drop rechecking (popped a) = (none, draining (some a))
  after_try drop rechecking pop_empty = (none, draining none)
  after_try drop final_try (popped a) = (none, returned (pop_result (some a)))
  after_try drop final_try pop_empty = (none, returned (pop_result none))
  after_try drop f pc = (none, f)

  -- A call returns with the lock that `pop` holds in phase 2 released.
  abbrev pub owner_after : Frame A → Option ℕ → Option ℕ
  owner_after final_try owner = none
  owner_after f owner = owner

  abbrev pub begin_try : ℕ → Option (Op A) → System A → System A
  begin_try i none s = s
  begin_try i (some op) s = Threads.step s (calls i op)

  unfoldable pub end_try : ℕ → Frame A → Shared A → Shared A
  end_try i f q =
      let (op, f') = after_try (is_drop_oldest q.system.ring.policy) f (q.system.threads i) in
      moved q i (begin_try i op q.system) f' (owner_after f q.owner)

  -- The next step of a thread inside of `try_push` or `try_pop`.
  unfoldable pub in_try : Bool → ℕ → Frame A → Shared A → Shared A
  in_try weak i f q =
      if is_done (q.system.threads i)
      then end_try i f q
      else moved q i (Threads.step q.system (acts i weak)) f q.owner

  abbrev pub with_ring : Ring A → System A → System A
  with_ring r s = record s { ring = r }

  -- What follows the loads of shutting_down_.
  unfoldable pub after_check : Bool → ℕ → Option (Op A) × Frame A
  after_check true attempts = (some pops, last_try)
  after_check false zero = (none, locking)
  after_check false (suc attempts) = (some pops, spinning attempts)

  unfoldable pub after_drain : Bool → Option A → Frame A
  after_drain false none = dozing
  after_drain true none = leaving none
  after_drain flag (some a) = leaving (some a)

  -- The thread takes the lock, or waits for it.
  abbrev pub take_lock : ℕ → Frame A → Shared A → Shared A
  take_lock i f q = elim q.owner [ none ↦ moved q i q.system f (some i) | some k ↦ q ]

  -- notify_one under the lock, if it is free.
  unfoldable pub notify : ℕ → ℕ → ℕ → PushResult → Shared A → Shared A
  notify n choice i result q = elim q.owner [
    | none ↦ elim (notified n choice q.frames) [
      | none ↦ moved q i q.system (returned (push_result result)) none
      | some k ↦
          moved (record q { frames = update q.frames k woken }) i q.system
            (returned (push_result result)) none
    ]
    | some k ↦ q
  ]

  unfoldable pub notify_all : ℕ → Shared A → Shared A
  notify_all i q = elim q.owner [
    | none ↦ moved (record q { frames = wake_all q.frames }) i q.system (returned nothing) none
    | some k ↦ q
  ]

  -- The next access of thread `i` of `n`, which stands at the frame.
  unfoldable pub advance : ℕ → Bool → ℕ → ℕ → Frame A → Shared A → Shared A
  advance n weak choice i (returned r) q = q
  advance n weak choice i (pushing a) q = in_try weak i (pushing a) q
  advance n weak choice i (discarding a) q = in_try weak i (discarding a) q
  advance n weak choice i (pushing_again a) q = in_try weak i (pushing_again a) q
  advance n weak choice i (notifying result) q =
      moved q i q.system
        (if q.system.ring.waiters == 0 then returned (push_result result) else waking result)
        q.owner
  advance n weak choice i (waking result) q = notify n choice i result q
  advance n weak choice i (spinning k) q = in_try weak i (spinning k) q
  advance n weak choice i (checking k) q =
      let (op, f) = after_check q.system.ring.shutting_down k in
      moved q i (begin_try i op q.system) f q.owner
  advance n weak choice i last_try q = in_try weak i last_try q
  advance n weak choice i locking q = take_lock i registering q
  advance n weak choice i registering q =
      moved q i (Threads.step (with_ring (add_waiter q.system.ring) q.system) (calls i pops))
        rechecking q.owner
  advance n weak choice i rechecking q = in_try weak i rechecking q
  advance n weak choice i (draining o) q =
      moved q i q.system (after_drain q.system.ring.shutting_down o) q.owner
  advance n weak choice i dozing q = moved q i q.system asleep none
  advance n weak choice i asleep q = q
  advance n weak choice i woken q = take_lock i deregistering q
  advance n weak choice i deregistering q =
      moved q i (with_ring (drop_waiter q.system.ring) q.system) registering q.owner
  advance n weak choice i (leaving (some a)) q =
      moved q i (with_ring (drop_waiter q.system.ring) q.system) (returned (pop_result (some a)))
        none
  advance n weak choice i (leaving none) q =
      moved q i (Threads.step (with_ring (drop_waiter q.system.ring) q.system) (calls i pops))
        final_try q.owner
  advance n weak choice i final_try q = in_try weak i final_try q
  advance n weak choice i flagging q =
      moved q i (with_ring (record q.system.ring { shutting_down = true }) q.system) alerting
        q.owner
  advance n weak choice i alerting q = notify_all i q

  -- The first step of a call; `attempts` is one less than kSpinAttempts.
  abbrev pub first_frame : ℕ → Call A → Option (Op A) × Frame A
  first_frame attempts (push a) = (some (pushes a), pushing a)
  first_frame attempts pop = (some pops, spinning attempts)
  first_frame attempts shutdown = (none, flagging)

  unfoldable pub begin_call : ℕ → ℕ → Call A → Frame A → Shared A → Shared A
  begin_call attempts i call (returned r) q =
      let (op, f) = first_frame attempts call in moved q i (begin_try i op q.system) f q.owner
  begin_call attempts i call f q = q

  unfoldable pub start_up : ℕ → Frame A → Shared A → Shared A
  start_up i asleep q = moved q i q.system woken q.owner
  start_up i f q = q

  -- A move of one of `n` threads; that of any other thread is none.
  unfoldable pub step : ℕ → ℕ → Shared A → Move A → Shared A
  step n attempts q (begins i call) =
      if ltb i n then begin_call attempts i call (q.frames i) q else q
  step n attempts q (advances i weak choice) =
      if ltb i n then advance n weak choice i (q.frames i) q else q
  step n attempts q (starts_up i) = if ltb i n then start_up i (q.frames i) q else q

  unfoldable pub run : ℕ → ℕ → Shared A → List (Move A) → Shared A
  run n attempts q [] = q
  run n attempts q (m ∷ ms) = run n attempts (step n attempts q m) ms
