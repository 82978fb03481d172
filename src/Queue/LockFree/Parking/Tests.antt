-- ===== src/Queue/LockFree/Parking/Tests.antt =====
-- Parking at concrete schedules, with one attempt in phase 1.
use native.Mathlib.Decide.{ℕ_discrete}
use edge_flow.Prelude.{
  ℕ, zero, suc, ◌≡◌, refl, false, some, List, [], ◌∷◌, ◌++◌, arith, inl, inr, ap, All,
}
use edge_flow.Queue.Types.{block, accepted}
use edge_flow.Queue.LockFree.{
  make, validated_capacity, round_up, fresh, tick, after_push_look, after_pop_look,
}
use edge_flow.Queue.LockFree.Invariant.{contents}
use edge_flow.Queue.LockFree.Calls.{add_waiter, drop_waiter}
use edge_flow.Queue.LockFree.Threads
use edge_flow.Prelude.Except.{ok}
use edge_flow.Queue.LockFree.Parking.Moves.{IsFeed}
use edge_flow.Queue.LockFree.Parking.Awake.{unused, IsSettled, run-IsSettled}
use edge_flow.Queue.LockFree.Parking.{
  is_returned, returned, asleep, pop_result, push_result, push, pop, Move, begins, advances, Shared,
  run, step, begin_call, advance, in_try, end_try, after_try, after_check, after_drain, notify,
  notified, find_asleep,
}

abbrev idle : Shared ℕ
idle = unused 0 (fresh 0 block 2)

-- So many accesses of one thread.
abbrev go : ℕ → ℕ → List (Move ℕ)
go zero i = []
go (suc n) i = advances i false 2 ∷ go n i

-- Two consumers go to sleep, one after the other.
abbrev two_sleep : List (Move ℕ)
two_sleep = begins 2 pop ∷ (go 12 2 ++ begins 3 pop ∷ go 12 3)

asleep_both : (run 4 0 idle two_sleep).frames 2 ≡ asleep
unfolding run step begin_call advance in_try end_try after_try after_check after_drain tick
    after_push_look after_pop_look add_waiter drop_waiter Threads.step ℕ_discrete
asleep_both = refl

-- Producer 0 claims its position, producer 1 publishes the next one and wakes a consumer, which finds
-- the ring empty and sleeps again; producer 0 then publishes, and wakes that consumer once more.
abbrev out_of_order : List (Move ℕ)
out_of_order =
    two_sleep
    ++ (begins 0 (push 7)
        ∷ (go 3 0 ++ (begins 1 (push 8) ∷ (go 8 1 ++ (go 9 2 ++ (go 6 0 ++ go 12 2))))))

-- All calls have returned but that of consumer 3, which sleeps although an item waits.
left_asleep :
    let q = run 4 0 idle out_of_order in
    (q.frames 3 ≡ asleep)
    × (q.frames 2 ≡ returned (pop_result (some 7)))
    × (q.frames 0 ≡ returned (push_result accepted))
    × (q.frames 1 ≡ returned (push_result accepted))
    × (contents q.system.ring ≡ 8 ∷ [])
unfolding run step begin_call advance in_try end_try after_try after_check after_drain notify
    notified find_asleep tick after_push_look after_pop_look add_waiter drop_waiter Threads.step
    ℕ_discrete
left_asleep = (refl, refl, refl, refl, refl)

-- A consumer that sleeps is woken by a push, returns its item, and sleeps in its next call.
abbrev woken_once : List (Move ℕ)
woken_once =
    begins 1 pop
    ∷ (go 12 1 ++ (begins 0 (push 7) ∷ (go 8 0 ++ (go 16 1 ++ (begins 1 pop ∷ go 16 1)))))

woken_once_settled :
    let q = run 2 0 idle woken_once in
    (q.frames 0 ≡ returned (push_result accepted))
    × (q.frames 1 ≡ asleep)
    × (q.system.taken ≡ (0, 7) ∷ [])
unfolding run step begin_call advance in_try end_try after_try after_check after_drain notify
    notified find_asleep tick after_push_look after_pop_look add_waiter drop_waiter Threads.step
    ℕ_discrete
woken_once_settled = (refl, refl, refl)

woken_once-IsSettled : IsSettled 2 (run 2 0 idle woken_once)
woken_once-IsSettled zero lt = inl (ap is_returned woken_once_settled.0)
woken_once-IsSettled (suc zero) lt = inr woken_once_settled.1
woken_once-IsSettled (suc (suc i)) lt = absurd (omega arith)

made : make {A = ℕ} 0 2 block ≡ ok (fresh 0 block 2)
unfolding make validated_capacity round_up
made = refl

run-IsSettled_example :
    let ring = (run 2 0 idle woken_once).system.ring in
    (contents ring ≡ []) × (ring.shutting_down ≡ false)
run-IsSettled_example =
    run-IsSettled 2 0 0 2 block (omega arith) made woken_once (omega arith) few_feeds
      woken_once-IsSettled 1 (omega arith) woken_once_settled.1
  where
    few_feeds : All IsFeed woken_once
    few_feeds = omega arith
