-- ===== src/Queue/LockFree/Threads/Tests.antt =====
-- Two threads on one small ring, in the middle of each other's calls.
use edge_flow.Prelude.{
  ap, ◌≢◌, inl, inr, Bool-cases, ℕ, zero, suc, ◌+◌, ◌-◌, ◌^◌, ◌≤◌, ◌<◌, ◌≡◌, refl, ◌∙◌, List, [],
  ◌∷◌, arith, true, false, All, length,
}
use native.Mathlib.Decide.{ℕ_discrete}
use edge_flow.Prelude.Except.{ok}
use edge_flow.Queue.Types.{drop_oldest}
use edge_flow.Queue.LockFree.{Ring, fresh, make, validated_capacity, round_up, tick}
use edge_flow.Queue.LockFree.Invariant.{IsReady, contents, update_ne}
use edge_flow.Queue.LockFree.Threads.{
  System, Move, calls, acts, pushes, pops, step, run, is_done, first_access,
}
use edge_flow.Queue.LockFree.Threads.Invariant.{AreDistinct}
use edge_flow.Queue.LockFree.Threads.Run.{opened}
use edge_flow.Queue.LockFree.Threads.Quiet.{IsQuiet, claims}
use edge_flow.Queue.LockFree.Threads.Outcome.{IsReturn, AreReturned, run-AreDistinct, run-IsReady}

abbrev small_ring : Ring ℕ
small_ring = fresh 0 drop_oldest 2

-- Thread 0 claims the first position, thread 1 the second; thread 1 publishes first, and then pops
-- what thread 0 has published in the meantime. A spurious failure is among the accesses.
abbrev crossing : List (Move ℕ)
crossing =
    calls 0 (pushes 5)
    ∷ acts 0 false
    ∷ calls 1 (pushes 6)
    ∷ acts 0 false
    ∷ acts 1 false
    ∷ acts 0 false
    ∷ acts 1 false
    ∷ acts 1 true
    ∷ acts 1 false
    ∷ acts 1 false
    ∷ acts 1 false
    ∷ acts 1 false
    ∷ acts 1 false
    ∷ acts 1 false
    ∷ acts 0 false
    ∷ calls 1 pops
    ∷ acts 1 false
    ∷ acts 0 false
    ∷ acts 1 false
    ∷ acts 1 false
    ∷ acts 1 false
    ∷ acts 1 false
    ∷ []

made : make 0 1 drop_oldest ≡ ok small_ring
unfolding make validated_capacity round_up
made = refl

crossed : (run (opened 0 small_ring) crossing).taken ≡ (0, 5) ∷ []
unfolding run step tick ℕ_discrete
crossed = refl

left_over : contents (run (opened 0 small_ring) crossing).ring ≡ 6 ∷ []
unfolding run step tick ℕ_discrete
left_over = refl

few : length crossing ≤ 2 ^ 62
few = omega arith

run-AreDistinct_example :
    let s = run (opened 0 small_ring) crossing in
    All (IsReturn s) s.taken
    × AreDistinct s.taken
    × (s.ring.dequeue_pos ≤ s.ring.enqueue_pos)
    × (s.ring.enqueue_pos ≤ s.ring.dequeue_pos + (s.ring.mask + 1))
run-AreDistinct_example = run-AreDistinct 0 1 drop_oldest made crossing few

abbrev actor : Move ℕ → ℕ
actor (calls i op) = i
actor (acts i weak) = i

-- A thread from `n` on is not touched by the moves of those below `n`.
others :
    (n : ℕ) (ms : List (Move ℕ)) (s : System ℕ)
    → All (λ m. actor m < n) ms
    → (i : ℕ) → n ≤ i
    → (run s ms).threads i ≡ s.threads i
unfolding run step
others n [] s h i le = refl
others n (calls j op ∷ ms) s h i le =
    let away : j ≢ i = λ e. absurd (omega (arith, h.0)) in
    elim (Bool-cases (is_done (s.threads j))) [
      | inl done ↦
          others n ms (step s (calls j op)) h.1 i le
          ∙ rw (done, step) (update_ne s.threads (first_access op) away)
      | inr busy ↦ others n ms (step s (calls j op)) h.1 i le ∙ rw (busy, step) refl
    ]
others n (acts j weak ∷ ms) s h i le =
    let away : j ≢ i = λ e. absurd (omega (arith, h.0)) in
    others n ms (step s (acts j weak)) h.1 i le ∙ update_ne s.threads _ away

crossing-IsQuiet : IsQuiet (run (opened 0 small_ring) crossing)
unfolding run step tick ℕ_discrete
crossing-IsQuiet zero = refl
crossing-IsQuiet (suc zero) = refl
crossing-IsQuiet (suc (suc i)) =
    ap is_done (others 2 crossing (opened 0 small_ring) (omega arith) (suc (suc i)) (omega arith))

run-IsReady_example :
    let s = run (opened 0 small_ring) crossing in
    IsReady (2 ^ 62 - length crossing) s.ring
    × (contents s.ring
        ≡ claims s.claimed s.ring.dequeue_pos (s.ring.enqueue_pos - s.ring.dequeue_pos))
    × AreReturned s.taken s.ring.dequeue_pos
run-IsReady_example = run-IsReady 0 1 drop_oldest made crossing few crossing-IsQuiet
