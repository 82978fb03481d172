-- ===== src/Queue/LockFree/Threads.antt =====
-- The cell protocol of core/include/edgeflow/lock_free_bounded_queue.hpp under several threads: any
-- number of them run `try_push` and `try_pop`, one shared access at a time and in any order. An access
-- is seen by all threads at once. `claimed` and `taken` are history: the item of each position that a
-- producer has claimed, and what each finished `try_pop` returned, with its position, the latest first.
pub mod Invariant
pub mod Locals
pub mod Roles
pub mod Claims
pub mod Slots
pub mod Releases
pub mod Looks
pub mod Run
pub mod Quiet
pub mod Outcome
mod Tests
use edge_flow.Prelude.{ℕ, Bool, true, false, List, [], ◌∷◌, if◌then◌else◌}
use edge_flow.Queue.LockFree.{
  Ring, update, Pc, push_start, push_look, push_claim, push_store, push_publish, pushed, push_full,
  pop_start, pop_look, pop_claim, pop_take, pop_release, popped, pop_empty, tick,
}

pub data Op (A : Type 0) : Type 0 where
  pushes : A → Op A
  pops : Op A

-- A thread begins a call, or makes one access of the call that it is in.
pub data Move (A : Type 0) : Type 0 where
  calls : ℕ → Op A → Move A
  acts : ℕ → Bool → Move A

pub record System (A : Type 0) : Type 0 where
  pub ring : Ring A
  pub threads : ℕ → Pc A
  pub claimed : ℕ → A
  pub taken : List (ℕ × A)

module _ {A : Type 0} where
  abbrev pub first_access : Op A → Pc A
  first_access (pushes a) = push_start a
  first_access pops = pop_start

  -- A thread that is in no call.
  abbrev pub is_done : Pc A → Bool
  is_done pushed = true
  is_done push_full = true
  is_done (popped a) = true
  is_done pop_empty = true
  is_done _ = false

  -- A claim that succeeds leads to the store.
  abbrev pub note_claim : Pc A → (ℕ → A) → ℕ → A
  note_claim (push_store a p) claimed = update claimed p a
  note_claim _ claimed = claimed

  abbrev pub note_take : Pc A → List (ℕ × A) → List (ℕ × A)
  note_take (pop_release a p) taken = (p, a) ∷ taken
  note_take _ taken = taken

  unfoldable pub step : System A → Move A → System A
  step s (calls i op) =
      if is_done (s.threads i)
      then record s { threads = update s.threads i (first_access op) }
      else s
  step s (acts i weak) =
      let (pc, r) = tick weak (s.threads i) s.ring in
      record s {
        ring = r;
        threads = update s.threads i pc;
        claimed = note_claim pc s.claimed;
        taken = note_take (s.threads i) s.taken;
      }

  unfoldable pub run : System A → List (Move A) → System A
  run s [] = s
  run s (m ∷ ms) = run (step s m) ms
