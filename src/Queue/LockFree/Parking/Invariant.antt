-- ===== src/Queue/LockFree/Parking/Invariant.antt =====
-- What holds of the threads between any two moves when one of them alone pushes.
use edge_flow.Prelude.{
  ℕ, ◌+◌, ◌^◌, ◌≤◌, ◌<◌, ◌≡◌, sym, ◌∙◌, ap, ◌≢◌, Bool, true, false, not, arith, Option, none, some,
}
use edge_flow.Queue.LockFree.{update, Pc}
use edge_flow.Queue.LockFree.Invariant.{update_self, update_ne}
use edge_flow.Queue.LockFree.Threads.{System, is_done}
use edge_flow.Queue.LockFree.Threads.Invariant.{everywhere, writing, Inv}
use edge_flow.Queue.LockFree.Threads.Roles.{at_place}
use edge_flow.Queue.LockFree.Parking.{
  Frame, pushing, discarding, pushing_again, notifying, waking, spinning, last_try, registering,
  rechecking, draining, dozing, asleep, woken, deregistering, leaving, final_try, alerting, Shared,
  moved,
}
use edge_flow.Queue.LockFree.Parking.Ticks.{is_push, armed, eager, is_empty}
use edge_flow.Queue.LockFree.Parking.Sums.{sum, sum_change}

pub data Place : Type 0 where
  in_push : Place
  in_pop : Place
  outside : Place

module _ {A : Type 0} where
  abbrev pub place : Frame A → Place
  place (pushing a) = in_push
  place (pushing_again a) = in_push
  place (discarding a) = in_pop
  place (spinning k) = in_pop
  place last_try = in_pop
  place rechecking = in_pop
  place final_try = in_pop
  place _ = outside

  -- Where a thread may stand inside of `try_push` or `try_pop` in a frame.
  abbrev pub fits : Place → Pc A → Bool
  fits in_push pc = is_push pc
  fits in_pop pc = not (is_push pc)
  fits outside pc = is_done pc

  -- A call of `push`.
  abbrev pub is_pusher : Frame A → Bool
  is_pusher (pushing a) = true
  is_pusher (discarding a) = true
  is_pusher (pushing_again a) = true
  is_pusher (notifying result) = true
  is_pusher (waking result) = true
  is_pusher _ = false

  abbrev pub holds : Frame A → Bool
  holds registering = true
  holds rechecking = true
  holds (draining o) = true
  holds dozing = true
  holds deregistering = true
  holds (leaving o) = true
  holds final_try = true
  holds _ = false

  -- Counted by waiters_.
  abbrev pub counted : Frame A → ℕ
  counted rechecking = 1
  counted (draining o) = 1
  counted dozing = 1
  counted asleep = 1
  counted woken = 1
  counted deregistering = 1
  counted (leaving o) = 1
  counted _ = 0

  abbrev pub is_waiting : Frame A → Bool
  is_waiting dozing = true
  is_waiting asleep = true
  is_waiting _ = false

  abbrev pub is_alerting : Frame A → Bool
  is_alerting alerting = true
  is_alerting _ = false

  -- A consumer that is going to wait, or waits, without another look at the ring.
  abbrev pub is_sleepy : Frame A → Pc A → Bool
  is_sleepy rechecking pc = is_empty pc
  is_sleepy (draining none) pc = true
  is_sleepy dozing pc = true
  is_sleepy asleep pc = true
  is_sleepy _ pc = false

  -- 1 for a thread that is going to notify a consumer, or is a registered consumer that is going to
  -- look at the ring again.
  abbrev pub weight : Frame A → Pc A → ℕ
  weight (pushing a) pc = armed pc
  weight (pushing_again a) pc = armed pc
  weight (notifying result) pc = 1
  weight (waking result) pc = 1
  weight woken pc = 1
  weight deregistering pc = 1
  weight registering pc = 1
  weight rechecking pc = eager pc
  weight _ pc = 0

  abbrev pub weights : (ℕ → Frame A) → (ℕ → Pc A) → ℕ → ℕ
  weights frames threads j = weight (frames j) (threads j)

  -- A consumer going to sleep: the threads with a weight, less `e`, are as many as the items.
  abbrev pub IsCovered : ℕ → ℕ → System A → (ℕ → Frame A) → Type 0
  IsCovered e n s frames =
      (i : ℕ)
      → i < n
      → is_sleepy (frames i) (s.threads i) ≡ true
      → s.ring.enqueue_pos + e ≤ s.ring.dequeue_pos + sum n (weights frames s.threads)

  -- After the flag is set a consumer waits only while a thread is going to wake it.
  abbrev pub IsFlagged : ℕ → Bool → (ℕ → Frame A) → Type 0
  IsFlagged n flag frames =
      flag ≡ true
      → (i : ℕ) → i < n
      → is_waiting (frames i) ≡ true
      → (k : ℕ) × (k < n) × (is_alerting (frames k) ≡ true)

  pub record Safe (m e n : ℕ) (q : Shared A) : Type 0 where
    pub inv : Inv m q.system
    pub fitting : (i : ℕ) → fits (place (q.frames i)) (q.system.threads i) ≡ true
    pub alone : (i : ℕ) → is_pusher (q.frames i) ≡ true → i ≡ 0
    pub latest :
        (i p : ℕ) → writing (q.system.threads i) ≡ some p → p + 1 ≡ q.system.ring.enqueue_pos
    pub registered : q.system.ring.waiters ≡ sum n (λ j. counted (q.frames j))
    pub few : n < 2 ^ 63
    pub locked : (i : ℕ) → holds (q.frames i) ≡ true → q.owner ≡ some i
    pub covered : IsCovered e n q.system q.frames
    pub flagged : IsFlagged n q.system.ring.shutting_down q.frames

  -- What is to be shown of a move of one thread.
  pub record Change (m e n : ℕ) (q : Shared A) (i : ℕ) (s : System A) (f : Frame A) (o : Option ℕ)
      : Type 0 where
    pub inv : Inv m s
    pub others : (j : ℕ) → i ≢ j → s.threads j ≡ q.system.threads j
    pub fit : fits (place f) (s.threads i) ≡ true
    pub pusher : is_pusher f ≡ true → i ≡ 0
    pub latest : (j p : ℕ) → writing (s.threads j) ≡ some p → p + 1 ≡ s.ring.enqueue_pos
    pub count : s.ring.waiters + counted (q.frames i) ≡ q.system.ring.waiters + counted f
    pub lock : holds f ≡ true → o ≡ some i
    pub unlock : (j : ℕ) → i ≢ j → q.owner ≡ some j → o ≡ some j
    pub cover : IsCovered e n s (update q.frames i f)
    pub flags : IsFlagged n s.ring.shutting_down (update q.frames i f)

  module _ {m e n : ℕ} {q : Shared A} (v : Safe m e n q) (i : ℕ) (near : i < n) where
    pub changed-Safe :
        {m' e' : ℕ} (s : System A) (f : Frame A) (o : Option ℕ)
        → Change m' e' n q i s f o
        → Safe m' e' n (moved q i s f o)
    changed-Safe s f o c = record {
      inv = c.inv;
      fitting =
          everywhere (λ j g. fits (place g) (s.threads j) ≡ true) q.frames i f c.fit
            (λ j ne.
              ap (λ (pc : Pc A). fits (place (q.frames j)) pc) (c.others j ne) ∙ v.fitting j);
      alone =
          everywhere (λ j g. is_pusher g ≡ true → j ≡ 0) q.frames i f c.pusher (λ j ne. v.alone j);
      latest = c.latest;
      registered = omega (
        arith,
        c.count,
        v.registered,
        ap counted (update_self q.frames i f),
        sum_change n (λ j. counted (q.frames j)) (λ j. counted (update q.frames i f j)) i near
            (λ j ne. ap counted (sym (update_ne q.frames f ne))),
      );
      few = v.few;
      locked =
          everywhere (λ j g. holds g ≡ true → o ≡ some j) q.frames i f c.lock
            (λ j ne h. c.unlock j ne (v.locked j h));
      covered = c.cover;
      flagged = c.flags;
    }

    -- A move that makes no other consumer sleepy and takes no weight that an item needs.
    pub balanced :
        (e' : ℕ) (s : System A) (f : Frame A)
        → ((j : ℕ) → i ≢ j → s.threads j ≡ q.system.threads j)
        → (is_sleepy f (s.threads i) ≡ true → is_sleepy (q.frames i) (q.system.threads i) ≡ true)
        → ((k : ℕ)
            → k < n
            → is_sleepy (q.frames k) (q.system.threads k) ≡ true
            → s.ring.enqueue_pos
                + e'
                + q.system.ring.dequeue_pos
                + weight (q.frames i) (q.system.threads i)
              ≤ q.system.ring.enqueue_pos + e + s.ring.dequeue_pos + weight f (s.threads i))
        → IsCovered e' n s (update q.frames i f)
    balanced e' s f others tied slack k lt sleepy =
        let before : is_sleepy (q.frames k) (q.system.threads k) ≡ true =
          at_place
            (λ j.
              is_sleepy (update q.frames i f j) (s.threads j) ≡ true
              → is_sleepy (q.frames j) (q.system.threads j) ≡ true)
            i
            (λ h. tied (
              ap (λ (g : Frame A). is_sleepy g (s.threads i)) (sym (update_self q.frames i f)) ∙ h))
            (λ j ne h.
              ap (λ (pc : Pc A). is_sleepy (q.frames j) pc) (sym (others j ne))
              ∙ ap (λ (g : Frame A). is_sleepy g (s.threads j)) (sym (update_ne q.frames f ne))
              ∙ h)
            k sleepy in
        omega (
          arith,
          v.covered k lt before,
          slack k lt before,
          ap (λ (g : Frame A). weight g (s.threads i)) (update_self q.frames i f),
          sum_change n (weights q.frames q.system.threads) (weights (update q.frames i f) s.threads)
              i near
              (λ j ne.
                ap (λ (pc : Pc A). weight (q.frames j) pc) (sym (others j ne))
                ∙ ap (λ (g : Frame A). weight g (s.threads j)) (sym (update_ne q.frames f ne))),
        )

    pub same_flags :
        (f : Frame A)
        → (is_waiting f ≡ true → is_waiting (q.frames i) ≡ true)
        → is_alerting (q.frames i) ≡ false
        → IsFlagged n q.system.ring.shutting_down (update q.frames i f)
    same_flags f tied calm flag k lt waits =
        let before : is_waiting (q.frames k) ≡ true =
          everywhere (λ j g. is_waiting g ≡ true → is_waiting (q.frames j) ≡ true) q.frames i f tied
            (λ j ne h. h) k waits in
        let (a, below, alerts) = v.flagged flag k lt before in
        (
          a,
          below,
          ap is_alerting
                (update_ne q.frames f (λ (same : i ≡ a). cc (calm, alerts, ap q.frames same)))
              ∙ alerts,
        )
