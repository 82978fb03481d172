-- ===== src/Queue/LockFree/Parking/Tries.antt =====
-- An access inside of `try_push` or `try_pop`, as a move of a thread.
use edge_flow.Prelude.{
  ℕ, suc, ◌+◌, ◌≤◌, ◌<◌, ◌≡◌, refl, sym, ◌∙◌, ap, ◌≢◌, inl, inr, Bool, true, false, not, arith,
  some, Bool-cases,
}
use edge_flow.Queue.LockFree.{Ring, Pc, tick, update}
use edge_flow.Queue.LockFree.Invariant.{update_self, update_ne}
use edge_flow.Queue.LockFree.Threads
use edge_flow.Queue.LockFree.Threads.{System, acts, is_done}
use edge_flow.Queue.LockFree.Threads.Invariant.{writing}
use edge_flow.Queue.LockFree.Threads.Roles.{at_place}
use edge_flow.Queue.LockFree.Threads.Run.{step-Inv}
use edge_flow.Queue.LockFree.Parking.{Frame, rechecking, Shared, moved}
use edge_flow.Queue.LockFree.Parking.Sums.{sum, term_le}
use edge_flow.Queue.LockFree.Parking.Ticks.{is_push, is_empty, Ticked, tick-Ticked, empty_seen}
use edge_flow.Queue.LockFree.Parking.Invariant.{
  place, fits, counted, holds, is_waiting, is_pusher, is_alerting, is_sleepy, weight, weights,
  IsCovered, Safe, changed-Safe, balanced, same_flags,
}
use edge_flow.Queue.LockFree.Parking.Steady.{
  writing-armed, empty-pop, inside_push, busy_writer, kept_tail, steady, last_look, recheck-cases,
  fits_same,
}

module _ {A : Type 0} where
  module _ {m n : ℕ} {q : Shared A} (v : Safe (suc m) 0 n q) (i : ℕ) (near : i < n) {f : Frame A}
      (at_frame : q.frames i ≡ f) (busy : is_done (q.system.threads i) ≡ false) (weak : Bool) where
    abbrev pc : Pc A
    pc = q.system.threads i

    abbrev r : Ring A
    r = q.system.ring

    abbrev next : Pc A × Ring A
    next = tick weak pc r

    ticked : Ticked r pc next.0 next.1
    ticked = tick-Ticked v.inv i weak pc refl

    fit : fits (place f) pc ≡ true
    fit = ap (λ (g : Frame A). fits (place g) pc) (sym at_frame) ∙ v.fitting i

    -- A thread that has claimed a position to fill is thread 0, inside of `push`.
    writer_0 :
        (j p : ℕ)
        → writing (q.system.threads j) ≡ some p
        → (j ≡ 0) × (weight (q.frames j) (q.system.threads j) ≡ 1)
    writer_0 j p w =
        let (a, push) = writing-armed (q.system.threads j) w in
        let (pusher, weighs) =
          inside_push (q.frames j) (q.system.threads j) (v.fitting j) push
            (busy_writer (q.system.threads j) w) in
        (v.alone j pusher, weighs ∙ a)

    -- While another thread fills a position the cursor stays.
    tail_kept :
        (j p : ℕ)
        → i ≢ j
        → writing (q.system.threads j) ≡ some p
        → next.1.enqueue_pos ≡ r.enqueue_pos
    tail_kept j p ne w = elim (Bool-cases (is_push pc)) [
      | inl push ↦
          let mine : i ≡ 0 =
            v.alone i (ap is_pusher at_frame ∙ (inside_push f pc fit push busy).0) in
          absurd (ne (mine ∙ sym (writer_0 j p w).0))
      | inr pop ↦ kept_tail pc next.0 (ap not pop) ticked
    ]

    latest_mine : (p : ℕ) → writing next.0 ≡ some p → p + 1 ≡ next.1.enqueue_pos
    latest_mine p w = elim (ticked.written p w) [
      | inl before ↦ omega (
        arith,
        v.latest i p before,
        ticked.filled,
        (writing-armed pc before).0,
        (writing-armed next.0 w).0,
      )
      | inr now ↦ now
    ]

    abbrev s' : System A
    s' = Threads.step q.system (acts i weak)

    here : s'.threads i ≡ next.0
    unfolding Threads.step
    here = update_self q.system.threads i next.0

    others : (j : ℕ) → i ≢ j → s'.threads j ≡ q.system.threads j
    unfolding Threads.step
    others j ne = update_ne q.system.threads next.0 ne

    -- An empty-handed look at a ring that holds an item has seen thread 0 fill the next position.
    cover_last :
        f ≡ rechecking
        → is_empty next.0 ≡ true
        → next.1.enqueue_pos ≤ next.1.dequeue_pos + sum n (weights (update q.frames i f) s'.threads)
    cover_last recheck none_there =
        let pops : is_push pc ≡ false = sym ticked.kind ∙ empty-pop next.0 none_there in
        let kept : next.1.enqueue_pos ≡ r.enqueue_pos = kept_tail pc next.0 (ap not pops) ticked in
        let (p, look) = last_look weak pc r busy pops none_there in
        elim (empty_seen v.inv i weak p look
          (ap (λ (x : Pc A). is_empty (tick weak x r).0) (sym look) ∙ none_there)) [
            | inl drained ↦ omega (arith, kept, drained, ticked.forward)
            | inr (j, w) ↦
                let (zeroth, weighs) = writer_0 j r.dequeue_pos w in
                let ne : i ≢ j = λ same. cc (look, w, ap q.system.threads same) in
                let weight_j : weights (update q.frames i f) s'.threads j ≡ 1 =
                  ap (λ (pc' : Pc A). weight (update q.frames i f j) pc') (others j ne)
                  ∙ ap (λ (g : Frame A). weight g (q.system.threads j)) (update_ne q.frames f ne)
                  ∙ weighs in
                omega (
                  arith,
                  kept,
                  ticked.forward,
                  v.latest j r.dequeue_pos w,
                  weight_j,
                  term_le n (weights (update q.frames i f) s'.threads) j
                      (omega (arith, zeroth, near)),
                )
          ]

    steady_cover :
        (f ≡ rechecking → is_empty next.0 ≡ false) → IsCovered 0 n s' (update q.frames i f)
    unfolding Threads.step
    steady_cover h =
        let (awake, slack) = steady f pc next.0 r next.1 fit busy ticked h in
        balanced v i near 0 s' f others (λ x. cc (x, awake, ap (is_sleepy f) here))
          (λ k lt x.
            omega (arith, slack, ap (λ (g : Frame A). weight g pc) at_frame, ap (weight f) here))

    cover : IsCovered 0 n s' (update q.frames i f)
    unfolding Threads.step
    cover = elim (Bool-cases (is_empty next.0)) [
      | inl none_there ↦ elim (recheck-cases f) [
        | inl recheck ↦ λ k lt x. omega (arith, cover_last recheck none_there)
        | inr other ↦ steady_cover (λ e. absurd (other e))
      ]
      | inr more ↦ steady_cover (λ e. more)
    ]

    pub act-Safe : is_alerting f ≡ false → Safe m 0 n (moved q i s' f q.owner)
    unfolding Threads.step
    act-Safe calm = changed-Safe v i near s' f q.owner (record {
      inv = step-Inv v.inv (acts i weak);
      others = others;
      fit = ap (fits (place f)) here ∙ fits_same (place f) pc next.0 fit busy ticked.kind;
      pusher = λ h. v.alone i (ap is_pusher at_frame ∙ h);
      latest =
          at_place (λ j. (p : ℕ) → writing (s'.threads j) ≡ some p → p + 1 ≡ next.1.enqueue_pos) i
            (λ p h. latest_mine p (ap writing (sym here) ∙ h))
            (λ j ne p h.
              let before : writing (q.system.threads j) ≡ some p =
                ap writing (sym (others j ne)) ∙ h in
              v.latest j p before ∙ sym (tail_kept j p ne before));
      count = omega (arith, ticked.waiters, ap counted at_frame);
      lock = λ h. v.locked i (ap holds at_frame ∙ h);
      unlock = λ j ne h. h;
      cover = cover;
      flags = λ h.
          same_flags v i near f (λ w. ap is_waiting at_frame ∙ w) (ap is_alerting at_frame ∙ calm)
            (sym ticked.flag ∙ h);
    })
