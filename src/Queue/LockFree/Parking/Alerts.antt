-- ===== src/Queue/LockFree/Parking/Alerts.antt =====
-- notify_one_waiter() and shutdown() under the lock, as moves of a thread.
use edge_flow.Prelude.{
  ℕ, suc, ◌<◌, ◌≡◌, refl, sym, ◌∙◌, ap, ◌≢◌, inl, inr, true, false, arith, Option, none, some,
  if◌then◌else◌,
}
use edge_flow.Queue.Types.{PushResult}
use edge_flow.Queue.LockFree.{update}
use edge_flow.Queue.LockFree.Invariant.{update_ne}
use edge_flow.Queue.LockFree.Threads.Invariant.{everywhere}
use edge_flow.Queue.LockFree.Parking.{
  Frame, returned, nothing, push_result, waking, asleep, woken, alerting, Shared, moved, is_asleep,
  notified, notify_all, wake_all,
}
use edge_flow.Queue.LockFree.Parking.Sums.{sum_same}
use edge_flow.Queue.LockFree.Parking.Invariant.{
  Place, place, fits, is_pusher, counted, holds, is_waiting, is_alerting, Safe, same_flags,
}
use edge_flow.Queue.LockFree.Parking.Hops.{hop-Safe}
use edge_flow.Queue.LockFree.Parking.Wakes.{
  weaken-Safe, Found, notified-Found, nobody_sleepy, waiting-cases, sleepy-cases, is_asleep-asleep,
  wake-Safe, at_rest,
}

module _ {A : Type 0} where
  -- What a thread that is woken, if it was asleep, has in common with what it was.
  abbrev roused : Frame A → Frame A
  roused f = if is_asleep f then woken else f

  record Alike (f g : Frame A) : Type 0 where
    places : place g ≡ place f
    pusher : is_pusher g ≡ is_pusher f
    counts : counted g ≡ counted f
    held : holds g ≡ holds f
    up : is_asleep g ≡ false

  roused-Alike : (f : Frame A) → Alike f (roused f)
  roused-Alike asleep = record {
    places = refl;
    pusher = refl;
    counts = refl;
    held = refl;
    up = refl;
  }
  roused-Alike f = record { places = refl; pusher = refl; counts = refl; held = refl; up = refl }

  module _ {m n : ℕ} {q : Shared A} (v : Safe (suc m) 0 n q) (i : ℕ) (near : i < n) where
    notify_some-Safe :
        (choice : ℕ) (result : PushResult) (o : Option ℕ)
        → q.frames i ≡ waking result
        → q.owner ≡ none
        → Found n q.frames o
        → Safe m 0 n (elim o as (λ x. Shared A) [
          | none ↦ moved q i q.system (returned (push_result result)) none
          | some k ↦
              moved
                (record q { frames = update q.frames k woken })
                i
                q.system
                (returned (push_result result))
                none
        ])
    notify_some-Safe choice result none at_frame free found =
        hop-Safe v i near at_frame refl (at_rest v i near at_frame refl) 0 none
          (returned (push_result result)) none q.system.ring.waiters q.system.ring.shutting_down
          (at_rest v i near at_frame refl) (λ h. cc) (omega arith) (λ h. cc) (λ j ne h. cc)
          (λ h. cc) (λ k lt h. cc (h, nobody_sleepy v free found k lt))
          (same_flags v i near (returned (push_result result)) (λ h. cc) (ap is_alerting at_frame))
    notify_some-Safe choice result (some k) at_frame free found =
        let sleeps : q.frames k ≡ asleep = is_asleep-asleep (q.frames k) found.1 in
        let ne : k ≢ i = λ same. cc (sleeps, at_frame, ap q.frames same) in
        let w : Safe (suc m) 1 n (moved q k q.system woken q.owner) =
          wake-Safe v 1 k found.0 sleeps (omega arith) in
        let here : update q.frames k woken i ≡ waking result =
          update_ne q.frames woken ne ∙ at_frame in
        hop-Safe w i near here refl (at_rest v i near at_frame refl) 0 none
          (returned (push_result result)) none q.system.ring.waiters q.system.ring.shutting_down
          (at_rest v i near at_frame refl) (λ h. cc) (omega arith) (λ h. cc) (λ j ne h. cc)
          (λ h. cc) (λ j lt h. omega arith)
          (same_flags w i near (returned (push_result result)) (λ h. cc) (ap is_alerting here))

    pub notify-Safe :
        (choice : ℕ) (result : PushResult) (o : Option ℕ)
        → q.owner ≡ o
        → q.frames i ≡ waking result
        → Safe m 0 n (elim o as (λ x. Shared A) [
          | none ↦ elim (notified n choice q.frames) as (λ x. Shared A) [
            | none ↦ moved q i q.system (returned (push_result result)) none
            | some k ↦
                moved
                  (record q { frames = update q.frames k woken })
                  i
                  q.system
                  (returned (push_result result))
                  none
          ]
          | some k ↦ q
        ])
    notify-Safe choice result none free at_frame =
        notify_some-Safe choice result (notified n choice q.frames) at_frame free
          (notified-Found n choice q.frames)
    notify-Safe choice result (some k) held at_frame = weaken-Safe v

    module _ (free : q.owner ≡ none) where
      nobody_waits : (k : ℕ) → is_waiting (roused (q.frames k)) ≡ true → ⊥
      nobody_waits k h =
          let same = roused-Alike (q.frames k) in
          elim (waiting-cases (roused (q.frames k)) h) [
            | inl held ↦ cc (free, v.locked k (sym same.held ∙ held))
            | inr away ↦ cc (away, same.up)
          ]

      all_up-Safe : Safe (suc m) 0 n (record q { frames = wake_all q.frames })
      all_up-Safe = record {
        inv = v.inv;
        fitting = λ j.
            ap (λ (p : Place). fits p (q.system.threads j)) (roused-Alike (q.frames j)).places
            ∙ v.fitting j;
        alone = λ j h. v.alone j (sym (roused-Alike (q.frames j)).pusher ∙ h);
        latest = v.latest;
        registered =
            v.registered
            ∙ sum_same n (λ j. counted (q.frames j)) (λ j. counted (roused (q.frames j)))
                (λ j lt. sym (roused-Alike (q.frames j)).counts);
        few = v.few;
        locked = λ j h. v.locked j (sym (roused-Alike (q.frames j)).held ∙ h);
        covered = λ j lt h.
            let same = roused-Alike (q.frames j) in
            elim (sleepy-cases (roused (q.frames j)) (q.system.threads j) h) [
              | inl held ↦ cc (free, v.locked j (sym same.held ∙ held))
              | inr away ↦ cc (away, same.up)
            ];
        flagged = λ flag j lt h. absurd (nobody_waits j h);
      }

      raised-Safe :
          q.frames i ≡ alerting
          → Safe m 0 n
              (moved (record q { frames = wake_all q.frames }) i q.system (returned nothing) none)
      raised-Safe at_frame =
          let here : roused (q.frames i) ≡ alerting = ap roused at_frame in
          let rest = at_rest v i near at_frame refl in
          hop-Safe all_up-Safe i near here refl rest 0 none (returned nothing) none
            q.system.ring.waiters q.system.ring.shutting_down rest (λ h. cc) (omega arith) (λ h. cc)
            (λ j ne h. cc) (λ h. cc) (λ k lt h. omega arith)
            (λ flag k lt h. absurd (
              nobody_waits k (
                everywhere (λ j g. is_waiting g ≡ true → is_waiting (roused (q.frames j)) ≡ true)
                  (wake_all q.frames) i (returned nothing) (λ x. cc) (λ j ne x. x) k h)))

    pub notify_all-Safe : q.frames i ≡ alerting → Safe m 0 n (notify_all i q)
    unfolding notify_all
    notify_all-Safe at_frame = go q.owner refl
      where
        go :
            (o : Option ℕ)
            → q.owner ≡ o
            → Safe m 0 n (elim o as (λ x. Shared A) [
              | none ↦
                  moved (record q { frames = wake_all q.frames }) i q.system (returned nothing) none
              | some k ↦ q
            ])
        go none free = raised-Safe free at_frame
        go (some k) held = weaken-Safe v
