-- ===== src/Queue/LockFree/Parking/Wakes.antt =====
-- notify_one, the lock and spurious wake-ups, as moves of a thread.
use native.Mathlib.Decide.{ℕ_discrete}
use edge_flow.Prelude.{
  ℕ, zero, suc, ◌+◌, ◌≤◌, ◌<◌, ◌≡◌, refl, sym, ◌∙◌, ap, ◌⊎◌, inl, inr, true, false, arith, Option,
  none, some, Bool-cases, ltb, ltb→lt,
}
use edge_flow.Queue.LockFree.{Pc}
use edge_flow.Queue.LockFree.Threads.{is_done}
use edge_flow.Queue.LockFree.Threads.Run.{stay-Inv}
use edge_flow.Queue.LockFree.Parking.{
  Frame, asleep, dozing, rechecking, draining, woken, Shared, moved, is_asleep, find_asleep,
  notified,
}
use edge_flow.Queue.LockFree.Parking.Invariant.{
  Place, outside, is_alerting, place, fits, counted, holds, is_waiting, is_sleepy, weight, Safe,
  changed-Safe, balanced, same_flags,
}
use edge_flow.Queue.LockFree.Parking.Plain.{is_plain, plain_hop-Safe}

module _ {A : Type 0} where
  pub weaken-Safe : {m e n : ℕ} {q : Shared A} → Safe (suc m) e n q → Safe m e n q
  weaken-Safe v = record {
    inv = stay-Inv v.inv;
    fitting = v.fitting;
    alone = v.alone;
    latest = v.latest;
    registered = v.registered;
    few = v.few;
    locked = v.locked;
    covered = v.covered;
    flagged = v.flagged;
  }

  pub is_asleep-asleep : (f : Frame A) → is_asleep f ≡ true → f ≡ asleep
  is_asleep-asleep asleep e = refl
  is_asleep-asleep f e = cc

  -- A thread that is asleep, or none when no thread is.
  abbrev pub Found : ℕ → (ℕ → Frame A) → Option ℕ → Type 0
  Found n frames none = (k : ℕ) → k < n → is_asleep (frames k) ≡ false
  Found n frames (some k) = (k < n) × (is_asleep (frames k) ≡ true)

  farther :
      (n : ℕ) (frames : ℕ → Frame A) (o : Option ℕ)
      → is_asleep (frames n) ≡ false
      → Found n frames o
      → Found (suc n) frames o
  farther n frames none e h = λ k lt. elim (ℕ_discrete k n) [
    | yes last ↦ ap (λ (j : ℕ). is_asleep (frames j)) last ∙ e
    | no earlier ↦ h k (omega (arith, earlier, lt))
  ]
  farther n frames (some k) e h = (omega (arith, h.0), h.1)

  find_asleep-Found : (n : ℕ) (frames : ℕ → Frame A) → Found n frames (find_asleep n frames)
  unfolding find_asleep
  find_asleep-Found zero frames = λ k lt. absurd (omega arith)
  find_asleep-Found (suc n) frames = elim (Bool-cases (is_asleep (frames n))) [
    | inl here ↦ rw here (omega arith, here)
    | inr not_here ↦
        rw not_here (farther n frames (find_asleep n frames) not_here (find_asleep-Found n frames))
  ]

  pub notified-Found :
      (n choice : ℕ) (frames : ℕ → Frame A) → Found n frames (notified n choice frames)
  unfolding notified
  notified-Found n choice frames = elim (Bool-cases (ltb choice n)) [
    | inl near ↦ elim (Bool-cases (is_asleep (frames choice))) [
      | inl here ↦ rw (near, here) (ltb→lt choice n near, here)
      | inr away ↦ rw (near, away) (find_asleep-Found n frames)
    ]
    | inr far ↦ rw far (find_asleep-Found n frames)
  ]

  pub sleepy-cases :
      (f : Frame A) (pc : Pc A) → is_sleepy f pc ≡ true → (holds f ≡ true) ⊎ (is_asleep f ≡ true)
  sleepy-cases rechecking pc e = inl refl
  sleepy-cases (draining o) pc e = inl refl
  sleepy-cases dozing pc e = inl refl
  sleepy-cases asleep pc e = inr refl
  sleepy-cases f pc e = cc

  pub waiting-cases : (f : Frame A) → is_waiting f ≡ true → (holds f ≡ true) ⊎ (is_asleep f ≡ true)
  waiting-cases dozing e = inl refl
  waiting-cases asleep e = inr refl
  waiting-cases f e = cc

  module _ {m e n : ℕ} {q : Shared A} (v : Safe m e n q) where
    -- A thread that waits is woken.
    pub wake-Safe :
        (e' k : ℕ)
        → k < n
        → q.frames k ≡ asleep
        → e' ≤ e + 1
        → Safe m e' n (moved q k q.system woken q.owner)
    wake-Safe e' k near at_frame le = changed-Safe v k near q.system woken q.owner (record {
      inv = v.inv;
      others = λ j ne. refl;
      fit = ap (λ (g : Frame A). fits (place g) (q.system.threads k)) (sym at_frame) ∙ v.fitting k;
      pusher = λ h. cc;
      latest = v.latest;
      count = omega (arith, ap counted at_frame);
      lock = λ h. cc;
      unlock = λ j ne h. h;
      cover =
          balanced v k near e' q.system woken (λ j ne. refl) (λ h. cc)
            (λ j lt h.
              omega (arith, le, ap (λ (g : Frame A). weight g (q.system.threads k)) at_frame));
      flags = same_flags v k near woken (λ h. cc) (ap is_alerting at_frame);
    })

    -- While the lock is free, who is going to wait without another look waits already.
    pub nobody_sleepy :
        q.owner ≡ none
        → Found n q.frames none
        → (k : ℕ) → k < n
        → is_sleepy (q.frames k) (q.system.threads k) ≡ false
    nobody_sleepy free found k lt =
        elim (Bool-cases (is_sleepy (q.frames k) (q.system.threads k))) [
          | inl sleepy ↦ elim (sleepy-cases (q.frames k) (q.system.threads k) sleepy) [
            | inl held ↦ cc (free, v.locked k held)
            | inr away ↦ cc (away, found k lt)
          ]
          | inr awake ↦ awake
        ]

  module _ {m n : ℕ} {q : Shared A} (v : Safe (suc m) 0 n q) (i : ℕ) (near : i < n) {f : Frame A}
      (at_frame : q.frames i ≡ f) where
    -- A thread outside of `try_push` and `try_pop`.
    pub at_rest : place f ≡ outside → is_done (q.system.threads i) ≡ true
    at_rest e =
        ap (λ (p : Place). fits p (q.system.threads i)) (sym e ∙ ap place (sym at_frame))
        ∙ v.fitting i

    pub take_lock-Safe :
        (f' : Frame A) (o : Option ℕ)
        → q.owner ≡ o
        → place f ≡ outside
        → place f' ≡ outside
        → is_plain f (q.system.threads i) f' (q.system.threads i) ≡ true
        → Safe m 0 n
            (elim o as (λ x. Shared A) [ none ↦ moved q i q.system f' (some i) | some k ↦ q ])
    take_lock-Safe f' none free out out' plain =
        plain_hop-Safe v i near at_frame refl (at_rest out) none f' (some i)
          (ap (λ (p : Place). fits p (q.system.threads i)) out' ∙ at_rest out) plain (λ h. refl)
          (λ j ne h. cc)
    take_lock-Safe f' (some k) held out out' plain = weaken-Safe v
