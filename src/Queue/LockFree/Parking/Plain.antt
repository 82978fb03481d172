-- ===== src/Queue/LockFree/Parking/Plain.antt =====
-- Moves outside of `try_push` and `try_pop` that wake nobody and count nobody.
use edge_flow.Prelude.{
  ℕ, suc, ◌≤◌, ◌<◌, ◌≡◌, refl, ◌∙◌, ap, ◌≢◌, Bool, true, false, not, ◌&&◌, arith, Option, none,
  some, leb, leb→le, ◌==◌, if◌then◌else◌,
}
use edge_flow.Queue.LockFree.{Pc}
use edge_flow.Queue.LockFree.Threads.{Op, is_done}
use edge_flow.Queue.LockFree.Parking.{Frame, Shared, moved, begin_try}
use edge_flow.Queue.LockFree.Parking.Invariant.{
  place, fits, is_pusher, holds, counted, is_waiting, is_alerting, is_sleepy, weight, Safe,
  same_flags,
}
use edge_flow.Queue.LockFree.Parking.Hops.{first_pc, hop-Safe}

abbrev implies : Bool → Bool → Bool
implies a b = if a then b else true

implies_lem : (a b : Bool) → implies a b ≡ true → a ≡ true → b ≡ true
implies_lem true b e h = e
implies_lem false b e h = cc

both : (a b : Bool) → (a && b) ≡ true → (a ≡ true) × (b ≡ true)
both true b e = (refl, e)
both false b e = cc

negated : (b : Bool) → not b ≡ true → b ≡ false
negated true e = cc
negated false e = refl

equal : (a b : ℕ) → (a == b) ≡ true → a ≡ b
equal a b e = ground arith

module _ {A : Type 0} where
  -- A thread that comes from one place to another without gaining or losing anything that counts.
  abbrev pub is_plain : Frame A → Pc A → Frame A → Pc A → Bool
  is_plain f pc f' pc' =
      implies (is_pusher f') (is_pusher f)
      && ((counted f == counted f')
          && (implies (is_sleepy f' pc') (is_sleepy f pc)
              && (leb (weight f pc) (weight f' pc')
                  && (implies (is_waiting f') (is_waiting f) && not (is_alerting f)))))

  record IsPlain (f : Frame A) (pc : Pc A) (f' : Frame A) (pc' : Pc A) : Type 0 where
    pusher : is_pusher f' ≡ true → is_pusher f ≡ true
    count : counted f ≡ counted f'
    sleepy : is_sleepy f' pc' ≡ true → is_sleepy f pc ≡ true
    light : weight f pc ≤ weight f' pc'
    waiting : is_waiting f' ≡ true → is_waiting f ≡ true
    calm : is_alerting f ≡ false

  is_plain-IsPlain :
      (f : Frame A) (pc : Pc A) (f' : Frame A) (pc' : Pc A)
      → is_plain f pc f' pc' ≡ true
      → IsPlain f pc f' pc'
  is_plain-IsPlain f pc f' pc' e =
      let (pusher, e2) = both (implies (is_pusher f') (is_pusher f)) _ e in
      let (count, e3) = both (counted f == counted f') _ e2 in
      let (sleepy, e4) = both (implies (is_sleepy f' pc') (is_sleepy f pc)) _ e3 in
      let (light, e5) = both (leb (weight f pc) (weight f' pc')) _ e4 in
      let (waiting, calm) = both (implies (is_waiting f') (is_waiting f)) _ e5 in
      record {
        pusher = implies_lem (is_pusher f') (is_pusher f) pusher;
        count = equal (counted f) (counted f') count;
        sleepy = implies_lem (is_sleepy f' pc') (is_sleepy f pc) sleepy;
        light = leb→le (weight f pc) (weight f' pc') light;
        waiting = implies_lem (is_waiting f') (is_waiting f) waiting;
        calm = negated (is_alerting f) calm;
      }

  module _ {m e n : ℕ} {q : Shared A} (v : Safe (suc m) e n q) (i : ℕ) (near : i < n) {f : Frame A}
      {pc : Pc A} (at_frame : q.frames i ≡ f) (at_pc : q.system.threads i ≡ pc)
      (done : is_done pc ≡ true) where
    pub plain_hop-Safe :
        (op : Option (Op A)) (f' : Frame A) (o : Option ℕ)
        → fits (place f') (first_pc op pc) ≡ true
        → is_plain f pc f' (first_pc op pc) ≡ true
        → (holds f' ≡ true → o ≡ some i)
        → ((j : ℕ) → i ≢ j → q.owner ≡ some j → o ≡ some j)
        → Safe m e n (moved q i (begin_try i op q.system) f' o)
    plain_hop-Safe op f' o fit plain lock unlock =
        let p = is_plain-IsPlain f pc f' (first_pc op pc) plain in
        hop-Safe v i near at_frame at_pc done e op f' o q.system.ring.waiters
          q.system.ring.shutting_down fit (λ h. v.alone i (ap is_pusher at_frame ∙ p.pusher h))
          (omega (arith, p.count)) lock unlock p.sleepy (λ k lt x. omega (arith, p.light))
          (same_flags v i near f' (λ h. ap is_waiting at_frame ∙ p.waiting h)
            (ap is_alerting at_frame ∙ p.calm))

    -- The lock stays as it is.
    pub stroll-Safe :
        (op : Option (Op A)) (f' : Frame A)
        → fits (place f') (first_pc op pc) ≡ true
        → is_plain f pc f' (first_pc op pc) ≡ true
        → (holds f' ≡ true → holds f ≡ true)
        → Safe m e n (moved q i (begin_try i op q.system) f' q.owner)
    stroll-Safe op f' fit plain lock =
        plain_hop-Safe op f' q.owner fit plain (λ h. v.locked i (ap holds at_frame ∙ lock h))
          (λ j ne h. h)

    -- The thread that holds the lock lets go of it.
    pub let_go-Safe :
        (op : Option (Op A)) (f' : Frame A)
        → fits (place f') (first_pc op pc) ≡ true
        → is_plain f pc f' (first_pc op pc) ≡ true
        → holds f ≡ true
        → holds f' ≡ false
        → Safe m e n (moved q i (begin_try i op q.system) f' none)
    let_go-Safe op f' fit plain held free =
        plain_hop-Safe op f' none fit plain (λ h. cc)
          (λ j ne h. absurd (ne (cc (h, v.locked i (ap holds at_frame ∙ held)))))
