-- ===== src/Queue/LockFree/Parking/Steady.antt =====
-- What an access inside of `try_push` or `try_pop` does to its thread's weight.
use edge_flow.Prelude.{
  ℕ, ◌+◌, ◌≤◌, ◌≡◌, refl, ◌∙◌, ap, ◌≢◌, ◌⊎◌, inl, inr, Bool, true, false, not, arith, some,
  Bool-cases,
}
use edge_flow.Queue.LockFree.{
  Ring, Pc, tick, push_store, push_publish, pushed, pop_look, pop_claim, pop_empty,
}
use edge_flow.Queue.LockFree.Threads.{is_done}
use edge_flow.Queue.LockFree.Threads.Invariant.{writing}
use edge_flow.Queue.LockFree.Threads.Run.{done-roles}
use edge_flow.Queue.LockFree.Parking.{
  Frame, pushing, discarding, pushing_again, spinning, last_try, rechecking, final_try,
}
use edge_flow.Queue.LockFree.Parking.Ticks.{is_push, armed, is_empty, Ticked}
use edge_flow.Queue.LockFree.Parking.Invariant.{
  Place, in_push, in_pop, outside, place, fits, is_pusher, is_sleepy, weight,
}

not-false : (b : Bool) → not b ≡ true → b ≡ false
not-false true e = cc
not-false false e = refl

module _ {A : Type 0} where
  pub writing-armed :
      (pc : Pc A) {p : ℕ} → writing pc ≡ some p → (armed pc ≡ 1) × (is_push pc ≡ true)
  writing-armed (push_store a p) e = (refl, refl)
  writing-armed (push_publish p) e = (refl, refl)
  writing-armed pc e = cc

  pop-armed : (pc : Pc A) → is_push pc ≡ false → armed pc ≡ 0
  pop-armed (push_store a p) e = cc
  pop-armed (push_publish p) e = cc
  pop-armed pushed e = cc
  pop-armed pc e = refl

  pub empty-pop : (pc : Pc A) → is_empty pc ≡ true → is_push pc ≡ false
  empty-pop pop_empty e = refl
  empty-pop pc e = cc

  -- A thread inside of `try_push` is the one that pushes, and has its weight.
  pub inside_push :
      (f : Frame A) (pc : Pc A)
      → fits (place f) pc ≡ true
      → is_push pc ≡ true
      → is_done pc ≡ false
      → (is_pusher f ≡ true) × (weight f pc ≡ armed pc)
  inside_push (pushing a) pc fit push busy = (refl, refl)
  inside_push (pushing_again a) pc fit push busy = (refl, refl)
  inside_push f pc fit push busy = cc

  pub busy_writer : (pc : Pc A) {p : ℕ} → writing pc ≡ some p → is_done pc ≡ false
  busy_writer pc w = elim (Bool-cases (is_done pc)) [
    | inl done ↦ cc (w, (done-roles pc done).0)
    | inr busy ↦ busy
  ]

  -- `try_pop` leaves the producers' cursor alone.
  pub kept_tail :
      {r r' : Ring A} (pc pc' : Pc A)
      → not (is_push pc) ≡ true
      → Ticked r pc pc' r'
      → r'.enqueue_pos ≡ r.enqueue_pos
  kept_tail pc pc' pop t =
      let pops : is_push pc ≡ false = not-false (is_push pc) pop in
      omega (arith, t.filled, pop-armed pc pops, pop-armed pc' (t.kind ∙ pops))

  -- What an access does to the weight of the thread, unless it is the last look of a consumer.
  pub steady :
      (f : Frame A) (pc pc' : Pc A) (r r' : Ring A)
      → fits (place f) pc ≡ true
      → is_done pc ≡ false
      → Ticked r pc pc' r'
      → (f ≡ rechecking → is_empty pc' ≡ false)
      → (is_sleepy f pc' ≡ false)
        × (r'.enqueue_pos + r.dequeue_pos + weight f pc
            ≤ r.enqueue_pos + r'.dequeue_pos + weight f pc')
  steady (pushing a) pc pc' r r' fit busy t h = (refl, omega (arith, t.filled, t.forward))
  steady (pushing_again a) pc pc' r r' fit busy t h = (refl, omega (arith, t.filled, t.forward))
  steady rechecking pc pc' r r' fit busy t h =
      (h refl, omega (arith, kept_tail pc pc' fit t, t.emptied (h refl)))
  steady (discarding a) pc pc' r r' fit busy t h =
      (refl, omega (arith, kept_tail pc pc' fit t, t.forward))
  steady (spinning k) pc pc' r r' fit busy t h =
      (refl, omega (arith, kept_tail pc pc' fit t, t.forward))
  steady last_try pc pc' r r' fit busy t h =
      (refl, omega (arith, kept_tail pc pc' fit t, t.forward))
  steady final_try pc pc' r r' fit busy t h =
      (refl, omega (arith, kept_tail pc pc' fit t, t.forward))
  steady f pc pc' r r' fit busy t h = cc

  -- Only a look at the slot's sequence ends a call empty-handed.
  pub last_look :
      (weak : Bool) (pc : Pc A) (r : Ring A)
      → is_done pc ≡ false
      → is_push pc ≡ false
      → is_empty (tick weak pc r).0 ≡ true
      → (p : ℕ) × (pc ≡ pop_look p)
  unfolding tick
  last_look weak (pop_look p) r busy pop e = (p, refl)
  last_look true (pop_claim p) r busy pop e = cc
  last_look false (pop_claim p) r busy pop e = ground arith
  last_look weak pc r busy pop e = cc

  pub recheck-cases : (f : Frame A) → (f ≡ rechecking) ⊎ (f ≢ rechecking)
  recheck-cases rechecking = inl refl
  recheck-cases f = inr (λ e. cc)

  pub fits_same :
      (p : Place) (pc pc' : Pc A)
      → fits p pc ≡ true
      → is_done pc ≡ false
      → is_push pc' ≡ is_push pc
      → fits p pc' ≡ true
  fits_same in_push pc pc' fit busy same = same ∙ fit
  fits_same in_pop pc pc' fit busy same = ap not same ∙ fit
  fits_same outside pc pc' fit busy same = cc
