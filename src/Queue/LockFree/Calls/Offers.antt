-- ===== src/Queue/LockFree/Calls/Offers.antt =====
-- `LockFreeBoundedQueue::push` of one thread at a time against the contract of the event queues.
use edge_flow.Prelude.{
  ℕ, suc, ◌+◌, ◌<◌, ◌≡◌, refl, ap, sym, ◌∙◌, inl, inr, List, [], ◌∷◌, ◌++◌, arith, length, Bool,
  false, Option, some, rest_of, lt→ltb, ge→ltb,
}
use edge_flow.Queue.Types.{
  BackpressurePolicy, block, drop_oldest, drop_newest, PushResult, dropped_oldest,
}
use edge_flow.Queue.Contract.{View, offer, offer_full}
use edge_flow.Queue.Bounded.{is_drop_oldest}
use edge_flow.Queue.LockFree.{Ring, try_push, try_pop}
use edge_flow.Queue.LockFree.Invariant.{IsReady, IsReady-weaken, contents, view}
use edge_flow.Queue.LockFree.Push.{Pushes, try_push-Pushes}
use edge_flow.Queue.LockFree.Pop.{Pops, try_pop-Pops}
use edge_flow.Queue.LockFree.Calls.{push, after_push, after_discard, after_retry, notify_one_waiter}

-- The call returns what the contract says, and leaves a ring that is ready and has the view it says.
abbrev pub Serves :
    {A : Type 0} → ℕ → PushResult × View A → Option (PushResult × Bool × Ring A) → Type 0
Serves {A} n expected result =
    (notified : Bool) × (r : Ring A) × (result ≡ some (expected.0, notified, r))
    × IsReady n r
    × (view r ≡ expected.1)

module _ {A : Type 0} (a : A) where
  retry-Serves :
      {n : ℕ} {r : Ring A} {v : View A} (p : Option Bool × Ring A)
      → Pushes n a r p
      → length (contents r) < r.mask + 1
      → record (view r) { items = contents r ++ a ∷ [] } ≡ v
      → Serves n (dropped_oldest, v) (after_retry p)
  unfolding after_retry
  retry-Serves p (inl (full, e)) room same = absurd (omega arith)
  retry-Serves p (inr (_, e, ready, seen)) room same =
      (notify_one_waiter p.1, p.1, rw (e, after_retry), ready, seen ∙ same)

  -- DropOldest on a full ring: the oldest item goes, and its slot's successor takes the new one.
  discard-Serves :
      {n : ℕ} {r : Ring A} (p : Option (Option A) × Ring A)
      → Pops (suc n) r p
      → length (contents r) ≡ r.mask + 1
      → Serves n
          (dropped_oldest, record (view r) { items = rest_of (contents r) ++ a ∷ [] })
          (after_discard a p)
  unfolding after_discard
  discard-Serves p (inl (none_left, e)) full = absurd (omega (arith, ap length none_left))
  discard-Serves {r = r} p (inr (oldest, e, ready, seen)) full =
      rw (e, after_discard) (retry-Serves (try_push a p.1) (try_push-Pushes ready a) room same)
    where
      room : length (contents p.1) < p.1.mask + 1
      room = omega (arith, ap length oldest, ap (λ (v : View A). v.capacity) seen)

      same :
          record (view p.1) { items = contents p.1 ++ a ∷ [] }
          ≡ record (view r) { items = rest_of (contents r) ++ a ∷ [] }
      same =
          ap (λ (v : View A). record v { items = contents p.1 ++ a ∷ [] }) seen
          ∙ ap (λ (xs : List A). record (view r) { items = xs ++ a ∷ [] }) (sym (ap rest_of oldest))

  full-Serves :
      {n : ℕ} {r : Ring A}
      → IsReady (suc n) r
      → length (contents r) ≡ r.mask + 1
      → IsReady n r
      → (b : BackpressurePolicy) → r.policy ≡ b
      → Serves n (offer_full b a (view r)) (after_push a (some false, r))
  unfolding after_push
  full-Serves {r = r} ready full less block e = (false, r, rw (ap is_drop_oldest e), less, refl)
  full-Serves {r = r} ready full less drop_newest e =
      (false, r, rw (ap is_drop_oldest e), less, refl)
  full-Serves {r = r} ready full less drop_oldest e =
      rw (ap is_drop_oldest e) (discard-Serves (try_pop r) (try_pop-Pops ready) full)

  -- On a ring that is ready, `push` returns what the contract says of its policy, on every branch,
  -- and leaves a ready ring with the items that the contract says.
  pub push-Serves :
      (n : ℕ) (r : Ring A) → IsReady (suc n) r → Serves n (offer a (view r)) (push a r)
  unfolding push
  push-Serves n r ready = elim (try_push-Pushes ready a) [
    | inl (full, e) ↦
        rw (e, ge→ltb (length (contents r)) (r.mask + 1) (omega (arith, full)))
          (full-Serves ready full (IsReady-weaken ready) r.policy refl)
    | inr (room, e, then_ready, seen) ↦
        rw (e, lt→ltb (length (contents r)) (r.mask + 1) room)
          (notify_one_waiter (try_push a r).1, (try_push a r).1, refl, then_ready, seen)
  ]
