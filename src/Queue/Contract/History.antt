-- ===== src/Queue/Contract/History.antt =====
-- Histories of calls on any event queue: what went in comes out, in order.
use edge_flow.Prelude.{
  ℕ, suc, ◌≤◌, ◌≡◌, refl, List, [], ◌∷◌, ◌++◌, append-nil, append_assoc, arith, length, take,
  rest_of,
}
use edge_flow.Queue.Types.{PushResult, dropped_oldest, rejected_backpressure}
use edge_flow.Queue.Types.{Popped, item}
use edge_flow.Queue.Contract.{EventQueue, View, offer, poll_items}

pub data Call (A : Type 0) : Type 0 where
  pushes : A → Call A
  pops : Call A
  shuts : Call A

abbrev pub pushes_in : {A : Type 0} → List (Call A) → ℕ
pushes_in [] = 0
pushes_in (pushes a ∷ cs) = suc (pushes_in cs)
pushes_in (pops ∷ cs) = pushes_in cs
pushes_in (shuts ∷ cs) = pushes_in cs

-- The item that a push lets in, and the one that it puts out.
abbrev pub let_in : {A : Type 0} → A → PushResult → List A
let_in a rejected_backpressure = []
let_in a _ = a ∷ []

abbrev pub put_out : {A : Type 0} → List A → PushResult → List A
put_out xs dropped_oldest = take 1 xs
put_out xs _ = []

abbrev pub given : {A : Type 0} → Popped A → List A
given (item a) = a ∷ []
given _ = []

module _ {A : Type 0} (E : EventQueue A) where
  open E use {Queue, IsReady, view, push, pop, shutdown}

  unfoldable pub step : Queue → Call A → Queue
  step q (pushes a) = (push a q).1
  step q pops = (pop q).1
  step q shuts = shutdown q

  unfoldable pub run : Queue → List (Call A) → Queue
  run q [] = q
  run q (c ∷ cs) = run (step q c) cs

  unfoldable pub entering : Queue → Call A → List A
  entering q (pushes a) = let_in a (push a q).0
  entering q _ = []

  unfoldable pub leaving : Queue → Call A → List A
  leaving q (pushes a) = put_out (view q).items (push a q).0
  leaving q pops = given (pop q).0
  leaving q shuts = []

  -- All that a history lets in, and all that leaves during it, in order.
  unfoldable pub entered : Queue → List (Call A) → List A
  entered q [] = []
  entered q (c ∷ cs) = entering q c ++ entered (step q c) cs

  unfoldable pub left : Queue → List (Call A) → List A
  left q [] = []
  left q (c ∷ cs) = leaving q c ++ left (step q c) cs

-- A full queue has an oldest item to put out.
take-rest_of : {A : Type 0} (xs : List A) → 1 ≤ length xs → take 1 xs ++ rest_of xs ≡ xs
take-rest_of [] h = absurd (omega arith)
take-rest_of (x ∷ xs) h = refl

-- An item that is let in comes last, and one that is put out was first.
offer-items :
    {A : Type 0} (a : A) (v : View A)
    → length v.items ≤ v.capacity
    → 1 ≤ v.capacity
    → v.items ++ let_in a (offer a v).0 ≡ put_out v.items (offer a v).0 ++ (offer a v).1.items
offer-items a v h k = ground (
  arith,
  take-rest_of v.items,
  append-nil v.items,
  append_assoc (take 1 v.items) (rest_of v.items) (a ∷ []),
)

poll-items :
    {A : Type 0} (xs : List A) (v : View A)
    → xs ≡ v.items
    → v.items ≡ given (poll_items xs v).0 ++ (poll_items xs v).1.items
poll-items [] v h = ground arith
poll-items (x ∷ xs) v h = ground arith

module _ {A : Type 0} (E : EventQueue A) where
  open E use {Queue, IsReady, view, push, pop, shutdown}

  step-IsReady :
      (q : Queue) (c : Call A) (cs : List (Call A))
      → IsReady (pushes_in (c ∷ cs)) q
      → IsReady (pushes_in cs) (step E q c)
  unfolding step
  step-IsReady q (pushes a) cs r = E.push-IsReady (pushes_in cs) a q r
  step-IsReady q pops cs r = E.pop-IsReady (pushes_in cs) q r
  step-IsReady q shuts cs r = E.shutdown-IsReady (pushes_in cs) q r

  pub push_order :
      (n : ℕ) (a : A) (q : Queue)
      → IsReady (suc n) q
      → (view q).items ++ let_in a (push a q).0
        ≡ put_out (view q).items (push a q).0 ++ (view (push a q).1).items
  push_order n a q r =
      let law = E.push_lem n a q r in
      rw (law.0, law.1) (offer-items a (view q) (E.fits _ q r) (E.positive _ q r))

  -- One call keeps the order of what waits, what enters and what leaves.
  step_order :
      (q : Queue) (c : Call A) (cs : List (Call A))
      → IsReady (pushes_in (c ∷ cs)) q
      → (view q).items ++ entering E q c ≡ leaving E q c ++ (view (step E q c)).items
  unfolding step entering leaving
  step_order q (pushes a) cs r = push_order (pushes_in cs) a q r
  step_order q pops cs r =
      let law = E.pop_lem (pushes_in cs) q r in
      rw (law.0, law.1, append-nil) (poll-items (view q).items (view q) refl)
  step_order q shuts cs r = rw (E.shutdown_lem (pushes_in cs) q r, append-nil)

  pub run-IsReady :
      (q : Queue) (cs : List (Call A)) → IsReady (pushes_in cs) q → IsReady 0 (run E q cs)
  unfolding run
  run-IsReady q [] r = r
  run-IsReady q (c ∷ cs) r = run-IsReady (step E q c) cs (step-IsReady q c cs r)

  -- On any queue that keeps the contract, ready for the pushes of a history: the items that wait at
  -- its start, followed by all that it lets in, are all that leaves during it, popped or put out,
  -- followed by what waits at its end. So nothing is lost, invented, repeated or reordered.
  pub run_order :
      (q : Queue) (cs : List (Call A))
      → IsReady (pushes_in cs) q
      → (view q).items ++ entered E q cs ≡ left E q cs ++ (view (run E q cs)).items
  unfolding run entered left
  run_order q [] r = append-nil (view q).items
  run_order q (c ∷ cs) r =
      simp (← append_assoc, step_order q c cs r)
        (simp append_assoc (rw (run_order (step E q c) cs (step-IsReady q c cs r))))
