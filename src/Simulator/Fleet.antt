-- ===== src/Simulator/Fleet.antt =====
-- How simulator/src/main.cpp spreads the devices over the threads, and stops them.
use edge_flow.Prelude.{
  ℕ, zero, suc, ◌+◌, ◌%◌, ◌≤◌, ◌<◌, ◌≡◌, refl, sym, ◌∙◌, ap, List, [], ◌∷◌, ◌++◌, arith, ltb, ◌==◌,
  ◌≢◌, if◌then◌else◌, length, length-append, get_elem?, some,
}
use mathlib.Core.Path.{subst}
use native.Mathlib.Nat.{add-mod_right, mod-le, mod-eq_of_lt, zero-add}
use edge_flow.Queue.LockFree.Invariant.{slot_injective}
use native.Mathlib.Decide.{dec_lt, ℕ_discrete}

-- `clients`, each as the number of the context that it is made on.
unfoldable pub make_client : ℕ → ℕ → List ℕ → List ℕ
make_client thread_count index clients = clients ++ (index % thread_count) ∷ []

-- Both loops over make_client: `count` devices from index `from` on.
unfoldable pub make_clients : ℕ → ℕ → ℕ → List ℕ → List ℕ
make_clients thread_count from zero clients = clients
make_clients thread_count from (suc count) clients =
    make_clients thread_count (from + 1) count (make_client thread_count from clients)

-- The devices at the start, and then those of the spike.
unfoldable pub fleet : ℕ → ℕ → ℕ → List ℕ
fleet thread_count device_count spike_count =
    make_clients thread_count device_count spike_count (make_clients thread_count 0 device_count [])

-- `for (j = i; j < clients.size(); j += thread_count)`: the indices that are stopped. `fuel` rounds at
-- most; the number of clients is enough.
unfoldable pub sweep : ℕ → ℕ → ℕ → ℕ → List ℕ
sweep zero thread_count j size = []
sweep (suc fuel) thread_count j size =
    let rest = sweep fuel thread_count (j + thread_count) size in
    if ltb j size then j ∷ rest else []

-- The stop-sweep that is posted on context `i`.
unfoldable pub stopped_on : ℕ → ℕ → ℕ → List ℕ
stopped_on thread_count i size = sweep size thread_count i size

-- How often an index is in a list.
abbrev pub times : ℕ → List ℕ → ℕ
times j [] = 0
times j (k ∷ ks) = (if k == j then 1 else 0) + times j ks

-- The next index of a class is a step away.
next_of : (t j k : ℕ) → k % t ≡ j % t → j < k → j + t ≤ k
next_of t j k same lt = elim (dec_lt k (j + t)) [
  | yes near ↦ absurd (slot_injective t j k (omega arith) lt near (sym same))
  | no far ↦ omega arith
]

-- Indices below `j` are not in a sweep from `j` on.
sweep_above : (fuel t j size k : ℕ) → k < j → times k (sweep fuel t j size) ≡ 0
unfolding sweep
sweep_above zero t j size k lt = refl
sweep_above (suc fuel) t j size k lt =
    let later = sweep_above fuel t (j + t) size k (omega arith) in ground (arith, later)

-- A sweep with enough fuel meets each index of its class from `j` on, once.
sweep_once :
    (fuel t j size k : ℕ)
    → 0 < t
    → size ≤ fuel + j
    → j ≤ k
    → k < size
    → k % t ≡ j % t
    → times k (sweep fuel t j size) ≡ 1
unfolding sweep
sweep_once zero t j size k pos enough le lt same = absurd (omega arith)
sweep_once (suc fuel) t j size k pos enough le lt same = elim (ℕ_discrete j k) [
  | yes here ↦
      let later = sweep_above fuel t (j + t) size k (omega (arith, here)) in ground (arith, later)
  | no before ↦
      let later =
        sweep_once fuel t (j + t) size k pos (omega arith) (next_of t j k same (omega arith)) lt
          (same ∙ sym (add-mod_right j t)) in
      ground (arith, later)
]

sweep_never : (fuel t j size k : ℕ) → ¬ (k % t ≡ j % t) → times k (sweep fuel t j size) ≡ 0
unfolding sweep
sweep_never zero t j size k other = refl
sweep_never (suc fuel) t j size k other =
    let later = sweep_never fuel t (j + t) size k (λ e. other (e ∙ add-mod_right j t)) in
    let different : j ≢ k = λ (e : j ≡ k). other (ap (λ (x : ℕ). x % t) (sym e)) in
    ground (arith, later)

-- The stop-sweep of context `i` stops exactly the clients that were made on it, each once.
stopped_on-times :
    (t i size k : ℕ)
    → i < t
    → k < size
    → times k (stopped_on t i size) ≡ (if k % t == i then 1 else 0)
unfolding stopped_on
stopped_on-times t i size k lt in_range = elim (ℕ_discrete (k % t) (i % t)) [
  | yes same ↦
      let home : k % t ≡ i = same ∙ mod-eq_of_lt lt in
      let once =
        sweep_once size t i size k (omega arith) (omega arith) (omega (arith, mod-le k t, home))
          in_range same in
      ground (arith, once, home)
  | no other ↦
      let never = sweep_never size t i size k other in
      let away : k % t ≢ i = λ (e : k % t ≡ i). other (e ∙ sym (mod-eq_of_lt lt)) in
      ground (arith, never, away)
]

get_elem?-append_last : (xs : List ℕ) (x : ℕ) → get_elem? (xs ++ x ∷ []) (length xs) ≡ some x
get_elem?-append_last [] x = refl
get_elem?-append_last (y ∷ ys) x = get_elem?-append_last ys x

get_elem?-append :
    (xs ys : List ℕ) (k : ℕ) → k < length xs → get_elem? (xs ++ ys) k ≡ get_elem? xs k
get_elem?-append [] ys k lt = absurd (omega arith)
get_elem?-append (x ∷ xs) ys zero lt = refl
get_elem?-append (x ∷ xs) ys (suc k) lt = get_elem?-append xs ys k (omega arith)

-- The client of each index is on the context of its class.
abbrev pub AreHome : ℕ → ℕ → List ℕ → Type 0
AreHome t n clients = (length clients ≡ n) × ((k : ℕ) → k < n → get_elem? clients k ≡ some (k % t))

make_client-AreHome :
    (t n : ℕ) (clients : List ℕ) → AreHome t n clients → AreHome t (n + 1) (make_client t n clients)
unfolding make_client
make_client-AreHome t n clients (size, home) = (
  length-append clients (n % t ∷ []) ∙ ap (λ (x : ℕ). x + 1) size,
  λ k lt. elim (ℕ_discrete k n) [
    | yes last ↦
        let here : k ≡ length clients = last ∙ sym size in
        ap (get_elem? (clients ++ (n % t) ∷ [])) here
        ∙ get_elem?-append_last clients (n % t)
        ∙ ap (λ (x : ℕ). some (x % t)) (sym last)
    | no before ↦
        get_elem?-append clients (n % t ∷ []) k (omega (arith, size)) ∙ home k (omega arith)
  ],
)

make_clients-AreHome :
    (t n count : ℕ) (clients : List ℕ)
    → AreHome t n clients
    → AreHome t (n + count) (make_clients t n count clients)
unfolding make_clients
make_clients-AreHome t n zero clients (size, home) = (omega arith, λ k lt. home k (omega arith))
make_clients-AreHome t n (suc count) clients home =
    let same : n + 1 + count ≡ n + suc count = omega arith in
    subst (λ (m : ℕ). AreHome t m (make_clients t (n + 1) count (make_client t n clients))) same
      (make_clients-AreHome t (n + 1) count (make_client t n clients)
        (make_client-AreHome t n clients home))

-- With any number of threads, of devices at the start and of devices of the spike: the client of each
-- index is on the context of its index modulo the threads, and the stop-sweep of a context stops it
-- once if it is on that context, and not otherwise.
pub fleet_stopped :
    (t n spike i k : ℕ)
    → i < t
    → k < n + spike
    → (get_elem? (fleet t n spike) k ≡ some (k % t))
      × (times k (stopped_on t i (length (fleet t n spike))) ≡ (if k % t == i then 1 else 0))
unfolding fleet
fleet_stopped t n spike i k lt in_range =
    let (size, home) = make_clients-AreHome t n spike (make_clients t 0 n []) (
      subst (λ (m : ℕ). AreHome t m (make_clients t 0 n [])) (zero-add n)
        (make_clients-AreHome t 0 n [] (refl, λ k lt. absurd (omega arith)))) in
    (home k in_range, stopped_on-times t i _ k lt (omega (arith, size)))
