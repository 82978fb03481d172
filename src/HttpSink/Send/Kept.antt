-- ===== src/HttpSink/Send/Kept.antt =====
-- When HttpSink::send_once (gateway/src/http_sink.cpp) keeps its connection, and what its outcome says.
use edge_flow.Prelude.{
  ◌&&◌, ℕ, ◌≤◌, ◌<◌, ◌≡◌, ◌≢◌, ◌⊎◌, inl, inr, refl, Bool, true, false, arith, Option, none, some,
  Bool-cases, if◌then◌else◌,
}
use edge_flow.Prelude.Except.{Text}
use edge_flow.HttpSink.Url.{Target}
use edge_flow.HttpSink.Send.{
  SendOutcome, success, retryable_failure, permanent_failure, TlsContext, PersistentConnection,
  live, Answers, classify, exchange, setup_tls, setup_context, after_setup, connect, send_once,
}

-- What an outcome says of the status.
abbrev pub StandsFor : SendOutcome → ℕ → Type 0
StandsFor success status = (200 ≤ status) × (status < 300)
StandsFor retryable_failure status = (500 ≤ status) ⊎ (status ≡ 429)
StandsFor permanent_failure status =
    ((status < 200) ⊎ (300 ≤ status)) × (status < 500) × (status ≢ 429)

classify-StandsFor : (status : ℕ) → StandsFor (classify status) status
unfolding classify
classify-StandsFor status = ground arith

-- No connection is live where none is ready.
abbrev IsIdle : Bool × PersistentConnection → Type 0
IsIdle (true, c) = Unit
IsIdle (false, c) = live c ≡ false

module _ (n : Answers) where
  setup_tls-IsIdle :
      (host : Text) (x : TlsContext) (c : PersistentConnection) → IsIdle (setup_tls host n x c)
  unfolding setup_tls
  setup_tls-IsIdle host x c = elim (Bool-cases n.server_name_set) [
    | inl named ↦ simp named tt
    | inr refused ↦ simp refused refl
  ]

  setup_context-IsIdle :
      (host : Text) (kept : Option TlsContext) (c : PersistentConnection)
      → live c ≡ false
      → IsIdle (setup_context host n kept c)
  unfolding setup_context
  setup_context-IsIdle host (some x) c down = setup_tls-IsIdle host x c
  setup_context-IsIdle host none c down = elim (Bool-cases n.trust_error) [
    | inl untrusted ↦ simp untrusted down
    | inr loaded ↦ simp loaded (setup_tls-IsIdle host _ _)
  ]

  after_setup-IsIdle :
      (use_tls : Bool) (o : Bool × PersistentConnection)
      → IsIdle o
      → IsIdle (after_setup use_tls n o)
  unfolding after_setup
  after_setup-IsIdle use_tls (false, c) h = h
  after_setup-IsIdle use_tls (true, c) h = elim (Bool-cases n.connect_error) [
    | inl refused ↦ simp refused refl
    | inr connected ↦ elim (Bool-cases (use_tls && n.handshake_error)) [
      | inl broken ↦ simp (connected, broken) refl
      | inr fine ↦ simp (connected, fine) tt
    ]
  ]

  connect-IsIdle : (target : Target) (c : PersistentConnection) → IsIdle (connect target n c)
  unfolding connect
  connect-IsIdle target c = elim (Bool-cases (live c)) [
    | inl up ↦ simp up tt
    | inr down ↦ elim (Bool-cases n.resolve_error) [
      | inl lost ↦ simp (down, lost) refl
      | inr resolved ↦ elim (Bool-cases target.use_tls) [
        | inl tls ↦
            simp (down, resolved, tls)
              (after_setup-IsIdle true (setup_context target.host n c.tls_context c)
                (setup_context-IsIdle target.host c.tls_context c down))
        | inr plain ↦
            simp (down, resolved, plain)
              (after_setup-IsIdle false (true, record c { stream = true }) tt)
      ]
    ]
  ]

-- What a live connection after the exchange tells of it.
abbrev Kept : Answers → SendOutcome → Type 0
Kept n outcome =
    (n.exchange_error ≡ false)
    × (n.keep_alive ≡ true)
    × (outcome ≡ classify n.status)
    × StandsFor outcome n.status

exchange-Kept :
    (n : Answers) (c : PersistentConnection)
    → live (exchange n c).1 ≡ true
    → Kept n (exchange n c).0
unfolding exchange
exchange-Kept n c h = elim (Bool-cases n.exchange_error) [
  | inl broken ↦ let h' = simp broken at h in cc
  | inr fine ↦ elim (Bool-cases n.keep_alive) [
    | inl kept ↦ simp fine (refl, kept, refl, classify-StandsFor n.status)
    | inr closed ↦ let h' = simp (fine, closed) at h in cc
  ]
]

-- A connection that is live after a call had an exchange with no error whose response allows
-- keep-alive, and the call's outcome is the one that the status stands for: a success for 200 to 299, a
-- retryable failure for 500 and more and for 429, and a permanent failure for any other status.
pub send_once_kept :
    (target : Target) (n : Answers) (c : PersistentConnection)
    → live (send_once target n c).1 ≡ true
    → (n.exchange_error ≡ false)
      × (n.keep_alive ≡ true)
      × ((send_once target n c).0 ≡ classify n.status)
      × StandsFor (send_once target n c).0 n.status
unfolding send_once
send_once_kept target n c h = go (connect target n c) (connect-IsIdle n target c) h
  where
    go :
        (o : Bool × PersistentConnection)
        → IsIdle o
        → live (if o.0 then exchange n o.1 else (retryable_failure, o.1)).1 ≡ true
        → Kept n (if o.0 then exchange n o.1 else (retryable_failure, o.1)).0
    go (true, c') idle h = exchange-Kept n c' h
    go (false, c') idle h = cc
