-- ===== src/HttpSink/Send/Secure.antt =====
-- Which streams HttpSink::send_once (gateway/src/http_sink.cpp) engages, and what TLS verifies.
use mathlib.Core.Path.{subst}
use edge_flow.Prelude.{
  ◌&&◌, ap, sym, ◌≡◌, inl, inr, refl, Bool, true, false, arith, Option, none, some, Bool-cases,
  if◌then◌else◌,
}
use edge_flow.Prelude.Except.{Text}
use edge_flow.HttpSink.Url.{Target}
use edge_flow.HttpSink.Send.{
  retryable_failure, TlsContext, TlsStream, PersistentConnection, is_engaged, live, drop, Answers,
  exchange, setup_tls, setup_context, after_setup, connect, send_once,
}

-- A context that has the trust store loaded and asks for the peer's certificate.
abbrev IsVerifying : TlsContext → Type 0
IsVerifying x = (x.trusts_store ≡ true) × (x.verifies_peer ≡ true)

-- No context is kept but one that verifies.
abbrev ContextIsSafe : Option TlsContext → Type 0
ContextIsSafe none = Unit
ContextIsSafe (some x) = IsVerifying x

-- A TLS stream verifies the peer's certificate, and that it names the host, and asks for that host.
abbrev StreamIsSafe : Text → Option TlsStream → Type 0
StreamIsSafe host none = Unit
StreamIsSafe host (some t) =
    IsVerifying t.context × (t.checked_host ≡ some host) × (t.server_name ≡ some host)

-- No stream is engaged but one of the scheme, and what TLS needs is in place.
abbrev SecureFor : Text → Bool → PersistentConnection → Type 0
SecureFor host true c =
    (c.stream ≡ false) × StreamIsSafe host c.tls_stream × ContextIsSafe c.tls_context
SecureFor host false c = c.tls_stream ≡ none

abbrev pub IsSecure : Target → PersistentConnection → Type 0
IsSecure target c = SecureFor target.host target.use_tls c

-- Whether the stream of the scheme is engaged.
abbrev pub of_scheme : Bool → PersistentConnection → Bool
of_scheme true c = is_engaged c.tls_stream
of_scheme false c = c.stream

-- A step on the way to the exchange: what it leaves is secure, and a stream of the scheme is engaged
-- exactly if the step says that there is one.
abbrev IsWay : Text → Bool → Bool × PersistentConnection → Type 0
IsWay host use_tls (ready, c) = SecureFor host use_tls c × (of_scheme use_tls c ≡ ready)

module _ (host : Text) (n : Answers) where
  setup_tls-IsWay :
      (x : TlsContext) (c : PersistentConnection)
      → IsVerifying x
      → c.stream ≡ false
      → ContextIsSafe c.tls_context
      → IsWay host true (setup_tls host n x c)
  unfolding setup_tls
  setup_tls-IsWay x c safe off kept = elim (Bool-cases n.server_name_set) [
    | inl named ↦ simp named ((off, (safe, refl, refl), kept), refl)
    | inr refused ↦ simp refused ((refl, tt, kept), refl)
  ]

  setup_context-IsWay :
      (kept : Option TlsContext) (c : PersistentConnection)
      → c.tls_context ≡ kept
      → c.stream ≡ false
      → c.tls_stream ≡ none
      → ContextIsSafe c.tls_context
      → IsWay host true (setup_context host n kept c)
  unfolding setup_context
  setup_context-IsWay (some x) c e off closed safe =
      setup_tls-IsWay x c (subst ContextIsSafe e safe) off safe
  setup_context-IsWay none c e off closed safe = elim (Bool-cases n.trust_error) [
    | inl untrusted ↦
        simp untrusted ((off, subst (StreamIsSafe host) (sym closed) tt, tt), ap is_engaged closed)
    | inr loaded ↦ simp loaded (
        setup_tls-IsWay (record { trusts_store = true; verifies_peer = true })
          (record c { tls_context = some (record { trusts_store = true; verifies_peer = true }) })
          (refl, refl) off (refl, refl))
  ]

  dropped-IsWay :
      (use_tls : Bool) (c : PersistentConnection)
      → SecureFor host use_tls c
      → IsWay host use_tls (false, drop c)
  dropped-IsWay true c h = ((refl, tt, h.2), refl)
  dropped-IsWay false c h = (refl, refl)

  after_setup-IsWay :
      (use_tls : Bool) (o : Bool × PersistentConnection)
      → IsWay host use_tls o
      → IsWay host use_tls (after_setup use_tls n o)
  unfolding after_setup
  after_setup-IsWay use_tls (false, c) h = h
  after_setup-IsWay use_tls (true, c) h = elim (Bool-cases n.connect_error) [
    | inl refused ↦ simp refused (dropped-IsWay use_tls c h.0)
    | inr connected ↦ elim (Bool-cases (use_tls && n.handshake_error)) [
      | inl broken ↦ simp (connected, broken) (dropped-IsWay use_tls c h.0)
      | inr fine ↦ simp (connected, fine) h
    ]
  ]

  -- A connection that is not live has no stream.
  not_live :
      (c : PersistentConnection) → live c ≡ false → (c.stream ≡ false) × (c.tls_stream ≡ none)
  not_live c e = ground arith

  live-of_scheme :
      (use_tls : Bool) (c : PersistentConnection)
      → SecureFor host use_tls c
      → live c ≡ true
      → of_scheme use_tls c ≡ true
  live-of_scheme true c h e = ground arith
  live-of_scheme false c h e = ground arith

  connect-IsWay :
      (use_tls : Bool) (target : Target) (c : PersistentConnection)
      → target.host ≡ host
      → target.use_tls ≡ use_tls
      → SecureFor host use_tls c
      → IsWay host use_tls (connect target n c)
  unfolding connect
  connect-IsWay use_tls target c named scheme h = elim (Bool-cases (live c)) [
    | inl up ↦ simp up (h, live-of_scheme use_tls c h up)
    | inr down ↦
        let (off, closed) = not_live c down in
        elim (Bool-cases n.resolve_error) [
          | inl lost ↦ simp (down, lost) (h, idle use_tls c off closed)
          | inr resolved ↦ simp (down, resolved, scheme, named) (begin use_tls off closed h)
        ]
  ]
    where
      idle :
          (b : Bool) (c : PersistentConnection)
          → c.stream ≡ false
          → c.tls_stream ≡ none
          → of_scheme b c ≡ false
      idle true c off closed = ap is_engaged closed
      idle false c off closed = off

      begin :
          (b : Bool)
          → c.stream ≡ false
          → c.tls_stream ≡ none
          → SecureFor host b c
          → IsWay host b (
              if b
              then after_setup true n (setup_context host n c.tls_context c)
              else after_setup false n (true, record c { stream = true }))
      begin true off closed h =
          after_setup-IsWay true (setup_context host n c.tls_context c)
            (setup_context-IsWay c.tls_context c refl off closed h.2)
      begin false off closed h =
          after_setup-IsWay false (true, record c { stream = true }) (h, refl)

  exchange-SecureFor :
      (use_tls : Bool) (c : PersistentConnection)
      → SecureFor host use_tls c
      → SecureFor host use_tls (exchange n c).1
  unfolding exchange
  exchange-SecureFor use_tls c h = elim (Bool-cases n.exchange_error) [
    | inl broken ↦ simp broken (dropped-IsWay use_tls c h).0
    | inr fine ↦ elim (Bool-cases n.keep_alive) [
      | inl kept ↦ simp (fine, kept) h
      | inr closed ↦ simp (fine, closed) (dropped-IsWay use_tls c h).0
    ]
  ]

-- From a secure connection, whatever the network answers: the connection that the request is exchanged
-- over, where the call comes to that, has the stream of the URL's scheme engaged, and it and the
-- connection that the call leaves are secure. For https that is: no plain stream; a TLS stream that
-- verifies the peer against a loaded trust store, and that the certificate names the URL's host, and
-- asks for that host; and no context kept but one with the store loaded that asks for the peer's
-- certificate. For http it is: no TLS stream.
pub send_once-IsSecure :
    (target : Target) (n : Answers) (c : PersistentConnection)
    → IsSecure target c
    → IsSecure target (connect target n c).1
      × (of_scheme target.use_tls (connect target n c).1 ≡ (connect target n c).0)
      × IsSecure target (send_once target n c).1
unfolding send_once
send_once-IsSecure target n c h =
    let (safe, engaged) = connect-IsWay target.host n target.use_tls target c refl refl h in
    (safe, engaged, after (connect target n c) safe)
  where
    after :
        (o : Bool × PersistentConnection)
        → IsSecure target o.1
        → IsSecure target (if o.0 then exchange n o.1 else (retryable_failure, o.1)).1
    after (true, c') safe = exchange-SecureFor target.host n target.use_tls c' safe
    after (false, c') safe = safe
