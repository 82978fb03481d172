-- ===== src/HttpSink/Send.antt =====
-- HttpSink::send_once and PersistentConnection (gateway/src/http_sink.cpp). What the network, the
-- trust store and the peer answer is an argument: one `Answers` for each call. Of a TLS context and a
-- TLS stream the model has the settings that decide what the handshake verifies.
pub mod Secure
pub mod Kept
use edge_flow.Prelude.{
  ℕ, ◌≤◌, ◌<◌, ◌≡◌, ◌≢◌, ◌⊎◌, inl, inr, refl, Bool, true, false, ◌&&◌, ◌||◌, arith, ltb, leb, ◌==◌,
  if◌then◌else◌, Option, none, some, Bool-cases,
}
use edge_flow.Prelude.Except.{Text}
use edge_flow.HttpSink.Url.{Target}

-- What a single round trip tells the sink to do next.
pub data SendOutcome : Type 0 where
  success retryable_failure permanent_failure : SendOutcome

-- An ssl::context.
pub record TlsContext : Type 0 where
  pub trusts_store : Bool  -- set_default_verify_paths has loaded the system's trust store
  pub verifies_peer : Bool  -- set_verify_mode(verify_peer)

-- An ssl_stream, which starts with the settings of its context.
pub record TlsStream : Type 0 where
  pub context : TlsContext
  pub server_name : Option Text  -- SSL_set_tlsext_host_name
  pub checked_host : Option Text  -- host_name_verification

-- One per sink thread: the optionals stream, tls_stream and tls_context.
pub record PersistentConnection : Type 0 where
  pub stream : Bool
  pub tls_stream : Option TlsStream
  pub tls_context : Option TlsContext

abbrev pub no_connection : PersistentConnection
no_connection = record { stream = false; tls_stream = none; tls_context = none }

abbrev pub is_engaged : Option TlsStream → Bool
is_engaged none = false
is_engaged (some t) = true

-- live()
abbrev pub live : PersistentConnection → Bool
live c = c.stream || is_engaged c.tls_stream

-- drop(): both streams are closed; the TLS context stays.
abbrev pub drop : PersistentConnection → PersistentConnection
drop c = record c { stream = false; tls_stream = none }

-- The error codes of one call, and the response where the exchange has one.
pub record Answers : Type 0 where
  pub resolve_error : Bool
  pub trust_error : Bool
  pub server_name_set : Bool  -- SSL_set_tlsext_host_name returns 1
  pub connect_error : Bool
  pub handshake_error : Bool
  pub exchange_error : Bool
  pub keep_alive : Bool
  pub status : ℕ

-- The outcome that a status stands for.
unfoldable pub classify : ℕ → SendOutcome
classify status =
    if leb 200 status && ltb status 300
    then success
    else if leb 500 status || (status == 429)
    then retryable_failure
    else permanent_failure

-- From the write of the request on, over the stream that is engaged.
unfoldable pub exchange : Answers → PersistentConnection → SendOutcome × PersistentConnection
exchange n c =
    if n.exchange_error
    then (retryable_failure, drop c)
    else (classify n.status, if n.keep_alive then c else drop c)

-- A new context: no certificate is trusted, and none is asked for.
abbrev pub new_context : TlsContext
new_context = record { trusts_store = false; verifies_peer = false }

abbrev pub set_default_verify_paths : Bool → TlsContext → TlsContext
set_default_verify_paths trust_error context =
    if trust_error then context else record context { trusts_store = true }

abbrev pub set_verify_mode : TlsContext → TlsContext
set_verify_mode context = record context { verifies_peer = true }

-- The TLS stream over the context: whether it is ready for the connect, and the connection.
unfoldable pub setup_tls :
    Text → Answers → TlsContext → PersistentConnection → Bool × PersistentConnection
setup_tls host n context c =
    if n.server_name_set
    then (
      true,
      record c {
        tls_stream =
            some (record { context = context; server_name = some host; checked_host = some host });
      },
    )
    else (
      false,
      drop (record c {
        tls_stream = some (record { context = context; server_name = none; checked_host = none });
      }),
    )

-- With the context that there is, or a new one. A context that cannot load the trust store is thrown
-- away, and the batch fails.
unfoldable pub setup_context :
    Text → Answers → Option TlsContext → PersistentConnection → Bool × PersistentConnection
setup_context host n (some context) c = setup_tls host n context c
setup_context host n none c =
    let loaded = set_default_verify_paths n.trust_error new_context in
    if n.trust_error
    then (false, record c { tls_context = none })
    else setup_tls host n (set_verify_mode loaded)
        (record c { tls_context = some (set_verify_mode loaded) })

-- The connect and the handshake, if the stream was set up.
unfoldable pub after_setup :
    Bool → Answers → Bool × PersistentConnection → Bool × PersistentConnection
after_setup use_tls n (false, c) = (false, c)
after_setup use_tls n (true, c) =
    if n.connect_error
    then (false, drop c)
    else if use_tls && n.handshake_error
    then (false, drop c)
    else (true, c)

-- Up to the exchange: whether there is a connection for it.
unfoldable pub connect : Target → Answers → PersistentConnection → Bool × PersistentConnection
connect target n c =
    if live c
    then (true, c)
    else if n.resolve_error
    then (false, c)
    else if target.use_tls
    then after_setup true n (setup_context target.host n c.tls_context c)
    else after_setup false n (true, record c { stream = true })

unfoldable pub send_once :
    Target → Answers → PersistentConnection → SendOutcome × PersistentConnection
send_once target n c =
    let (ready, c') = connect target n c in if ready then exchange n c' else (retryable_failure, c')
