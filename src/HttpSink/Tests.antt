-- ===== src/HttpSink/Tests.antt =====
-- The HTTP sink at concrete inputs.
use edge_flow.Prelude.{ℕ, zero, suc, ◌≡◌, refl, true, false, arith}
use edge_flow.Prelude.Except.{ok}
use edge_flow.Prelude.Text.{codes}
use edge_flow.Stats.{no_stats}
use edge_flow.HttpSink.Url.{Target, parse_url}
use edge_flow.HttpSink.Url.Laws.{IsTarget, parse_url_full, parse_url-IsTarget}
use edge_flow.HttpSink.Send.{
  Answers, no_connection, live, send_once, classify, exchange, connect, setup_context, setup_tls,
  after_setup,
}
use edge_flow.HttpSink.Send.Secure.{IsSecure, of_scheme, send_once-IsSecure}
use edge_flow.HttpSink.Send.Kept.{StandsFor, send_once_kept}
use edge_flow.HttpSink.Retry.{send_with_retries}
use edge_flow.HttpSink.Retry.Laws.{IsBounded, send_with_retries-IsBounded}
use edge_flow.HttpSink.Keys.{Keys, mint, IsDistinct, mint-IsDistinct}

parse_url_full_example :
    parse_url (codes "https://edge.example:8443/ingest")
    ≡ ok (record {
      host = codes "edge.example";
      port = codes "8443";
      path = codes "/ingest";
      use_tls = true;
    })
parse_url_full_example =
    parse_url_full true (codes "edge.example") (codes "8443") (codes "ingest") refl (ground arith)
      (ground arith) refl (ground arith)

abbrev to_ingest : Target
to_ingest = record {
  host = codes "edge.example";
  port = codes "80";
  path = codes "/ingest";
  use_tls = false;
}

to_ingest_parsed : parse_url (codes "http://edge.example/ingest") ≡ ok to_ingest
unfolding parse_url
to_ingest_parsed = refl

parse_url-IsTarget_example : IsTarget (codes "http://edge.example/ingest") to_ingest
parse_url-IsTarget_example =
    parse_url-IsTarget (codes "http://edge.example/ingest") to_ingest_parsed

-- A backend that answers with the status, and with no error.
abbrev healthy : ℕ → Answers
healthy status = record {
  resolve_error = false;
  trust_error = false;
  server_name_set = true;
  connect_error = false;
  handshake_error = false;
  exchange_error = false;
  keep_alive = true;
  status = status;
}

-- A trust store that cannot be loaded.
abbrev untrusted : Answers
untrusted = record (healthy 200) { trust_error = true }

-- The target, and the same over TLS.
abbrev over_tls : Target
over_tls = record to_ingest { port = codes "443"; use_tls = true }

-- A context that was thrown away: nothing is exchanged.
untrusted-no_exchange : connect over_tls untrusted no_connection ≡ (false, no_connection)
unfolding connect setup_context after_setup
untrusted-no_exchange = refl

send_once-IsSecure_example :
    IsSecure over_tls (connect over_tls (healthy 200) no_connection).1
    × (of_scheme true (connect over_tls (healthy 200) no_connection).1
        ≡ (connect over_tls (healthy 200) no_connection).0)
    × IsSecure over_tls (send_once over_tls (healthy 200) no_connection).1
send_once-IsSecure_example = send_once-IsSecure over_tls (healthy 200) no_connection (refl, tt, tt)

healthy-kept : live (send_once over_tls (healthy 503) no_connection).1 ≡ true
unfolding send_once exchange connect setup_context setup_tls after_setup
healthy-kept = refl

send_once_kept_example :
    ((healthy 503).exchange_error ≡ false)
    × ((healthy 503).keep_alive ≡ true)
    × ((send_once over_tls (healthy 503) no_connection).0 ≡ classify 503)
    × StandsFor (send_once over_tls (healthy 503) no_connection).0 503
send_once_kept_example = send_once_kept over_tls (healthy 503) no_connection healthy-kept

-- The backend is busy at the first attempt, and takes the batch at the second.
abbrev busy_once : ℕ → Answers
busy_once zero = healthy 503
busy_once (suc i) = healthy 202

send_with_retries-IsBounded_example :
    IsBounded to_ingest busy_once 4 0 100 no_connection no_stats
      (send_with_retries to_ingest busy_once (λ i. 50) 3 100 no_connection no_stats)
send_with_retries-IsBounded_example =
    send_with_retries-IsBounded to_ingest busy_once (λ i. 50) 3 100 no_connection no_stats
      (ground arith) (omega arith)

abbrev new_keys : Keys
new_keys = record { key_prefix = codes "00ff00ff00ff00ff"; key_counter = 0 }

mint-IsDistinct_example : IsDistinct (mint 5 new_keys)
mint-IsDistinct_example = mint-IsDistinct 5 new_keys (omega arith)
