-- ===== src/HttpSink/Url.antt =====
-- HttpSink::parse_url (gateway/src/http_sink.cpp).
pub mod Laws
use edge_flow.Prelude.{
  ℕ, Bool, true, false, List, [], ◌∷◌, ◌++◌, ◌||◌, Option, none, some, if◌then◌else◌, drop,
}
use edge_flow.Prelude.Except.{Text, Except, ok, throw, invalid_argument}
use edge_flow.Prelude.Text.{codes, starts_with, is_empty, split_at}

pub record Target : Type 0 where
  pub host : Text
  pub port : Text
  pub path : Text
  pub use_tls : Bool

abbrev pub plain_scheme : Text
plain_scheme = codes "http://"

abbrev pub tls_scheme : Text
tls_scheme = codes "https://"

abbrev pub default_port : Bool → Text
default_port use_tls = if use_tls then codes "443" else codes "80"

-- The part from the search for ':' on. A ':' must have a host before it and a port behind it.
abbrev pub host_and_port : Text → Bool → Text → Text → Option (Text × Text) → Except Target
host_and_port url use_tls path authority none =
    ok (record { host = authority; port = default_port use_tls; path = path; use_tls = use_tls })
host_and_port url use_tls path authority (some (host, port)) =
    if is_empty host || is_empty port
    then throw (invalid_argument (codes "--sink-url has a malformed host:port: " ++ url))
    else ok (record { host = host; port = port; path = path; use_tls = use_tls })

abbrev pub parse_authority : Text → Bool → Text → Text → Except Target
parse_authority url use_tls authority path =
    if is_empty authority
    then throw (invalid_argument (codes "--sink-url has no host: " ++ url))
    else host_and_port url use_tls path authority (split_at b':' authority)

-- The authority is what stands before the first '/', the path what stands from it on.
abbrev pub parse_rest : Text → Bool → Text → Option (Text × Text) → Except Target
parse_rest url use_tls rest none = parse_authority url use_tls rest (codes "/")
parse_rest url use_tls rest (some (authority, after)) =
    parse_authority url use_tls authority (b'/' ∷ after)

unfoldable pub parse_url : Text → Except Target
parse_url url =
    if starts_with url tls_scheme
    then parse_rest url true (drop 8 url) (split_at b'/' (drop 8 url))
    else if starts_with url plain_scheme
    then parse_rest url false (drop 7 url) (split_at b'/' (drop 7 url))
    else throw
        (invalid_argument (codes "--sink-url must start with http:// or https:// , got: " ++ url))
