-- ===== src/HttpSink/Url/Laws.antt =====
-- What parse_url accepts, and what it takes from it.
use edge_flow.Prelude.{
  ℕ, ◌≡◌, refl, ◌∙◌, inl, inr, Bool, true, false, [], ◌∷◌, ◌++◌, Option, none, some, arith,
  if◌then◌else◌, drop, Bool-cases,
}
use edge_flow.Prelude.Except.{Text, ok}
use edge_flow.Prelude.Text.{
  codes, starts_with, is_empty, split_at, Lacks, split_at-append, split_at-Lacks,
}
use edge_flow.HttpSink.Url.{
  Target, plain_scheme, tls_scheme, default_port, host_and_port, parse_authority, parse_rest,
  parse_url,
}

abbrev pub scheme : Bool → Text
scheme use_tls = if use_tls then tls_scheme else plain_scheme

-- The scheme is taken off, whichever it is.
parse_url-scheme :
    (use_tls : Bool) (rest : Text)
    → parse_url (scheme use_tls ++ rest)
      ≡ parse_rest (scheme use_tls ++ rest) use_tls rest (split_at b'/' rest)
unfolding parse_url
parse_url-scheme true rest = refl
parse_url-scheme false rest = refl

abbrev pub IsFilled : Text → Type 0
IsFilled s = is_empty s ≡ false

Lacks-append : (c : ℕ) (s t : Text) → Lacks c s → Lacks c t → Lacks c (s ++ t)
Lacks-append c [] t h k = k
Lacks-append c (d ∷ s) t h k = (h.0, Lacks-append c s t h.1 k)

is_empty-append : (s t : Text) → IsFilled s → is_empty (s ++ t) ≡ false
is_empty-append [] t h = cc
is_empty-append (c ∷ s) t h = refl

-- A host with no '/' or ':', a port with no '/', both not empty, and any path come back as written,
-- under either scheme.
pub parse_url_full :
    (use_tls : Bool) (host port path : Text)
    → IsFilled host
    → Lacks b'/' host
    → Lacks b':' host
    → IsFilled port
    → Lacks b'/' port
    → parse_url (scheme use_tls ++ ((host ++ b':' ∷ port) ++ b'/' ∷ path))
      ≡ ok (record { host = host; port = port; path = b'/' ∷ path; use_tls = use_tls })
parse_url_full use_tls host port path filled no_slash no_colon filled' no_slash' =
    parse_url-scheme use_tls ((host ++ b':' ∷ port) ++ b'/' ∷ path)
    ∙ rw (
      split_at-append b'/' (host ++ b':' ∷ port) path
          (Lacks-append b'/' host (b':' ∷ port) no_slash (refl, no_slash')),
      is_empty-append host (b':' ∷ port) filled,
      split_at-append b':' host port no_colon,
      filled,
      filled',
    )

-- With a host that is not empty and has no '/' or ':', and no port, that host comes back, with the port of
-- the scheme, and the path as written.
parse_url_default :
    (use_tls : Bool) (host path : Text)
    → IsFilled host
    → Lacks b'/' host
    → Lacks b':' host
    → parse_url (scheme use_tls ++ (host ++ b'/' ∷ path))
      ≡ ok (record {
        host = host;
        port = default_port use_tls;
        path = b'/' ∷ path;
        use_tls = use_tls;
      })
parse_url_default use_tls host path filled no_slash no_colon =
    parse_url-scheme use_tls (host ++ b'/' ∷ path)
    ∙ rw (split_at-append b'/' host path no_slash, split_at-Lacks b':' host no_colon, filled)

-- What holds of every target that is returned.
pub record IsTarget (url : Text) (t : Target) : Type 0 where
  pub has_host : is_empty t.host ≡ false
  pub has_port : is_empty t.port ≡ false
  pub rooted : starts_with t.path (codes "/") ≡ true
  pub scheme_kept : starts_with url (scheme t.use_tls) ≡ true

host_and_port-IsTarget :
    (url path authority : Text) (use_tls : Bool) (split : Option (Text × Text)) {t : Target}
    → starts_with url (scheme use_tls) ≡ true
    → starts_with path (codes "/") ≡ true
    → is_empty authority ≡ false
    → host_and_port url use_tls path authority split ≡ ok t
    → IsTarget url t
host_and_port-IsTarget url path authority true none s r f e = ground arith
host_and_port-IsTarget url path authority false none s r f e = ground arith
host_and_port-IsTarget url path authority use_tls (some (host, port)) s r f e = ground arith

parse_authority-IsTarget :
    (url authority path : Text) (use_tls : Bool) {t : Target}
    → starts_with url (scheme use_tls) ≡ true
    → starts_with path (codes "/") ≡ true
    → parse_authority url use_tls authority path ≡ ok t
    → IsTarget url t
parse_authority-IsTarget url [] path use_tls s r e = cc
parse_authority-IsTarget url (c ∷ authority) path use_tls s r e =
    host_and_port-IsTarget url path (c ∷ authority) use_tls (split_at b':' (c ∷ authority)) s r refl
      e

parse_rest-IsTarget :
    (url rest : Text) (use_tls : Bool) (split : Option (Text × Text)) {t : Target}
    → starts_with url (scheme use_tls) ≡ true
    → parse_rest url use_tls rest split ≡ ok t
    → IsTarget url t
parse_rest-IsTarget url rest use_tls none s e =
    parse_authority-IsTarget url rest (codes "/") use_tls s refl e
parse_rest-IsTarget url rest use_tls (some (authority, after)) s e =
    parse_authority-IsTarget url authority (b'/' ∷ after) use_tls s refl e

-- Every URL that is accepted gives a host and a port that are not empty and a path that begins with
-- '/'. The URL begins with https:// where the target uses TLS, and with http:// where it does not.
pub parse_url-IsTarget : (url : Text) {t : Target} → parse_url url ≡ ok t → IsTarget url t
unfolding parse_url
parse_url-IsTarget url {t} e = elim (Bool-cases (starts_with url tls_scheme)) [
  | inl tls ↦
      parse_rest-IsTarget url (drop 8 url) true (split_at b'/' (drop 8 url)) tls (rw tls at e)
  | inr not_tls ↦ elim (Bool-cases (starts_with url plain_scheme)) [
    | inl plain ↦
        parse_rest-IsTarget url (drop 7 url) false (split_at b'/' (drop 7 url)) plain
          (rw (not_tls, plain) at e)
    | inr neither ↦ let refused = rw (not_tls, neither) at e in cc refused
  ]
]
