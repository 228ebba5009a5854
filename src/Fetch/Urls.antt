-- ===== src/Fetch/Urls.antt =====
-- src/aedifex/acquisition/fetch/urls.py: normalize_url, which turns a URL down or gives its checked
-- parts. What `urlsplit`, `ipaddress.ip_address` and the IDNA codec make of a text are fields of a
-- record that the definitions take. Since a URL has no line breaks, `$` of the label pattern is the
-- end. `lower` folds ASCII letters.
pub mod Postconditions
pub mod Normalized
use aedifex.Prelude.{
  ℕ, zero, suc, Bool, true, false, not, ◌&&◌, ◌||◌, Option, none, some, List, [], ◌∷◌, ◌++◌, ◌==◌,
  leb, ltb, if◌then◌else◌, length, any_of,
}
use aedifex.Prelude.Text.{
  Text, codes, text_eq, is_among, starts_with, contains, strip, lower, strip_of, rstrip_of,
  ends_with, split_on,
}
use aedifex.Fetch.Addresses.{IpAddress}
use aedifex.Fetch.Hosts.{is_bracket, is_dot}

abbrev pub allowed_schemes : List Text
allowed_schemes = codes "http" ∷ codes "https" ∷ []

abbrev pub allowed_ports : List ℕ
allowed_ports = 80 ∷ 443 ∷ []

-- `_DEFAULT_PORTS`, of an allowed scheme
abbrev pub default_port : Text → ℕ
default_port scheme = if text_eq scheme (codes "https") then 443 else 80

abbrev pub forbidden_suffixes : List Text
forbidden_suffixes =
    codes ".local"
    ∷ codes ".internal"
    ∷ codes ".localdomain"
    ∷ codes ".localhost"
    ∷ codes ".home"
    ∷ codes ".lan"
    ∷ codes ".corp"
    ∷ codes ".intranet"
    ∷ []

abbrev pub max_hostname_length : ℕ
max_hostname_length = 253

abbrev pub max_url_length : ℕ
max_url_length = 2048

pub data RejectionReason : Type 0 where
  malformed_url url_too_long disallowed_scheme embedded_credentials missing_host malformed_host
        forbidden_host_suffix single_label_host disallowed_port host_not_allowed_for_source
        ip_literal_not_allowed unresolvable_host no_addresses_returned malformed_dns_answer
        forbidden_address too_many_redirects redirect_loop :
      RejectionReason

-- a value, or `SsrfRejectionError` with its reason
pub data Checked (A : Type 0) : Type 0 where
  ok : A → Checked A
  rejected : RejectionReason → Checked A

infixl 5 ◌>>=◌ ◌>>◌
unfoldable pub ◌>>=◌ : {A B : Type 0} → Checked A → (A → Checked B) → Checked B
ok a >>= f = f a
rejected r >>= f = rejected r

abbrev pub ◌>>◌ : {B : Type 0} → Checked (Unit {0}) → Checked B → Checked B
m >> k = m >>= λ _. k

-- raises where the test holds
unfoldable pub reject_if : Bool → RejectionReason → Checked (Unit {0})
reject_if true r = rejected r
reject_if false r = ok tt

-- the value, or the rejection of a missing one
unfoldable pub require : {A : Type 0} → Option A → RejectionReason → Checked A
require none r = rejected r
require (some a) r = ok a

-- the parts that `urlsplit` gives; `none` where `.hostname` or `.port` raises
pub record UrlParts : Type 0 where
  pub scheme : Text
  pub netloc : Text
  pub path : Text
  pub query : Text
  pub has_username : Bool
  pub has_password : Bool
  pub hostname : Option (Option Text)
  pub port : Option (Option ℕ)

pub record UrlLibrary : Type 0 where
  pub urlsplit : Text → Option UrlParts
  pub ip_address : Text → Option IpAddress
  pub format_ip : IpAddress → Text
  pub to_ascii : Text → Option Text
  pub is_decodable : Text → Bool

pub record NormalizedUrl : Type 0 where
  pub scheme : Text
  pub host : Text
  pub port : ℕ
  pub path : Text
  pub query : Text
  pub ip_literal : Option IpAddress

abbrev is_alnum : ℕ → Bool
is_alnum c = (leb b'a' c && leb c b'z') || (leb b'0' c && leb c b'9')

-- the rest of a label: at most that many characters, the last of them no hyphen
unfoldable pub is_label_rest : ℕ → Text → Bool
is_label_rest room [] = true
is_label_rest zero (c ∷ s) = false
is_label_rest (suc room) (c ∷ []) = is_alnum c
is_label_rest (suc room) (c ∷ d ∷ s) = (is_alnum c || c == b'-') && is_label_rest room (d ∷ s)

-- `_LABEL.match(label)`
unfoldable pub is_label : Text → Bool
unfolding is_label_rest
is_label [] = false
is_label (c ∷ s) = is_alnum c && is_label_rest 62 s

abbrev pub is_control : ℕ → Bool
is_control c = c == 10 || c == 13 || c == 9 || c == 0

module _ (lib : UrlLibrary) where
  -- the IDNA step
  unfoldable pub ascii_host : Text → Checked Text
  ascii_host host =
      if any_of (λ c. ltb 127 c) host then require (lib.to_ascii host) malformed_host else ok host

  -- the checks on the name of a host that is no IP literal
  unfoldable pub check_name : Text → Checked Text
  unfolding ascii_host split_on is_label ends_with starts_with
  check_name stripped = do
    reject_if (ltb max_hostname_length (length stripped)) malformed_host
    host ← ascii_host stripped
    let labels = split_on b'.' host
    reject_if (ltb (length labels) 2) single_label_host
    reject_if (any_of (λ label. not (is_label label)) labels) malformed_host
    reject_if
        (any_of (λ label. starts_with (codes "xn--") label && not (lib.is_decodable label)) labels)
        malformed_host
    reject_if (any_of (λ suffix. ends_with suffix host) forbidden_suffixes) forbidden_host_suffix
    ok host

  -- `_normalize_host`
  unfoldable pub normalize_host : Text → Checked (Text × Option IpAddress)
  unfolding check_name strip lower strip_of rstrip_of text_eq
  normalize_host raw_host =
      let host = rstrip_of is_dot (strip_of is_bracket (lower (strip raw_host))) in
      if text_eq host [] then rejected missing_host else elim (lib.ip_address host) [
        | some address ↦ ok (lib.format_ip address, some address)
        | none ↦ check_name host >>= λ name. ok (name, none)
      ]

  -- the checks from the scheme on
  unfoldable pub normalize_parts : UrlParts → Checked NormalizedUrl
  unfolding normalize_host contains
  normalize_parts parts = do
    let scheme = lower parts.scheme
    reject_if (not (is_among scheme allowed_schemes)) disallowed_scheme
    reject_if (parts.has_username || parts.has_password || contains (codes "@") parts.netloc)
        embedded_credentials
    hostname ← require parts.hostname malformed_host
    raw_host ← require hostname missing_host
    reject_if (text_eq raw_host []) missing_host
    port ← require parts.port malformed_url
    let resolved_port = elim port as (λ _. ℕ) [ none ↦ default_port scheme | some p ↦ p ]
    reject_if (not (any_of (λ p. p == resolved_port) allowed_ports)) disallowed_port
    (host, literal) ← normalize_host raw_host
    ok (record {
      scheme = scheme;
      host = host;
      port = resolved_port;
      path = parts.path;
      query = parts.query;
      ip_literal = literal;
    })

  -- `normalize_url`
  unfoldable pub normalize_url : Text → Checked NormalizedUrl
  unfolding normalize_parts
  normalize_url raw = do
    let candidate = strip raw
    reject_if (text_eq candidate []) malformed_url
    reject_if (ltb max_url_length (length candidate)) url_too_long
    reject_if (any_of is_control candidate) malformed_url
    parts ← require (lib.urlsplit candidate) malformed_url
    normalize_parts parts

abbrev port_text : ℕ → Text
port_text port = if port == 80 then codes ":80" else codes ":443"

-- `netloc`, of one of the allowed ports
unfoldable pub netloc_of : NormalizedUrl → Text
unfolding contains text_eq
netloc_of u =
    let host = elim u.ip_literal as (λ _. Text) [
      | none ↦ u.host
      | some a ↦ if contains (codes ":") u.host then b'[' ∷ u.host ++ codes "]" else u.host
    ] in
    if u.port == default_port u.scheme then host else host ++ port_text u.port

-- `to_url`, with what `urlunsplit` does with a scheme, a netloc and no fragment
unfoldable pub to_url : NormalizedUrl → Text
unfolding netloc_of starts_with
to_url u =
    let path = if text_eq u.path [] then codes "/" else u.path in
    let rooted = if starts_with (codes "/") path then path else b'/' ∷ path in
    let url = u.scheme ++ (codes "://" ++ (netloc_of u ++ rooted)) in
    if text_eq u.query [] then url else url ++ (b'?' ∷ u.query)
