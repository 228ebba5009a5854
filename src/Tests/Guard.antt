-- ===== src/Tests/Guard.antt =====
-- Addresses, hosts, URLs and the guard at concrete inputs.
use aedifex.Prelude.{
  ℕ, ◌+◌, ◌*◌, ◌^◌, ◌/◌, ◌≡◌, ◌≢◌, ◌↔◌, refl, ◌⊎◌, inl, inr, true, false, none, some, [], ◌∷◌,
  if◌then◌else◌, arith,
}
use aedifex.Prelude.Text.{Text, codes, text_eq}
use aedifex.Fetch.Addresses.{ipv4, ipv6, dotted, groups, classify_address}
use aedifex.Fetch.Addresses.Routable.{
  IsPublic, classify_ipv4-IsPublic, IsGlobalUnicast, IsSiteLocal, classify_ipv6-IsGlobalUnicast,
}
use aedifex.Fetch.Hosts.{SourceHostPolicy, canonical_host, from_source, permits}
use aedifex.Fetch.Hosts.Permitted.{IsPermitted, permits_iff}
use aedifex.Fetch.Urls.{
  ◌>>=◌, reject_if, require, ok, rejected, forbidden_address, UrlParts, UrlLibrary, NormalizedUrl,
  normalize_url, to_url,
}
use aedifex.Fetch.Urls.Normalized.{IsNormalized, normalize_url-IsNormalized}
use aedifex.Fetch.Guard.{ValidatedTarget, Resolution, answers, validate_normalized}
use aedifex.Fetch.Guard.Validated.{validate_normalized-rejected}
use aedifex.Fetch.Redirects.{RedirectPolicy}
use aedifex.Fetch.RedirectController.{Request}

abbrev public_dns : ℕ
public_dns = dotted 8 8 8 8

public_dns_accepted : classify_address (ipv4 (dotted 8 8 8 8)) ≡ none
unfolding classify_address
public_dns_accepted = refl

classify_ipv4-IsPublic_example : IsPublic 8 8
classify_ipv4-IsPublic_example =
    classify_ipv4-IsPublic 8 8 8 8 (omega arith) (omega arith) (omega arith) (omega arith)
      public_dns_accepted

abbrev cdn : ℕ
cdn = groups 0x2606 0x4700 * 2 ^ 96

cdn_accepted : classify_address (ipv6 cdn) ≡ none
unfolding classify_address
cdn_accepted = refl

abbrev policy : SourceHostPolicy
policy = record {
  source_id = codes "nhai";
  base_hosts = codes "nhai.gov.in" ∷ [];
  exact_hosts = codes "cdn.example.com" ∷ [];
}

abbrev page : Text
page = codes "https://www.nhai.gov.in/tenders"

abbrev page_parts : UrlParts
page_parts = record {
  scheme = codes "https";
  netloc = codes "www.nhai.gov.in";
  path = codes "/tenders";
  query = [];
  has_username = false;
  has_password = false;
  hostname = some (some (codes "www.nhai.gov.in"));
  port = some none;
}

abbrev page_url : NormalizedUrl
page_url = record {
  scheme = codes "https";
  host = codes "www.nhai.gov.in";
  port = 443;
  path = codes "/tenders";
  query = [];
  ip_literal = none;
}

abbrev lib : UrlLibrary
lib = record {
  urlsplit = λ url. if text_eq url page then some page_parts else none;
  ip_address = λ host. none;
  format_ip = λ address. codes "192.0.2.1";
  to_ascii = λ host. none;
  is_decodable = λ label. true;
}

abbrev resolve_public : Text → ℕ → Resolution
resolve_public host port = answers (ipv4 public_dns ∷ [])

abbrev resolve_mixed : Text → ℕ → Resolution
resolve_mixed host port = answers (ipv4 public_dns ∷ ipv4 (dotted 10 0 0 1) ∷ [])

page_accepted : normalize_url lib page ≡ ok page_url
unfolding normalize_url text_eq ◌>>=◌ reject_if require
page_accepted = refl

normalize_url-IsNormalized_example : IsNormalized page_url
normalize_url-IsNormalized_example = normalize_url-IsNormalized lib page page_url page_accepted

page_printed : to_url page_url ≡ page
unfolding to_url
page_printed = refl

abbrev page_target : ValidatedTarget
page_target = record {
  url = page;
  scheme = codes "https";
  hostname = codes "www.nhai.gov.in";
  port = 443;
  ip_address = ipv4 public_dns;
  source_id = codes "nhai";
  validated_addresses = ipv4 public_dns ∷ [];
  was_ip_literal = false;
}

classify_ipv6-IsGlobalUnicast_example :
    (IsGlobalUnicast cdn ⊎ IsSiteLocal cdn)
    × (cdn / 2 ^ 112 ≢ 0x2002)
    × (cdn / 2 ^ 96 ≢ groups 0x2001 0)
    × (cdn / 2 ^ 96 ≢ groups 0x64 0xff9b)
classify_ipv6-IsGlobalUnicast_example = classify_ipv6-IsGlobalUnicast cdn (omega arith) cdn_accepted

-- fec0::1 is accepted.
site_local_accepted : classify_address (ipv6 (groups 0xfec0 0 * 2 ^ 96 + 1)) ≡ none
unfolding classify_address
site_local_accepted = refl

permits_iff_example :
    (permits policy (codes "www.nhai.gov.in") ≡ true)
    ↔ IsPermitted policy (canonical_host (codes "www.nhai.gov.in"))
permits_iff_example = permits_iff policy (codes "www.nhai.gov.in")

refuses_lookalike : permits policy (codes "evilnhai.gov.in") ≡ false
unfolding permits text_eq
refuses_lookalike = refl

from_url :
    from_source (codes "nhai") (some (codes "NHAI.gov.in.")) []
    ≡ some (record {
      source_id = codes "nhai";
      base_hosts = codes "nhai.gov.in" ∷ [];
      exact_hosts = [];
    })
unfolding from_source
from_url = refl

page_permitted : permits policy page_url.host ≡ true
unfolding permits text_eq
page_permitted = refl

private_refused : classify_address (ipv4 (dotted 10 0 0 1)) ≢ none
unfolding classify_address
private_refused e = cc

validate_normalized-rejected_example :
    validate_normalized resolve_mixed policy page_url ≡ rejected forbidden_address
validate_normalized-rejected_example =
    validate_normalized-rejected resolve_mixed policy page_url
      (ipv4 public_dns ∷ ipv4 (dotted 10 0 0 1) ∷ []) (ipv4 (dotted 10 0 0 1)) refl
      ((permits_iff policy page_url.host).0 page_permitted) refl (inr (inl refl)) private_refused

abbrev redirects : RedirectPolicy
redirects = record { max_hops = 5; allow_transport_downgrade = false }

abbrev asked : Request
asked = record { method = codes "GET"; headers = none; body = none }
