-- ===== src/Fetch/Guard.antt =====
-- src/aedifex/acquisition/fetch/guard.py and the answers of src/aedifex/acquisition/fetch/resolver.py:
-- one request's way from a raw URL to the address that the transport connects to. The resolver is a
-- function of the host and the port. A target keeps no time, and an address that no literal gives.
pub mod Validated
pub mod Chain
use aedifex.Prelude.{ℕ, Bool, true, false, not, Option, none, some, List, [], ◌∷◌, if◌then◌else◌}
use aedifex.Prelude.Text.{Text}
use aedifex.Fetch.Addresses.{IpAddress, AddressRejection, classify_address}
use aedifex.Fetch.Hosts.{SourceHostPolicy, permits}
use aedifex.Fetch.Urls.{
  RejectionReason, ip_literal_not_allowed, host_not_allowed_for_source, unresolvable_host,
  no_addresses_returned, malformed_dns_answer, forbidden_address, Checked, ok, rejected, ◌>>=◌,
  ◌>>◌, reject_if, UrlLibrary, NormalizedUrl, normalize_url, to_url,
}

pub record ValidatedTarget : Type 0 where
  pub url : Text
  pub scheme : Text
  pub hostname : Text
  pub port : ℕ
  pub ip_address : IpAddress
  pub source_id : Text
  pub validated_addresses : List IpAddress
  pub was_ip_literal : Bool

-- the addresses of a resolution, or what `resolve` raises
pub data Resolution : Type 0 where
  answers : List IpAddress → Resolution
  unparseable : Resolution
  os_error : Resolution

-- `_resolve_once`, of what the resolver gave
unfoldable pub resolve_once : Resolution → Checked (List IpAddress)
resolve_once unparseable = rejected malformed_dns_answer
resolve_once os_error = rejected unresolvable_host
resolve_once (answers []) = rejected no_addresses_returned
resolve_once (answers (a ∷ more)) = ok (a ∷ more)

-- the loop of `_validate_every_address`
unfoldable pub forbidden_of : List IpAddress → List (IpAddress × AddressRejection)
forbidden_of [] = []
forbidden_of (a ∷ more) =
    let rest = forbidden_of more in
    elim (classify_address a) [ none ↦ rest | some r ↦ (a, r) ∷ rest ]

-- `_validate_every_address`
unfoldable pub validate_every_address : List IpAddress → Checked (List IpAddress)
unfolding forbidden_of
validate_every_address found = elim (forbidden_of found) [
  | [] ↦ ok found
  | f ∷ more ↦ rejected forbidden_address
]

-- the target of the validated addresses, the first of which is connected to
target_of : SourceHostPolicy → NormalizedUrl → List IpAddress → Checked ValidatedTarget
target_of policy u [] = rejected no_addresses_returned
target_of policy u (first ∷ more) = ok (record {
  url = to_url u;
  scheme = u.scheme;
  hostname = u.host;
  port = u.port;
  ip_address = first;
  source_id = policy.source_id;
  validated_addresses = first ∷ more;
  was_ip_literal = false;
})

abbrev is_some : {A : Type 0} → Option A → Bool
is_some none = false
is_some (some a) = true

module _ (resolve : Text → ℕ → Resolution) (policy : SourceHostPolicy) where
  -- `validate_url` below the normalisation
  unfoldable pub validate_normalized : NormalizedUrl → Checked ValidatedTarget
  unfolding resolve_once validate_every_address target_of
  validate_normalized u = do
    reject_if (is_some u.ip_literal) ip_literal_not_allowed
    reject_if (not (permits policy u.host)) host_not_allowed_for_source
    addresses ← resolve_once (resolve u.host u.port)
    validated ← validate_every_address addresses
    target_of policy u validated

  -- `validate_url`
  unfoldable pub validate_url : UrlLibrary → Text → Checked ValidatedTarget
  unfolding validate_normalized
  validate_url lib raw_url = normalize_url lib raw_url >>= validate_normalized
