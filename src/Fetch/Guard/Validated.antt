-- ===== src/Fetch/Guard/Validated.antt =====
-- What a validated target promises, and what one forbidden address does.
use aedifex.Prelude.{
  ℕ, ◌<◌, ◌^◌, ◌≡◌, ◌≢◌, ◌⊎◌, refl, inl, inr, none, List, [], ◌∷◌, All, In, Option-cases,
}
use aedifex.Prelude.Text.{Text}
use aedifex.Fetch.Addresses.{IpAddress, ipv4, ipv6, dotted, classify_address}
use aedifex.Fetch.Addresses.Routable.{IsPublic, IsGlobalUnicast, IsSiteLocal}
use aedifex.Fetch.Hosts.{SourceHostPolicy, canonical_host}
use aedifex.Fetch.Hosts.Permitted.{IsPermitted, permits_iff}
use aedifex.Fetch.Urls.{
  ◌>>=◌, reject_if, rejected, forbidden_address, NormalizedUrl, allowed_schemes, allowed_ports,
}
use aedifex.Fetch.Urls.Normalized.{IsName}
use aedifex.Fetch.Guard.{
  ValidatedTarget, Resolution, answers, resolve_once, forbidden_of, validate_every_address,
  validate_normalized,
}

-- Where a connection may go: a public IPv4 address, or a global unicast or site-local IPv6 address.
abbrev pub IsReachable : IpAddress → Type 0
IsReachable (ipv4 n) =
    (a b c d : ℕ) → a < 256 → b < 256 → c < 256 → d < 256 → dotted a b c d ≡ n → IsPublic a b
IsReachable (ipv6 n) = n < 2 ^ 128 → IsGlobalUnicast n ⊎ IsSiteLocal n

forbidden_of-some :
    (found : List IpAddress) (a : IpAddress)
    → In a found
    → classify_address a ≢ none
    → forbidden_of found ≢ []
unfolding forbidden_of
forbidden_of-some [] a i bad e = i
forbidden_of-some (x ∷ more) a i bad e = elim (Option-cases (classify_address x)) [
  | inl fine ↦ elim i [
    | inl same ↦ bad (cc)
    | inr later ↦ forbidden_of-some more a later bad (rw (fine, forbidden_of) at e)
  ]
  | inr (r, refused) ↦ absurd (cc (rw (refused, forbidden_of) at e))
]

List-cases : {A : Type 0} (xs : List A) → (xs ≡ []) ⊎ ((x : A) × (rest : List A) × (xs ≡ x ∷ rest))
List-cases [] = inl refl
List-cases (x ∷ xs) = inr (x, xs, refl)

validate_every_address-rejected :
    (found : List IpAddress) (a : IpAddress)
    → In a found
    → classify_address a ≢ none
    → validate_every_address found ≡ rejected forbidden_address
unfolding validate_every_address
validate_every_address-rejected found a i bad = elim (List-cases (forbidden_of found)) [
  | inl nothing ↦ absurd (forbidden_of-some found a i bad nothing)
  | inr (f, rest, some_found) ↦ rw (some_found, validate_every_address) refl
]

module _ (resolve : Text → ℕ → Resolution) (policy : SourceHostPolicy) where
  -- The target is one the source may ask for, and every address that the one resolution gave, the
  -- one connected to among them, may be connected to.
  pub record IsValidated (t : ValidatedTarget) : Type 0 where
    pub scheme : In t.scheme allowed_schemes
    pub port : In t.port allowed_ports
    pub name : IsName t.hostname
    pub host : IsPermitted policy (canonical_host t.hostname)
    pub source : t.source_id ≡ policy.source_id
    pub resolved : resolve t.hostname t.port ≡ answers t.validated_addresses
    pub connected : In t.ip_address t.validated_addresses
    pub reachable : All IsReachable t.validated_addresses

  -- Where one address of the resolution is forbidden, the URL is rejected for it, whatever the
  -- other addresses are: none of them is connected to.
  pub validate_normalized-rejected :
      (u : NormalizedUrl) (found : List IpAddress) (a : IpAddress)
      → u.ip_literal ≡ none
      → IsPermitted policy (canonical_host u.host)
      → resolve u.host u.port ≡ answers found
      → In a found
      → classify_address a ≢ none
      → validate_normalized resolve policy u ≡ rejected forbidden_address
  unfolding validate_normalized ◌>>=◌ reject_if resolve_once
  validate_normalized-rejected u [] a literal host resolved i bad = absurd i
  validate_normalized-rejected u (x ∷ more) a literal host resolved i bad =
      rw
        (
          literal,
          (permits_iff policy u.host).1 host,
          resolved,
          validate_every_address-rejected (x ∷ more) a i bad,
        )
        refl
