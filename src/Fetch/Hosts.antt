-- ===== src/Fetch/Hosts.antt =====
-- src/aedifex/acquisition/fetch/hosts.py: which hosts a source allows.
pub mod Permitted
use aedifex.Prelude.{
  ℕ, Bool, true, false, ◌&&◌, ◌||◌, Option, none, some, List, [], ◌∷◌, ◌++◌, ◌==◌, if◌then◌else◌,
  any_of, map,
}
use aedifex.Prelude.Text.{Text, text_eq, is_among, strip, lower, strip_of, rstrip_of, ends_with}

pub record SourceHostPolicy : Type 0 where
  pub source_id : Text
  pub base_hosts : List Text
  pub exact_hosts : List Text

abbrev pub is_bracket : ℕ → Bool
is_bracket c = c == b'[' || c == b']'

abbrev pub is_dot : ℕ → Bool
is_dot c = c == b'.'

-- `_canonical`
unfoldable pub canonical_host : Text → Text
unfolding strip lower strip_of rstrip_of
canonical_host host = rstrip_of is_dot (strip_of is_bracket (lower (strip host)))

-- `from_source`, for the host of the base URL and the additional hosts; `none` where it raises
unfoldable pub from_source : Text → Option Text → List Text → Option SourceHostPolicy
unfolding canonical_host text_eq
from_source source_id none additional = none
from_source source_id (some host) additional =
    if text_eq host []
    then none
    else some (record {
      source_id = source_id;
      base_hosts = canonical_host host ∷ [];
      exact_hosts = map canonical_host additional;
    })

-- the base host or a host below it
unfoldable pub is_below : Text → Text → Bool
unfolding text_eq ends_with
is_below candidate base = text_eq candidate base || ends_with (b'.' ∷ base) candidate

-- `permits`
unfoldable pub permits : SourceHostPolicy → Text → Bool
unfolding canonical_host is_below
permits policy host =
    let candidate = canonical_host host in
    if text_eq candidate []
    then false
    else if is_among candidate policy.exact_hosts
    then true
    else any_of (is_below candidate) policy.base_hosts
