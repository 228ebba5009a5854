-- ===== src/Fetch/Guard/Chain.antt =====
-- The guard of src/aedifex/acquisition/fetch/guard.py as the one that the redirect loop of
-- src/aedifex/acquisition/fetch/redirect_controller.py asks before each hop.
use aedifex.Prelude.{ℕ, ◌≡◌, Option, none, some}
use aedifex.Prelude.Text.{Text}
use aedifex.Fetch.Hosts.{SourceHostPolicy}
use aedifex.Fetch.Urls.{Checked, ok, rejected, UrlLibrary}
use aedifex.Fetch.Guard.{ValidatedTarget, Resolution, validate_url}
use aedifex.Fetch.Guard.Validated.{IsValidated}
use aedifex.Fetch.RedirectController as Hops
use aedifex.Fetch.RedirectController.{Request, Answer, Environment}

-- what the loop reads of a target
unfoldable pub seen_by_loop : ValidatedTarget → Hops.ValidatedTarget
seen_by_loop t = record { url = t.url; scheme = t.scheme; hostname = t.hostname }

unfoldable pub validate_hop : Checked ValidatedTarget → Option Hops.ValidatedTarget
unfolding seen_by_loop
validate_hop (ok t) = some (seen_by_loop t)
validate_hop (rejected r) = none

module _ (resolve : Text → ℕ → Resolution) (policy : SourceHostPolicy) (lib : UrlLibrary)
    (perform : ℕ → Hops.ValidatedTarget → Request → Answer) (host_of : Text → Option Text)
    (urljoin : Text → Text → Option Text) where
  -- the environment of a chain of one source
  unfoldable pub guarded : Environment
  guarded = record {
    validate = λ url. validate_hop (validate_url resolve policy lib url);
    perform = perform;
    host_of = host_of;
    urljoin = urljoin;
  }

  -- A target that the guard validated for the source.
  abbrev pub IsGuarded : Hops.ValidatedTarget × Request → Type 0
  IsGuarded (target, request) =
      (t : ValidatedTarget) × (target ≡ seen_by_loop t) × IsValidated resolve policy t
