-- ===== src/Fetch/Redirects.antt =====
-- src/aedifex/acquisition/fetch/redirects.py: whether a `Location` is followed.
-- `urljoin` is a parameter, with `none` for its `ValueError`. A reason is a value that stands for
-- the text of the decision.
pub mod Verdict
use aedifex.Prelude.{
  ℕ, ◌-◌, Bool, true, false, not, ◌&&◌, ◌||◌, Option, none, some, List, [], ◌∷◌, ◌==◌, leb, ltb,
  if◌then◌else◌, length, any_of,
}
use aedifex.Prelude.Text.{Text, codes, text_eq, is_among, starts_with, contains, strip, lower}

abbrev pub redirect_statuses : List ℕ
redirect_statuses = 301 ∷ 302 ∷ 303 ∷ 307 ∷ 308 ∷ []

abbrev pub is_redirect : ℕ → Bool
is_redirect status = any_of (λ n. status == n) redirect_statuses

abbrev pub rewrites_method : ℕ → Bool
rewrites_method status = status == 303

pub data Reason : Type 0 where
  not_followable no_location : ℕ → Reason
  too_many_hops : ℕ → Reason
  unresolvable : Text → Reason
  redirect_loop : Text → Reason
  downgrade : Reason
  needs_revalidation : ℕ → Text → Reason

pub data RedirectOutcome : Type 0 where
  follow reject : RedirectOutcome

pub record RedirectDecision : Type 0 where
  pub outcome : RedirectOutcome
  pub url : Option Text
  pub reason : Reason
  pub rewrite_method_to_get : Bool

abbrev rejected : Reason → RedirectDecision
rejected why = record { outcome = reject; url = none; reason = why; rewrite_method_to_get = false }

pub record RedirectPolicy : Type 0 where
  pub max_hops : ℕ
  pub allow_transport_downgrade : Bool

-- `__post_init__` raises `ValueError` where this is not so.
unfoldable pub policy_accepts : RedirectPolicy → Bool
policy_accepts p = if ltb p.max_hops 1 then false else true

-- `resolved.split("://", 1)[0]`
before_authority : Text → Text
before_authority [] = []
before_authority (c ∷ s) =
    let rest = before_authority s in if starts_with (codes "://") (c ∷ s) then [] else c ∷ rest

-- whether the redirect leaves https for http
unfoldable pub leaves_https : Text → Text → Bool
unfolding before_authority lower
leaves_https current_scheme resolved =
    text_eq (lower current_scheme) (codes "https")
    && text_eq (lower (before_authority resolved)) (codes "http")

abbrev is_blank : Text → Bool
is_blank [] = true
is_blank (c ∷ s) = false

module _ (urljoin : Text → Text → Option Text) where
  -- `_resolve`
  resolve : Text → Text → Option Text
  resolve location current_url =
      if any_of (λ c. c == 10 || c == 13 || c == 0) location
      then none
      else elim (urljoin current_url location) [
        | none ↦ none
        | some resolved ↦ if contains (codes "://") resolved then some resolved else none
      ]

  -- `evaluate` below the resolution of the location
  judge : RedirectPolicy → ℕ → Text → List Text → Text → RedirectDecision
  judge policy status current_scheme history resolved =
      if is_among resolved history
      then rejected (redirect_loop resolved)
      else if leaves_https current_scheme resolved && not policy.allow_transport_downgrade
      then rejected downgrade
      else record {
        outcome = follow;
        url = some resolved;
        reason = needs_revalidation status resolved;
        rewrite_method_to_get = rewrites_method status;
      }

  -- `evaluate` with a location that is not blank
  judge_location : RedirectPolicy → ℕ → Text → Text → Text → List Text → RedirectDecision
  judge_location policy status location current_url current_scheme history =
      if leb policy.max_hops (length history - 1)
      then rejected (too_many_hops policy.max_hops)
      else elim (resolve location current_url) [
        | none ↦ rejected (unresolvable location)
        | some resolved ↦ judge policy status current_scheme history resolved
      ]

  unfoldable pub evaluate :
      RedirectPolicy → ℕ → Option Text → Text → Text → List Text → RedirectDecision
  unfolding judge_location resolve judge
  evaluate policy status location current_url current_scheme history =
      if not (is_redirect status) then rejected (not_followable status) else elim location [
        | none ↦ rejected (no_location status)
        | some raw ↦
            if is_blank (strip raw)
            then rejected (no_location status)
            else judge_location policy status (strip raw) current_url current_scheme history
      ]
