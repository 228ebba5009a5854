-- ===== src/Fetch/RedirectController.antt =====
-- src/aedifex/acquisition/fetch/redirect_controller.py: the loop over the hops of a chain.
-- The guard (`validate_url`), the retrying fetch of a hop and the host of a URL (`urlsplit`) are the
-- environment's. The requests handed to the retry controller are kept as a trace.
pub mod Loop
use aedifex.Prelude.{
  ℕ, zero, suc, ◌+◌, Bool, true, false, not, Option, none, some, List, [], ◌∷◌, ◌++◌, if◌then◌else◌,
  length,
}
use aedifex.Prelude.Text.{Text, codes, text_eq, is_among, lower}
use aedifex.Fetch.Retry.{AttemptOutcome, invalid_redirect, ssrf_rejected}
use aedifex.Fetch.Redirects.{
  is_redirect, RedirectOutcome, follow, reject, RedirectDecision, RedirectPolicy, evaluate,
}

-- The fields of `ValidatedTarget` that the loop reads.
pub record ValidatedTarget : Type 0 where
  pub url : Text
  pub scheme : Text
  pub hostname : Text

-- What the loop sends on: the method, the caller's headers and the body.
pub record Request : Type 0 where
  pub method : Text
  pub headers : Option Text
  pub body : Option Text

-- A response below 400 with its status and `Location`, or an exception of the retry controller.
pub data Answer : Type 0 where
  answered : ℕ → Option Text → Answer
  raised : AttemptOutcome → Answer

pub record Environment : Type 0 where
  pub validate : Text → Option ValidatedTarget  -- `none` is `SsrfRejectionError`
  pub perform : ℕ → ValidatedTarget → Request → Answer
  pub host_of : Text → Option Text  -- `none` where `urlsplit` raises or finds no host
  pub urljoin : Text → Text → Option Text

pub record RedirectHop : Type 0 where
  pub url : Text
  pub status_code : ℕ
  pub location : Option Text

pub data ChainOutcome : Type 0 where
  chain_result : Text → List RedirectHop → ChainOutcome
  redirect_rejected : AttemptOutcome → List RedirectHop → ChainOutcome
  fetch_raised : AttemptOutcome → ChainOutcome
  out_of_fuel : ChainOutcome

-- The variables of the loop, and the requests made, newest first.
pub record Chain : Type 0 where
  pub hops : List RedirectHop
  pub visited : List Text
  pub sent : List (ValidatedTarget × Request)

abbrev pub get_method : Text
get_method = codes "GET"

crosses_to : Text → Option Text → Bool
crosses_to current_hostname none = true
crosses_to current_hostname (some host) = not (text_eq (lower host) (lower current_hostname))

module _ (env : Environment) where
  -- `_crosses_host`
  unfoldable pub crosses_host : Text → Text → Bool
  unfolding crosses_to
  crosses_host current_hostname next_url = crosses_to current_hostname (env.host_of next_url)

  -- what the request becomes before the next hop
  unfoldable pub next_request : ValidatedTarget → Request → Text → Bool → Request
  next_request target request next_url rewrite_to_get =
      let rewritten =
        if rewrite_to_get then (record request { method = get_method; body = none }) else request in
      if crosses_host target.hostname next_url
      then (record { method = get_method; headers = none; body = none })
      else rewritten

  module _ (policy : RedirectPolicy) where
    abbrev should_follow : RedirectOutcome → Bool
    should_follow follow = true
    should_follow reject = false

    -- the loop's body below the decision
    on_decision :
        (Text → Request → Chain → ChainOutcome × Chain)
        → ValidatedTarget
        → Request
        → Chain
        → RedirectDecision
        → ChainOutcome × Chain
    on_decision next target request c decision =
        if not (should_follow decision.outcome)
        then (redirect_rejected invalid_redirect c.hops, c)
        else elim decision.url [
          | none ↦ (redirect_rejected invalid_redirect c.hops, c)
          | some next_url ↦
              next next_url (next_request target request next_url decision.rewrite_method_to_get) c
        ]

    -- the loop's body below the response: return it, or judge its redirect
    on_answer :
        (Text → Request → Chain → ChainOutcome × Chain)
        → ValidatedTarget
        → Request
        → Chain
        → Answer
        → ChainOutcome × Chain
    on_answer next target request c (raised outcome) = (fetch_raised outcome, c)
    on_answer next target request c (answered status location) =
        if not (is_redirect status)
        then (let done = record c {
          hops = c.hops ++ record { url = target.url; status_code = status; location = none } ∷ [];
        } in
            (chain_result target.url done.hops, done))
        else (let moved = record c {
          hops =
              c.hops ++ record { url = target.url; status_code = status; location = location } ∷ [];
        } in
            on_decision next target request moved
              (evaluate env.urljoin policy status location target.url target.scheme c.visited))

    -- the loop's body from the validated target on
    on_target :
        (Text → Request → Chain → ChainOutcome × Chain)
        → Request
        → Chain
        → ValidatedTarget
        → ChainOutcome × Chain
    on_target next request c target =
        if is_among target.url c.visited
        then (redirect_rejected invalid_redirect c.hops, c)
        else (let asked = record c {
          visited = c.visited ++ target.url ∷ [];
          sent = (target, request) ∷ c.sent;
        } in
            on_answer next target request asked (env.perform (length c.hops) target request))

    on_url :
        (Text → Request → Chain → ChainOutcome × Chain)
        → Text
        → Request
        → Chain
        → Option ValidatedTarget
        → ChainOutcome × Chain
    on_url next current_url request c none = (redirect_rejected ssrf_rejected c.hops, c)
    on_url next current_url request c (some target) = on_target next request c target

    hops_from : ℕ → Text → Request → Chain → ChainOutcome × Chain
    hops_from zero current_url request c = (out_of_fuel, c)
    hops_from (suc fuel) current_url request c =
        on_url (hops_from fuel) current_url request c (env.validate current_url)

    -- A chain has the first request and at most `max_hops` hops after it.
    unfoldable pub fetch : Text → Request → ChainOutcome × Chain
    unfolding hops_from on_url on_target on_answer on_decision
    fetch url request =
        hops_from (policy.max_hops + 1) url request (record { hops = []; visited = []; sent = [] })
