-- ===== src/Fetch/Controller.antt =====
-- src/aedifex/acquisition/fetch/controller.py: the loop of attempts.
-- What the slot, the transport, the clock, the jitter and a shutdown do at each attempt is the
-- environment's choice. `parse_retry_after` of the response's header stands in `response`.
pub mod Loop
use aedifex.Prelude.{
  ℕ, zero, suc, ◌+◌, Bool, Option, none, some, List, [], ◌∷◌, ◌++◌, String, leb, ltb, if◌then◌else◌,
}
use aedifex.Fetch.Retry.{
  AttemptOutcome, success, http_status, budget_exhausted, AttemptResult, RetryDecision, Reason,
  attempt_succeeded, should_retry, RandomSource, RetryPolicy, classify,
}

pub record AttemptRecord : Type 0 where
  pub attempt : ℕ
  pub outcome : AttemptOutcome
  pub duration_ms : ℕ
  pub status_code : Option ℕ
  pub error_type : Option String
  pub retry_after_seconds : Option ℕ
  pub delay_before_next_seconds : ℕ
  pub reason : Reason

-- What one attempt met: a response with its status and the parsed `Retry-After`, a `TransportError`
-- with its outcome and class name, or `TimeoutBudgetExhaustedError`.
pub data Performed : Type 0 where
  response : ℕ → Option ℕ → Performed
  transport_error : AttemptOutcome → String → Performed
  timeout_budget_exhausted : Performed

pub record Environment : Type 0 where
  pub perform : ℕ → Performed
  pub elapsed_ms : ℕ → ℕ
  pub remaining_seconds : ℕ → ℕ
  pub randomness : ℕ → RandomSource
  pub cancellation : Option (ℕ → Bool)  -- whether the wait after this attempt is cut short

pub data FetchOutcome : Type 0 where
  fetched : ℕ → List AttemptRecord → FetchOutcome
  fetch_failed : AttemptOutcome → List AttemptRecord → FetchOutcome
  fetch_cancelled : List AttemptRecord → FetchOutcome
  out_of_fuel : FetchOutcome

abbrev pub error_status_floor : ℕ
error_status_floor = 400

module _ (policy : RetryPolicy) (env : Environment) where
  abbrev pub decision_on : ℕ → AttemptOutcome → Option ℕ → Option ℕ → RetryDecision
  decision_on attempt outcome status retry_after =
      classify (env.randomness attempt) policy
        (record {
          outcome = outcome;
          attempt = attempt;
          status_code = status;
          retry_after_seconds = retry_after;
        })
        (some (env.remaining_seconds attempt))

  -- `_classify_failure`; the record that goes on is a copy with the decision's delay
  abbrev pub record_of :
      ℕ → AttemptOutcome → Option ℕ → Option ℕ → Option String → ℕ → AttemptRecord
  record_of attempt outcome status retry_after error_type delay = record {
    attempt = attempt;
    outcome = outcome;
    duration_ms = env.elapsed_ms attempt;
    status_code = status;
    error_type = error_type;
    retry_after_seconds = retry_after;
    delay_before_next_seconds = delay;
    reason = (decision_on attempt outcome status retry_after).reason;
  }

  -- `_backoff` before the next round; a wait of 0 does not look at the cancellation
  backoff : (List AttemptRecord → FetchOutcome) → ℕ → ℕ → List AttemptRecord → FetchOutcome
  backoff next attempt delay history = if leb delay 0 then next history else elim env.cancellation [
    | none ↦ next history
    | some wait ↦ if wait attempt then fetch_cancelled history else next history
  ]

  -- the part of the loop's body below the `with` block, on a failure
  after_failure :
      (List AttemptRecord → FetchOutcome)
      → ℕ
      → List AttemptRecord
      → AttemptOutcome
      → Option ℕ
      → Option ℕ
      → Option String
      → FetchOutcome
  unfolding backoff
  after_failure next attempt history outcome status retry_after error_type =
      let decision = decision_on attempt outcome status retry_after in
      let record_at = record_of attempt outcome status retry_after error_type in
      if should_retry decision
      then backoff next attempt decision.delay_seconds
          (history ++ record_at decision.delay_seconds ∷ [])
      else fetch_failed outcome (history ++ record_at 0 ∷ [])

  after_attempt :
      (List AttemptRecord → FetchOutcome) → ℕ → List AttemptRecord → Performed → FetchOutcome
  unfolding after_failure
  after_attempt next attempt history (response status retry_after) =
      if ltb status error_status_floor
      then fetched status (
          history
          ++ record {
            attempt = attempt;
            outcome = success;
            duration_ms = env.elapsed_ms attempt;
            status_code = some status;
            error_type = none;
            retry_after_seconds = none;
            delay_before_next_seconds = 0;
            reason = attempt_succeeded;
          }
            ∷ [])
      else after_failure next attempt history http_status (some status) retry_after none
  after_attempt next attempt history (transport_error outcome error_type) =
      after_failure next attempt history outcome none none (some error_type)
  after_attempt next attempt history timeout_budget_exhausted =
      after_failure next attempt history budget_exhausted none none
        (some "TimeoutBudgetExhaustedError")

  attempts_from : ℕ → ℕ → List AttemptRecord → FetchOutcome
  attempts_from zero attempt history = out_of_fuel
  attempts_from (suc fuel) attempt history =
      after_attempt (attempts_from fuel (attempt + 1)) attempt history (env.perform attempt)

  -- `fetch`: the policy allows `max_attempts` rounds of the loop at most.
  unfoldable pub fetch : FetchOutcome
  unfolding attempts_from after_attempt
  fetch = attempts_from policy.backoff.max_attempts 1 []
