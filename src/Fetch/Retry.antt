-- ===== src/Fetch/Retry.antt =====
-- src/aedifex/acquisition/fetch/retry.py: whether an attempt is tried again, and after how long.
-- Delays are ticks, the backoff factor is a whole number. A reason is a value that stands for the
-- text of the log line.
pub mod Backoff
pub mod Verdict
use aedifex.Prelude.{
  ℕ, zero, suc, ◌+◌, ◌-◌, ◌*◌, ◌^◌, ◌≤◌, ◌≡◌, min, Bool, true, false, not, Option, none, some, List,
  [], ◌∷◌, leb, ltb, ◌==◌, if◌then◌else◌, any_of,
}
use aedifex.Fetch.Timing.{second, max_server_requested_delay}

abbrev pub retryable_statuses : List ℕ
retryable_statuses = 408 ∷ 425 ∷ 429 ∷ 500 ∷ 502 ∷ 503 ∷ 504 ∷ []

abbrev pub non_retryable_statuses : List ℕ
non_retryable_statuses = 400 ∷ 401 ∷ 403 ∷ 404 ∷ 405 ∷ 410 ∷ 451 ∷ 501 ∷ 505 ∷ []

abbrev pub is_in : ℕ → List ℕ → Bool
is_in n l = any_of (λ m. n == m) l

pub data AttemptOutcome : Type 0 where
  success http_status connect_timeout read_timeout connection_error tls_error : AttemptOutcome
  dns_error budget_exhausted protocol_error response_stream_error : AttemptOutcome
  ssrf_rejected unsafe_content oversized_response invalid_redirect cancelled : AttemptOutcome
  transport_unclassified : AttemptOutcome

-- `_NEVER_RETRY`
abbrev pub never_retry : AttemptOutcome → Bool
never_retry ssrf_rejected = true
never_retry unsafe_content = true
never_retry oversized_response = true
never_retry invalid_redirect = true
never_retry cancelled = true
never_retry budget_exhausted = true
never_retry tls_error = true
never_retry dns_error = true
never_retry transport_unclassified = true
never_retry _ = false

-- `_TRANSPORT_RETRYABLE`
abbrev pub transport_retryable : AttemptOutcome → Bool
transport_retryable connect_timeout = true
transport_retryable read_timeout = true
transport_retryable connection_error = true
transport_retryable protocol_error = true
transport_retryable response_stream_error = true
transport_retryable _ = false

abbrev pub is_success : AttemptOutcome → Bool
is_success success = true
is_success _ = false

abbrev pub is_http_status : AttemptOutcome → Bool
is_http_status http_status = true
is_http_status _ = false

pub data RetryVerdict : Type 0 where
  retry retry_after do_not_retry : RetryVerdict

pub record AttemptResult : Type 0 where
  pub outcome : AttemptOutcome
  pub attempt : ℕ
  pub status_code : Option ℕ
  pub retry_after_seconds : Option ℕ

pub data Reason : Type 0 where
  attempt_succeeded : Reason
  is_a_decision : AttemptOutcome → Reason
  reached_the_limit : ℕ → ℕ → Reason
  is_transient : AttemptOutcome → Reason
  no_status_code : Reason
  status_retryable status_permanent status_unknown : ℕ → Reason
  no_retry_policy : AttemptOutcome → Reason
  does_not_fit : Reason → ℕ → ℕ → Reason
  over_the_cap : ℕ → Reason
  honouring : ℕ → Reason
  backoff_within : ℕ → ℕ → Reason
  both : Reason → Reason → Reason

pub record RetryDecision : Type 0 where
  pub verdict : RetryVerdict
  pub delay_seconds : ℕ
  pub reason : Reason

abbrev pub is_retry : RetryVerdict → Bool
is_retry do_not_retry = false
is_retry _ = true

abbrev pub should_retry : RetryDecision → Bool
should_retry d = is_retry d.verdict

pub record BackoffPolicy : Type 0 where
  pub base_seconds : ℕ
  pub factor : ℕ
  pub max_delay_seconds : ℕ
  pub max_attempts : ℕ

-- `__post_init__` raises `ValueError` where this is not so.
unfoldable pub backoff_accepts : BackoffPolicy → Bool
backoff_accepts p =
    if leb p.base_seconds 0
    then false
    else if ltb p.factor 1
    then false
    else if ltb p.max_delay_seconds p.base_seconds
    then false
    else if ltb p.max_attempts 1
    then false
    else true

abbrev pub default_backoff : BackoffPolicy
default_backoff = record {
  base_seconds = second;
  factor = 2;
  max_delay_seconds = 60 * second;
  max_attempts = 5;
}

-- An attempt is at least 1: `AttemptResult` refuses any other.
unfoldable pub ceiling_for : BackoffPolicy → ℕ → ℕ
ceiling_for p attempt = min (p.base_seconds * p.factor ^ (attempt - 1)) p.max_delay_seconds

-- What Python documents of `random.uniform`.
pub record RandomSource : Type 0 where
  pub uniform : ℕ → ℕ → ℕ
  pub uniform-le : (low high : ℕ) → low ≤ high → uniform low high ≤ high

pub record RetryPolicy : Type 0 where
  pub backoff : BackoffPolicy
  pub max_server_requested_delay_seconds : ℕ

abbrev pub default_policy : RetryPolicy
default_policy = record {
  backoff = default_backoff;
  max_server_requested_delay_seconds = max_server_requested_delay;
}

-- `_is_retryable` on an `http_status` outcome
status_verdict : Option ℕ → Bool × Reason
status_verdict none = (false, no_status_code)
status_verdict (some status) =
    if is_in status retryable_statuses
    then (true, status_retryable status)
    else if is_in status non_retryable_statuses
    then (false, status_permanent status)
    else (false, status_unknown status)

unfoldable pub is_retryable : AttemptResult → Bool × Reason
unfolding status_verdict
is_retryable result =
    if transport_retryable result.outcome
    then (true, is_transient result.outcome)
    else if is_http_status result.outcome
    then status_verdict result.status_code
    else (false, no_retry_policy result.outcome)

abbrev stop : Reason → RetryDecision
stop r = record { verdict = do_not_retry; delay_seconds = 0; reason = r }

module _ (random : RandomSource) (policy : RetryPolicy) where
  unfoldable pub jittered : ℕ → ℕ
  unfolding ceiling_for
  jittered attempt = random.uniform 0 (ceiling_for policy.backoff attempt)

  -- `_delay_for`
  delay_of : AttemptResult → Option ℕ → RetryDecision
  unfolding jittered
  delay_of result (some requested) =
      if ltb policy.max_server_requested_delay_seconds requested
      then stop (over_the_cap requested)
      else record { verdict = retry_after; delay_seconds = requested; reason = honouring requested }
  delay_of result none = record {
    verdict = retry;
    delay_seconds = jittered result.attempt;
    reason = backoff_within (jittered result.attempt) (ceiling_for policy.backoff result.attempt);
  }

  -- the test of the delay against the budget that remains
  fit : Option ℕ → Reason → RetryDecision → RetryDecision
  fit none reason d = record d { reason = both reason d.reason }
  fit (some budget) reason d =
      if leb budget d.delay_seconds
      then stop (does_not_fit reason d.delay_seconds budget)
      else record d { reason = both reason d.reason }

  unfoldable pub classify : AttemptResult → Option ℕ → RetryDecision
  unfolding is_retryable delay_of fit
  classify result remaining_budget =
      if is_success result.outcome
      then stop attempt_succeeded
      else if never_retry result.outcome
      then stop (is_a_decision result.outcome)
      else if leb policy.backoff.max_attempts result.attempt
      then stop (reached_the_limit result.attempt policy.backoff.max_attempts)
      else if not (is_retryable result).0
      then stop (is_retryable result).1
      else fit remaining_budget (is_retryable result).1 (delay_of result result.retry_after_seconds)
