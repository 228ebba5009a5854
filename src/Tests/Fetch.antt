-- ===== src/Tests/Fetch.antt =====
-- Tests of the modules under Fetch.
use aedifex.Prelude.{
  ℕ, ◌*◌, ◌≤◌, ◌<◌, ◌≡◌, refl, ◌⊎◌, ◌↔◌, max, true, false, Option, none, some, arith, ◌==◌,
  if◌then◌else◌,
}
use aedifex.Fetch.Timing.{second}
use aedifex.Fetch.Retry.{
  http_status, connect_timeout, AttemptResult, backoff_accepts, ceiling_for, default_backoff,
  RandomSource, default_policy, classify, should_retry,
}
use aedifex.Fetch.Retry.Verdict.{
  IsTransient, wanted, ServerIsPatient, FitsBudget, classify-retries_iff, classify-delay,
}
use aedifex.Fetch.Controller.{
  Performed, response, transport_error, Environment, FetchOutcome, fetched, fetch,
}
use aedifex.Fetch.Controller.Loop.{Ends, fetch-Ends}

highest : RandomSource
highest = record { uniform = λ low high. high; uniform-le = λ low high h. omega arith }

ceiling_runs :
    (ceiling_for default_backoff 3 ≡ 4 * second) × (ceiling_for default_backoff 9 ≡ 60 * second)
unfolding ceiling_for
ceiling_runs = (refl, refl)

abbrev busy : AttemptResult
busy = record {
  outcome = http_status;
  attempt = 2;
  status_code = some 503;
  retry_after_seconds = some 7000;
}

busy_waits : (classify highest default_policy busy (some 9000)).delay_seconds ≡ 7000
unfolding classify highest
busy_waits = refl

classify-retries_iff_example :
    (should_retry (classify highest default_policy busy (some 9000)) ≡ true) ↔ (
      IsTransient busy
      × (2 < 5)
      × ServerIsPatient highest default_policy busy (some 9000)
      × FitsBudget highest default_policy busy (some 9000))
classify-retries_iff_example = classify-retries_iff highest default_policy busy (some 9000)

classify-delay_example :
    ((should_retry (classify highest default_policy busy (some 9000)) ≡ false)
      × ((classify highest default_policy busy (some 9000)).delay_seconds ≡ 0))
    ⊎ ((should_retry (classify highest default_policy busy (some 9000)) ≡ true)
        × ((classify highest default_policy busy (some 9000)).delay_seconds
            ≡ wanted highest default_policy busy (some 9000))
        × FitsBudget highest default_policy busy (some 9000)
        × ((classify highest default_policy busy (some 9000)).delay_seconds
            ≤ max (60 * second) (300 * second)))
classify-delay_example = classify-delay highest default_policy busy (some 9000)

-- a time-out, then a 503, then the document
abbrev flaky_perform : ℕ → Performed
flaky_perform n =
    if n == 1
    then transport_error connect_timeout "TransportTimeoutError"
    else if n == 2
    then response 503 (some 7000)
    else response 200 none

abbrev flaky : Environment
flaky = record {
  perform = flaky_perform;
  elapsed_ms = λ n. 10 * n;
  remaining_seconds = λ n. 200 * second;
  randomness = λ n. highest;
  cancellation = none;
}

abbrev status_of : FetchOutcome → Option ℕ
status_of (fetched status history) = some status
status_of _ = none

flaky_fetched : status_of (fetch default_policy flaky) ≡ some 200
unfolding fetch classify highest
flaky_fetched = refl

fetch-Ends_example : Ends default_policy (fetch default_policy flaky)
unfolding backoff_accepts
fetch-Ends_example = fetch-Ends default_policy flaky refl
