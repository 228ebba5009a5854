-- ===== src/Fetch/Controller/Loop.antt =====
-- The loop ends within `max_attempts` rounds, and the history that it reports is right.
use aedifex.Prelude.{
  ℕ, zero, suc, ◌+◌, ◌≤◌, ◌<◌, ◌≡◌, ◌≢◌, refl, max, true, Option, none, some, List, [], ◌∷◌, ◌++◌,
  String, arith, leb, ltb, Bool-cases, Option-cases, ltb→lt, inl, inr, length, length-append,
}
use aedifex.Fetch.Retry.{
  AttemptOutcome, success, http_status, budget_exhausted, AttemptResult, should_retry, RetryPolicy,
  backoff_accepts,
}
use aedifex.Fetch.Retry.Backoff.{accepted}
use aedifex.Fetch.Retry.Verdict.{IsTransient, classify-retries_iff, classify-le-caps}
use aedifex.Fetch.Controller.{
  AttemptRecord, Performed, response, transport_error, timeout_budget_exhausted, Environment,
  FetchOutcome, fetched, fetch_failed, fetch_cancelled, out_of_fuel, decision_on, record_of,
  backoff, after_failure, after_attempt, attempts_from, fetch,
}

abbrev pub as_result : AttemptRecord → AttemptResult
as_result a = record {
  outcome = a.outcome;
  attempt = a.attempt;
  status_code = a.status_code;
  retry_after_seconds = a.retry_after_seconds;
}

-- An attempt that was followed by another: a transient failure, with a bounded wait.
pub record IsRetried (p : RetryPolicy) (a : AttemptRecord) : Type 0 where
  pub transient : IsTransient (as_result a)
  pub in_limit : a.attempt < p.backoff.max_attempts
  pub delay_capped :
      a.delay_before_next_seconds
      ≤ max p.backoff.max_delay_seconds p.max_server_requested_delay_seconds

-- Retried attempts, numbered from `k` on.
abbrev pub Retried : RetryPolicy → ℕ → List AttemptRecord → Type 0
Retried p k [] = Unit
Retried p k (a ∷ history) = IsRetried p a × (a.attempt ≡ k) × Retried p (suc k) history

Retried-snoc :
    (p : RetryPolicy) (k : ℕ) (history : List AttemptRecord) (a : AttemptRecord)
    → Retried p k history
    → IsRetried p a
    → a.attempt ≡ k + length history
    → Retried p k (history ++ a ∷ [])
Retried-snoc p k [] a h r n = (r, omega arith, tt)
Retried-snoc p k (b ∷ history) a h r n =
    (h.0, h.1, Retried-snoc p (suc k) history a h.2 r (omega arith))

-- The history is the retried attempts, numbered from 1, and one last attempt with the next number,
-- for which `Q` holds.
abbrev pub EndsWith : RetryPolicy → (AttemptRecord → Type 0) → List AttemptRecord → Type 0
EndsWith p Q history =
    (before : List AttemptRecord) × (last : AttemptRecord) × (history ≡ before ++ last ∷ [])
    × Retried p 1 before
    × (last.attempt ≡ suc (length before))
    × (last.attempt ≤ p.backoff.max_attempts)
    × Q last

abbrev pub Ends : RetryPolicy → FetchOutcome → Type 0
Ends p (fetched status history) =
    EndsWith p (λ a. (a.outcome ≡ success) × (a.status_code ≡ some status) × (status < 400)) history
Ends p (fetch_failed outcome history) =
    EndsWith p (λ a. (a.outcome ≡ outcome) × (a.delay_before_next_seconds ≡ 0)) history
Ends p (fetch_cancelled history) = Retried p 1 history × (history ≢ [])
Ends p out_of_fuel = ⊥

snoc-ne-nil {ℓ} : {A : Type ℓ} (xs : List A) (x : A) → xs ++ x ∷ [] ≢ []
snoc-ne-nil [] x h = cc
snoc-ne-nil (y ∷ xs) x h = cc

module _ (p : RetryPolicy) (env : Environment) (next : List AttemptRecord → FetchOutcome)
    (attempt : ℕ) where
  backoff-Ends :
      (delay : ℕ) (history : List AttemptRecord)
      → Retried p 1 history
      → history ≢ []
      → Ends p (next history)
      → Ends p (backoff p env next attempt delay history)
  unfolding backoff
  backoff-Ends delay history h ne e = elim (Bool-cases (leb delay 0)) [
    | inl z ↦ rw z e
    | inr z ↦ rw z (elim (Option-cases env.cancellation) [
      | inl n ↦ rw n e
      | inr (wait, w) ↦
          rw w (elim (Bool-cases (wait attempt)) [ inl c ↦ rw c (h, ne) | inr c ↦ rw c e ])
    ])
  ]

  module _ (history : List AttemptRecord) (outcome : AttemptOutcome) (status retry_after : Option ℕ)
      (error_type : Option String) where
    abbrev delayed : AttemptRecord
    delayed =
        record_of p env attempt outcome status retry_after error_type
          (decision_on p env attempt outcome status retry_after).delay_seconds

    delayed-IsRetried :
        should_retry (decision_on p env attempt outcome status retry_after) ≡ true
        → IsRetried p delayed
    delayed-IsRetried h =
        let asked = as_result delayed in
        let budget = some (env.remaining_seconds attempt) in
        let (t, l, s, f) = (classify-retries_iff (env.randomness attempt) p asked budget).0 h in
        record {
          transient = t;
          in_limit = l;
          delay_capped = classify-le-caps (env.randomness attempt) p asked budget;
        }

    after_failure-Ends :
        Retried p 1 history
        → attempt ≡ suc (length history)
        → attempt ≤ p.backoff.max_attempts
        → ((h : List AttemptRecord)
            → Retried p 1 h
            → attempt ≡ length h
            → attempt < p.backoff.max_attempts
            → Ends p (next h))
        → Ends p (after_failure p env next attempt history outcome status retry_after error_type)
    unfolding after_failure
    after_failure-Ends h len le go =
        elim (Bool-cases (should_retry (decision_on p env attempt outcome status retry_after))) [
          | inl again ↦
              let retried = delayed-IsRetried again in
              let all = Retried-snoc p 1 history delayed h retried (omega arith) in
              rw again (
                backoff-Ends (decision_on p env attempt outcome status retry_after).delay_seconds
                  (history ++ delayed ∷ []) all (snoc-ne-nil history delayed)
                  (go (history ++ delayed ∷ []) all
                    (omega (arith, length-append history (delayed ∷ []))) retried.in_limit))
          | inr over ↦ rw over (history, _, refl, h, len, le, (refl, refl))
        ]

module _ (p : RetryPolicy) (env : Environment) (next : List AttemptRecord → FetchOutcome)
    (attempt : ℕ) where
  after_attempt-Ends :
      (history : List AttemptRecord) (met : Performed)
      → Retried p 1 history
      → attempt ≡ suc (length history)
      → attempt ≤ p.backoff.max_attempts
      → ((h : List AttemptRecord)
          → Retried p 1 h
          → attempt ≡ length h
          → attempt < p.backoff.max_attempts
          → Ends p (next h))
      → Ends p (after_attempt p env next attempt history met)
  unfolding after_attempt
  after_attempt-Ends history (response status retry_after) h len le go =
      elim (Bool-cases (ltb status 400)) [
        | inl good ↦ rw good (history, _, refl, h, len, le, (refl, refl, ltb→lt status 400 good))
        | inr bad ↦ rw bad (
            after_failure-Ends p env next attempt history http_status (some status) retry_after none
              h len le go)
      ]
  after_attempt-Ends history (transport_error outcome error_type) h len le go =
      after_failure-Ends p env next attempt history outcome none none (some error_type) h len le go
  after_attempt-Ends history timeout_budget_exhausted h len le go =
      after_failure-Ends p env next attempt history budget_exhausted none none
        (some "TimeoutBudgetExhaustedError") h len le go

module _ (p : RetryPolicy) (env : Environment) where
  attempts_from-Ends :
      (fuel attempt : ℕ) (history : List AttemptRecord)
      → attempt ≤ p.backoff.max_attempts
      → p.backoff.max_attempts < attempt + fuel
      → Retried p 1 history
      → attempt ≡ suc (length history)
      → Ends p (attempts_from p env fuel attempt history)
  unfolding attempts_from
  attempts_from-Ends zero attempt history le lt h len = absurd (omega arith)
  attempts_from-Ends (suc fuel) attempt history le lt h len =
      after_attempt-Ends p env (attempts_from p env fuel (attempt + 1)) attempt history
        (env.perform attempt) h len le
        λ later all n below.
          attempts_from-Ends fuel (attempt + 1) later (omega arith) (omega arith) all (omega arith)

  -- For every policy that its constructor accepts and whatever the attempts meet, the loop ends
  -- within `max_attempts` rounds. The attempts are numbered from 1 without a gap, up to
  -- `max_attempts` at most. All but the last were transient failures below the limit
  -- with a wait not above both caps; a response is returned only if its status is below 400 and the
  -- last attempt has it; a failure carries the outcome of the last attempt, which has no wait.
  pub fetch-Ends : backoff_accepts p.backoff ≡ true → Ends p (fetch p env)
  unfolding fetch
  fetch-Ends h =
      let a = accepted p.backoff h in
      attempts_from-Ends p.backoff.max_attempts 1 [] (omega arith) (omega arith) tt refl
