-- ===== src/Fetch/Retry/Verdict.antt =====
-- When an attempt is tried again, and how long the wait may be.
use aedifex.Prelude.{
  ℕ, ◌≤◌, ◌<◌, ◌≡◌, ◌⊎◌, ◌↔◌, max, Bool-cases, inl, inr, true, false, Option, none, some, arith, In,
  [], ◌∷◌,
}
use aedifex.Fetch.Retry.{
  AttemptOutcome, http_status, connect_timeout, read_timeout, connection_error, protocol_error,
  response_stream_error, AttemptResult, retryable_statuses, RandomSource, RetryPolicy, jittered,
  classify, should_retry,
}
use aedifex.Fetch.Retry.Backoff.{jittered-le-max}

-- a failure below HTTP that a second attempt may not meet
abbrev pub IsTransportFailure : AttemptOutcome → Type 0
IsTransportFailure o = In o (
    connect_timeout ∷ read_timeout ∷ connection_error ∷ protocol_error ∷ response_stream_error ∷ [])

abbrev pub IsTransient : AttemptResult → Type 0
IsTransient a =
    IsTransportFailure a.outcome
    ⊎ ((a.outcome ≡ http_status)
        × ((status : ℕ) × (a.status_code ≡ some status) × In status retryable_statuses))

module _ (r : RandomSource) (p : RetryPolicy) (a : AttemptResult) (budget : Option ℕ) where
  -- the wait that the server asked for, or the jittered backoff
  abbrev pub wanted : ℕ
  wanted = elim a.retry_after_seconds [ none ↦ jittered r p a.attempt | some d ↦ d ]

  abbrev pub ServerIsPatient : Type 0
  ServerIsPatient = elim a.retry_after_seconds [
    | none ↦ Unit
    | some d ↦ d ≤ p.max_server_requested_delay_seconds
  ]

  abbrev pub FitsBudget : Type 0
  FitsBudget = elim budget [ none ↦ Unit | some b ↦ wanted < b ]

  IsTransient-of_retry : should_retry (classify r p a budget) ≡ true → IsTransient a
  unfolding classify
  IsTransient-of_retry h = ground arith

  conditions_of_retry :
      should_retry (classify r p a budget) ≡ true
      → (a.attempt < p.backoff.max_attempts) × ServerIsPatient × FitsBudget
  unfolding classify
  conditions_of_retry h = ground arith

  retry_of_conditions :
      IsTransient a
      → a.attempt < p.backoff.max_attempts
      → ServerIsPatient
      → FitsBudget
      → should_retry (classify r p a budget) ≡ true
  unfolding classify
  retry_of_conditions t l s f = ground arith

  -- An attempt is tried again exactly when all of this holds: it failed in transport or with a
  -- retryable status, it was not the last one allowed, the server asks for no longer wait than the
  -- cap, and the wait leaves some of the budget.
  pub classify-retries_iff :
      (should_retry (classify r p a budget) ≡ true)
      ↔ (IsTransient a × (a.attempt < p.backoff.max_attempts) × ServerIsPatient × FitsBudget)
  classify-retries_iff = (
    λ h. let (l, s, f) = conditions_of_retry h in (IsTransient-of_retry h, l, s, f),
    λ (t, l, s, f). retry_of_conditions t l s f,
  )

  delay_of_retry :
      should_retry (classify r p a budget) ≡ true → (classify r p a budget).delay_seconds ≡ wanted
  unfolding classify
  delay_of_retry h = ground arith

  delay_of_refusal :
      should_retry (classify r p a budget) ≡ false → (classify r p a budget).delay_seconds ≡ 0
  unfolding classify
  delay_of_refusal h = ground arith

  pub classify-le-caps :
      (classify r p a budget).delay_seconds
      ≤ max p.backoff.max_delay_seconds p.max_server_requested_delay_seconds
  unfolding classify
  classify-le-caps = ground (arith, jittered-le-max r p a.attempt)

  -- A refusal carries no wait. With a retry, the wait is the server's request or the jittered
  -- backoff, it is below what is left of the budget, and it is not above both caps.
  pub classify-delay :
      ((should_retry (classify r p a budget) ≡ false) × ((classify r p a budget).delay_seconds ≡ 0))
      ⊎ ((should_retry (classify r p a budget) ≡ true)
          × ((classify r p a budget).delay_seconds ≡ wanted)
          × FitsBudget
          × ((classify r p a budget).delay_seconds
              ≤ max p.backoff.max_delay_seconds p.max_server_requested_delay_seconds))
  classify-delay = elim (Bool-cases (should_retry (classify r p a budget))) [
    | inl h ↦ inr (h, delay_of_retry h, (conditions_of_retry h).2, classify-le-caps)
    | inr h ↦ inl (h, delay_of_refusal h)
  ]
