-- ===== src/Fetch/Timing.antt =====
-- src/aedifex/acquisition/fetch/timing.py: the time budget of a request.
-- A float number of seconds is a whole number of ticks. A reading of the clock is an argument: a
-- method that reads it twice takes two readings. `max(0.0, a - b)` is the `-` of ℕ.
use aedifex.Prelude.{
  ℕ, ◌+◌, ◌-◌, ◌*◌, Bool, true, false, Option, none, some, leb, ltb, if◌then◌else◌, min,
}

-- ticks in a second
abbrev pub second : ℕ
second = 1000

abbrev pub max_server_requested_delay : ℕ
max_server_requested_delay = 300 * second

pub record TimeoutPolicy : Type 0 where
  pub connect : ℕ
  pub read : ℕ
  pub total : ℕ

-- `__post_init__` raises `ValueError` where this is not so.
unfoldable pub timeout_policy_accepts : TimeoutPolicy → Bool
timeout_policy_accepts p =
    if leb p.connect 0
    then false
    else if leb p.read 0
    then false
    else if leb p.total 0
    then false
    else if ltb p.total (p.connect + p.read)
    then false
    else true

pub record TimeoutBudget : Type 0 where
  pub policy : TimeoutPolicy
  pub started_at : ℕ

unfoldable pub elapsed : TimeoutBudget → ℕ → ℕ
elapsed b now = now - b.started_at

unfoldable pub remaining : TimeoutBudget → ℕ → ℕ
unfolding elapsed
remaining b now = b.policy.total - elapsed b now

unfoldable pub is_exhausted : TimeoutBudget → ℕ → Bool
unfolding remaining
is_exhausted b now = leb (remaining b now) 0

-- `none` is `TimeoutBudgetExhaustedError`.
unfoldable pub attempt_timeouts : TimeoutBudget → ℕ → ℕ → Option (ℕ × ℕ)
unfolding is_exhausted
attempt_timeouts b checked_at now =
    if is_exhausted b checked_at
    then none
    else some (min b.policy.connect (remaining b now), min b.policy.read (remaining b now))

unfoldable pub can_afford : TimeoutBudget → ℕ → ℕ → Bool
unfolding remaining
can_afford b now seconds = ltb seconds (remaining b now)
