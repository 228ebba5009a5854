-- ===== src/Fetch/RateLimit.antt =====
-- src/aedifex/acquisition/fetch/ratelimit.py: how often a source may be asked.
-- The deque of grants is a list with its right end, the newest grant, first. A round of the loop of
-- `_wait_for_rate` is one holding of the lock: its clock reading and what is left of the deadline
-- are arguments, and threads are an interleaving of rounds.
pub mod Wait
pub mod Window
use aedifex.Prelude.{
  ℕ, zero, suc, ◌+◌, ◌-◌, ◌*◌, max, Bool, true, false, Option, none, some, List, [], ◌∷◌, leb, ltb,
  if◌then◌else◌, length, get_elem?,
}
use aedifex.Fetch.Timing.{second}

abbrev pub rate_window_seconds : ℕ
rate_window_seconds = 60 * second

pub record RateLimits : Type 0 where
  pub requests_per_minute : ℕ
  pub max_concurrency : ℕ
  pub min_delay_seconds : ℕ

-- `__post_init__` raises `ValueError` where this is not so.
unfoldable pub limits_accepts : RateLimits → Bool
limits_accepts l =
    if ltb l.requests_per_minute 1 then false else if ltb l.max_concurrency 1 then false else true

-- `grants[-n]`, for an `n` of at least 1 and at most the number of grants
abbrev from_right : List ℕ → ℕ → ℕ
from_right grants n = elim (get_elem? grants (n - 1)) [ none ↦ 0 | some g ↦ g ]

unfoldable pub wait_seconds : ℕ → List ℕ → RateLimits → ℕ
wait_seconds now [] limits = 0
wait_seconds now (newest ∷ older) limits =
    let grants = newest ∷ older in
    let spacing_wait = newest + limits.min_delay_seconds - now in
    let window_wait =
      if leb limits.requests_per_minute (length grants)
      then from_right grants limits.requests_per_minute + rate_window_seconds - now
      else 0 in
    max spacing_wait window_wait

-- `grants.popleft()`
abbrev popleft : List ℕ → List ℕ
popleft [] = []
popleft (newest ∷ []) = []
popleft (newest ∷ older ∷ rest) = newest ∷ popleft (older ∷ rest)

forget_loop : ℕ → ℕ → List ℕ → List ℕ
forget_loop zero keep grants = grants
forget_loop (suc fuel) keep grants =
    let rest = forget_loop fuel keep (popleft grants) in
    if ltb keep (length grants) then rest else grants

-- Each round of the loop removes a grant, so there are no more rounds than grants.
unfoldable pub forget_expired : List ℕ → RateLimits → List ℕ
unfolding forget_loop
forget_expired grants limits = forget_loop (length grants) limits.requests_per_minute grants

-- What a round ends with: the grant is recorded, the thread sleeps, or it raises
-- `TimeoutBudgetExhaustedError`.
pub data Round : Type 0 where
  granted : Round
  sleeps : ℕ → Round
  abandoned : Round

-- `deadline.check()` and the comparison below it read the clock one after the other.
abbrev pub Deadline : Type 0
Deadline = Option (ℕ × ℕ)

abbrev before_sleep : ℕ → Deadline → Round
before_sleep wait none = sleeps wait
before_sleep wait (some (at_check, remaining)) =
    if leb at_check 0 then abandoned else if ltb remaining wait then abandoned else sleeps wait

-- One round of `_wait_for_rate`, with the grants that it leaves.
unfoldable pub rate_round : RateLimits → List ℕ → ℕ → Deadline → List ℕ × Round
rate_round limits grants now deadline =
    let kept = forget_expired grants limits in
    let wait = wait_seconds now kept limits in
    if leb wait 0 then (now ∷ kept, granted) else (kept, before_sleep wait deadline)
