-- ===== src/Tests/RateLimit.antt =====
-- Tests of Fetch.RateLimit.
use aedifex.Prelude.{ℕ, ◌*◌, ◌≤◌, ◌≡◌, refl, none, some, List, [], ◌∷◌}
use aedifex.Fetch.Timing.{second}
use aedifex.Fetch.RateLimit.{
  RateLimits, limits_accepts, wait_seconds, forget_expired, Deadline, abandoned, rate_round,
}
use aedifex.Fetch.RateLimit.Window.{
  opened, serve_rounds, serve_round, in_window, IsPolite, serve_rounds-IsPolite,
}

abbrev two_a_minute : RateLimits
two_a_minute = record {
  requests_per_minute = 2;
  max_concurrency = 1;
  min_delay_seconds = 5 * second;
}

abbrev three_grants : List ℕ
three_grants = 90000 ∷ 30000 ∷ 10000 ∷ []

wait_runs : wait_seconds 91000 (90000 ∷ 40000 ∷ []) two_a_minute ≡ 9000
unfolding wait_seconds
wait_runs = refl

-- a grant, a round too early, one that its deadline ends, and two more grants
abbrev some_rounds : List (ℕ × Deadline)
some_rounds =
    (1000, none)
    ∷ (2000, none)
    ∷ (3000, some (100, 90))
    ∷ (6000, none)
    ∷ (61000, some (9000, 8000))
    ∷ []

rounds_run : (serve_rounds two_a_minute opened some_rounds).log ≡ 61000 ∷ 6000 ∷ 1000 ∷ []
unfolding serve_rounds serve_round rate_round forget_expired wait_seconds
rounds_run = refl

round_abandoned : (rate_round two_a_minute (1000 ∷ []) 3000 (some (100, 90))).1 ≡ abandoned
unfolding rate_round forget_expired wait_seconds
round_abandoned = refl

serve_rounds-IsPolite_example :
    IsPolite two_a_minute (serve_rounds two_a_minute opened some_rounds).log
    × (in_window 1000 (serve_rounds two_a_minute opened some_rounds).log ≤ 2)
unfolding limits_accepts
serve_rounds-IsPolite_example = serve_rounds-IsPolite two_a_minute some_rounds 1000 refl
