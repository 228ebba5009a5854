-- ===== src/Crawl/Robots/Politeness.antt =====
-- The limits that a Crawl-delay leads to.
use aedifex.Prelude.{
  ℕ, ◌*◌, ◌/◌, ◌≤◌, ◌<◌, ◌≡◌, refl, ◌⊎◌, inl, inr, true, false, none, some, arith, min, max, leb,
  ltb, Bool-cases, ltb→lt, leb→le,
}
use aedifex.Fetch.Timing.{second}
use aedifex.Fetch.RateLimit.{RateLimits, limits_accepts}
use aedifex.Crawl.Robots.{polite_limits, max_honourable_crawl_delay}

-- `l` is valid, in no respect looser than `limits`, and as slow as the delay asks.
record IsStricter (limits l : RateLimits) (requested : ℕ) : Type 0 where
  pub valid : limits_accepts l ≡ true
  pub per_minute : l.requests_per_minute ≤ limits.requests_per_minute
  pub together : l.max_concurrency ≤ limits.max_concurrency
  pub spacing : limits.min_delay_seconds ≤ l.min_delay_seconds
  pub delay : requested ≤ l.min_delay_seconds

limits_positive :
    (limits : RateLimits)
    → limits_accepts limits ≡ true
    → (1 ≤ limits.requests_per_minute) × (1 ≤ limits.max_concurrency)
unfolding limits_accepts
limits_positive limits h = ground arith

slowed-IsStricter :
    (limits : RateLimits) (requested room : ℕ)
    → limits_accepts limits ≡ true
    → limits.min_delay_seconds < requested
    → IsStricter limits
        (record {
          requests_per_minute = min limits.requests_per_minute (max 1 room);
          max_concurrency = 1;
          min_delay_seconds = requested;
        })
        requested
unfolding limits_accepts
slowed-IsStricter limits requested room h longer =
    let (some_requests, some_slots) = limits_positive limits h in
    let at_least : ltb (min limits.requests_per_minute (max 1 room)) 1 ≡ false = ground arith in
    record {
      valid = rw at_least refl;
      per_minute = omega arith;
      together = some_slots;
      spacing = omega arith;
      delay = omega arith;
    }

-- The limits for a site with a Crawl-delay are valid, in no respect looser than the source's own,
-- and leave at least the delay between two requests. They are refused exactly where the delay is
-- above the longest that is waited for and above the source's own spacing.
polite_limits_strict :
    (limits : RateLimits) (requested : ℕ)
    → limits_accepts limits ≡ true
    → ((polite_limits limits (some requested) ≡ none)
        × (max_honourable_crawl_delay < requested)
        × (limits.min_delay_seconds < requested))
      ⊎ ((l : RateLimits) × (polite_limits limits (some requested) ≡ some l)
          × IsStricter limits l requested
          × ((requested ≤ max_honourable_crawl_delay) ⊎ (requested ≤ limits.min_delay_seconds)))
unfolding polite_limits
polite_limits_strict limits requested h =
    elim (Bool-cases (leb requested limits.min_delay_seconds)) [
      | inl short ↦ rw short (
          inr (
            limits,
            refl,
            record {
              valid = h;
              per_minute = omega arith;
              together = omega arith;
              spacing = omega arith;
              delay = leb→le requested limits.min_delay_seconds short;
            },
            inr (leb→le requested limits.min_delay_seconds short),
          ))
      | inr long ↦
          let longer : limits.min_delay_seconds < requested = ground arith in
          elim (Bool-cases (ltb max_honourable_crawl_delay requested)) [
            | inl too_long ↦
                rw (long, too_long)
                  (inl (refl, ltb→lt max_honourable_crawl_delay requested too_long, longer))
            | inr bearable ↦
                rw (long, bearable)
                  (inr (
                    _,
                    refl,
                    slowed-IsStricter limits requested (60 * second / requested) h longer,
                    inl (ground arith),
                  ))
          ]
    ]
