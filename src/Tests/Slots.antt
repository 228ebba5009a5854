-- ===== src/Tests/Slots.antt =====
-- Tests of Fetch.Slots.
use aedifex.Prelude.{◌≡◌, refl, none, some, List, [], ◌∷◌, get_elem?}
use aedifex.Fetch.RateLimit.{RateLimits}
use aedifex.Fetch.Slots.{
  outside, requesting, leaving, Limiter, Event, enter, begin, give_up, finish, leave, acquire,
  release, set_phase, with_source, slots_for, take_source, take_global, give_global, give_source,
  step, run, all_outside, new_limiter,
}
use aedifex.Fetch.Slots.Releases.{run_releases}

abbrev one_at_once : RateLimits
one_at_once = record { requests_per_minute = 2; max_concurrency = 1; min_delay_seconds = 0 }

-- two sources, three threads: one that requests, one that waits for its deadline and leaves
abbrev some_events : List Event
some_events =
    enter 0 5 one_at_once ∷ begin 0 ∷ enter 1 6 one_at_once ∷ give_up 1 ∷ leave 1 ∷ finish 0 ∷ []

abbrev after_events : Limiter
after_events = record {
  global_slots = record { limit = 1; free = 1 };
  source_slots =
      with_source 6 (record { limit = 1; free = 1 })
        (with_source 6 (record { limit = 1; free = 0 })
          (with_source 5 (record { limit = 1; free = 0 }) (λ s. none)));
  threads = leaving 5 ∷ outside ∷ outside ∷ [];
}

second_blocked : run (enter 0 5 one_at_once ∷ enter 1 5 one_at_once ∷ []) (new_limiter 1 3) ≡ none
unfolding run step take_source acquire slots_for set_phase new_limiter all_outside
second_blocked = refl

events_run : run some_events (new_limiter 1 3) ≡ some after_events
unfolding run step take_source take_global give_global give_source acquire release slots_for
    set_phase new_limiter all_outside
events_run = refl

run_releases_example :
    (get_elem? after_events.threads 0 ≡ some (requesting 5)
      → (l' : Limiter) × (step (finish 0) after_events ≡ some l'))
    × (get_elem? after_events.threads 0 ≡ some (leaving 5)
        → (l' : Limiter) × (step (leave 0) after_events ≡ some l'))
run_releases_example = run_releases some_events 1 3 after_events 0 5 events_run
