-- ===== src/Fetch/Slots/Releases.antt =====
-- What has been taken can be given back.
use aedifex.Prelude.{
  ℕ, zero, suc, ◌+◌, ◌≤◌, ◌<◌, ◌≡◌, refl, ap, inl, inr, Bool, some, List, [], ◌∷◌, arith,
  Option-cases, get_elem?, lt→ltb,
}
use aedifex.Fetch.Slots.{
  Semaphore, Phase, outside, requesting, leaving, Limiter, Event, finish, leave, release, set_phase,
  with_source, give_global, give_source, step, run, new_limiter,
}
use aedifex.Fetch.Slots.Bounds.{weight, count, is_requesting, occupies, IsSound, weight_here}
use aedifex.Fetch.Slots.Runs.{run-IsSound, new_limiter-IsSound}

weight-count :
    (test : Phase → Bool) (t : ℕ) (phase : Phase) (threads : List Phase)
    → get_elem? threads t ≡ some phase
    → weight (test phase) ≤ count test threads
weight-count test t phase [] h = cc
weight-count test zero phase (p ∷ threads) h =
    let same : p ≡ phase = cc in omega (arith, ap (λ (q : Phase). weight (test q)) same)
weight-count test (suc t) phase (p ∷ threads) h = omega (arith, weight-count test t phase threads h)

release_below : (s : Semaphore) → s.free < s.limit → (given : Semaphore) × (release s ≡ some given)
unfolding release
release_below s h = (record s { free = s.free + 1 }, rw (lt→ltb s.free s.limit h) refl)

finish_total :
    {g : ℕ} (t s : ℕ) (l : Limiter)
    → IsSound g l
    → get_elem? l.threads t ≡ some (requesting s)
    → (l' : Limiter) × (step (finish t) l ≡ some l')
unfolding step give_global
finish_total t s l sound at =
    let one = weight-count is_requesting t (requesting s) l.threads at in
    let (given, gave) = release_below l.global_slots (omega (arith, one, sound.global)) in
    (
      record l { global_slots = given; threads = set_phase t (leaving s) l.threads },
      rw (at, step, give_global, gave) refl,
    )

leave_total :
    {g : ℕ} (t s : ℕ) (l : Limiter)
    → IsSound g l
    → get_elem? l.threads t ≡ some (leaving s)
    → (l' : Limiter) × (step (leave t) l ≡ some l')
unfolding step give_source
leave_total t s l sound at =
    let one = weight-count (occupies s) t (leaving s) l.threads at in
    elim (Option-cases (l.source_slots s)) [
      | inl unknown ↦ absurd (omega (arith, one, sound.unused s unknown, weight_here s))
      | inr (slots, has) ↦
          let (given, gave) =
            release_below slots (omega (arith, one, sound.sources s slots has, weight_here s)) in
          (
            record l {
              source_slots = with_source s given l.source_slots;
              threads = set_phase t outside l.threads;
            },
            rw (at, step, has, give_source, gave) refl,
          )
    ]

-- What a thread has taken it can always give back: in no run does the release of a semaphore raise.
pub run_releases :
    (events : List Event) (global_concurrency threads : ℕ) (l : Limiter) (t s : ℕ)
    → run events (new_limiter global_concurrency threads) ≡ some l
    → (get_elem? l.threads t ≡ some (requesting s) → (l' : Limiter) × (step (finish t) l ≡ some l'))
      × (get_elem? l.threads t ≡ some (leaving s) → (l' : Limiter) × (step (leave t) l ≡ some l'))
run_releases events global_concurrency threads l t s h =
    let sound =
      run-IsSound events (new_limiter global_concurrency threads) l
        (new_limiter-IsSound global_concurrency threads) h in
    (λ at. finish_total t s l sound at, λ at. leave_total t s l sound at)
