-- ===== src/Fetch/Slots/Runs.antt =====
-- Runs of the limiter: each step keeps the accounts, so the limits hold throughout.
use mathlib.Core.Path.{subst}
use aedifex.Prelude.{
  ℕ, zero, suc, ◌+◌, ◌≡◌, refl, ◌∙◌, inl, inr, Bool, false, none, some, List, [], ◌∷◌, arith,
  Option-cases, get_elem?,
}
use aedifex.Fetch.RateLimit.{RateLimits}
use aedifex.Fetch.Slots.{
  Semaphore, Phase, outside, holding, requesting, leaving, Limiter, Event, enter, begin, give_up,
  finish, leave, acquire, release, set_phase, slots_for, take_global, give_global, step, run,
  all_outside, new_limiter,
}
use aedifex.Fetch.Slots.Bounds.{
  weight, count, is_requesting, occupies, count-set_phase, IsSound, Fits, acquire_takes,
  release_gives, same_limiter, take_source-IsSound, give_source-IsSound,
}

-- A thread moves between two phases that hold the same source, and the global semaphore with it.
changed-IsSound :
    {g : ℕ} (t s : ℕ) (old new : Phase) (after : Semaphore) (l : Limiter)
    → IsSound g l
    → get_elem? l.threads t ≡ some old
    → ((source : ℕ) → weight (occupies source old) ≡ weight (occupies source new))
    → after.limit ≡ l.global_slots.limit
    → after.free + weight (is_requesting new) ≡ l.global_slots.free + weight (is_requesting old)
    → IsSound g (record l { global_slots = after; threads = set_phase t new l.threads })
changed-IsSound t s old new after l sound at same limit free = record {
  fixed = limit ∙ sound.fixed;
  global =
      omega
        (arith, sound.global, count-set_phase is_requesting t old new l.threads at, limit, free);
  sources = λ source found e. omega (
    arith,
    sound.sources source found e,
    count-set_phase (occupies source) t old new l.threads at,
    same source,
  );
  unused = λ source e. omega (
    arith,
    sound.unused source e,
    count-set_phase (occupies source) t old new l.threads at,
    same source,
  );
}

take_global-IsSound :
    {g : ℕ} (t s : ℕ) (l l' : Limiter)
    → IsSound g l
    → get_elem? l.threads t ≡ some (holding s)
    → take_global t s l ≡ some l'
    → IsSound g l'
unfolding take_global
take_global-IsSound {g = g} t s l l' sound at h = elim (Option-cases (acquire l.global_slots)) [
  | inl empty ↦ let e : none ≡ some l' = rw (empty, take_global) at h in cc
  | inr (taken, took) ↦
      let (limit, free) = acquire_takes l.global_slots taken took in
      let e = rw (took, take_global) at h in
      subst (λ (x : Limiter). IsSound g x) (same_limiter _ l' e)
        (changed-IsSound t s (holding s) (requesting s) taken l sound at (λ source. refl) limit
          (omega (arith, free)))
]

give_global-IsSound :
    {g : ℕ} (t s : ℕ) (l l' : Limiter)
    → IsSound g l
    → get_elem? l.threads t ≡ some (requesting s)
    → give_global t s l ≡ some l'
    → IsSound g l'
unfolding give_global
give_global-IsSound {g = g} t s l l' sound at h = elim (Option-cases (release l.global_slots)) [
  | inl full ↦ let e : none ≡ some l' = rw (full, give_global) at h in cc
  | inr (given, gave) ↦
      let (limit, free) = release_gives l.global_slots given gave in
      let e = rw (gave, give_global) at h in
      subst (λ (x : Limiter). IsSound g x) (same_limiter _ l' e)
        (changed-IsSound t s (requesting s) (leaving s) given l sound at (λ source. refl) limit
          (omega (arith, free)))
]

slots_for-Fits :
    {g : ℕ} (s : ℕ) (limits : RateLimits) (l : Limiter)
    → IsSound g l
    → Fits s (slots_for s limits l.source_slots) l
unfolding slots_for
slots_for-Fits s limits l sound = elim (Option-cases (l.source_slots s)) [
  | inl new ↦ rw (new, slots_for) (omega (arith, sound.unused s new))
  | inr (slots, has) ↦ rw (has, slots_for) (sound.sources s slots has)
]

enter-IsSound :
    {g : ℕ} (t s : ℕ) (limits : RateLimits) (l l' : Limiter)
    → IsSound g l
    → step (enter t s limits) l ≡ some l'
    → IsSound g l'
unfolding step
enter-IsSound t s limits l l' sound h = elim (Option-cases (get_elem? l.threads t)) [
  | inl missing ↦ let e : none ≡ some l' = rw (missing, step) at h in cc
  | inr (outside, at) ↦
      take_source-IsSound t s (slots_for s limits l.source_slots) l l' sound
        (slots_for-Fits s limits l sound) at (rw (at, step) at h)
  | inr (holding r, at) ↦ let e : none ≡ some l' = rw (at, step) at h in cc
  | inr (requesting r, at) ↦ let e : none ≡ some l' = rw (at, step) at h in cc
  | inr (leaving r, at) ↦ let e : none ≡ some l' = rw (at, step) at h in cc
]

begin-IsSound :
    {g : ℕ} (t : ℕ) (l l' : Limiter) → IsSound g l → step (begin t) l ≡ some l' → IsSound g l'
unfolding step
begin-IsSound t l l' sound h = elim (Option-cases (get_elem? l.threads t)) [
  | inl missing ↦ let e : none ≡ some l' = rw (missing, step) at h in cc
  | inr (outside, at) ↦ let e : none ≡ some l' = rw (at, step) at h in cc
  | inr (holding s, at) ↦ take_global-IsSound t s l l' sound at (rw (at, step) at h)
  | inr (requesting r, at) ↦ let e : none ≡ some l' = rw (at, step) at h in cc
  | inr (leaving r, at) ↦ let e : none ≡ some l' = rw (at, step) at h in cc
]

give_up-IsSound :
    {g : ℕ} (t : ℕ) (l l' : Limiter) → IsSound g l → step (give_up t) l ≡ some l' → IsSound g l'
unfolding step
give_up-IsSound {g = g} t l l' sound h = elim (Option-cases (get_elem? l.threads t)) [
  | inl missing ↦ let e : none ≡ some l' = rw (missing, step) at h in cc
  | inr (outside, at) ↦ let e : none ≡ some l' = rw (at, step) at h in cc
  | inr (holding s, at) ↦
      let e = rw (at, step) at h in
      subst (λ (x : Limiter). IsSound g x) (same_limiter _ l' e)
        (changed-IsSound t s (holding s) (leaving s) l.global_slots l sound at (λ source. refl) refl
          refl)
  | inr (requesting r, at) ↦ let e : none ≡ some l' = rw (at, step) at h in cc
  | inr (leaving r, at) ↦ let e : none ≡ some l' = rw (at, step) at h in cc
]

finish-IsSound :
    {g : ℕ} (t : ℕ) (l l' : Limiter) → IsSound g l → step (finish t) l ≡ some l' → IsSound g l'
unfolding step
finish-IsSound t l l' sound h = elim (Option-cases (get_elem? l.threads t)) [
  | inl missing ↦ let e : none ≡ some l' = rw (missing, step) at h in cc
  | inr (outside, at) ↦ let e : none ≡ some l' = rw (at, step) at h in cc
  | inr (holding r, at) ↦ let e : none ≡ some l' = rw (at, step) at h in cc
  | inr (requesting s, at) ↦ give_global-IsSound t s l l' sound at (rw (at, step) at h)
  | inr (leaving r, at) ↦ let e : none ≡ some l' = rw (at, step) at h in cc
]

leave-IsSound :
    {g : ℕ} (t : ℕ) (l l' : Limiter) → IsSound g l → step (leave t) l ≡ some l' → IsSound g l'
unfolding step
leave-IsSound t l l' sound h = elim (Option-cases (get_elem? l.threads t)) [
  | inl missing ↦ let e : none ≡ some l' = rw (missing, step) at h in cc
  | inr (outside, at) ↦ let e : none ≡ some l' = rw (at, step) at h in cc
  | inr (holding r, at) ↦ let e : none ≡ some l' = rw (at, step) at h in cc
  | inr (requesting r, at) ↦ let e : none ≡ some l' = rw (at, step) at h in cc
  | inr (leaving s, at) ↦ elim (Option-cases (l.source_slots s)) [
    | inl unknown ↦ let e : none ≡ some l' = rw (at, step, unknown) at h in cc
    | inr (slots, has) ↦ give_source-IsSound t s slots l l' sound has at (rw (at, step, has) at h)
  ]
]

step-IsSound :
    {g : ℕ} (event : Event) (l l' : Limiter) → IsSound g l → step event l ≡ some l' → IsSound g l'
step-IsSound (enter t s limits) l l' sound h = enter-IsSound t s limits l l' sound h
step-IsSound (begin t) l l' sound h = begin-IsSound t l l' sound h
step-IsSound (give_up t) l l' sound h = give_up-IsSound t l l' sound h
step-IsSound (finish t) l l' sound h = finish-IsSound t l l' sound h
step-IsSound (leave t) l l' sound h = leave-IsSound t l l' sound h

pub run-IsSound :
    {g : ℕ} (events : List Event) (l l' : Limiter)
    → IsSound g l
    → run events l ≡ some l'
    → IsSound g l'
unfolding run
run-IsSound {g = g} [] l l' sound h =
    subst (λ (x : Limiter). IsSound g x) (same_limiter l l' h) sound
run-IsSound (event ∷ events) l l' sound h = elim (Option-cases (step event l)) [
  | inl stuck ↦ let e : none ≡ some l' = rw (stuck, run) at h in cc
  | inr (next, stepped) ↦
      run-IsSound events next l' (step-IsSound event l next sound stepped) (rw (stepped, run) at h)
]

count-all_outside :
    (test : Phase → Bool) (n : ℕ) → test outside ≡ false → count test (all_outside n) ≡ 0
unfolding all_outside
count-all_outside test zero h = refl
count-all_outside test (suc n) h = rw (h, count-all_outside test n h) (omega arith)

pub new_limiter-IsSound :
    (global_concurrency threads : ℕ)
    → IsSound global_concurrency (new_limiter global_concurrency threads)
unfolding new_limiter
new_limiter-IsSound global_concurrency threads = record {
  fixed = refl;
  global = omega (arith, count-all_outside is_requesting threads refl);
  sources = λ source slots e. cc;
  unused = λ source e. count-all_outside (occupies source) threads refl;
}
