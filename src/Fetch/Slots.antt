-- ===== src/Fetch/Slots.antt =====
-- src/aedifex/acquisition/fetch/ratelimit.py, the two semaphores of RateLimiter.slot. Threads are a
-- list of the phases that they are in; a run is a list of events, one for each step of a thread, in
-- the order in which they happen. `none` where the step cannot be taken: the semaphore is empty, the
-- thread is elsewhere in the code, or the release of a bounded semaphore would raise. The map of
-- sources to semaphores is a function.
pub mod Bounds
pub mod Runs
pub mod Releases
use aedifex.Prelude.{
  ℕ, zero, suc, ◌+◌, ◌-◌, Bool, true, false, Option, none, some, List, [], ◌∷◌, ◌==◌, ltb,
  if◌then◌else◌, get_elem?,
}
use aedifex.Fetch.RateLimit.{RateLimits}

-- `threading.BoundedSemaphore`
pub record Semaphore : Type 0 where
  pub limit : ℕ
  pub free : ℕ

-- outside `slot`; with the source's slot; within the `yield`; with the global slot given back
pub data Phase : Type 0 where
  outside : Phase
  holding requesting leaving : ℕ → Phase

pub record Limiter : Type 0 where
  pub global_slots : Semaphore
  pub source_slots : ℕ → Option Semaphore
  pub threads : List Phase

pub data Event : Type 0 where
  enter : ℕ → ℕ → RateLimits → Event
  begin give_up finish leave : ℕ → Event

abbrev pub new_semaphore : ℕ → Semaphore
new_semaphore limit = record { limit = limit; free = limit }

unfoldable pub acquire : Semaphore → Option Semaphore
acquire s = if ltb 0 s.free then some (record s { free = s.free - 1 }) else none

unfoldable pub release : Semaphore → Option Semaphore
release s = if ltb s.free s.limit then some (record s { free = s.free + 1 }) else none

unfoldable pub set_phase : ℕ → Phase → List Phase → List Phase
set_phase t phase [] = []
set_phase zero phase (p ∷ threads) = phase ∷ threads
set_phase (suc t) phase (p ∷ threads) = p ∷ set_phase t phase threads

abbrev pub with_source : ℕ → Semaphore → (ℕ → Option Semaphore) → ℕ → Option Semaphore
with_source source slots sources s = if s == source then some slots else sources s

-- `_slots_for`
unfoldable pub slots_for : ℕ → RateLimits → (ℕ → Option Semaphore) → Semaphore
slots_for source limits sources = elim (sources source) [
  | none ↦ new_semaphore limits.max_concurrency
  | some existing ↦ existing
]

unfoldable pub take_source : ℕ → ℕ → Semaphore → Limiter → Option Limiter
unfolding acquire set_phase
take_source t source slots l = elim (acquire slots) [
  | none ↦ none
  | some taken ↦ some (record l {
    source_slots = with_source source taken l.source_slots;
    threads = set_phase t (holding source) l.threads;
  })
]

unfoldable pub take_global : ℕ → ℕ → Limiter → Option Limiter
unfolding acquire set_phase
take_global t source l = elim (acquire l.global_slots) [
  | none ↦ none
  | some taken ↦
      some (record l { global_slots = taken; threads = set_phase t (requesting source) l.threads })
]

unfoldable pub give_global : ℕ → ℕ → Limiter → Option Limiter
unfolding release set_phase
give_global t source l = elim (release l.global_slots) [
  | none ↦ none
  | some given ↦
      some (record l { global_slots = given; threads = set_phase t (leaving source) l.threads })
]

unfoldable pub give_source : ℕ → ℕ → Semaphore → Limiter → Option Limiter
unfolding release set_phase
give_source t source slots l = elim (release slots) [
  | none ↦ none
  | some given ↦ some (record l {
    source_slots = with_source source given l.source_slots;
    threads = set_phase t outside l.threads;
  })
]

-- one step of `slot`
unfoldable pub step : Event → Limiter → Option Limiter
unfolding slots_for take_source take_global give_global give_source set_phase
step (enter t source limits) l = elim (get_elem? l.threads t) [
  | some outside ↦ take_source t source (slots_for source limits l.source_slots) l
  | _ ↦ none
]
step (begin t) l = elim (get_elem? l.threads t) [
  | some (holding source) ↦ take_global t source l
  | _ ↦ none
]
step (give_up t) l = elim (get_elem? l.threads t) [
  | some (holding source) ↦ some (record l { threads = set_phase t (leaving source) l.threads })
  | _ ↦ none
]
step (finish t) l = elim (get_elem? l.threads t) [
  | some (requesting source) ↦ give_global t source l
  | _ ↦ none
]
step (leave t) l = elim (get_elem? l.threads t) [
  | some (leaving source) ↦ elim (l.source_slots source) [
    | none ↦ none
    | some slots ↦ give_source t source slots l
  ]
  | _ ↦ none
]

unfoldable pub run : List Event → Limiter → Option Limiter
unfolding step
run [] l = some l
run (event ∷ events) l = elim (step event l) [ none ↦ none | some next ↦ run events next ]

unfoldable pub all_outside : ℕ → List Phase
all_outside zero = []
all_outside (suc n) = outside ∷ all_outside n

-- `__init__`, for a number of threads that use the limiter
unfoldable pub new_limiter : ℕ → ℕ → Limiter
unfolding all_outside
new_limiter global_concurrency threads = record {
  global_slots = new_semaphore global_concurrency;
  source_slots = λ source. none;
  threads = all_outside threads;
}
