-- ===== src/Fetch/Slots/Bounds.antt =====
-- No run has more requests at once than the limits allow, and no slot is lost.
use mathlib.Core.Path.{subst}
use aedifex.Prelude.{
  ℕ, zero, suc, ◌+◌, ◌≡◌, refl, sym, ap, inl, inr, Bool, true, false, none, some, List, [], ◌∷◌,
  ◌==◌, ==_iff, arith, Bool-cases, Option-cases, if◌then◌else◌, get_elem?,
}
use aedifex.Fetch.Slots.{
  Semaphore, Phase, outside, holding, requesting, leaving, Limiter, acquire, release, set_phase,
  with_source, take_source, give_source,
}

abbrev pub weight : Bool → ℕ
weight b = if b then 1 else 0

-- how many threads are in a phase that passes the test
abbrev pub count : (Phase → Bool) → List Phase → ℕ
count test [] = 0
count test (p ∷ threads) = weight (test p) + count test threads

abbrev pub is_requesting : Phase → Bool
is_requesting outside = false
is_requesting (holding s) = false
is_requesting (requesting s) = true
is_requesting (leaving s) = false

-- the thread has the slot of the source
abbrev pub occupies : ℕ → Phase → Bool
occupies source outside = false
occupies source (holding s) = s == source
occupies source (requesting s) = s == source
occupies source (leaving s) = s == source

pub count-set_phase :
    (test : Phase → Bool) (t : ℕ) (old new : Phase) (threads : List Phase)
    → get_elem? threads t ≡ some old
    → count test (set_phase t new threads) + weight (test old)
      ≡ count test threads + weight (test new)
unfolding set_phase
count-set_phase test t old new [] h = cc
count-set_phase test zero old new (p ∷ threads) h =
    let same : p ≡ old = cc in let w = ap (λ (q : Phase). weight (test q)) same in omega (arith, w)
count-set_phase test (suc t) old new (p ∷ threads) h =
    omega (arith, count-set_phase test t old new threads h)

-- Every slot is free or held by a thread, for the global semaphore and for each source's.
pub record IsSound (g : ℕ) (l : Limiter) : Type 0 where
  pub fixed : l.global_slots.limit ≡ g
  pub global : l.global_slots.free + count is_requesting l.threads ≡ l.global_slots.limit
  pub sources :
      (source : ℕ) (slots : Semaphore)
      → l.source_slots source ≡ some slots
      → slots.free + count (occupies source) l.threads ≡ slots.limit
  pub unused : (source : ℕ) → l.source_slots source ≡ none → count (occupies source) l.threads ≡ 0

pub acquire_takes :
    (s taken : Semaphore)
    → acquire s ≡ some taken
    → (taken.limit ≡ s.limit) × (taken.free + 1 ≡ s.free)
unfolding acquire
acquire_takes s taken h = ground arith

pub release_gives :
    (s given : Semaphore)
    → release s ≡ some given
    → (given.limit ≡ s.limit) × (given.free ≡ s.free + 1)
unfolding release
release_gives s given h = ground arith

pub same_limiter : (a b : Limiter) → some a ≡ some b → a ≡ b
same_limiter a b e = cc

pub weight_here : (s : ℕ) → weight (s == s) ≡ 1
weight_here s = rw ((==_iff s s).1 refl) refl

weight_other : (s source : ℕ) → (source == s) ≡ false → weight (s == source) ≡ 0
weight_other s source h = ground arith

-- the semaphore `slots` accounts for the source's threads
abbrev pub Fits : ℕ → Semaphore → Limiter → Type 0
Fits source slots l = slots.free + count (occupies source) l.threads ≡ slots.limit

-- A thread moves between two phases, and the source's semaphore with it.
moved-IsSound :
    {g : ℕ} (t s : ℕ) (old new : Phase) (slots after : Semaphore) (l : Limiter)
    → IsSound g l
    → Fits s slots l
    → get_elem? l.threads t ≡ some old
    → is_requesting old ≡ is_requesting new
    → ((source : ℕ)
        → (source == s) ≡ false
        → weight (occupies source old) ≡ weight (occupies source new))
    → after.limit ≡ slots.limit
    → after.free + weight (occupies s new) ≡ slots.free + weight (occupies s old)
    → IsSound g (record l {
      source_slots = with_source s after l.source_slots;
      threads = set_phase t new l.threads;
    })
moved-IsSound t s old new slots after l sound fits at same others limit free = record {
  fixed = sound.fixed;
  global = omega (
    arith,
    sound.global,
    count-set_phase is_requesting t old new l.threads at,
    ap (λ (b : Bool). weight b) same,
  );
  sources = λ source found e. elim (Bool-cases (source == s)) [
    | inl here ↦
        let e' : some after ≡ some found = rw here at e in
        let is_after : after ≡ found = cc in
        let is_s : source ≡ s = (==_iff source s).0 here in
        let counted = count-set_phase (occupies s) t old new l.threads at in
        rw (← is_after, is_s) (omega (arith, fits, counted, limit, free))
    | inr other ↦
        let e' : l.source_slots source ≡ some found = rw other at e in
        let counted = count-set_phase (occupies source) t old new l.threads at in
        omega (arith, sound.sources source found e', counted, others source other)
  ];
  unused = λ source e. elim (Bool-cases (source == s)) [
    | inl here ↦ let e' : some after ≡ none = rw here at e in cc
    | inr other ↦
        let e' : l.source_slots source ≡ none = rw other at e in
        let counted = count-set_phase (occupies source) t old new l.threads at in
        omega (arith, sound.unused source e', counted, others source other)
  ];
}

pub take_source-IsSound :
    {g : ℕ} (t s : ℕ) (slots : Semaphore) (l l' : Limiter)
    → IsSound g l
    → Fits s slots l
    → get_elem? l.threads t ≡ some outside
    → take_source t s slots l ≡ some l'
    → IsSound g l'
unfolding take_source
take_source-IsSound {g = g} t s slots l l' sound fits at h = elim (Option-cases (acquire slots)) [
  | inl empty ↦ let e : none ≡ some l' = rw (empty, take_source) at h in cc
  | inr (taken, took) ↦
      let (limit, free) = acquire_takes slots taken took in
      let e = rw (took, take_source) at h in
      subst (λ (x : Limiter). IsSound g x) (same_limiter _ l' e)
        (moved-IsSound t s outside (holding s) slots taken l sound fits at refl
          (λ source other. sym (weight_other s source other)) limit
          (omega (arith, free, weight_here s)))
]

pub give_source-IsSound :
    {g : ℕ} (t s : ℕ) (slots : Semaphore) (l l' : Limiter)
    → IsSound g l
    → l.source_slots s ≡ some slots
    → get_elem? l.threads t ≡ some (leaving s)
    → give_source t s slots l ≡ some l'
    → IsSound g l'
unfolding give_source
give_source-IsSound {g = g} t s slots l l' sound has at h = elim (Option-cases (release slots)) [
  | inl full ↦ let e : none ≡ some l' = rw (full, give_source) at h in cc
  | inr (given, gave) ↦
      let (limit, free) = release_gives slots given gave in
      let e = rw (gave, give_source) at h in
      subst (λ (x : Limiter). IsSound g x) (same_limiter _ l' e)
        (moved-IsSound t s (leaving s) outside slots given l sound (sound.sources s slots has) at
          refl (λ source other. weight_other s source other) limit
          (omega (arith, free, weight_here s)))
]
