-- ===== src/Fetch/RateLimit/Window.antt =====
-- The limits over all that is ever granted to a source, by whatever interleaving of threads.
use mathlib.Core.Path.{subst}
use aedifex.Prelude.{
  ℕ, zero, suc, ◌+◌, ◌-◌, ◌≤◌, ◌<◌, ◌≡◌, refl, ap, sym, ◌∙◌, true, ◌&&◌, Option, none, some, List,
  [], ◌∷◌, arith, leb, ltb, length, take, get_elem?, take-take, leb→le, Bool-cases, Option-cases,
  inl, inr, if◌then◌else◌,
}
use aedifex.Fetch.RateLimit.{
  RateLimits, limits_accepts, wait_seconds, forget_expired, rate_window_seconds, Round, granted,
  Deadline, rate_round, before_sleep,
}
use aedifex.Fetch.RateLimit.Wait.{forget_expired-eq-take, wait_seconds-take}

-- What the limiter keeps for a source, and all grants that it ever gave, newest first.
pub record Ledger : Type 0 where
  pub grants : List ℕ
  pub log : List ℕ

abbrev pub opened : Ledger
opened = record { grants = []; log = [] }

abbrev logged : Round → ℕ → List ℕ → List ℕ
logged granted now log = now ∷ log
logged _ now log = log

unfoldable pub serve_round : RateLimits → Ledger → ℕ × Deadline → Ledger
serve_round limits s (now, deadline) =
    let (grants, round) = rate_round limits s.grants now deadline in
    record { grants = grants; log = logged round now s.log }

-- The rounds of all threads for one source, in the order in which they hold the lock.
unfoldable pub serve_rounds : RateLimits → Ledger → List (ℕ × Deadline) → Ledger
serve_rounds limits s [] = s
serve_rounds limits s (r ∷ rounds) = serve_rounds limits (serve_round limits s r) rounds

abbrev pub After : Option ℕ → ℕ → ℕ → Type 0
After none gap now = Unit
After (some earlier) gap now = earlier + gap ≤ now

-- Each grant came `min_delay_seconds` after the one before it, and a whole window after the one
-- `requests_per_minute` places before it.
abbrev pub IsPolite : RateLimits → List ℕ → Type 0
IsPolite limits [] = Unit
IsPolite limits (now ∷ log) =
    After (get_elem? log 0) limits.min_delay_seconds now
    × After (get_elem? log (limits.requests_per_minute - 1)) rate_window_seconds now
    × IsPolite limits log

-- how many of the grants lie in the window that begins at `t`
unfoldable pub in_window : ℕ → List ℕ → ℕ
in_window t [] = 0
in_window t (g ∷ log) =
    let rest = in_window t log in
    if leb t g && ltb g (t + rate_window_seconds) then suc rest else rest

before_window :
    (t g : ℕ) (o : Option ℕ)
    → After o rate_window_seconds g
    → g < t + rate_window_seconds
    → After o 1 t
before_window t g none a h = tt
before_window t g (some earlier) a h = omega arith

get_elem?-lt-length : (l : List ℕ) (i : ℕ) {x : ℕ} → get_elem? l i ≡ some x → i < length l
get_elem?-lt-length [] i h = cc
get_elem?-lt-length (y ∷ l) zero h = omega arith
get_elem?-lt-length (y ∷ l) (suc i) h = omega (arith, get_elem?-lt-length l i h)

permitted :
    (n now : ℕ) (limits : RateLimits) (log : List ℕ)
    → limits.requests_per_minute ≡ suc n
    → wait_seconds now log limits ≡ 0
    → After (get_elem? log 0) limits.min_delay_seconds now
      × After (get_elem? log n) rate_window_seconds now
unfolding wait_seconds
permitted n now limits [] e w = (tt, tt)
permitted n now limits (g ∷ log) e w = elim (Option-cases (get_elem? (g ∷ log) n)) [
  | inl no_such ↦ (ground arith, rw no_such tt)
  | inr (o, there) ↦
      let few = get_elem?-lt-length (g ∷ log) n there in
      let same : limits.requests_per_minute - 1 ≡ n = omega arith in
      (ground arith, rw there (ground (arith, ap (λ (i : ℕ). get_elem? (g ∷ log) i) same)))
]

-- The deque agrees with all grants as far as the window counts.
record IsLedger (limits : RateLimits) (s : Ledger) : Type 0 where
  agrees : take limits.requests_per_minute s.grants ≡ take limits.requests_per_minute s.log
  polite : IsPolite limits s.log

not_granted :
    (wait now : ℕ) (deadline : Deadline) (log : List ℕ)
    → logged (before_sleep wait deadline) now log ≡ log
not_granted wait now none log = refl
not_granted wait now (some (at_check, remaining)) log = ground arith

module _ (limits : RateLimits) (n : ℕ) (e : limits.requests_per_minute ≡ suc n) where
  same_wait :
      (s : Ledger) (now : ℕ)
      → IsLedger limits s
      → wait_seconds now (forget_expired s.grants limits) limits ≡ wait_seconds now s.log limits
  same_wait s now i = rw (forget_expired-eq-take s.grants limits) (
      rw i.agrees (
        ap (λ (m : ℕ). wait_seconds now (take m s.log) limits) e
        ∙ wait_seconds-take n now limits s.log e))

  kept_agrees :
      (s : Ledger)
      → IsLedger limits s
      → take limits.requests_per_minute (forget_expired s.grants limits)
        ≡ take limits.requests_per_minute s.log
  kept_agrees s i = rw (forget_expired-eq-take s.grants limits) (
      take-take limits.requests_per_minute limits.requests_per_minute s.grants (omega arith)
      ∙ i.agrees)

  granted_agrees :
      (s : Ledger) (now : ℕ)
      → IsLedger limits s
      → take limits.requests_per_minute (now ∷ forget_expired s.grants limits)
        ≡ take limits.requests_per_minute (now ∷ s.log)
  granted_agrees s now i =
      let kept = forget_expired s.grants limits in
      let shorter : n ≤ limits.requests_per_minute = omega arith in
      let same : take n kept ≡ take n s.log =
        sym (take-take n limits.requests_per_minute kept shorter)
        ∙ ap (λ (l : List ℕ). take n l) (kept_agrees s i)
        ∙ take-take n limits.requests_per_minute s.log shorter in
      ap (λ (m : ℕ). take m (now ∷ kept)) e
      ∙ ap (λ (l : List ℕ). now ∷ l) same
      ∙ sym (ap (λ (m : ℕ). take m (now ∷ s.log)) e)

  at_the_end :
      (now : ℕ) (log : List ℕ)
      → After (get_elem? log n) rate_window_seconds now
      → After (get_elem? log (limits.requests_per_minute - 1)) rate_window_seconds now
  at_the_end now log h =
      let last : n ≡ limits.requests_per_minute - 1 = omega arith in
      subst (λ (i : ℕ). After (get_elem? log i) rate_window_seconds now) last h

  serve_round-IsLedger :
      (s : Ledger) (r : ℕ × Deadline) → IsLedger limits s → IsLedger limits (serve_round limits s r)
  unfolding serve_round rate_round
  serve_round-IsLedger s (now, deadline) i =
      elim (Bool-cases (leb (wait_seconds now (forget_expired s.grants limits) limits) 0)) [
        | inl free ↦
            let (spaced, windowed) =
              permitted n now limits s.log e (omega (arith, same_wait s now i, leb→le _ _ free)) in
            rw free (record {
              agrees = granted_agrees s now i;
              polite = (spaced, at_the_end now s.log windowed, i.polite);
            })
        | inr busy ↦
            rw (busy, not_granted _ now deadline s.log)
              (record { agrees = kept_agrees s i; polite = i.polite })
      ]

  serve_rounds-IsLedger :
      (s : Ledger) (rounds : List (ℕ × Deadline))
      → IsLedger limits s
      → IsLedger limits (serve_rounds limits s rounds)
  unfolding serve_rounds
  serve_rounds-IsLedger s [] i = i
  serve_rounds-IsLedger s (r ∷ rounds) i =
      serve_rounds-IsLedger (serve_round limits s r) rounds (serve_round-IsLedger s r i)

  -- A grant early enough leaves only the grants before it in the list for a window from `t` on.
  few_in_window :
      (k t : ℕ) (log : List ℕ)
      → IsPolite limits log
      → After (get_elem? log k) 1 t
      → in_window t log ≤ k
  unfolding in_window
  few_in_window zero t [] p h = omega arith
  few_in_window zero t (g ∷ []) p h = ground arith
  few_in_window zero t (g ∷ g' ∷ log) p h =
      let ih = few_in_window zero t (g' ∷ log) p.2 (omega arith) in ground (arith, ih)
  few_in_window (suc k) t [] p h = omega arith
  few_in_window (suc k) t (g ∷ log) p h = ground (arith, few_in_window k t log p.2 h)

  in_window-le : (t : ℕ) (log : List ℕ) → IsPolite limits log → in_window t log ≤ suc n
  unfolding in_window
  in_window-le t [] p = omega arith
  in_window-le t (g ∷ log) p = elim (Bool-cases (leb t g && ltb g (t + rate_window_seconds))) [
    | inl inside ↦
        let early : After (get_elem? log (limits.requests_per_minute - 1)) 1 t =
          before_window t g _ p.1 (ground arith) in
        let same : limits.requests_per_minute - 1 ≡ n = omega arith in
        let few =
          few_in_window n t log p.2 (subst (λ (i : ℕ). After (get_elem? log i) 1 t) same early) in
        rw inside (omega (arith, few))
    | inr outside ↦ rw outside (in_window-le t log p.2)
  ]

-- For limits that their constructor accepts, and whatever rounds the threads of the process make
-- for a source: each grant came at least `min_delay_seconds` after the one before it and a whole
-- window after the one `requests_per_minute` places before it, and no window of 60 seconds holds
-- more than `requests_per_minute` grants.
pub serve_rounds-IsPolite :
    (limits : RateLimits) (rounds : List (ℕ × Deadline)) (t : ℕ)
    → limits_accepts limits ≡ true
    → IsPolite limits (serve_rounds limits opened rounds).log
      × (in_window t (serve_rounds limits opened rounds).log ≤ limits.requests_per_minute)
unfolding limits_accepts
serve_rounds-IsPolite limits rounds t h =
    let n = limits.requests_per_minute - 1 in
    let e : limits.requests_per_minute ≡ suc n = ground arith in
    let i =
      serve_rounds-IsLedger limits n e opened rounds (record { agrees = refl; polite = tt }) in
    (
      i.polite,
      omega (arith, in_window-le limits n e t (serve_rounds limits opened rounds).log i.polite),
    )
