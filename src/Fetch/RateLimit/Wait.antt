-- ===== src/Fetch/RateLimit/Wait.antt =====
-- The wait is exactly long enough, and forgetting old grants does not change it.
use aedifex.Prelude.{
  ℕ, zero, suc, ◌+◌, ◌-◌, ◌≤◌, ◌<◌, ◌≡◌, refl, ap, sym, ◌∙◌, ◌↔◌, true, List, [], ◌∷◌, arith, ltb,
  length, take, length-take, get_elem?-take, Bool-cases, inl, inr,
}
use aedifex.Fetch.RateLimit.{
  RateLimits, limits_accepts, wait_seconds, popleft, forget_loop, forget_expired,
}

-- A later reading of the clock permits the request exactly if the computed wait has passed.
pub wait_seconds_exact :
    (limits : RateLimits) (grants : List ℕ) (now later : ℕ)
    → now ≤ later
    → (wait_seconds later grants limits ≡ 0) ↔ (now + wait_seconds now grants limits ≤ later)
unfolding wait_seconds
wait_seconds_exact limits [] now later h = ground arith
wait_seconds_exact limits (newest ∷ older) now later h = ground arith

length-popleft : (x : ℕ) (l : List ℕ) → length (popleft (x ∷ l)) ≡ length l
length-popleft x [] = refl
length-popleft x (y ∷ l) = ap suc (length-popleft y l)

take-popleft : (n : ℕ) (l : List ℕ) → n < length l → take n (popleft l) ≡ take n l
take-popleft n [] h = absurd (omega arith)
take-popleft zero (x ∷ l) h = refl
take-popleft (suc n) (x ∷ []) h = absurd (omega arith)
take-popleft (suc n) (x ∷ y ∷ l) h =
    ap (λ (r : List ℕ). x ∷ r) (take-popleft n (y ∷ l) (omega arith))

take_all : (n : ℕ) (l : List ℕ) → length l ≤ n → take n l ≡ l
take_all zero [] h = refl
take_all zero (x ∷ l) h = absurd (omega arith)
take_all (suc n) [] h = refl
take_all (suc n) (x ∷ l) h = ap (λ (r : List ℕ). x ∷ r) (take_all n l (omega arith))

forget_loop-eq-take :
    (fuel keep : ℕ) (l : List ℕ) → length l ≤ fuel → forget_loop fuel keep l ≡ take keep l
unfolding forget_loop
forget_loop-eq-take zero keep [] h = sym (take_all keep [] (omega arith))
forget_loop-eq-take zero keep (x ∷ l) h = absurd (omega arith)
forget_loop-eq-take (suc fuel) keep [] h =
    rw (forget_loop-eq-take fuel keep [] (omega arith))
      (ground (arith, take_all keep [] (omega arith)))
forget_loop-eq-take (suc fuel) keep (x ∷ l) h = elim (Bool-cases (ltb keep (length (x ∷ l)))) [
  | inl more ↦ rw more (
      forget_loop-eq-take fuel keep (popleft (x ∷ l)) (omega (arith, length-popleft x l))
      ∙ take-popleft keep (x ∷ l) (ground arith))
  | inr fits ↦ rw fits (sym (take_all keep (x ∷ l) (ground arith)))
]

pub forget_expired-eq-take :
    (grants : List ℕ) (limits : RateLimits)
    → forget_expired grants limits ≡ take limits.requests_per_minute grants
unfolding forget_expired
forget_expired-eq-take grants limits =
    forget_loop-eq-take (length grants) limits.requests_per_minute grants (omega arith)

pub wait_seconds-take :
    (n now : ℕ) (limits : RateLimits) (grants : List ℕ)
    → limits.requests_per_minute ≡ suc n
    → wait_seconds now (take (suc n) grants) limits ≡ wait_seconds now grants limits
unfolding wait_seconds
wait_seconds-take n now limits [] e = refl
wait_seconds-take n now limits (g ∷ grants) e =
    rw e (ground (arith, length-take (suc n) (g ∷ grants), get_elem?-take (suc n) n (g ∷ grants)))

-- Forgetting old grants changes no wait, and leaves at most as many as the window counts.
pub wait_seconds-forget_expired :
    (limits : RateLimits) (grants : List ℕ) (now : ℕ)
    → limits_accepts limits ≡ true
    → (wait_seconds now (forget_expired grants limits) limits ≡ wait_seconds now grants limits)
      × (length (forget_expired grants limits) ≤ limits.requests_per_minute)
unfolding limits_accepts
wait_seconds-forget_expired limits grants now h =
    let e : limits.requests_per_minute ≡ suc (limits.requests_per_minute - 1) = ground arith in
    rw (forget_expired-eq-take grants limits) (
      ap (λ (n : ℕ). wait_seconds now (take n grants) limits) e
          ∙ wait_seconds-take (limits.requests_per_minute - 1) now limits grants e,
      omega (arith, length-take limits.requests_per_minute grants),
    )
