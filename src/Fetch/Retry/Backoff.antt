-- ===== src/Fetch/Retry/Backoff.antt =====
-- The bounds of the exponential backoff.
use native.Mathlib.Nat.{pow-le-pow_right, mul-le-mul_left, pow-zero}
use aedifex.Prelude.{ℕ, ◌-◌, ◌*◌, ◌^◌, ◌≤◌, ◌<◌, ◌≡◌, ap, true, arith}
use aedifex.Fetch.Retry.{
  BackoffPolicy, backoff_accepts, ceiling_for, RandomSource, RetryPolicy, jittered,
}

pub record IsAccepted (p : BackoffPolicy) : Type 0 where
  pub base_positive : 0 < p.base_seconds
  pub factor_positive : 0 < p.factor
  pub base_fits : p.base_seconds ≤ p.max_delay_seconds
  pub one_attempt : 0 < p.max_attempts

pub accepted : (p : BackoffPolicy) → backoff_accepts p ≡ true → IsAccepted p
unfolding backoff_accepts
accepted p h = ground arith

-- the un-jittered delay grows from one attempt to any later one
grows :
    (p : BackoffPolicy) (i j : ℕ)
    → 0 < p.factor
    → i ≤ j
    → p.base_seconds * p.factor ^ i ≤ p.base_seconds * p.factor ^ j
grows p i j h le = mul-le-mul_left p.base_seconds (pow-le-pow_right h le)

base-le :
    (p : BackoffPolicy) (i : ℕ) → 0 < p.factor → p.base_seconds ≤ p.base_seconds * p.factor ^ i
base-le p i h =
    omega
      (arith, grows p 0 i h (omega arith), ap (λ (t : ℕ). p.base_seconds * t) (pow-zero p.factor))

-- For a policy that the constructor accepts, the ceiling of every attempt lies between the base
-- delay and the maximal one, and never falls from an attempt to a later one.
pub ceiling_for_bounds :
    (p : BackoffPolicy) (attempt later : ℕ)
    → backoff_accepts p ≡ true
    → attempt ≤ later
    → (p.base_seconds ≤ ceiling_for p attempt)
      × (ceiling_for p attempt ≤ p.max_delay_seconds)
      × (ceiling_for p attempt ≤ ceiling_for p later)
unfolding ceiling_for
ceiling_for_bounds p attempt later h le =
    let a = accepted p h in
    let b = base-le p (attempt - 1) a.factor_positive in
    let g = grows p (attempt - 1) (later - 1) a.factor_positive (omega arith) in
    (omega arith, omega arith, omega arith)

pub jittered-le-max :
    (r : RandomSource) (p : RetryPolicy) (attempt : ℕ)
    → jittered r p attempt ≤ p.backoff.max_delay_seconds
unfolding jittered
jittered-le-max r p attempt =
    omega (arith, r.uniform-le 0 (ceiling_for p.backoff attempt) (omega arith))
