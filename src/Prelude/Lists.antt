-- ===== src/Prelude/Lists.antt =====
-- Lists measured and indexed by native numbers, under the library's names, and predicates on them.
use Prim.Native.Nat.{ℕ, zero, suc, ◌+◌, ◌≤◌, ◌<◌, min}
use mathlib.Core.Path.{◌≡◌, refl, ap, sym, subst}
use mathlib.Core.Bool.{Bool, true, false, ◌&&◌, ◌||◌}
use mathlib.Core.List.{List, [], ◌∷◌, ◌++◌}
use mathlib.Core.Option.{Option, none, some}
use mathlib.Core.Logic.{◌⊎◌, inl, inr}
use native.Mathlib.Omega.{arith}
use aedifex.Prelude.Tests.{if◌then◌else◌, Bool-cases}

module _ {ℓ} {A : Type ℓ} where
  abbrev pub length : List A → ℕ
  length [] = 0
  length (x ∷ xs) = suc (length xs)

  abbrev pub get_elem? : List A → ℕ → Option A
  get_elem? [] i = none
  get_elem? (x ∷ xs) zero = some x
  get_elem? (x ∷ xs) (suc i) = get_elem? xs i

  abbrev pub take : ℕ → List A → List A
  take zero xs = []
  take (suc n) [] = []
  take (suc n) (x ∷ xs) = x ∷ take n xs

  -- `any` and `all` of Python
  abbrev pub any_of : (A → Bool) → List A → Bool
  any_of p [] = false
  any_of p (x ∷ xs) = p x || any_of p xs

  abbrev pub all_of : (A → Bool) → List A → Bool
  all_of p [] = true
  all_of p (x ∷ xs) = p x && all_of p xs

  abbrev pub drop : ℕ → List A → List A
  drop zero xs = xs
  drop (suc n) [] = []
  drop (suc n) (x ∷ xs) = drop n xs

  abbrev pub All {κ} : (A → Type κ) → List A → Type κ
  All P [] = Unit
  All P (x ∷ xs) = P x × All P xs

  pub length-take : (n : ℕ) (xs : List A) → length (take n xs) ≡ min n (length xs)
  length-take zero xs = omega arith
  length-take (suc n) [] = omega arith
  length-take (suc n) (x ∷ xs) = omega (arith, length-take n xs)

  pub get_elem?-take : (n i : ℕ) (xs : List A) → i < n → get_elem? (take n xs) i ≡ get_elem? xs i
  get_elem?-take zero i xs h = absurd (omega arith)
  get_elem?-take (suc n) i [] h = refl
  get_elem?-take (suc n) zero (x ∷ xs) h = refl
  get_elem?-take (suc n) (suc i) (x ∷ xs) h = get_elem?-take n i xs (omega arith)

  pub take-take : (m n : ℕ) (xs : List A) → m ≤ n → take m (take n xs) ≡ take m xs
  take-take zero n xs h = refl
  take-take (suc m) zero xs h = absurd (omega arith)
  take-take (suc m) (suc n) [] h = refl
  take-take (suc m) (suc n) (x ∷ xs) h = ap (λ (r : List A). x ∷ r) (take-take m n xs (omega arith))

  pub All-append {κ} : (P : A → Type κ) (xs ys : List A) → All P xs → All P ys → All P (xs ++ ys)
  All-append P [] ys hx hy = hy
  All-append P (x ∷ xs) ys hx hy = (hx.0, All-append P xs ys hx.1 hy)

  pub length-append : (xs ys : List A) → length (xs ++ ys) ≡ length xs + length ys
  length-append [] ys = omega arith
  length-append (x ∷ xs) ys = omega (arith, length-append xs ys)

-- `a` is an item of the list, with its place kept.
abbrev pub In : {A : Type 0} → A → List A → Type 0
In a [] = ⊥
In a (x ∷ xs) = (x ≡ a) ⊎ In a xs

pub In-append_single :
    {A : Type 0} {a b : A} (xs : List A) → In a (xs ++ b ∷ []) → In a xs ⊎ (b ≡ a)
In-append_single [] (inl e) = inr e
In-append_single [] (inr i) = absurd i
In-append_single (x ∷ xs) (inl e) = inl (inl e)
In-append_single (x ∷ xs) (inr i) = elim (In-append_single xs i) [
  | inl j ↦ inl (inr j)
  | inr e ↦ inr e
]

-- no item of the list occurs twice
abbrev pub Distinct : {A : Type 0} → List A → Type 0
Distinct [] = Unit
Distinct (x ∷ xs) = (In x xs → ⊥) × Distinct xs

pub Distinct-append_single :
    {A : Type 0} (xs : List A) (a : A) → Distinct xs → (In a xs → ⊥) → Distinct (xs ++ a ∷ [])
Distinct-append_single [] a d n = (λ i. i, tt)
Distinct-append_single (x ∷ xs) a d n = (
  λ i. elim (In-append_single xs i) [ inl j ↦ d.0 j | inr e ↦ n (inl (sym e)) ],
  Distinct-append_single xs a d.1 (λ j. n (inr j)),
)

or_true : (b : Bool) → b || true ≡ true
or_true true = refl
or_true false = refl

pub clash : {b : Bool} → b ≡ false → b ≡ true → ⊥
clash h k = cc

pub both : (a b : Bool) → a && b ≡ true → (a ≡ true) × (b ≡ true)
both true b h = (refl, h)
both false b h = cc

pub any_of-In :
    {A : Type 0} (p : A → Bool) (xs : List A)
    → any_of p xs ≡ true
    → (x : A) × In x xs × (p x ≡ true)
any_of-In p [] h = cc
any_of-In p (x ∷ xs) h = elim (Bool-cases (p x)) [
  | inl here ↦ (x, inl refl, here)
  | inr further ↦
      let later : any_of p xs ≡ true = rw further at h in
      let (y, i, passes) = any_of-In p xs later in (y, inr i, passes)
]

pub In-any_of :
    {A : Type 0} (p : A → Bool) (x : A) (xs : List A) → In x xs → p x ≡ true → any_of p xs ≡ true
In-any_of p x [] i h = absurd i
In-any_of p x (y ∷ xs) (inl e) h =
    let here : p y ≡ true = subst (λ t. p t ≡ true) (sym e) h in rw here refl
In-any_of p x (y ∷ xs) (inr i) h = rw (In-any_of p x xs i h) (or_true (p y))

-- the items with the property, in order
abbrev pub keep {ℓ} : {A : Type ℓ} → (A → Bool) → List A → List A
keep p [] = []
keep p (x ∷ xs) = let rest = keep p xs in if p x then x ∷ rest else rest

pub In-keep :
    {A : Type 0} (p : A → Bool) (x : A) (xs : List A)
    → (In x (keep p xs) → In x xs × (p x ≡ true)) × (In x xs → p x ≡ true → In x (keep p xs))
In-keep p x [] = (λ i. absurd i, λ i h. absurd i)
In-keep p x (y ∷ xs) =
    let (there, back) = In-keep p x xs in
    elim (Bool-cases (p y)) [
      | inl kept ↦ rw kept (
        λ i. elim i [
          | inl e ↦ (inl e, subst (λ z. p z ≡ true) e kept)
          | inr j ↦ let (k, h) = there j in (inr k, h)
        ],
        λ i h. elim i [ inl e ↦ inl e | inr j ↦ inr (back j h) ],
      )
      | inr dropped ↦ rw dropped (
        λ i. let (k, h) = there i in (inr k, h),
        λ i h. elim i [
          | inl e ↦ absurd (clash (subst (λ z. p z ≡ false) e dropped) h)
          | inr j ↦ back j h
        ],
      )
    ]
