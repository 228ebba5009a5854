-- ===== src/Prelude/Dict.antt =====
-- Dicts with texts as keys: lists of pairs, of which `set` replaces the first with the key.
use mathlib.Core.Path.{◌≡◌, refl, subst, sym}
use mathlib.Core.Logic.{◌⊎◌, inl, inr}
use mathlib.Core.Bool.{true, false}
use mathlib.Core.List.{List, [], ◌∷◌, map}
use mathlib.Core.Option.{Option, none, some}
use native.Mathlib.Omega.{arith}
use aedifex.Prelude.Tests.{if◌then◌else◌, Bool-cases}
use aedifex.Prelude.Lists.{All, In, Distinct}
use aedifex.Prelude.Text.{Text, text_eq, text_eq_sound, text_eq_refl}

abbrev pub Dict : Type 0 → Type 0
Dict V = List (Text × V)

-- `d.get(key)`
unfoldable pub get : {V : Type 0} → Text → Dict V → Option V
unfolding text_eq
get key [] = none
get key ((k, v) ∷ d) = let rest = get key d in if text_eq k key then some v else rest

-- `d[key] = value`
unfoldable pub set : {V : Type 0} → Text → V → Dict V → Dict V
unfolding text_eq
set key value [] = (key, value) ∷ []
set key value ((k, v) ∷ d) =
    let rest = set key value d in if text_eq k key then (k, value) ∷ d else (k, v) ∷ rest

abbrev pub keys : {V : Type 0} → Dict V → List Text
keys d = map (λ entry. entry.0) d

pub other_key : (t j k : Text) → text_eq t k ≡ false → text_eq t j ≡ true → text_eq k j ≡ false
other_key t j k other here = elim (Bool-cases (text_eq k j)) [
  | inr e ↦ e
  | inl e ↦
      let same = text_eq_sound k j e in
      let found : text_eq t k ≡ true = subst (λ (u : Text). text_eq t u ≡ true) (sym same) here in
      absurd (cc)
]

unlike : (t k : Text) → text_eq t k ≡ false → t ≡ k → ⊥
unlike t k other e =
    let same : text_eq t k ≡ true = subst (λ (u : Text). text_eq t u ≡ true) e (text_eq_refl t) in
    cc

pub get-set :
    {V : Type 0} (j k : Text) (v : V) (d : Dict V)
    → get j (set k v d) ≡ (if text_eq k j then some v else get j d)
unfolding get set
get-set j k v [] = refl
get-set {V} j k v ((t, w) ∷ d) = elim (Bool-cases (text_eq t k)) [
  | inl same ↦ let e = text_eq_sound t k same in rw (same, set, get) (rw e (ground arith))
  | inr other ↦
      rw (other, set, get)
        (elim (Bool-cases (text_eq t j)) [
          | inl here ↦ rw (here, other_key t j k other here, get) refl
          | inr there ↦ rw (there, get) (get-set j k v d)
        ])
]

pub get-none_of_not-In :
    {V : Type 0} (key : Text) (d : Dict V) → (In key (keys d) → ⊥) → get key d ≡ none
unfolding get
get-none_of_not-In key [] h = refl
get-none_of_not-In key ((k, v) ∷ d) h = elim (Bool-cases (text_eq k key)) [
  | inl here ↦ absurd (h (inl (text_eq_sound k key here)))
  | inr there ↦ rw (there, get) (get-none_of_not-In key d (λ i. h (inr i)))
]

pub In-set :
    {V : Type 0} (j k : Text) (v : V) (d : Dict V)
    → In j (keys (set k v d))
    → (k ≡ j) ⊎ In j (keys d)
unfolding set
In-set j k v [] (inl e) = inl e
In-set j k v [] (inr i) = absurd i
In-set j k v ((t, w) ∷ d) i = elim (Bool-cases (text_eq t k)) [
  | inl same ↦ inr (rw (same, set) at i)
  | inr other ↦
      let later : (t ≡ j) ⊎ In j (keys (set k v d)) = rw (other, set) at i in
      elim later [
        | inl e ↦ inr (inl e)
        | inr l ↦ elim (In-set j k v d l) [ inl e ↦ inl e | inr m ↦ inr (inr m) ]
      ]
]

pub Distinct-set :
    {V : Type 0} (k : Text) (v : V) (d : Dict V) → Distinct (keys d) → Distinct (keys (set k v d))
unfolding set
Distinct-set k v [] distinct = (λ i. i, tt)
Distinct-set k v ((t, w) ∷ d) (fresh, distinct) = elim (Bool-cases (text_eq t k)) [
  | inl same ↦ let e = text_eq_sound t k same in rw (same, set) (λ i. fresh i, distinct)
  | inr other ↦
      rw (other, set)
        (
          λ i. elim (In-set t k v d i) [
            | inl e ↦ absurd (unlike t k other (sym e))
            | inr m ↦ fresh m
          ],
          Distinct-set k v d distinct,
        )
]

pub All-set :
    {V : Type 0} (P : Text × V → Type 0) (k : Text) (v : V) (d : Dict V)
    → P (k, v)
    → All P d
    → All P (set k v d)
unfolding set
All-set P k v [] p all = (p, tt)
All-set P k v ((t, w) ∷ d) p (first, all) = elim (Bool-cases (text_eq t k)) [
  | inl same ↦ rw (same, set) (subst (λ (u : Text). P (u, v)) (sym (text_eq_sound t k same)) p, all)
  | inr other ↦ rw (other, set) (first, All-set P k v d p all)
]

pub All-get :
    {V : Type 0} (P : Text × V → Type 0) (k : Text) (v : V) (d : Dict V)
    → All P d
    → get k d ≡ some v
    → P (k, v)
unfolding get
All-get P k v [] all e = absurd (cc)
All-get {V} P k v ((t, w) ∷ d) (first, all) e = elim (Bool-cases (text_eq t k)) [
  | inl same ↦
      let found : Option.some w ≡ some v = rw (same, get) at e in
      let value : w ≡ v = cc in
      subst (λ (u : V). P (k, u)) value
        (subst (λ (u : Text). P (u, w)) (text_eq_sound t k same) first)
  | inr other ↦ All-get P k v d all (rw (other, get) at e)
]
