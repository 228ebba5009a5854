-- ===== src/Analysis/WorkItems/Stages.antt =====
-- What passes from selection to calculation, and from calculation to the rules, under each type.
use mathlib.Core.Path.{subst}
use aedifex.Prelude.{
  ◌≡◌, refl, sym, ap, ◌∙◌, inl, inr, Bool, true, false, Option, none, some, List, [], ◌∷◌, ◌++◌,
  if◌then◌else◌, In, All, Distinct, Bool-cases, Option-cases,
}
use aedifex.Prelude.Text.{Text, text_eq, text_eq_sound}
use aedifex.Prelude.Integers.{ℤ}
use aedifex.Prelude.Dict.{Dict, get, set, keys, get-set, get-none_of_not-In}
use aedifex.Analysis.Facts.{ExtractedFact, field_contract_rate}
use aedifex.Analysis.Selection.{Selected}
use aedifex.Analysis.Calculation.{
  Calculated, comparable_pair, listed, quantity_difference, rate_difference, exposure_at,
  derived_unsupported_amount, compute_quantity_variance, compute_rate_variance,
  compute_unsupported_amount, compute_remaining_contract_quantity,
  derived_remaining_contract_quantity, variance_in, derived_quantity_variance,
  derived_rate_variance, keep_newest_type, newest_by_type, compute_all,
}
use aedifex.Analysis.Reconciliation.{with_fact, resolved_in}
use aedifex.Analysis.WorkItems.{persist_derived_facts, values}

abbrev pub fact_in : Option Selected → Option ExtractedFact
fact_in none = none
fact_in (some s) = s.fact

get-with_fact :
    (t k : Text) (o : Option ExtractedFact) (d : Dict ExtractedFact)
    → (text_eq k t ≡ true → get t d ≡ none → get t (with_fact k o d) ≡ o)
      × (text_eq k t ≡ false → get t (with_fact k o d) ≡ get t d)
unfolding get
get-with_fact t k none d = (λ h e. e, λ h. refl)
get-with_fact t k (some f) d = (λ h e. rw (h, get) refl, λ h. rw (h, get) refl)

In-with_fact :
    (t k : Text) (o : Option ExtractedFact) (d : Dict ExtractedFact) (others : List Text)
    → (In t (keys d) → In t others)
    → In t (keys (with_fact k o d))
    → In t (k ∷ others)
In-with_fact t k none d others later i = inr (later i)
In-with_fact t k (some f) d others later (inl e) = inl e
In-with_fact t k (some f) d others later (inr i) = inr (later i)

In-resolved_in :
    (t : Text) (selections : Dict Selected)
    → In t (keys (resolved_in selections))
    → In t (keys selections)
unfolding resolved_in
In-resolved_in t [] i = i
In-resolved_in t ((k, s) ∷ selections) i =
    In-with_fact t k s.fact (resolved_in selections) (keys selections) (In-resolved_in t selections)
      i

Distinct-with_fact :
    (k : Text) (o : Option ExtractedFact) (d : Dict ExtractedFact)
    → (In k (keys d) → ⊥)
    → Distinct (keys d)
    → Distinct (keys (with_fact k o d))
Distinct-with_fact k none d fresh distinct = distinct
Distinct-with_fact k (some f) d fresh distinct = (fresh, distinct)

pub Distinct-resolved_in :
    (selections : Dict Selected)
    → Distinct (keys selections)
    → Distinct (keys (resolved_in selections))
unfolding resolved_in
Distinct-resolved_in [] distinct = tt
Distinct-resolved_in ((k, s) ∷ selections) (fresh, distinct) =
    Distinct-with_fact k s.fact (resolved_in selections)
      (λ i. fresh (In-resolved_in k selections i)) (Distinct-resolved_in selections distinct)

pub get-resolved_in :
    (t : Text) (selections : Dict Selected)
    → Distinct (keys selections)
    → get t (resolved_in selections) ≡ fact_in (get t selections)
unfolding resolved_in get
get-resolved_in t [] distinct = refl
get-resolved_in t ((k, s) ∷ selections) (fresh, distinct) =
    let (at_key, elsewhere) = get-with_fact t k s.fact (resolved_in selections) in
    elim (Bool-cases (text_eq k t)) [
      | inl here ↦
          let e = text_eq_sound k t here in
          let gone : get k (resolved_in selections) ≡ none =
            get-none_of_not-In k (resolved_in selections)
              (λ i. fresh (In-resolved_in k selections i)) in
          rw (here, get)
            (at_key here (subst (λ (u : Text). get u (resolved_in selections) ≡ none) e gone))
      | inr there ↦ rw (there, get) (elsewhere there ∙ get-resolved_in t selections distinct)
    ]

-- Each fact stands under its own type.
abbrev pub IsTyped : Dict ExtractedFact → Type 0
IsTyped d = All (λ entry. entry.1.fact_type ≡ entry.0) d

abbrev first_of : {A : Type 0} → Option A → Option A → Option A
first_of (some a) o = some a
first_of none o = o

keep_newest_type_new :
    (f : ExtractedFact) (kept : Dict ExtractedFact)
    → get f.fact_type kept ≡ none
    → keep_newest_type f kept ≡ set f.fact_type f kept
unfolding keep_newest_type
keep_newest_type_new f kept new = rw (new, keep_newest_type) refl

-- where the key is new, setting it stands behind what a later dict has
first_of-set :
    (t k : Text) (f : ExtractedFact) (kept d : Dict ExtractedFact)
    → (In k (keys d) → ⊥)
    → first_of (get t d) (get t (set k f kept)) ≡ first_of (get t ((k, f) ∷ d)) (get t kept)
unfolding get
first_of-set t k f kept d fresh =
    ap (first_of (get t d)) (get-set t k f kept) ∙ elim (Bool-cases (text_eq k t)) [
      | inl here ↦
          let gone : get t d ≡ none =
            subst (λ (u : Text). get u d ≡ none) (text_eq_sound k t here)
              (get-none_of_not-In k d fresh) in
          rw (here, gone, get) refl
      | inr there ↦ rw (there, get) refl
    ]

get-newest_by_type :
    (t : Text) (kept d : Dict ExtractedFact)
    → Distinct (keys d)
    → IsTyped d
    → ((k : Text) → In k (keys d) → get k kept ≡ none)
    → get t (newest_by_type kept (values d)) ≡ first_of (get t d) (get t kept)
unfolding newest_by_type get
get-newest_by_type t kept [] distinct typed new = refl
get-newest_by_type t kept ((k, f) ∷ d) (fresh, distinct) (typed, all_typed) new =
    let first : keep_newest_type f kept ≡ set k f kept =
      keep_newest_type_new f kept
        (subst (λ (u : Text). get u kept ≡ none) (sym typed) (new k (inl refl)))
      ∙ ap (λ (u : Text). set u f kept) typed in
    let still_new : (j : Text) → In j (keys d) → get j (set k f kept) ≡ none = λ j i.
      get-set j k f kept ∙ elim (Bool-cases (text_eq k j)) [
        | inl here ↦
            absurd (fresh (subst (λ (u : Text). In u (keys d)) (sym (text_eq_sound k j here)) i))
        | inr there ↦ rw there (new j (inr i))
      ] in
    ap (λ (m : Dict ExtractedFact). get t (newest_by_type m (values d))) first
    ∙ get-newest_by_type t (set k f kept) d distinct all_typed still_new
    ∙ first_of-set t k f kept d fresh

first_of-none : {A : Type 0} (o : Option A) → first_of o none ≡ o
first_of-none none = refl
first_of-none (some a) = refl

-- A dict of facts under their own types is what `_newest_by_type` makes of its values.
pub get-newest_of_values :
    (t : Text) (d : Dict ExtractedFact)
    → Distinct (keys d)
    → IsTyped d
    → get t (newest_by_type [] (values d)) ≡ get t d
unfolding get
get-newest_of_values t d distinct typed =
    get-newest_by_type t [] d distinct typed (λ k i. refl) ∙ first_of-none (get t d)

-- What is calculated is of that type.
abbrev IsOfType : Text → Option Calculated → Type 0
IsOfType t none = Unit
IsOfType t (some item) = item.fact_type ≡ t

-- what a calculation of type `k` leaves under `t`
abbrev onto : Text → Text → Option Calculated → Option Calculated → Option Calculated
onto t k o before = if text_eq k t then first_of o before else before

either_way : {A : Type 0} (b : Bool) (a : A) → a ≡ (if b then a else a)
either_way true a = refl
either_way false a = refl

persist_listed :
    (t k : Text) (o : Option Calculated) (stored : Dict Calculated)
    → IsOfType k o
    → get t (persist_derived_facts stored (listed o)) ≡ onto t k o (get t stored)
unfolding persist_derived_facts
persist_listed t k none stored typed = either_way (text_eq k t) (get t stored)
persist_listed t k (some item) stored typed =
    ap (λ (u : Text). get t (set u item stored)) typed ∙ get-set t k item stored

persist_append :
    (stored : Dict Calculated) (xs ys : List Calculated)
    → persist_derived_facts stored (xs ++ ys)
      ≡ persist_derived_facts (persist_derived_facts stored xs) ys
unfolding persist_derived_facts
persist_append stored [] ys = refl
persist_append stored (x ∷ xs) ys = persist_append (set x.fact_type x stored) xs ys

quantity_difference-type :
    (fact_type left right : Text) (facts : Dict ExtractedFact)
    → IsOfType fact_type (quantity_difference fact_type left right facts)
unfolding quantity_difference
quantity_difference-type fact_type left right facts =
    elim (Option-cases (comparable_pair (get left facts) (get right facts))) [
      | inl e ↦ rw (e, quantity_difference) tt
      | inr ((l, r, unit), e) ↦ rw (e, quantity_difference) refl
    ]

rate_difference-type :
    (claimed contracted : Option ExtractedFact)
    → IsOfType derived_rate_variance (rate_difference claimed contracted)
unfolding rate_difference
rate_difference-type none contracted = tt
rate_difference-type (some claimed) none = tt
rate_difference-type (some claimed) (some contracted) = elim (Option-cases claimed.numeric_value) [
  | inl e ↦ rw (e, rate_difference) tt
  | inr (l, e) ↦ elim (Option-cases contracted.numeric_value) [
    | inl d ↦ rw (e, d, rate_difference) tt
    | inr (r, d) ↦ rw (e, d, rate_difference) refl
  ]
]

exposure_at-type :
    (rate : Option ExtractedFact) (variance : ℤ)
    → IsOfType derived_unsupported_amount (exposure_at rate variance)
unfolding exposure_at
exposure_at-type none variance = tt
exposure_at-type (some fact) variance = elim (Option-cases fact.numeric_value) [
  | inl e ↦ rw (e, exposure_at) tt
  | inr (rate, e) ↦ rw (e, exposure_at) refl
]

quantity-type :
    (facts : Dict ExtractedFact)
    → IsOfType derived_quantity_variance (compute_quantity_variance facts)
unfolding compute_quantity_variance
quantity-type facts = quantity_difference-type derived_quantity_variance _ _ facts

remaining-type :
    (facts : Dict ExtractedFact)
    → IsOfType derived_remaining_contract_quantity (compute_remaining_contract_quantity facts)
unfolding compute_remaining_contract_quantity
remaining-type facts = quantity_difference-type derived_remaining_contract_quantity _ _ facts

rate-type :
    (facts : Dict ExtractedFact) → IsOfType derived_rate_variance (compute_rate_variance facts)
unfolding compute_rate_variance
rate-type facts = rate_difference-type _ _

unsupported-type :
    (facts : Dict ExtractedFact) (variance : Option ℤ)
    → IsOfType derived_unsupported_amount (compute_unsupported_amount facts variance)
unfolding compute_unsupported_amount
unsupported-type facts none = tt
unsupported-type facts (some variance) = exposure_at-type (get field_contract_rate facts) variance

persist_then :
    (t k : Text) (stored : Dict Calculated) (xs : List Calculated) (o : Option Calculated)
    → IsOfType k o
    → get t (persist_derived_facts stored (xs ++ listed o))
      ≡ onto t k o (get t (persist_derived_facts stored xs))
persist_then t k stored xs o typed =
    ap (get t) (persist_append stored xs (listed o))
    ∙ persist_listed t k o (persist_derived_facts stored xs) typed

-- What four calculations leave under a type.
persist_four :
    (t kq kr kv ku : Text) (q r v u : Option Calculated)
    → IsOfType kq q
    → IsOfType kr r
    → IsOfType kv v
    → IsOfType ku u
    → get t (persist_derived_facts [] ((listed q ++ (listed r ++ listed v)) ++ listed u))
      ≡ onto t ku u (onto t kv v (onto t kr r (onto t kq q (get t []))))
persist_four t kq kr kv ku q r v u tq tr tv tu =
    let first = persist_derived_facts [] (listed q) in
    persist_then t ku [] (listed q ++ (listed r ++ listed v)) u tu
    ∙ ap (onto t ku u) (
        ap (get t) (persist_append [] (listed q) (listed r ++ listed v))
        ∙ persist_then t kv first (listed r) v tv
        ∙ ap (onto t kv v)
            (persist_listed t kr r first tr ∙ ap (onto t kr r) (persist_listed t kq q [] tq)))

-- The variances that are stored are those that are calculated.
pub stored_variances :
    (newest : Dict ExtractedFact)
    → (get derived_quantity_variance (persist_derived_facts [] (compute_all newest))
        ≡ compute_quantity_variance newest)
      × (get derived_rate_variance (persist_derived_facts [] (compute_all newest))
          ≡ compute_rate_variance newest)
unfolding compute_all text_eq get
stored_variances newest =
    let q = compute_quantity_variance newest in
    let r = compute_remaining_contract_quantity newest in
    let v = compute_rate_variance newest in
    let u = compute_unsupported_amount newest (variance_in (listed q ++ (listed r ++ listed v))) in
    let tq : IsOfType derived_quantity_variance q = quantity-type newest in
    let tr : IsOfType derived_remaining_contract_quantity r = remaining-type newest in
    let tv : IsOfType derived_rate_variance v = rate-type newest in
    let tu : IsOfType derived_unsupported_amount u = unsupported-type newest _ in
    (
      persist_four derived_quantity_variance derived_quantity_variance
            derived_remaining_contract_quantity derived_rate_variance derived_unsupported_amount q r
            v u tq tr tv tu
          ∙ first_of-none q,
      persist_four derived_rate_variance derived_quantity_variance
            derived_remaining_contract_quantity derived_rate_variance derived_unsupported_amount q r
            v u tq tr tv tu
          ∙ first_of-none v,
    )
