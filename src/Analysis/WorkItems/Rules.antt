-- ===== src/Analysis/WorkItems/Rules.antt =====
-- The outcome of a rule by its conflicts, its facts and what is derived from them.
use aedifex.Prelude.{
  ◌≡◌, refl, ap, ◌⊎◌, inl, inr, Bool, false, ◌||◌, Option, none, some, ◌++◌, if◌then◌else◌,
  Bool-cases, Option-cases,
}
use aedifex.Prelude.Text.{Text}
use aedifex.Prelude.Integers.{ℤ, ◌-ℤ◌}
use aedifex.Prelude.Dict.{Dict, get}
use aedifex.Domain.Workflow.{Outcome}
use aedifex.Analysis.Facts.{ExtractedFact}
use aedifex.Analysis.Selection.{Selected}
use aedifex.Analysis.Calculation.{Calculated, comparable_pair, quantity_difference, rate_difference}
use aedifex.Analysis.Reconciliation.{
  WorkItemRuleResult, conflict_of, unless_conflicted, judge_derived,
}

abbrev pub Pair : Type 0
Pair = ℤ × ℤ × Option Text

abbrev pub flag : Option Selected → Bool
flag none = false
flag (some s) = s.conflicting

conflict_of-flag :
    (rule_id : Text) (o : Option Selected) (result : WorkItemRuleResult)
    → (unless_conflicted rule_id (conflict_of o) result).outcome
      ≡ (if flag o then Outcome.review else result.outcome)
conflict_of-flag rule_id none result = refl
conflict_of-flag rule_id (some s) result = elim (Bool-cases s.conflicting) [
  | inl e ↦ rw e refl
  | inr e ↦ rw e refl
]

-- A conflict of either selection makes the outcome a review, whatever the facts are.
pub unless_conflicted-outcome :
    (rule_id : Text) (a b : Option Selected) (result : WorkItemRuleResult)
    → (unless_conflicted rule_id (conflict_of a ++ conflict_of b) result).outcome
      ≡ (if flag a || flag b then Outcome.review else result.outcome)
unless_conflicted-outcome rule_id none b result = conflict_of-flag rule_id b result
unless_conflicted-outcome rule_id (some s) b result = elim (Bool-cases s.conflicting) [
  | inl e ↦ rw e refl
  | inr e ↦ rw e (conflict_of-flag rule_id b result)
]

-- The variance is there exactly where the pair is, and is its difference.
abbrev pub VarianceOf : Option Pair → Option Calculated → Type 0
VarianceOf none none = Unit
VarianceOf none (some item) = ⊥
VarianceOf (some pair) none = ⊥
VarianceOf (some (l, r, unit)) (some item) = item.value ≡ l -ℤ r

abbrev pub outcome_of : (ℤ → Bool) → Option Pair → Outcome
outcome_of holds none = Outcome.inconclusive
outcome_of holds (some (l, r, unit)) = if holds (l -ℤ r) then Outcome.pass else Outcome.review

pub judge_derived-outcome :
    (rule_id first second derived : Text) (holds : ℤ → Bool) (f s : Option ExtractedFact)
    (pair : Option Pair) (variance : Option Calculated)
    → (f ≡ none → pair ≡ none)
    → (s ≡ none → pair ≡ none)
    → VarianceOf pair variance
    → (judge_derived rule_id first second derived holds f s variance).outcome
      ≡ outcome_of holds pair
unfolding judge_derived
judge_derived-outcome rule_id first second derived holds none s pair variance no_f no_s v =
    rw (no_f refl) refl
judge_derived-outcome rule_id first second derived holds (some f) none pair variance no_f no_s v =
    rw (no_s refl) refl
judge_derived-outcome rule_id first second derived holds (some f) (some s) none none no_f no_s v =
    refl
judge_derived-outcome rule_id first second derived holds (some f) (some s) none (some item) no_f
      no_s v =
    absurd v
judge_derived-outcome rule_id first second derived holds (some f) (some s) (some pair) none no_f
      no_s v =
    absurd v
judge_derived-outcome rule_id first second derived holds (some f) (some s) (some (l, r, unit))
      (some item) no_f no_s v =
    ap (λ (d : ℤ). if holds d then Outcome.pass else Outcome.review) v

-- the numbers of two facts, whatever their units
abbrev numbers : Option ℤ → Option ℤ → Option Pair
numbers none r = none
numbers (some l) none = none
numbers (some l) (some r) = some (l, r, none)

abbrev pub number_pair : Option ExtractedFact → Option ExtractedFact → Option Pair
number_pair none s = none
number_pair (some f) none = none
number_pair (some f) (some s) = numbers f.numeric_value s.numeric_value

pub quantity_difference-VarianceOf :
    (fact_type left right : Text) (facts : Dict ExtractedFact)
    → VarianceOf
        (comparable_pair (get left facts) (get right facts))
        (quantity_difference fact_type left right facts)
unfolding quantity_difference
quantity_difference-VarianceOf fact_type left right facts =
    elim (Option-cases (comparable_pair (get left facts) (get right facts))) [
      | inl e ↦ rw (e, quantity_difference) tt
      | inr ((l, r, unit), e) ↦ rw (e, quantity_difference) refl
    ]

pub rate_difference-VarianceOf :
    (f s : Option ExtractedFact) → VarianceOf (number_pair f s) (rate_difference f s)
unfolding rate_difference
rate_difference-VarianceOf none s = tt
rate_difference-VarianceOf (some f) none = tt
rate_difference-VarianceOf (some f) (some s) = elim (Option-cases f.numeric_value) [
  | inl e ↦ rw (e, rate_difference) tt
  | inr (l, e) ↦ elim (Option-cases s.numeric_value) [
    | inl d ↦ rw (e, d, rate_difference) tt
    | inr (r, d) ↦ rw (e, d, rate_difference) refl
  ]
]

pub comparable_pair-none :
    (f s : Option ExtractedFact) → ((f ≡ none) ⊎ (s ≡ none)) → comparable_pair f s ≡ none
unfolding comparable_pair
comparable_pair-none none s e = refl
comparable_pair-none (some f) none e = refl
comparable_pair-none (some f) (some s) (inl e) = absurd (cc)
comparable_pair-none (some f) (some s) (inr e) = absurd (cc)
