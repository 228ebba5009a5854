-- ===== src/Analysis/WorkItems/Outcomes.antt =====
-- The outcomes of a work item's rules, by the selections of the facts alone.
use aedifex.Prelude.Sorting.{sort_by}
use aedifex.Prelude.{
  ◌≡◌, refl, sym, ap, ◌∙◌, ◌⊎◌, inl, inr, Bool, false, ◌||◌, Option, none, some, List, [],
  if◌then◌else◌,
}
use aedifex.Prelude.Text.{Text}
use aedifex.Prelude.Integers.{ℤ, pos, leb_ℤ, eq_ℤ, eq_ℤ-sub}
use aedifex.Prelude.Dict.{Dict, get}
use aedifex.Domain.Workflow.{Outcome}
use aedifex.Analysis.Facts.{
  ExtractedFact, Documents, field_contract_rate, field_previous_certified_quantity,
  field_cumulative_claim_quantity, field_claimed_rate,
}
use aedifex.Analysis.Selection.{
  Selected, judge_candidates, newest_per_claim, newest_from, select_one, select_facts,
}
use aedifex.Analysis.Selection.Groups.{
  of_type, Distinct-select_facts, selection_or_none, get-select_facts,
}
use aedifex.Analysis.Calculation.{
  compute_rate_variance, derived_rate_variance, newest_by_type, compute_for_work_item,
}
use aedifex.Analysis.Reconciliation.{
  WorkItemRuleResult, value_or_zero, unless_conflicted, resolved_in, conflicts_on, judge_derived,
  judge_cumulative, evaluate_rate_matches_contract, evaluate_cumulative_not_regressed,
}
use aedifex.Analysis.WorkItems.{values, bundle}
use aedifex.Analysis.WorkItems.Stages.{
  fact_in, get-resolved_in, Distinct-resolved_in, get-newest_of_values, stored_variances,
}
use aedifex.Analysis.WorkItems.Typed.{chosen-IsTyped}
use aedifex.Analysis.WorkItems.Rules.{
  Pair, flag, unless_conflicted-outcome, VarianceOf, outcome_of, judge_derived-outcome, number_pair,
  rate_difference-VarianceOf,
}

-- What the claim may be: at most what was measured.
abbrev pub claimed_within : Option Pair → Outcome
claimed_within none = Outcome.inconclusive
claimed_within (some (claimed, measured, unit)) =
    if leb_ℤ claimed measured then Outcome.pass else Outcome.review

abbrev pub rates_equal : Option Pair → Outcome
rates_equal none = Outcome.inconclusive
rates_equal (some (claimed, contracted, unit)) =
    if eq_ℤ claimed contracted then Outcome.pass else Outcome.review

abbrev pub not_regressed : Option ExtractedFact → Option ExtractedFact → Outcome
not_regressed none previous = Outcome.inconclusive
not_regressed (some cumulative) none = Outcome.inconclusive
not_regressed (some cumulative) (some previous) =
    if leb_ℤ (value_or_zero previous) (value_or_zero cumulative)
    then Outcome.pass
    else Outcome.review

none_selected :
    (t : Text) (documents : Documents)
    → ((select_one t [] documents).fact ≡ none) × ((select_one t [] documents).conflicting ≡ false)
unfolding select_one newest_per_claim newest_from sort_by judge_candidates
none_selected t documents = (refl, refl)

fact_in_or_none :
    (t : Text) (documents : Documents) (o : Option Selected)
    → fact_in o ≡ (selection_or_none t documents o).fact
fact_in_or_none t documents none = sym (none_selected t documents).0
fact_in_or_none t documents (some s) = refl

flag_or_none :
    (t : Text) (documents : Documents) (o : Option Selected)
    → flag o ≡ (selection_or_none t documents o).conflicting
flag_or_none t documents none = sym (none_selected t documents).1
flag_or_none t documents (some s) = refl

equal_difference : (pair : Option Pair) → outcome_of (λ d. eq_ℤ d (pos 0)) pair ≡ rates_equal pair
equal_difference none = refl
equal_difference (some (l, r, unit)) =
    ap (λ (b : Bool). if b then Outcome.pass else Outcome.review) (eq_ℤ-sub l r)

number_pair-none : (f s : Option ExtractedFact) → ((f ≡ none) ⊎ (s ≡ none)) → number_pair f s ≡ none
number_pair-none none s e = refl
number_pair-none (some f) none e = refl
number_pair-none (some f) (some s) (inl e) = absurd (cc)
number_pair-none (some f) (some s) (inr e) = absurd (cc)

module _ (facts : List ExtractedFact) (documents : Documents) where
  -- the selection among the facts of a type
  abbrev pub selected : Text → Selected
  selected t = select_one t (of_type t facts) documents

  -- a conflict of either fact comes first
  abbrev pub unless_disputed : Text → Text → Outcome → Outcome
  unless_disputed first second outcome =
      if (selected first).conflicting || (selected second).conflicting
      then Outcome.review
      else outcome

  abbrev chosen : Dict ExtractedFact
  chosen = resolved_in (select_facts facts documents)

  abbrev newest : Dict ExtractedFact
  newest = newest_by_type [] (values chosen)

  get-chosen-selected : (t : Text) → get t chosen ≡ (selected t).fact
  get-chosen-selected t =
      get-resolved_in t (select_facts facts documents) (Distinct-select_facts facts documents)
      ∙ fact_in_or_none t documents (get t (select_facts facts documents))
      ∙ ap (λ (s : Selected). s.fact) (get-select_facts t facts documents)

  get-newest-selected : (t : Text) → get t newest ≡ (selected t).fact
  get-newest-selected t =
      get-newest_of_values t chosen
        (Distinct-resolved_in (select_facts facts documents)
          (Distinct-select_facts facts documents))
        (chosen-IsTyped facts documents)
      ∙ get-chosen-selected t

  flag-selected :
      (t : Text) → flag (get t (select_facts facts documents)) ≡ (selected t).conflicting
  flag-selected t =
      flag_or_none t documents (get t (select_facts facts documents))
      ∙ ap (λ (s : Selected). s.conflicting) (get-select_facts t facts documents)

  rule_outcome :
      (rule_id first second : Text) (result : WorkItemRuleResult) (outcome : Outcome)
      → result.outcome ≡ outcome
      → (unless_conflicted rule_id
          (conflicts_on (bundle facts documents) first second)
          result).outcome
        ≡ unless_disputed first second outcome
  unfolding conflicts_on bundle
  rule_outcome rule_id first second result outcome e =
      unless_conflicted-outcome rule_id (get first (select_facts facts documents))
        (get second (select_facts facts documents)) result
      ∙ rw (flag-selected first, flag-selected second, e) refl

  rate_variance-VarianceOf :
      VarianceOf
        (number_pair (selected field_claimed_rate).fact (selected field_contract_rate).fact)
        (get derived_rate_variance (bundle facts documents).derived)
  unfolding bundle compute_for_work_item compute_rate_variance
  rate_variance-VarianceOf = rw ((stored_variances newest).1) (
      rw
        (
          sym (get-newest-selected field_claimed_rate),
          sym (get-newest-selected field_contract_rate),
        )
        (rate_difference-VarianceOf (get field_claimed_rate newest)
          (get field_contract_rate newest)))

  judged_outcome :
      (rule_id first second derived : Text) (holds : ℤ → Bool) (pair : Option Pair)
      → ((selected first).fact ≡ none → pair ≡ none)
      → ((selected second).fact ≡ none → pair ≡ none)
      → VarianceOf pair (get derived (bundle facts documents).derived)
      → (judge_derived rule_id first second derived holds
          (get first (bundle facts documents).facts)
          (get second (bundle facts documents).facts)
          (get derived (bundle facts documents).derived)).outcome
        ≡ outcome_of holds pair
  unfolding bundle
  judged_outcome rule_id first second derived holds pair no_first no_second v =
      judge_derived-outcome rule_id first second derived holds (get first chosen)
        (get second chosen) pair _ (λ e. no_first (sym (get-chosen-selected first) ∙ e))
        (λ e. no_second (sym (get-chosen-selected second) ∙ e)) v

  -- The same for the rate rule, which passes if the claimed rate is the contracted one, and which
  -- compares numbers whatever their units and currencies are.
  pub rate_matches_contract-refines :
      (evaluate_rate_matches_contract (bundle facts documents)).outcome
      ≡ unless_disputed field_claimed_rate field_contract_rate (
          rates_equal
            (number_pair (selected field_claimed_rate).fact (selected field_contract_rate).fact))
  unfolding evaluate_rate_matches_contract
  rate_matches_contract-refines =
      let claimed = (selected field_claimed_rate).fact in
      let contracted = (selected field_contract_rate).fact in
      rule_outcome _ field_claimed_rate field_contract_rate _ _ (
        judged_outcome _ field_claimed_rate field_contract_rate derived_rate_variance
          (λ difference. eq_ℤ difference (pos 0)) (number_pair claimed contracted)
          (λ e. number_pair-none claimed contracted (inl e))
          (λ e. number_pair-none claimed contracted (inr e)) rate_variance-VarianceOf
        ∙ equal_difference (number_pair claimed contracted))

  judge_cumulative-outcome :
      (cumulative previous : Option ExtractedFact)
      → (judge_cumulative cumulative previous).outcome ≡ not_regressed cumulative previous
  unfolding judge_cumulative
  judge_cumulative-outcome none previous = refl
  judge_cumulative-outcome (some cumulative) none = refl
  judge_cumulative-outcome (some cumulative) (some previous) = refl

  -- The rule on the cumulative claim is a review where the selection of either quantity conflicts,
  -- inconclusive where one of them is not selected, and otherwise passes if the cumulative claim is
  -- at least what was certified before, a quantity without a number counting as zero.
  pub cumulative_not_regressed-refines :
      (evaluate_cumulative_not_regressed (bundle facts documents)).outcome
      ≡ unless_disputed field_cumulative_claim_quantity field_previous_certified_quantity (
          not_regressed
            (selected field_cumulative_claim_quantity).fact
            (selected field_previous_certified_quantity).fact)
  unfolding evaluate_cumulative_not_regressed bundle
  cumulative_not_regressed-refines =
      rule_outcome _ field_cumulative_claim_quantity field_previous_certified_quantity _ _ (
        judge_cumulative-outcome (get field_cumulative_claim_quantity chosen)
          (get field_previous_certified_quantity chosen)
        ∙ rw
            (
              get-chosen-selected field_cumulative_claim_quantity,
              get-chosen-selected field_previous_certified_quantity,
            )
            refl)
