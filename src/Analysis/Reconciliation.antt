-- ===== src/Analysis/Reconciliation.antt =====
-- src/aedifex/verification/reconciliation.py: the rules on one work item. A result keeps its outcome
-- and what it rests on; summaries and details, which are texts for people, are left out.
use aedifex.Prelude.{Bool, true, Option, none, some, List, [], ◌∷◌, ◌++◌, if◌then◌else◌}
use aedifex.Prelude.Text.{Text, codes}
use aedifex.Prelude.Integers.{ℤ, pos, leb_ℤ, eq_ℤ}
use aedifex.Prelude.Dict.{Dict, get}
use aedifex.Domain.Workflow.{Outcome}
use aedifex.Analysis.Facts.{
  ExtractedFact, field_contract_rate, field_measured_quantity, field_previous_certified_quantity,
  field_cumulative_claim_quantity, field_claimed_rate,
}
use aedifex.Analysis.Selection.{Selected}
use aedifex.Analysis.Calculation.{Calculated, derived_quantity_variance, derived_rate_variance}

abbrev pub claim_within_measured_rule_id : Text
claim_within_measured_rule_id = codes "claim_within_measured_quantity"

abbrev pub rate_matches_contract_rule_id : Text
rate_matches_contract_rule_id = codes "claimed_rate_matches_contract_rate"

abbrev pub cumulative_not_regressed_rule_id : Text
cumulative_not_regressed_rule_id = codes "cumulative_claim_not_below_previous_certified"

abbrev pub unambiguous_evidence_rule_id : Text
unambiguous_evidence_rule_id = codes "work_item_evidence_unambiguous"

pub record WorkItemFacts : Type 0 where
  pub facts : Dict ExtractedFact
  pub derived : Dict Calculated
  pub selections : Dict Selected

pub record WorkItemRuleResult : Type 0 where
  pub rule_id : Text
  pub outcome : Outcome
  pub conflicts : List Selected
  pub missing : List Text
  pub evidence : Dict ExtractedFact

abbrev pub conflict_of : Option Selected → List Selected
conflict_of none = []
conflict_of (some selection) = if selection.conflicting then selection ∷ [] else []

-- `WorkItemFacts.conflicts`, of two fact types
unfoldable pub conflicts_on : WorkItemFacts → Text → Text → List Selected
unfolding get
conflicts_on item first second =
    conflict_of (get first item.selections) ++ conflict_of (get second item.selections)

-- `_conflicted`
abbrev pub conflicted : Text → List Selected → WorkItemRuleResult
conflicted rule_id conflicts = record {
  rule_id = rule_id;
  outcome = Outcome.review;
  conflicts = conflicts;
  missing = [];
  evidence = [];
}

-- `_inconclusive`
abbrev pub inconclusive : Text → List Text → WorkItemRuleResult
inconclusive rule_id missing = record {
  rule_id = rule_id;
  outcome = Outcome.inconclusive;
  conflicts = [];
  missing = missing;
  evidence = [];
}

abbrev pub judged : Text → Bool → Dict ExtractedFact → WorkItemRuleResult
judged rule_id holds evidence = record {
  rule_id = rule_id;
  outcome = if holds then Outcome.pass else Outcome.review;
  conflicts = [];
  missing = [];
  evidence = evidence;
}

abbrev pub absent : {A : Type 0} → Text → Option A → List Text
absent name none = name ∷ []
absent name (some a) = []

-- the rules on two facts and what is derived from them, below the conflicts
unfoldable pub judge_derived :
    Text
    → Text
    → Text
    → Text
    → (ℤ → Bool)
    → Option ExtractedFact
    → Option ExtractedFact
    → Option Calculated
    → WorkItemRuleResult
judge_derived rule_id first second derived holds (some f) (some s) (some variance) =
    judged rule_id (holds variance.value) ((first, f) ∷ (second, s) ∷ [])
judge_derived rule_id first second derived holds f s variance =
    inconclusive rule_id (absent first f ++ (absent second s ++ absent derived variance))

-- the beginning that the rules share: a conflict among their facts comes first
abbrev pub unless_conflicted : Text → List Selected → WorkItemRuleResult → WorkItemRuleResult
unless_conflicted rule_id [] result = result
unless_conflicted rule_id (c ∷ conflicts) result = conflicted rule_id (c ∷ conflicts)

-- `evaluate_claim_within_measured`
unfoldable pub evaluate_claim_within_measured : WorkItemFacts → WorkItemRuleResult
unfolding conflicts_on judge_derived get
evaluate_claim_within_measured item =
    unless_conflicted claim_within_measured_rule_id
      (conflicts_on item field_cumulative_claim_quantity field_measured_quantity)
      (judge_derived claim_within_measured_rule_id field_cumulative_claim_quantity
        field_measured_quantity derived_quantity_variance (λ over. leb_ℤ over (pos 0))
        (get field_cumulative_claim_quantity item.facts) (get field_measured_quantity item.facts)
        (get derived_quantity_variance item.derived))

-- `evaluate_rate_matches_contract`
unfoldable pub evaluate_rate_matches_contract : WorkItemFacts → WorkItemRuleResult
unfolding conflicts_on judge_derived get
evaluate_rate_matches_contract item =
    unless_conflicted rate_matches_contract_rule_id
      (conflicts_on item field_claimed_rate field_contract_rate)
      (judge_derived rate_matches_contract_rule_id field_claimed_rate field_contract_rate
        derived_rate_variance (λ difference. eq_ℤ difference (pos 0))
        (get field_claimed_rate item.facts) (get field_contract_rate item.facts)
        (get derived_rate_variance item.derived))

-- `Decimal(fact.numeric_value or 0)`
abbrev pub value_or_zero : ExtractedFact → ℤ
value_or_zero fact = elim fact.numeric_value as (λ _. ℤ) [ none ↦ pos 0 | some v ↦ v ]

unfoldable pub judge_cumulative : Option ExtractedFact → Option ExtractedFact → WorkItemRuleResult
judge_cumulative (some cumulative) (some previous) =
    judged cumulative_not_regressed_rule_id
      (leb_ℤ (value_or_zero previous) (value_or_zero cumulative))
      ((field_cumulative_claim_quantity, cumulative)
        ∷ (field_previous_certified_quantity, previous)
        ∷ [])
judge_cumulative cumulative previous = inconclusive cumulative_not_regressed_rule_id (
    absent field_cumulative_claim_quantity cumulative
    ++ absent field_previous_certified_quantity previous)

-- `evaluate_cumulative_not_regressed`
unfoldable pub evaluate_cumulative_not_regressed : WorkItemFacts → WorkItemRuleResult
unfolding conflicts_on judge_cumulative get
evaluate_cumulative_not_regressed item =
    unless_conflicted cumulative_not_regressed_rule_id
      (conflicts_on item field_cumulative_claim_quantity field_previous_certified_quantity)
      (judge_cumulative (get field_cumulative_claim_quantity item.facts)
        (get field_previous_certified_quantity item.facts))

-- the selections that conflict
unfoldable pub conflicting_in : Dict Selected → List Selected
conflicting_in [] = []
conflicting_in ((fact_type, selection) ∷ selections) =
    let rest = conflicting_in selections in if selection.conflicting then selection ∷ rest else rest

-- the facts of the selections that are resolved
abbrev pub with_fact : Text → Option ExtractedFact → Dict ExtractedFact → Dict ExtractedFact
with_fact fact_type none facts = facts
with_fact fact_type (some fact) facts = (fact_type, fact) ∷ facts

unfoldable pub resolved_in : Dict Selected → Dict ExtractedFact
resolved_in [] = []
resolved_in ((fact_type, selection) ∷ selections) =
    with_fact fact_type selection.fact (resolved_in selections)

abbrev checked_facts : Dict ExtractedFact → WorkItemRuleResult
checked_facts [] = inconclusive unambiguous_evidence_rule_id []
checked_facts (entry ∷ checked) = judged unambiguous_evidence_rule_id true (entry ∷ checked)

-- `evaluate_unambiguous_evidence`
unfoldable pub evaluate_unambiguous_evidence : WorkItemFacts → WorkItemRuleResult
unfolding conflicting_in resolved_in
evaluate_unambiguous_evidence item =
    unless_conflicted unambiguous_evidence_rule_id (conflicting_in item.selections)
      (checked_facts (resolved_in item.selections))

-- `evaluate_work_item`
unfoldable pub evaluate_work_item : WorkItemFacts → List WorkItemRuleResult
unfolding evaluate_unambiguous_evidence evaluate_claim_within_measured
    evaluate_cumulative_not_regressed evaluate_rate_matches_contract
evaluate_work_item item =
    evaluate_unambiguous_evidence item
    ∷ evaluate_claim_within_measured item
    ∷ evaluate_cumulative_not_regressed item
    ∷ evaluate_rate_matches_contract item
    ∷ []
