-- ===== src/Tests/Analysis.antt =====
-- A work item with three documents, from its facts to its findings.
use aedifex.Prelude.{ℕ, ◌≡◌, refl, false, none, some, List, [], ◌∷◌, ◌==◌, if◌then◌else◌, map}
use aedifex.Prelude.Text.{Text, codes, text_eq}
use aedifex.Prelude.Integers.{pos, ◌-ℤ◌, ◌*ℤ◌}
use aedifex.Prelude.Dict.{get}
use aedifex.Domain.Evidence.{FactKind, DocumentVersionState}
use aedifex.Domain.Workflow.{Outcome}
use aedifex.Analysis.Facts.{
  ExtractedFact, Documents, field_contract_rate, field_measured_quantity,
  field_previous_certified_quantity, field_cumulative_claim_quantity, field_claimed_rate,
}
use aedifex.Analysis.Calculation.{compute_for_work_item}
use aedifex.Analysis.Reconciliation.{
  evaluate_rate_matches_contract, evaluate_cumulative_not_regressed,
}
use aedifex.Analysis.WorkItems.{bundle, reconcile_work_item}
use aedifex.Analysis.WorkItems.Rules.{number_pair}
use aedifex.Analysis.WorkItems.Outcomes.{
  rates_equal, not_regressed, selected, unless_disputed, rate_matches_contract-refines,
  cumulative_not_regressed-refines,
}

abbrev fact_of : ℕ → ℕ → Text → ℕ → Text → ExtractedFact
fact_of id document fact_type hundredths version = record {
  id = id;
  document_id = document;
  fact_type = fact_type;
  kind = FactKind.quantity;
  literal = codes "x";
  numeric_value = some (pos hundredths);
  currency = none;
  sheet_row = some 7;
  unit = some (codes "m3");
  extractor_version = version;
  is_retracted = false;
}

-- The first bill was replaced by the second; the third document is the measurement book.
abbrev documents : Documents
documents id =
    if id == 1
    then some DocumentVersionState.superseded
    else if id == 4
    then none
    else some DocumentVersionState.active

abbrev facts : List ExtractedFact
facts =
    fact_of 1 1 field_cumulative_claim_quantity 90000 (codes "1")
    ∷ fact_of 2 2 field_cumulative_claim_quantity 47000 (codes "1")
    ∷ fact_of 3 2 field_cumulative_claim_quantity 48000 (codes "2")
    ∷ fact_of 4 3 field_measured_quantity 47500 (codes "1")
    ∷ fact_of 5 2 field_claimed_rate 125000 (codes "1")
    ∷ fact_of 6 3 field_contract_rate 125000 (codes "1")
    ∷ fact_of 7 2 field_previous_certified_quantity 30000 (codes "1")
    ∷ []

findings :
    map (λ r. r.outcome) (reconcile_work_item facts documents)
    ≡ Outcome.pass ∷ Outcome.review ∷ Outcome.pass ∷ Outcome.pass ∷ []
unfolding reconcile_work_item text_eq
findings = refl

exposure :
    map
      (λ c. c.value)
      (compute_for_work_item (
        fact_of 3 2 field_cumulative_claim_quantity 48000 (codes "2")
        ∷ fact_of 4 3 field_measured_quantity 47500 (codes "1")
        ∷ fact_of 6 3 field_contract_rate 125000 (codes "1")
        ∷ []))
    ≡ pos 500 ∷ pos 62500000 ∷ []
unfolding compute_for_work_item text_eq get ◌-ℤ◌ ◌*ℤ◌
exposure = refl

rate_matches_contract-refines_example :
    (evaluate_rate_matches_contract (bundle facts documents)).outcome
    ≡ unless_disputed facts documents field_claimed_rate field_contract_rate (
        rates_equal (
          number_pair
            (selected facts documents field_claimed_rate).fact
            (selected facts documents field_contract_rate).fact))
rate_matches_contract-refines_example = rate_matches_contract-refines facts documents

cumulative_not_regressed-refines_example :
    (evaluate_cumulative_not_regressed (bundle facts documents)).outcome
    ≡ unless_disputed facts documents field_cumulative_claim_quantity
        field_previous_certified_quantity
        (not_regressed
          (selected facts documents field_cumulative_claim_quantity).fact
          (selected facts documents field_previous_certified_quantity).fact)
cumulative_not_regressed-refines_example = cumulative_not_regressed-refines facts documents
