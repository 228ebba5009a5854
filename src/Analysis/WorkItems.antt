-- ===== src/Analysis/WorkItems.antt =====
-- The body of reconcile_work_items of src/aedifex/extraction/runner.py for one work item: selection,
-- calculation on what was selected, and the rules. Storing a derived fact or a finding changes
-- neither; an amount has fewer decimals than the column that it is stored in.
pub mod Stages
pub mod Typed
pub mod Rules
pub mod Outcomes
use aedifex.Prelude.{Option, none, some, List, [], ◌∷◌, map}
use aedifex.Prelude.Text.{Text}
use aedifex.Prelude.Dict.{Dict, set}
use aedifex.Analysis.Facts.{ExtractedFact, Documents}
use aedifex.Analysis.Selection.{Selected, select_facts}
use aedifex.Analysis.Calculation.{Calculated, compute_for_work_item}
use aedifex.Analysis.Reconciliation.{
  WorkItemFacts, WorkItemRuleResult, resolved_in, evaluate_work_item,
}

-- what `persist_derived_facts` returns: the calculations by their type
unfoldable pub persist_derived_facts : Dict Calculated → List Calculated → Dict Calculated
unfolding set
persist_derived_facts stored [] = stored
persist_derived_facts stored (item ∷ calculated) =
    persist_derived_facts (set item.fact_type item stored) calculated

abbrev pub values : {V : Type 0} → Dict V → List V
values d = map (λ entry. entry.1) d

-- the facts, the calculations and the selections of a work item
unfoldable pub bundle : List ExtractedFact → Documents → WorkItemFacts
unfolding select_facts resolved_in compute_for_work_item persist_derived_facts
bundle facts documents =
    let selections = select_facts facts documents in
    let chosen = resolved_in selections in
    record {
      facts = chosen;
      derived = persist_derived_facts [] (compute_for_work_item (values chosen));
      selections = selections;
    }

unfoldable pub reconcile_work_item : List ExtractedFact → Documents → List WorkItemRuleResult
unfolding bundle evaluate_work_item
reconcile_work_item facts documents = evaluate_work_item (bundle facts documents)
