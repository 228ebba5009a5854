-- ===== src/Domain/Workflow.antt =====
-- src/aedifex/domain/workflow.py: what a user is shown of the internal states.
pub mod Projection
use aedifex.Prelude.{Bool, true, false, not, ◌&&◌, if◌then◌else◌}
use aedifex.Domain.Documents.{DocumentState, is_state, DocumentType}

pub data ProcessingStatus : Type 0 where
  uploaded processing processed needs_attention unsupported failed : ProcessingStatus

unfoldable pub processing_status : DocumentState → Bool → Bool → ProcessingStatus
processing_status state is_readable needs_attention? =
    if is_state state DocumentState.failed
    then failed
    else if is_state state DocumentState.quarantined
    then needs_attention
    else if not is_readable
    then unsupported
    else if is_state state DocumentState.processing
    then processing
    else if is_state state DocumentState.processed
    then (if needs_attention? then needs_attention else processed)
    else uploaded

-- `Outcome` of src/aedifex/verification/rules.py, whose text the function below tests.
pub data Outcome : Type 0 where
  pass fail review inconclusive : Outcome

abbrev pub is_reviewable : Outcome → Bool
is_reviewable fail = true
is_reviewable review = true
is_reviewable _ = false

unfoldable pub needs_human_review : Outcome → Bool → Bool
needs_human_review outcome has_current_review = is_reviewable outcome && not has_current_review

pub data WorkflowCategory : Type 0 where
  contract boq measurement ra_bill variation material quality reference other : WorkflowCategory

unfoldable pub workflow_category : DocumentType → WorkflowCategory
workflow_category DocumentType.contract = contract
workflow_category DocumentType.tender_notice = contract
workflow_category DocumentType.bid_document = contract
workflow_category DocumentType.award_notice = contract
workflow_category DocumentType.corrigendum = contract
workflow_category DocumentType.bill_of_quantities = boq
workflow_category DocumentType.measurement_book = measurement
workflow_category DocumentType.running_bill = ra_bill
workflow_category DocumentType.payment_certificate = ra_bill
workflow_category DocumentType.invoice = ra_bill
workflow_category DocumentType.change_order = variation
workflow_category DocumentType.purchase_order = material
workflow_category DocumentType.delivery_challan = material
workflow_category DocumentType.goods_receipt_note = material
workflow_category DocumentType.inspection_report = quality
workflow_category DocumentType.material_test_certificate = quality
workflow_category DocumentType.schedule_of_rates = reference
workflow_category DocumentType.technical_specification = reference
workflow_category DocumentType.model_agreement = reference
workflow_category DocumentType.audit_report = reference
workflow_category DocumentType.drawing = other
workflow_category DocumentType.bank_guarantee = other
workflow_category DocumentType.unknown = other
