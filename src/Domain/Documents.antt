-- ===== src/Domain/Documents.antt =====
-- src/aedifex/domain/documents.py: document types and the state machine of a document.
-- `FrozenSet` is a list, and `is` on members of an enum compares their places in it.
pub mod Lifecycle
use aedifex.Prelude.{ℕ, Bool, true, false, List, [], ◌∷◌, ◌==◌, if◌then◌else◌, any_of}

pub data DocumentState : Type 0 where
  discovered downloading downloaded validated : DocumentState
  processing processed failed quarantined : DocumentState

abbrev pub state_place : DocumentState → ℕ
state_place discovered = 0
state_place downloading = 1
state_place downloaded = 2
state_place validated = 3
state_place processing = 4
state_place processed = 5
state_place failed = 6
state_place quarantined = 7

abbrev pub is_state : DocumentState → DocumentState → Bool
is_state a b = state_place a == state_place b

unfoldable pub state_transitions : DocumentState → List DocumentState
state_transitions discovered = downloading ∷ failed ∷ []
state_transitions downloading = downloaded ∷ failed ∷ quarantined ∷ []
state_transitions downloaded = validated ∷ failed ∷ quarantined ∷ []
state_transitions validated = processing ∷ failed ∷ []
state_transitions processing = processed ∷ failed ∷ quarantined ∷ []
state_transitions processed = []
state_transitions failed = downloading ∷ processing ∷ []
state_transitions quarantined = []

abbrev is_empty : List DocumentState → Bool
is_empty [] = true
is_empty (s ∷ ss) = false

unfoldable pub is_terminal : DocumentState → Bool
unfolding state_transitions
is_terminal state = is_empty (state_transitions state)

unfoldable pub can_transition : DocumentState → DocumentState → Bool
unfolding state_transitions
can_transition current target = any_of (is_state target) (state_transitions current)

-- `InvalidStateTransitionError` carries both states and the allowed targets in its message.
pub data Transition : Type 0 where
  allowed : Transition
  invalid_state_transition : DocumentState → DocumentState → List DocumentState → Transition

unfoldable pub assert_transition_allowed : DocumentState → DocumentState → Transition
unfolding can_transition
assert_transition_allowed current target =
    if can_transition current target
    then allowed
    else invalid_state_transition current target (state_transitions current)

pub data DocumentCategory : Type 0 where
  financial procurement engineering material legal regulatory unknown : DocumentCategory

pub data DocumentType : Type 0 where
  tender_notice bid_document award_notice corrigendum purchase_order contract : DocumentType
  bill_of_quantities measurement_book running_bill schedule_of_rates change_order : DocumentType
  model_agreement audit_report technical_specification drawing inspection_report : DocumentType
  material_test_certificate invoice delivery_challan goods_receipt_note : DocumentType
  payment_certificate bank_guarantee unknown : DocumentType

unfoldable pub category_for : DocumentType → DocumentCategory
category_for contract = legal
category_for bill_of_quantities = procurement
category_for schedule_of_rates = procurement
category_for purchase_order = procurement
category_for measurement_book = engineering
category_for running_bill = financial
category_for invoice = financial
category_for delivery_challan = procurement
category_for goods_receipt_note = procurement
category_for material_test_certificate = material
category_for inspection_report = engineering
category_for change_order = legal
category_for model_agreement = legal
category_for audit_report = financial
category_for tender_notice = procurement
category_for technical_specification = engineering
category_for award_notice = procurement
category_for corrigendum = procurement
category_for bid_document = procurement
category_for drawing = engineering
category_for payment_certificate = financial
category_for bank_guarantee = financial
category_for DocumentType.unknown = DocumentCategory.unknown
