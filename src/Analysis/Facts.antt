-- ===== src/Analysis/Facts.antt =====
-- ExtractedFact of src/aedifex/infrastructure/database/models.py, by what selection, calculation
-- and the rules read of it. Identities are numbers whose order is that of their texts. Amounts are
-- in hundredths, the scale of the column.
use aedifex.Prelude.{ℕ, Bool, Option, ◌&&◌, ◌||◌, true, false, ◌==◌, ltb, [], ◌∷◌}
use aedifex.Prelude.Text.{Text, codes}
use aedifex.Prelude.Integers.{ℤ}
use aedifex.Domain.Evidence.{FactKind, DocumentVersionState}

pub record ExtractedFact : Type 0 where
  pub id : ℕ
  pub document_id : ℕ
  pub fact_type : Text
  pub kind : FactKind
  pub literal : Text
  pub numeric_value : Option ℤ
  pub currency : Option Text
  pub sheet_row : Option ℕ
  pub unit : Option Text
  pub extractor_version : Text
  pub is_retracted : Bool

-- the documents of a project, by identity, with their version states
abbrev pub Documents : Type 0
Documents = ℕ → Option DocumentVersionState

-- `s < t` on texts
unfoldable pub text_ltb : Text → Text → Bool
text_ltb s [] = false
text_ltb [] (d ∷ t) = true
text_ltb (c ∷ s) (d ∷ t) = ltb c d || (c == d && text_ltb s t)

-- The fact types that work items are reconciled on, src/aedifex/extraction/spreadsheet.py.
abbrev pub field_contracted_quantity : Text
field_contracted_quantity = codes "contracted_quantity"

abbrev pub field_contract_rate : Text
field_contract_rate = codes "contract_rate"

abbrev pub field_measured_quantity : Text
field_measured_quantity = codes "measured_quantity"

abbrev pub field_previous_certified_quantity : Text
field_previous_certified_quantity = codes "previous_certified_quantity"

abbrev pub field_cumulative_claim_quantity : Text
field_cumulative_claim_quantity = codes "cumulative_claim_quantity"

abbrev pub field_claimed_rate : Text
field_claimed_rate = codes "claimed_rate"
