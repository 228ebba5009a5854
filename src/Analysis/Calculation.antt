-- ===== src/Analysis/Calculation.antt =====
-- src/aedifex/calculation/engine.py: what is calculated for a work item. Sums and differences of
-- decimals are exact at their scale; the unsupported amount, a product, is in ten-thousandths, and
-- is exact below the 28 digits of Python's decimal context. `casefold` folds ASCII letters.
use aedifex.Prelude.{Bool, true, Option, none, some, List, [], ◌∷◌, ◌++◌, if◌then◌else◌}
use aedifex.Prelude.Text.{Text, codes, text_eq, strip, lower}
use aedifex.Prelude.Integers.{ℤ, pos, ◌-ℤ◌, ◌*ℤ◌, leb_ℤ}
use aedifex.Prelude.Dict.{Dict, get, set}
use aedifex.Domain.Evidence.{FactKind}
use aedifex.Analysis.Facts.{
  ExtractedFact, text_ltb, field_contracted_quantity, field_contract_rate, field_measured_quantity,
  field_cumulative_claim_quantity, field_claimed_rate,
}

abbrev pub derived_quantity_variance : Text
derived_quantity_variance = codes "quantity_variance"

abbrev pub derived_remaining_contract_quantity : Text
derived_remaining_contract_quantity = codes "remaining_contract_quantity"

abbrev pub derived_rate_variance : Text
derived_rate_variance = codes "rate_variance"

abbrev pub derived_unsupported_amount : Text
derived_unsupported_amount = codes "unsupported_amount"

pub record Calculated : Type 0 where
  pub fact_type : Text
  pub kind : FactKind
  pub value : ℤ
  pub unit : Option Text
  pub currency : Option Text
  pub inputs : Dict ExtractedFact

-- `_numeric`
abbrev pub numeric : Option ExtractedFact → Option ℤ
numeric none = none
numeric (some fact) = fact.numeric_value

-- `_same_unit`
unfoldable pub same_unit : Text → Text → Bool
unfolding text_eq strip lower
same_unit left right = text_eq (lower (strip left)) (lower (strip right))

unfoldable pub units_agree : Option Text → Option Text → Bool
unfolding same_unit
units_agree none right = true
units_agree (some l) none = true
units_agree (some l) (some r) = same_unit l r

-- `left.unit or right.unit`: an empty unit is none either
unfoldable pub shared_unit : Option Text → Option Text → Option Text
shared_unit none right = right
shared_unit (some []) right = right
shared_unit (some (c ∷ l)) right = some (c ∷ l)

-- the pair for two facts, whose numbers are given too
unfoldable pub pair_of :
    ExtractedFact → ExtractedFact → Option ℤ → Option ℤ → Option (ℤ × ℤ × Option Text)
unfolding units_agree shared_unit
pair_of left right none r = none
pair_of left right (some l) none = none
pair_of left right (some l) (some r) =
    if units_agree left.unit right.unit then some (l, r, shared_unit left.unit right.unit) else none

-- `_comparable_pair`
unfoldable pub comparable_pair :
    Option ExtractedFact → Option ExtractedFact → Option (ℤ × ℤ × Option Text)
unfolding pair_of
comparable_pair none right = none
comparable_pair (some left) none = none
comparable_pair (some left) (some right) = pair_of left right left.numeric_value right.numeric_value

-- the inputs that a calculation cites
abbrev cited : Text → Option ExtractedFact → Dict ExtractedFact
cited role none = []
cited role (some fact) = (role, fact) ∷ []

-- a difference of two quantities, as a calculation of that type
unfoldable pub quantity_difference : Text → Text → Text → Dict ExtractedFact → Option Calculated
unfolding comparable_pair get ◌-ℤ◌
quantity_difference fact_type left right facts =
    elim (comparable_pair (get left facts) (get right facts)) [
      | none ↦ none
      | some (l, r, unit) ↦ some (record {
        fact_type = fact_type;
        kind = FactKind.quantity;
        value = l -ℤ r;
        unit = unit;
        currency = none;
        inputs = cited left (get left facts) ++ cited right (get right facts);
      })
    ]

unfoldable pub compute_quantity_variance : Dict ExtractedFact → Option Calculated
unfolding quantity_difference
compute_quantity_variance facts =
    quantity_difference derived_quantity_variance field_cumulative_claim_quantity
      field_measured_quantity facts

unfoldable pub compute_remaining_contract_quantity : Dict ExtractedFact → Option Calculated
unfolding quantity_difference
compute_remaining_contract_quantity facts =
    quantity_difference derived_remaining_contract_quantity field_contracted_quantity
      field_cumulative_claim_quantity facts

-- a rate variance, for the facts and their numbers
unfoldable pub rate_difference : Option ExtractedFact → Option ExtractedFact → Option Calculated
unfolding ◌-ℤ◌
rate_difference none contracted = none
rate_difference (some claimed) none = none
rate_difference (some claimed) (some contracted) = elim claimed.numeric_value [
  | none ↦ none
  | some l ↦ elim contracted.numeric_value [
    | none ↦ none
    | some r ↦ some (record {
      fact_type = derived_rate_variance;
      kind = FactKind.money;
      value = l -ℤ r;
      unit = none;
      currency = contracted.currency;
      inputs = (field_claimed_rate, claimed) ∷ (field_contract_rate, contracted) ∷ [];
    })
  ]
]

unfoldable pub compute_rate_variance : Dict ExtractedFact → Option Calculated
unfolding rate_difference get
compute_rate_variance facts =
    rate_difference (get field_claimed_rate facts) (get field_contract_rate facts)

-- the exposure at the rate of a fact
unfoldable pub exposure_at : Option ExtractedFact → ℤ → Option Calculated
unfolding ◌*ℤ◌
exposure_at none variance = none
exposure_at (some rate_fact) variance = elim rate_fact.numeric_value [
  | none ↦ none
  | some rate ↦ some (record {
    fact_type = derived_unsupported_amount;
    kind = FactKind.money;
    value = (if leb_ℤ variance (pos 0) then pos 0 else variance) *ℤ rate;
    unit = none;
    currency = rate_fact.currency;
    inputs = (field_contract_rate, rate_fact) ∷ [];
  })
]

unfoldable pub compute_unsupported_amount : Dict ExtractedFact → Option ℤ → Option Calculated
unfolding exposure_at get
compute_unsupported_amount facts none = none
compute_unsupported_amount facts (some variance) =
    exposure_at (get field_contract_rate facts) variance

-- one step of `_newest_by_type`
unfoldable pub keep_newest_type : ExtractedFact → Dict ExtractedFact → Dict ExtractedFact
unfolding get set text_ltb
keep_newest_type fact newest = elim (get fact.fact_type newest) as (λ _. Dict ExtractedFact) [
  | none ↦ set fact.fact_type fact newest
  | some current ↦
      if text_ltb current.extractor_version fact.extractor_version
      then set fact.fact_type fact newest
      else newest
]

-- `_newest_by_type`, from what is kept so far
unfoldable pub newest_by_type : Dict ExtractedFact → List ExtractedFact → Dict ExtractedFact
unfolding keep_newest_type
newest_by_type newest [] = newest
newest_by_type newest (fact ∷ facts) = newest_by_type (keep_newest_type fact newest) facts

abbrev pub listed : Option Calculated → List Calculated
listed none = []
listed (some item) = item ∷ []

-- the value of the first quantity variance
unfoldable pub variance_in : List Calculated → Option ℤ
unfolding text_eq
variance_in [] = none
variance_in (item ∷ results) =
    let rest = variance_in results in
    if text_eq item.fact_type derived_quantity_variance then some item.value else rest

-- the calculations on one fact for each type
unfoldable pub compute_all : Dict ExtractedFact → List Calculated
unfolding compute_quantity_variance compute_remaining_contract_quantity compute_rate_variance
    variance_in compute_unsupported_amount
compute_all newest =
    let results =
      listed (compute_quantity_variance newest)
      ++ (listed (compute_remaining_contract_quantity newest)
          ++ listed (compute_rate_variance newest)) in
    results ++ listed (compute_unsupported_amount newest (variance_in results))

-- `compute_for_work_item`
unfoldable pub compute_for_work_item : List ExtractedFact → List Calculated
unfolding compute_all newest_by_type
compute_for_work_item facts = compute_all (newest_by_type [] facts)
