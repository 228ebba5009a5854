-- ===== src/Analysis/Provisions.antt =====
-- src/aedifex/extraction/applicability.py, compute_required_bid_security of
-- src/aedifex/calculation/engine.py and src/aedifex/verification/reference_policy.py: the provision
-- that governs a document's estimated cost, what it requires, and the judgement of the stated bid
-- security. Amounts are in hundredths and a share in units of 10⁻⁸, the scales of their columns; what
-- is required is in units of 10⁻¹⁰, which the derived fact keeps. The origin of a document is a
-- parameter.
pub mod Governing
pub mod Judged
use aedifex.Prelude.Sorting.{sort_by}
use aedifex.Prelude.{
  keep, ℕ, ◌*◌, ◌^◌, Bool, true, false, not, ◌&&◌, Option, none, some, List, [], ◌∷◌, if◌then◌else◌,
}
use aedifex.Prelude.Text.{Text, text_eq}
use aedifex.Prelude.Integers.{ℤ, pos, ◌-ℤ◌, ◌*ℤ◌, leb_ℤ}
use aedifex.Domain.Workflow.{Outcome}
use aedifex.Analysis.Facts.{text_ltb}

pub record PolicyProvision : Type 0 where
  pub id : ℕ
  pub provision_type : Text
  pub clause : Text
  pub authority : Text
  pub applies_to : Text
  pub applies_from : Option ℤ
  pub applies_to_max : Option ℤ
  pub share : Option ℤ
  pub cap_amount : Option ℤ
  pub extractor_version : Text

pub record ApplicableProvision : Type 0 where
  pub provision : Option PolicyProvision
  pub considered : List PolicyProvision

abbrev pub at_least : Option ℤ → ℤ → Bool
at_least none value = true
at_least (some bound) value = leb_ℤ bound value

abbrev pub at_most : Option ℤ → ℤ → Bool
at_most none value = true
at_most (some bound) value = leb_ℤ value bound

-- `_in_band`
unfoldable pub in_band : ℤ → PolicyProvision → Bool
in_band value provision =
    at_least provision.applies_from value && at_most provision.applies_to_max value

-- the `WHERE` of the candidates
unfoldable pub is_candidate : Text → Text → Text → PolicyProvision → Bool
unfolding text_eq
is_candidate provision_type authority applies_to provision =
    text_eq provision.provision_type provision_type
    && text_eq provision.authority authority
    && text_eq provision.applies_to applies_to

-- `max` of the versions, from one that is known
unfoldable pub newest_version : Text → List PolicyProvision → Text
unfolding text_ltb
newest_version version [] = version
newest_version version (provision ∷ provisions) =
    newest_version
      (if text_ltb version provision.extractor_version
        then provision.extractor_version
        else version)
      provisions

-- the order of the clauses; equal ones stay as they are
unfoldable pub clause_before : PolicyProvision → PolicyProvision → Bool
unfolding text_ltb
clause_before p r = not (text_ltb r.clause p.clause)

-- of the candidates, those of the newest version in whose band the value is
unfoldable pub matching : ℤ → List PolicyProvision → List PolicyProvision
unfolding newest_version clause_before sort_by in_band text_eq
matching value [] = []
matching value (first ∷ others) = sort_by clause_before (
    keep
      (λ p.
        text_eq p.extractor_version (newest_version first.extractor_version others)
        && in_band value p)
      (first ∷ others))

unfoldable pub chosen_of : List PolicyProvision → ApplicableProvision
chosen_of [] = record { provision = none; considered = [] }
chosen_of (p ∷ []) = record { provision = some p; considered = p ∷ [] }
chosen_of (p ∷ r ∷ rest) = record { provision = none; considered = p ∷ r ∷ rest }

-- `select_provision`, for the authority that the document was acquired from
unfoldable pub select_provision :
    List PolicyProvision → Text → Option Text → ℤ → Text → ApplicableProvision
unfolding matching chosen_of is_candidate
select_provision table provision_type none value applies_to = record {
  provision = none;
  considered = [];
}
select_provision table provision_type (some authority) value applies_to =
    chosen_of (matching value (keep (is_candidate provision_type authority applies_to) table))

-- one unit of a share, in its last decimals
abbrev pub share_scale : ℤ
share_scale = pos 100000000

-- what is required, at most the cap
unfoldable pub capped : ℤ → Option ℤ → ℤ
unfolding ◌*ℤ◌
capped required none = required
capped required (some cap) =
    if leb_ℤ required (cap *ℤ share_scale) then required else cap *ℤ share_scale

-- `compute_required_bid_security`
unfoldable pub compute_required_bid_security : Option ℤ → PolicyProvision → Option ℤ
unfolding capped ◌*ℤ◌
compute_required_bid_security none provision = none
compute_required_bid_security (some amount) provision = elim provision.share [
  | none ↦ none
  | some share ↦ some (capped (amount *ℤ share) provision.cap_amount)
]

-- `REFERENCE_BID_SECURITY_TOLERANCE`, 1.00
abbrev pub reference_bid_security_tolerance : ℤ
reference_bid_security_tolerance = pos 10000000000

-- `abs(difference) <= tolerance`
unfoldable pub is_close : ℤ → ℤ → Bool
unfolding ◌-ℤ◌
is_close security need =
    leb_ℤ (security -ℤ need) reference_bid_security_tolerance
    && leb_ℤ (need -ℤ security) reference_bid_security_tolerance

-- the rule from the provision on: what is required, and then what is stated, may be missing
unfoldable pub compare_stated : Option PolicyProvision → Option ℤ → Option ℤ → Outcome
unfolding is_close ◌*ℤ◌
compare_stated none required security = Outcome.inconclusive
compare_stated (some provision) none security = Outcome.inconclusive
compare_stated (some provision) (some need) none = Outcome.inconclusive
compare_stated (some provision) (some need) (some stated) =
    if is_close (stated *ℤ share_scale) need then Outcome.pass else Outcome.fail

-- `evaluate_bid_security_against_policy`, of the values of the two fields
unfoldable pub evaluate_bid_security_against_policy :
    Option ℤ → Option ℤ → Option ApplicableProvision → Option ℤ → Outcome
unfolding compare_stated
evaluate_bid_security_against_policy none security applicable required = Outcome.inconclusive
evaluate_bid_security_against_policy (some cost) security none required = Outcome.inconclusive
evaluate_bid_security_against_policy (some cost) security (some applicable) required =
    compare_stated applicable.provision required security

-- the derived fact, where there is a provision to derive it from
unfoldable pub required_by : ℤ → Option PolicyProvision → Option ℤ
unfolding compute_required_bid_security
required_by cost none = none
required_by cost (some provision) = compute_required_bid_security (some cost) provision

-- the way of `analyse_document` from the cost to the rule, src/aedifex/extraction/runner.py
unfoldable pub judge_bid_security :
    List PolicyProvision → Text → Text → Option Text → Option ℤ → Option ℤ → Outcome
unfolding select_provision required_by evaluate_bid_security_against_policy
judge_bid_security table provision_type applies_to authority none security =
    evaluate_bid_security_against_policy none security none none
judge_bid_security table provision_type applies_to authority (some cost) security =
    let applicable = select_provision table provision_type authority cost applies_to in
    evaluate_bid_security_against_policy (some cost) security (some applicable)
      (required_by cost applicable.provision)
