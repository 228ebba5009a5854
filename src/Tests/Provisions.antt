-- ===== src/Tests/Provisions.antt =====
-- The bid security of a tender of ten million, under two bands of a rulebook.
use aedifex.Prelude.{◌≡◌, refl, ◌⊎◌, none, some, List, [], ◌∷◌}
use aedifex.Prelude.Text.{Text, codes, text_eq}
use aedifex.Prelude.Integers.{pos}
use aedifex.Domain.Workflow.{Outcome}
use aedifex.Analysis.Provisions.{PolicyProvision, judge_bid_security}
use aedifex.Analysis.Provisions.Judged.{IsFounded, judge_bid_security-IsFounded}

abbrev kind : Text
kind = codes "bid_security_share"

abbrev field : Text
field = codes "estimated_cost"

abbrev authority : Text
authority = codes "nhai"

-- 2 % up to ten million, with a cap of 150,000 in the second band
abbrev small_works : PolicyProvision
small_works = record {
  id = 1;
  provision_type = kind;
  clause = codes "4.1";
  authority = authority;
  applies_to = field;
  applies_from = none;
  applies_to_max = some (pos 1000000000);
  share = some (pos 2000000);
  cap_amount = none;
  extractor_version = codes "1";
}

abbrev large_works : PolicyProvision
large_works = record small_works {
  id = 2;
  clause = codes "4.2";
  applies_from = some (pos 1000000001);
  applies_to_max = none;
  cap_amount = some (pos 15000000);
}

abbrev rulebook : List PolicyProvision
rulebook = large_works ∷ small_works ∷ []

agrees :
    judge_bid_security rulebook kind field
      (some authority)
      (some (pos 1000000000))
      (some (pos 20000050))
    ≡ Outcome.pass
unfolding judge_bid_security text_eq
agrees = refl

capped_fails :
    judge_bid_security rulebook kind field
      (some authority)
      (some (pos 1000000001))
      (some (pos 20000000))
    ≡ Outcome.fail
unfolding judge_bid_security text_eq
capped_fails = refl

unknown_origin :
    judge_bid_security rulebook kind field none (some (pos 1000000000)) (some (pos 20000000))
    ≡ Outcome.inconclusive
unfolding judge_bid_security
unknown_origin = refl

judge_bid_security-IsFounded_example :
    (judge_bid_security rulebook kind field
        (some authority)
        (some (pos 1000000000))
        (some (pos 20000050))
      ≡ Outcome.inconclusive)
    ⊎ IsFounded rulebook kind field authority (some (pos 1000000000)) (some (pos 20000050)) (
        judge_bid_security rulebook kind field
          (some authority)
          (some (pos 1000000000))
          (some (pos 20000050)))
judge_bid_security-IsFounded_example =
    judge_bid_security-IsFounded rulebook kind field authority (some (pos 1000000000))
      (some (pos 20000050))
