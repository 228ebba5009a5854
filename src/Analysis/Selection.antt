-- ===== src/Analysis/Selection.antt =====
-- src/aedifex/extraction/selection.py: which of several statements of one fact a project may use.
-- A dict keeps the order in which its keys came; `select_facts` sorts them, which no result depends
-- on. Reasons, which are texts for people, are left out.
pub mod Newest
pub mod Authority
pub mod Groups
use aedifex.Prelude.Sorting.{sort_by}
use aedifex.Prelude.{
  keep, ℕ, Bool, true, false, not, ◌&&◌, ◌||◌, Option, none, some, List, [], ◌∷◌, ◌++◌, ◌==◌, ltb,
  if◌then◌else◌,
}
use aedifex.Prelude.Text.{Text, text_eq}
use aedifex.Prelude.Integers.{ℤ, eq_ℤ}
use aedifex.Prelude.Dict.{Dict, get, set}
use aedifex.Domain.Evidence.{DocumentVersionState, is_current}
use aedifex.Analysis.Facts.{ExtractedFact, Documents, text_ltb}

pub record Selected : Type 0 where
  pub fact_type : Text
  pub fact : Option ExtractedFact
  pub considered : List ExtractedFact
  pub excluded : List ExtractedFact
  pub conflicting : Bool

abbrev pub option_eq : {A : Type 0} → (A → A → Bool) → Option A → Option A → Bool
option_eq eq none none = true
option_eq eq none (some b) = false
option_eq eq (some a) none = false
option_eq eq (some a) (some b) = eq a b

-- the key of a claim: the document and the row
unfoldable pub same_claim : ExtractedFact → ExtractedFact → Bool
same_claim f g =
    f.document_id == g.document_id && option_eq (λ (m n : ℕ). m == n) f.sheet_row g.sheet_row

-- `newest[key] = fact` where the fact is the first of its claim, or its version is the greater
unfoldable pub keep_newest : ExtractedFact → List ExtractedFact → List ExtractedFact
unfolding same_claim text_ltb
keep_newest fact [] = fact ∷ []
keep_newest fact (current ∷ newest) =
    let rest = keep_newest fact newest in
    if same_claim current fact
    then (if text_ltb current.extractor_version fact.extractor_version
        then fact ∷ newest
        else current ∷ newest)
    else current ∷ rest

unfoldable pub newest_from : List ExtractedFact → List ExtractedFact → List ExtractedFact
unfolding keep_newest
newest_from newest [] = newest
newest_from newest (fact ∷ facts) = newest_from (keep_newest fact newest) facts

-- the order of the keys of claims
unfoldable pub row_before : Option ℕ → Option ℕ → Bool
row_before none none = false
row_before none (some n) = true
row_before (some m) none = false
row_before (some m) (some n) = ltb m n

unfoldable pub claim_before : ExtractedFact → ExtractedFact → Bool
unfolding row_before
claim_before f g =
    ltb f.document_id g.document_id
    || (f.document_id == g.document_id && row_before f.sheet_row g.sheet_row)

-- `_newest_per_claim`
unfoldable pub newest_per_claim : List ExtractedFact → List ExtractedFact
unfolding newest_from claim_before sort_by
newest_per_claim facts = sort_by claim_before (newest_from [] facts)

-- equality of `_comparable`: the literals count where neither has a number
unfoldable pub comparable_eq : ExtractedFact → ExtractedFact → Bool
unfolding text_eq
comparable_eq f g =
    option_eq eq_ℤ f.numeric_value g.numeric_value
    && option_eq text_eq f.unit g.unit
    && option_eq text_eq f.currency g.currency
    && elim f.numeric_value as (λ _. Bool) [ none ↦ text_eq f.literal g.literal | some v ↦ true ]

abbrev pub all_of : {A : Type 0} → (A → Bool) → List A → Bool
all_of p [] = true
all_of p (x ∷ xs) = p x && all_of p xs

-- not retracted, and of a document that is current
unfoldable pub is_active : Documents → ExtractedFact → Bool
unfolding is_current
is_active documents fact =
    not fact.is_retracted && elim (documents fact.document_id) as (λ _. Bool) [
      | none ↦ false
      | some state ↦ is_current state
    ]

-- the result for the candidates, of which there is one for each claim
unfoldable pub judge_candidates : Text → List ExtractedFact → List ExtractedFact → Selected
unfolding comparable_eq
judge_candidates fact_type superseded [] = record {
  fact_type = fact_type;
  fact = none;
  considered = [];
  excluded = superseded;
  conflicting = false;
}
judge_candidates fact_type superseded (first ∷ others) =
    let agreed = all_of (comparable_eq first) others in
    record {
      fact_type = fact_type;
      fact = if agreed then some first else none;
      considered = first ∷ others;
      excluded = superseded;
      conflicting = not agreed;
    }

-- `select_one`
unfoldable pub select_one : Text → List ExtractedFact → Documents → Selected
unfolding is_active newest_per_claim judge_candidates
select_one fact_type facts documents =
    judge_candidates fact_type (keep (λ fact. not (is_active documents fact)) facts)
      (newest_per_claim (keep (is_active documents) facts))

abbrev pub or_empty : Option (List ExtractedFact) → List ExtractedFact
or_empty none = []
or_empty (some facts) = facts

-- `grouped.setdefault(fact.fact_type, []).append(fact)`
unfoldable pub add_to_group : ExtractedFact → Dict (List ExtractedFact) → Dict (List ExtractedFact)
unfolding get set
add_to_group fact grouped =
    set fact.fact_type (or_empty (get fact.fact_type grouped) ++ fact ∷ []) grouped

unfoldable pub group_from :
    Dict (List ExtractedFact) → List ExtractedFact → Dict (List ExtractedFact)
unfolding add_to_group
group_from grouped [] = grouped
group_from grouped (fact ∷ facts) = group_from (add_to_group fact grouped) facts

unfoldable pub select_each : Documents → Dict (List ExtractedFact) → Dict Selected
unfolding select_one
select_each documents [] = []
select_each documents ((fact_type, candidates) ∷ grouped) =
    (fact_type, select_one fact_type candidates documents) ∷ select_each documents grouped

-- `select_facts`
unfoldable pub select_facts : List ExtractedFact → Documents → Dict Selected
unfolding group_from select_each
select_facts facts documents = select_each documents (group_from [] facts)
