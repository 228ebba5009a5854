-- ===== src/Analysis/Selection/Groups.antt =====
-- What `select_facts` holds for a fact type is what `select_one` gives for the facts of the type.
use aedifex.Prelude.{
  keep, ◌≡◌, refl, sym, ap, ◌∙◌, inl, inr, Option, none, some, List, [], ◌∷◌, ◌++◌, if◌then◌else◌,
  Distinct, Bool-cases,
}
use aedifex.Prelude.Text.{Text, text_eq, text_eq_sound}
use aedifex.Prelude.Dict.{Dict, get, keys, get-set, Distinct-set}
use aedifex.Analysis.Facts.{ExtractedFact, Documents}
use aedifex.Analysis.Selection.{
  Selected, or_empty, select_one, add_to_group, group_from, select_each, select_facts,
}

-- the facts of a type, in order
abbrev pub of_type : Text → List ExtractedFact → List ExtractedFact
of_type t facts = keep (λ f. text_eq f.fact_type t) facts

abbrev group_at : Text → Dict (List ExtractedFact) → List ExtractedFact
group_at t grouped = or_empty (get t grouped)

append_assoc : {A : Type 0} (xs ys zs : List A) → (xs ++ ys) ++ zs ≡ xs ++ (ys ++ zs)
append_assoc [] ys zs = refl
append_assoc (x ∷ xs) ys zs = ap (λ r. x ∷ r) (append_assoc xs ys zs)

append_nil : {A : Type 0} (xs : List A) → xs ++ [] ≡ xs
append_nil [] = refl
append_nil (x ∷ xs) = ap (λ r. x ∷ r) (append_nil xs)

group_at-add :
    (t : Text) (fact : ExtractedFact) (grouped : Dict (List ExtractedFact))
    → group_at t (add_to_group fact grouped)
      ≡ (if text_eq fact.fact_type t then group_at t grouped ++ fact ∷ [] else group_at t grouped)
unfolding add_to_group
group_at-add t fact grouped =
    ap or_empty (get-set t fact.fact_type (group_at fact.fact_type grouped ++ fact ∷ []) grouped)
    ∙ (elim (Bool-cases (text_eq fact.fact_type t)) [
      | inl here ↦ rw (here, text_eq_sound fact.fact_type t here) refl
      | inr there ↦ rw there refl
    ])

group_at-from :
    (t : Text) (grouped : Dict (List ExtractedFact)) (facts : List ExtractedFact)
    → group_at t (group_from grouped facts) ≡ group_at t grouped ++ of_type t facts
unfolding group_from
group_at-from t grouped [] = sym (append_nil (group_at t grouped))
group_at-from t grouped (fact ∷ facts) =
    group_at-from t (add_to_group fact grouped) facts
    ∙ rw (group_at-add t fact grouped) (elim (Bool-cases (text_eq fact.fact_type t)) [
      | inl here ↦ rw here (append_assoc (group_at t grouped) (fact ∷ []) (of_type t facts))
      | inr there ↦ rw there refl
    ])

Distinct-group :
    (grouped : Dict (List ExtractedFact)) (facts : List ExtractedFact)
    → Distinct (keys grouped)
    → Distinct (keys (group_from grouped facts))
unfolding group_from add_to_group
Distinct-group grouped [] distinct = distinct
Distinct-group grouped (fact ∷ facts) distinct =
    Distinct-group (add_to_group fact grouped) facts
      (Distinct-set fact.fact_type _ grouped distinct)

-- A selection for each group.
abbrev selection_of : Text → Documents → Option (List ExtractedFact) → Option Selected
selection_of t documents none = none
selection_of t documents (some facts) = some (select_one t facts documents)

get-select_each :
    (t : Text) (documents : Documents) (grouped : Dict (List ExtractedFact))
    → get t (select_each documents grouped) ≡ selection_of t documents (get t grouped)
unfolding select_each get
get-select_each t documents [] = refl
get-select_each t documents ((k, facts) ∷ grouped) = elim (Bool-cases (text_eq k t)) [
  | inl here ↦ rw (here, get, text_eq_sound k t here) refl
  | inr there ↦ rw (there, get) (get-select_each t documents grouped)
]

keys-select_each :
    (documents : Documents) (grouped : Dict (List ExtractedFact))
    → keys (select_each documents grouped) ≡ keys grouped
unfolding select_each
keys-select_each documents [] = refl
keys-select_each documents ((k, facts) ∷ grouped) =
    ap (λ (r : List Text). k ∷ r) (keys-select_each documents grouped)

pub Distinct-select_facts :
    (facts : List ExtractedFact) (documents : Documents)
    → Distinct (keys (select_facts facts documents))
unfolding select_facts
Distinct-select_facts facts documents =
    rw (keys-select_each documents (group_from [] facts)) (Distinct-group [] facts tt)

-- The selection for a type, with what a type that no fact has stands for.
abbrev pub selection_or_none : Text → Documents → Option Selected → Selected
selection_or_none t documents none = select_one t [] documents
selection_or_none t documents (some s) = s

selected_group :
    (t : Text) (documents : Documents) (group : Option (List ExtractedFact))
    (facts : List ExtractedFact)
    → or_empty group ≡ facts
    → selection_or_none t documents (selection_of t documents group) ≡ select_one t facts documents
selected_group t documents none facts e =
    ap (λ (l : List ExtractedFact). select_one t l documents) e
selected_group t documents (some found) facts e =
    ap (λ (l : List ExtractedFact). select_one t l documents) e

pub get-select_facts :
    (t : Text) (facts : List ExtractedFact) (documents : Documents)
    → selection_or_none t documents (get t (select_facts facts documents))
      ≡ select_one t (of_type t facts) documents
unfolding select_facts
get-select_facts t facts documents = rw (get-select_each t documents (group_from [] facts)) (
    selected_group t documents (get t (group_from [] facts)) (of_type t facts)
      (group_at-from t [] facts))
