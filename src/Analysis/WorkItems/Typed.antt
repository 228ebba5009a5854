-- ===== src/Analysis/WorkItems/Typed.antt =====
-- Each selected fact stands under its own type.
use aedifex.Prelude.{
  ◌≡◌, refl, sym, ap, inl, inr, Option, none, some, List, [], ◌∷◌, All, In, In-append_single,
}
use aedifex.Prelude.Text.{Text}
use aedifex.Prelude.Dict.{Dict, get, All-set, All-get}
use aedifex.Analysis.Facts.{ExtractedFact, Documents}
use aedifex.Analysis.Selection.{
  Selected, or_empty, add_to_group, group_from, select_each, select_facts,
}
use aedifex.Analysis.Selection.Authority.{select_one-In}
use aedifex.Analysis.Reconciliation.{with_fact, resolved_in}
use aedifex.Analysis.WorkItems.Stages.{IsTyped}

-- the facts of a group are of its type
abbrev IsTypedGroup : Text × List ExtractedFact → Type 0
IsTypedGroup (t, facts) = (f : ExtractedFact) → In f facts → f.fact_type ≡ t

abbrev IsTypedSelection : Text × Selected → Type 0
IsTypedSelection (t, s) = (f : ExtractedFact) → s.fact ≡ some f → f.fact_type ≡ t

in_group :
    (t : Text) (grouped : Dict (List ExtractedFact)) (group : Option (List ExtractedFact))
    → All IsTypedGroup grouped
    → get t grouped ≡ group
    → IsTypedGroup (t, or_empty group)
in_group t grouped none all e f i = absurd i
in_group t grouped (some facts) all e f i = All-get IsTypedGroup t facts grouped all e f i

group_from-IsTyped :
    (grouped : Dict (List ExtractedFact)) (facts : List ExtractedFact)
    → All IsTypedGroup grouped
    → All IsTypedGroup (group_from grouped facts)
unfolding group_from add_to_group
group_from-IsTyped grouped [] all = all
group_from-IsTyped grouped (fact ∷ facts) all =
    group_from-IsTyped (add_to_group fact grouped) facts (
      All-set IsTypedGroup fact.fact_type _ grouped
        (λ f i. elim (In-append_single (or_empty (get fact.fact_type grouped)) i) [
          | inl before ↦
              in_group fact.fact_type grouped (get fact.fact_type grouped) all refl f before
          | inr e ↦ ap (λ (g : ExtractedFact). g.fact_type) (sym e)
        ])
        all)

select_each-IsTyped :
    (documents : Documents) (grouped : Dict (List ExtractedFact))
    → All IsTypedGroup grouped
    → All IsTypedSelection (select_each documents grouped)
unfolding select_each
select_each-IsTyped documents [] all = tt
select_each-IsTyped documents ((t, facts) ∷ grouped) (first, all) = (
  λ f h. first f (select_one-In t facts documents f h),
  select_each-IsTyped documents grouped all,
)

with_fact-IsTyped :
    (t : Text) (o : Option ExtractedFact) (d : Dict ExtractedFact)
    → ((f : ExtractedFact) → o ≡ some f → f.fact_type ≡ t)
    → IsTyped d
    → IsTyped (with_fact t o d)
with_fact-IsTyped t none d typed all = all
with_fact-IsTyped t (some f) d typed all = (typed f refl, all)

resolved_in-IsTyped :
    (selections : Dict Selected)
    → All IsTypedSelection selections
    → IsTyped (resolved_in selections)
unfolding resolved_in
resolved_in-IsTyped [] all = tt
resolved_in-IsTyped ((t, s) ∷ selections) (first, all) =
    with_fact-IsTyped t s.fact (resolved_in selections) first (resolved_in-IsTyped selections all)

pub chosen-IsTyped :
    (facts : List ExtractedFact) (documents : Documents)
    → IsTyped (resolved_in (select_facts facts documents))
unfolding select_facts
chosen-IsTyped facts documents =
    resolved_in-IsTyped (select_each documents (group_from [] facts))
      (select_each-IsTyped documents (group_from [] facts) (group_from-IsTyped [] facts tt))
