-- ===== src/Analysis/Selection/Authority.antt =====
-- Which fact is selected, and when none is.
use mathlib.Core.Path.{subst}
use aedifex.Prelude.{
  both, clash, keep, In-keep, ◌≡◌, refl, ap, ◌∙◌, ◌⊎◌, inl, inr, Bool, true, false, not, ◌&&◌, none,
  some, List, [], ◌∷◌, arith, In, Bool-cases, Option-cases,
}
use aedifex.Prelude.Text.{Text}
use aedifex.Domain.Evidence.{DocumentVersionState, is_current}
use aedifex.Analysis.Facts.{ExtractedFact, Documents}
use aedifex.Analysis.Selection.{
  Selected, all_of, is_active, comparable_eq, newest_per_claim, judge_candidates, select_one,
}
use aedifex.Analysis.Selection.Newest.{Covers, newest_per_claim-In, newest_per_claim-covers}

-- The fact is not retracted, and its document is an active one.
abbrev pub IsUsable : Documents → ExtractedFact → Type 0
IsUsable documents f =
    (f.is_retracted ≡ false) × (documents f.document_id ≡ some DocumentVersionState.active)

-- A fact that the usable facts agree on: each of them, or a reading of its claim that is not older,
-- states what this fact states.
pub record IsAuthoritative (documents : Documents) (facts : List ExtractedFact) (f : ExtractedFact)
    : Type 0 where
  pub stated : In f facts
  pub usable : IsUsable documents f
  pub agreed :
      (g : ExtractedFact)
      → In g facts
      → IsUsable documents g
      → (h : ExtractedFact) × In h facts × Covers h g × ((f ≡ h) ⊎ (comparable_eq f h ≡ true))

-- two usable facts that state different things
pub record IsDisputed (documents : Documents) (facts : List ExtractedFact) : Type 0 where
  pub one : ExtractedFact
  pub other : ExtractedFact
  pub one_stated : In one facts
  pub other_stated : In other facts
  pub one_usable : IsUsable documents one
  pub other_usable : IsUsable documents other
  pub differ : comparable_eq one other ≡ false

abbrev pub IsSettled : Documents → List ExtractedFact → Selected → Type 0
IsSettled documents facts s =
    ((s.fact ≡ none)
      × (s.conflicting ≡ false)
      × ((g : ExtractedFact) → In g facts → IsUsable documents g → ⊥))
    ⊎ (((f : ExtractedFact) × (s.fact ≡ some f)
          × (s.conflicting ≡ false)
          × IsAuthoritative documents facts f)
        ⊎ ((s.fact ≡ none) × (s.conflicting ≡ true) × IsDisputed documents facts))

not-true : (b : Bool) → not b ≡ true → b ≡ false
not-true true h = cc
not-true false h = refl

current_only :
    (state : DocumentVersionState) → is_current state ≡ true → state ≡ DocumentVersionState.active
unfolding is_current
current_only state h = ground arith

is_active-IsUsable :
    (documents : Documents) (f : ExtractedFact)
    → (is_active documents f ≡ true → IsUsable documents f)
      × (IsUsable documents f → is_active documents f ≡ true)
unfolding is_active is_current
is_active-IsUsable documents f = (
  λ h. elim (Option-cases (documents f.document_id)) [
    | inl e ↦
        let none_left : not f.is_retracted && false ≡ true = rw (e, is_active) at h in
        absurd (clash refl (both _ _ none_left).1)
    | inr (state, e) ↦
        let known : not f.is_retracted && is_current state ≡ true = rw (e, is_active) at h in
        let (kept, current) = both _ _ known in
        (
          not-true _ kept,
          e ∙ ap (λ (s : DocumentVersionState). some s) (current_only state current),
        )
  ],
  λ (kept, e). rw (kept, e, is_active) refl,
)

all_of-In :
    {A : Type 0} (p : A → Bool) (x : A) (xs : List A) → all_of p xs ≡ true → In x xs → p x ≡ true
all_of-In p x [] h i = absurd i
all_of-In p x (y ∷ xs) h (inl e) = subst (λ z. p z ≡ true) e (both _ _ h).0
all_of-In p x (y ∷ xs) h (inr i) = all_of-In p x xs (both _ _ h).1 i

not_all_of :
    {A : Type 0} (p : A → Bool) (xs : List A)
    → all_of p xs ≡ false
    → (x : A) × In x xs × (p x ≡ false)
not_all_of p [] h = absurd (cc)
not_all_of p (y ∷ xs) h = elim (Bool-cases (p y)) [
  | inl holds ↦ let (x, i, e) = not_all_of p xs (rw holds at h) in (x, inr i, e)
  | inr fails ↦ (y, inl refl, fails)
]

module _ (documents : Documents) (facts : List ExtractedFact) where
  -- What is known of the candidates.
  abbrev AreCandidates : List ExtractedFact → Type 0
  AreCandidates candidates =
      ((h : ExtractedFact) → In h candidates → In h facts × IsUsable documents h)
      × ((g : ExtractedFact)
          → In g facts
          → IsUsable documents g
          → (h : ExtractedFact) × In h candidates × Covers h g)

  judge_candidates-IsSettled :
      (fact_type : Text) (superseded candidates : List ExtractedFact)
      → AreCandidates candidates
      → IsSettled documents facts (judge_candidates fact_type superseded candidates)
  unfolding judge_candidates
  judge_candidates-IsSettled fact_type superseded [] (sound, complete) =
      inl (refl, refl, λ g i u. let (h, j, c) = complete g i u in j)
  judge_candidates-IsSettled fact_type superseded (first ∷ others) (sound, complete) =
      let (stated, usable) = sound first (inl refl) in
      elim (Bool-cases (all_of (comparable_eq first) others)) [
        | inl agreed ↦ rw agreed (
            inr (
              inl (
                first,
                refl,
                refl,
                record {
                  stated = stated;
                  usable = usable;
                  agreed = λ g i u.
                      let (h, j, c) = complete g i u in
                      let (in_facts, _) = sound h j in
                      (
                        h,
                        in_facts,
                        c,
                        elim j [
                          | inl e ↦ inl e
                          | inr k ↦ inr (all_of-In (comparable_eq first) h others agreed k)
                        ],
                      );
                },
              )))
        | inr disputed ↦
            let (other, i, differ) = not_all_of (comparable_eq first) others disputed in
            let (other_stated, other_usable) = sound other (inr i) in
            rw disputed (
              inr (
                inr (
                  refl,
                  refl,
                  record {
                    one = first;
                    other = other;
                    one_stated = stated;
                    other_stated = other_stated;
                    one_usable = usable;
                    other_usable = other_usable;
                    differ = differ;
                  },
                )))
      ]

  pub select_one-IsSettled :
      (fact_type : Text) → IsSettled documents facts (select_one fact_type facts documents)
  unfolding select_one
  select_one-IsSettled fact_type =
      judge_candidates-IsSettled fact_type _ (newest_per_claim (keep (is_active documents) facts)) (
        λ h i.
            let (stated, active) =
              (In-keep (is_active documents) h facts).0
                (newest_per_claim-In h (keep (is_active documents) facts) i) in
            (stated, (is_active-IsUsable documents h).0 active),
        λ g i u.
            newest_per_claim-covers g (keep (is_active documents) facts)
              ((In-keep (is_active documents) g facts).1 i ((is_active-IsUsable documents g).1 u)),
      )

pub select_one-In :
    (t : Text) (facts : List ExtractedFact) (documents : Documents) (f : ExtractedFact)
    → (select_one t facts documents).fact ≡ some f
    → In f facts
select_one-In t facts documents f h = elim (select_one-IsSettled documents facts t) [
  | inl (nothing, _, _) ↦ absurd (cc)
  | inr other ↦ elim other [
    | inl (g, found, _, authoritative) ↦
        let same : g ≡ f = cc in subst (λ (x : ExtractedFact). In x facts) same authoritative.stated
    | inr (nothing, _, _) ↦ absurd (cc)
  ]
]
