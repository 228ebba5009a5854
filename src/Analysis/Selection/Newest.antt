-- ===== src/Analysis/Selection/Newest.antt =====
-- One fact is kept for each claim, the newest reading of it.
use mathlib.Core.Path.{subst}
use aedifex.Prelude.Sorting.{In-sort_by}
use aedifex.Prelude.{
  both, clash, ℕ, ◌≡◌, refl, sym, ap, ◌∙◌, ◌⊎◌, inl, inr, true, false, Option, none, some, List, [],
  ◌∷◌, ◌==◌, arith, In, Bool-cases, ==_iff,
}
use aedifex.Prelude.Text.{Text}
use aedifex.Analysis.Facts.{ExtractedFact, text_ltb}
use aedifex.Analysis.Selection.{
  option_eq, same_claim, keep_newest, newest_from, claim_before, newest_per_claim,
}

-- What is before `u` is before `t`, or `t` is before `u`.
pub text_ltb_split :
    (s t u : Text) → text_ltb s u ≡ true → (text_ltb s t ≡ true) ⊎ (text_ltb t u ≡ true)
unfolding text_ltb
text_ltb_split s t [] h = cc
text_ltb_split [] [] (d ∷ u) h = inr refl
text_ltb_split [] (c ∷ t) (d ∷ u) h = inl refl
text_ltb_split (b ∷ s) [] (d ∷ u) h = inr refl
text_ltb_split (b ∷ s) (c ∷ t) (d ∷ u) h = ground (arith, text_ltb_split s t u)

pub text_ltb_asym : (s t : Text) → text_ltb s t ≡ true → text_ltb t s ≡ false
unfolding text_ltb
text_ltb_asym s [] h = cc
text_ltb_asym [] (d ∷ t) h = refl
text_ltb_asym (c ∷ s) (d ∷ t) h = ground (arith, text_ltb_asym s t)

-- `h` reads the claim that `g` reads, and is not an older reading.
pub record Covers (h g : ExtractedFact) : Type 0 where
  pub document : h.document_id ≡ g.document_id
  pub row : h.sheet_row ≡ g.sheet_row
  pub not_older : text_ltb h.extractor_version g.extractor_version ≡ false

row_eq_sound : (m n : Option ℕ) → option_eq (λ (i j : ℕ). i == j) m n ≡ true → m ≡ n
row_eq_sound none none h = refl
row_eq_sound none (some n) h = cc
row_eq_sound (some m) none h = cc
row_eq_sound (some m) (some n) h = ap (λ (i : ℕ). some i) ((==_iff m n).0 h)

same_claim_sound :
    (f g : ExtractedFact)
    → same_claim f g ≡ true
    → (f.document_id ≡ g.document_id) × (f.sheet_row ≡ g.sheet_row)
unfolding same_claim
same_claim_sound f g h =
    let (documents, rows) = both _ _ h in
    ((==_iff f.document_id g.document_id).0 documents, row_eq_sound f.sheet_row g.sheet_row rows)

pub text_ltb_irrefl : (s : Text) → text_ltb s s ≡ false
text_ltb_irrefl s = elim (Bool-cases (text_ltb s s)) [
  | inl before ↦ text_ltb_asym s s before
  | inr e ↦ e
]

Covers-refl : (f : ExtractedFact) → Covers f f
Covers-refl f = record {
  document = refl;
  row = refl;
  not_older = text_ltb_irrefl f.extractor_version;
}

Covers-trans : (f g h : ExtractedFact) → Covers f g → Covers g h → Covers f h
Covers-trans f g h c d = record {
  document = c.document ∙ d.document;
  row = c.row ∙ d.row;
  not_older = elim (Bool-cases (text_ltb f.extractor_version h.extractor_version)) [
    | inr e ↦ e
    | inl older ↦
        elim (text_ltb_split f.extractor_version g.extractor_version h.extractor_version older) [
          | inl e ↦ absurd (clash c.not_older e)
          | inr e ↦ absurd (clash d.not_older e)
        ]
  ];
}

-- one of the list covers the fact
abbrev pub IsCovered : List ExtractedFact → ExtractedFact → Type 0
IsCovered kept g = (h : ExtractedFact) × In h kept × Covers h g

abbrev later :
    (kept : List ExtractedFact) (g k : ExtractedFact) → IsCovered kept g → IsCovered (k ∷ kept) g
later kept g k (h, i, c) = (h, inr i, c)

keep_newest-covers :
    (fact : ExtractedFact) (newest : List ExtractedFact)
    → IsCovered (keep_newest fact newest) fact
      × ((g : ExtractedFact) → In g newest → IsCovered (keep_newest fact newest) g)
unfolding keep_newest
keep_newest-covers fact [] = ((fact, inl refl, Covers-refl fact), λ g i. absurd i)
keep_newest-covers fact (current ∷ newest) = elim (Bool-cases (same_claim current fact)) [
  | inr other ↦
      let (of_fact, of_newest) = keep_newest-covers fact newest in
      rw (other, keep_newest)
        (
          later (keep_newest fact newest) fact current of_fact,
          λ g i. elim i [
            | inl e ↦ (current, inl refl, subst (Covers current) e (Covers-refl current))
            | inr j ↦ later (keep_newest fact newest) g current (of_newest g j)
          ],
        )
  | inl same ↦
      let (document, row) = same_claim_sound current fact same in
      elim (Bool-cases (text_ltb current.extractor_version fact.extractor_version)) [
        | inl newer ↦
            let replaces : Covers fact current = record {
              document = sym document;
              row = sym row;
              not_older = text_ltb_asym current.extractor_version fact.extractor_version newer;
            } in
            rw (same, newer, keep_newest)
              (
                (fact, inl refl, Covers-refl fact),
                λ g i. elim i [
                  | inl e ↦ (fact, inl refl, subst (Covers fact) e replaces)
                  | inr j ↦ (g, inr j, Covers-refl g)
                ],
              )
        | inr older ↦
            rw (same, older, keep_newest)
              (
                (current, inl refl, record { document = document; row = row; not_older = older }),
                λ g i. (g, i, Covers-refl g),
              )
      ]
]

newest_from-covers :
    (newest facts : List ExtractedFact)
    → ((g : ExtractedFact) → In g newest → IsCovered (newest_from newest facts) g)
      × ((g : ExtractedFact) → In g facts → IsCovered (newest_from newest facts) g)
unfolding newest_from
newest_from-covers newest [] = ((λ g i. (g, i, Covers-refl g)), λ g i. absurd i)
newest_from-covers newest (fact ∷ facts) =
    let (of_fact, of_newest) = keep_newest-covers fact newest in
    let (of_kept, of_facts) = newest_from-covers (keep_newest fact newest) facts in
    (
      λ g i.
          let (h, j, c) = of_newest g i in
          let (k, l, d) = of_kept h j in (k, l, Covers-trans k h g d c),
      λ g i. elim i [
        | inl e ↦
            let (h, j, c) = of_fact in
            let (k, l, d) = of_kept h j in (k, l, subst (Covers k) e (Covers-trans k h fact d c))
        | inr j ↦ of_facts g j
      ],
    )

In-keep_newest :
    (h fact : ExtractedFact) (newest : List ExtractedFact)
    → In h (keep_newest fact newest)
    → (fact ≡ h) ⊎ In h newest
unfolding keep_newest
In-keep_newest h fact [] i = i
In-keep_newest h fact (current ∷ newest) i = elim (Bool-cases (same_claim current fact)) [
  | inr other ↦
      let j : (current ≡ h) ⊎ In h (keep_newest fact newest) = rw (other, keep_newest) at i in
      elim j [
        | inl e ↦ inr (inl e)
        | inr k ↦ elim (In-keep_newest h fact newest k) [ inl e ↦ inl e | inr l ↦ inr (inr l) ]
      ]
  | inl same ↦ elim (Bool-cases (text_ltb current.extractor_version fact.extractor_version)) [
    | inl newer ↦
        let j : (fact ≡ h) ⊎ In h newest = rw (same, newer, keep_newest) at i in
        elim j [ inl e ↦ inl e | inr k ↦ inr (inr k) ]
    | inr older ↦ inr (rw (same, older, keep_newest) at i)
  ]
]

In-newest_from :
    (h : ExtractedFact) (newest facts : List ExtractedFact)
    → In h (newest_from newest facts)
    → In h newest ⊎ In h facts
unfolding newest_from
In-newest_from h newest [] i = inl i
In-newest_from h newest (fact ∷ facts) i =
    elim (In-newest_from h (keep_newest fact newest) facts i) [
      | inr j ↦ inr (inr j)
      | inl j ↦ elim (In-keep_newest h fact newest j) [ inl e ↦ inr (inl e) | inr k ↦ inl k ]
    ]

pub newest_per_claim-In :
    (h : ExtractedFact) (facts : List ExtractedFact) → In h (newest_per_claim facts) → In h facts
unfolding newest_per_claim
newest_per_claim-In h facts i =
    elim (In-newest_from h [] facts ((In-sort_by claim_before h (newest_from [] facts)).0 i)) [
      | inl j ↦ absurd j
      | inr j ↦ j
    ]

pub newest_per_claim-covers :
    (g : ExtractedFact) (facts : List ExtractedFact)
    → In g facts
    → IsCovered (newest_per_claim facts) g
unfolding newest_per_claim
newest_per_claim-covers g facts i =
    let (h, j, c) = (newest_from-covers [] facts).1 g i in
    (h, (In-sort_by claim_before h (newest_from [] facts)).1 j, c)
