-- ===== src/Analysis/Provisions/Governing.antt =====
-- Which provision governs a value, and when none is chosen.
use mathlib.Core.Path.{subst}
use aedifex.Prelude.Sorting.{In-sort_by}
use aedifex.Prelude.{
  ◌≡◌, refl, sym, ◌⊎◌, inl, inr, Bool, true, false, ◌&&◌, Option, none, some, List, [], ◌∷◌, arith,
  In, keep, In-keep, both, clash, Bool-cases,
}
use aedifex.Prelude.Text.{Text, text_eq, text_eq_sound, text_eq_refl}
use aedifex.Prelude.Integers.{ℤ, ◌≤ℤ◌}
use aedifex.Analysis.Facts.{text_ltb}
use aedifex.Analysis.Selection.Newest.{text_ltb_split, text_ltb_asym, text_ltb_irrefl}
use aedifex.Analysis.Provisions.{
  PolicyProvision, ApplicableProvision, at_least, at_most, in_band, is_candidate, newest_version,
  clause_before, matching, chosen_of, select_provision,
}

abbrev pub IsAbove : Option ℤ → ℤ → Type 0
IsAbove none value = Unit
IsAbove (some bound) value = bound ≤ℤ value

abbrev pub IsUnder : Option ℤ → ℤ → Type 0
IsUnder none value = Unit
IsUnder (some bound) value = value ≤ℤ bound

at_least_iff :
    (o : Option ℤ) (value : ℤ)
    → (at_least o value ≡ true → IsAbove o value) × (IsAbove o value → at_least o value ≡ true)
at_least_iff none value = (λ h. tt, λ h. refl)
at_least_iff (some bound) value = (λ h. ground arith, λ h. ground arith)

at_most_iff :
    (o : Option ℤ) (value : ℤ)
    → (at_most o value ≡ true → IsUnder o value) × (IsUnder o value → at_most o value ≡ true)
at_most_iff none value = (λ h. tt, λ h. refl)
at_most_iff (some bound) value = (λ h. ground arith, λ h. ground arith)

same_text : (s t : Text) → s ≡ t → text_eq s t ≡ true
same_text s t e = subst (λ (u : Text). text_eq s u ≡ true) e (text_eq_refl s)

text_ltb_connex : (s t : Text) → text_ltb s t ≡ false → text_ltb t s ≡ false → s ≡ t
unfolding text_ltb
text_ltb_connex [] [] h k = refl
text_ltb_connex [] (d ∷ t) h k = cc
text_ltb_connex (c ∷ s) [] h k = cc
text_ltb_connex (c ∷ s) (d ∷ t) h k = ground (arith, text_ltb_connex s t)

-- `v` is not older than what is not older than `t`
not_older_trans :
    (v u t : Text) → text_ltb v u ≡ false → text_ltb u t ≡ false → text_ltb v t ≡ false
not_older_trans v u t h k = elim (Bool-cases (text_ltb v t)) [
  | inr e ↦ e
  | inl e ↦ elim (text_ltb_split v u t e) [
    | inl f ↦ absurd (clash h f)
    | inr f ↦ absurd (clash k f)
  ]
]

newest_version-newest :
    (version : Text) (ps : List PolicyProvision)
    → (text_ltb (newest_version version ps) version ≡ false)
      × ((p : PolicyProvision)
          → In p ps
          → text_ltb (newest_version version ps) p.extractor_version ≡ false)
unfolding newest_version
newest_version-newest version [] = (text_ltb_irrefl version, λ p i. absurd i)
newest_version-newest version (r ∷ ps) = elim (Bool-cases (text_ltb version r.extractor_version)) [
  | inl newer ↦
      let (over, rest) = newest_version-newest r.extractor_version ps in
      rw (newer, newest_version)
        (
          not_older_trans _ r.extractor_version version over
              (text_ltb_asym version r.extractor_version newer),
          λ p i. elim i [
            | inl e ↦
                subst
                  (λ (x : PolicyProvision).
                    text_ltb (newest_version r.extractor_version ps) x.extractor_version ≡ false)
                  e over
            | inr j ↦ rest p j
          ],
        )
  | inr older ↦
      let (over, rest) = newest_version-newest version ps in
      rw (older, newest_version)
        (
          over,
          λ p i. elim i [
            | inl e ↦
                subst
                  (λ (x : PolicyProvision).
                    text_ltb (newest_version version ps) x.extractor_version ≡ false)
                  e (not_older_trans _ version _ over older)
            | inr j ↦ rest p j
          ],
        )
]

newest_version-known :
    (version : Text) (ps : List PolicyProvision)
    → (newest_version version ps ≡ version)
      ⊎ ((p : PolicyProvision) × In p ps × (newest_version version ps ≡ p.extractor_version))
unfolding newest_version
newest_version-known version [] = inl refl
newest_version-known version (r ∷ ps) = elim (Bool-cases (text_ltb version r.extractor_version)) [
  | inl newer ↦
      rw (newer, newest_version)
        (elim (newest_version-known r.extractor_version ps) [
          | inl e ↦ inr (r, inl refl, e)
          | inr (p, i, e) ↦ inr (p, inr i, e)
        ])
  | inr older ↦
      rw (older, newest_version)
        (elim (newest_version-known version ps) [
          | inl e ↦ inl e
          | inr (p, i, e) ↦ inr (p, inr i, e)
        ])
]

-- Of the candidates, one in whose band the value is, and which none has a newer version than.
abbrev pub IsLatest : List PolicyProvision → PolicyProvision → Type 0
IsLatest candidates p =
    (r : PolicyProvision)
    → In r candidates
    → text_ltb p.extractor_version r.extractor_version ≡ false

newest_of : PolicyProvision → List PolicyProvision → Text
newest_of first others = newest_version first.extractor_version others

newest_of-over :
    (first : PolicyProvision) (others : List PolicyProvision) (p : PolicyProvision)
    → In p (first ∷ others)
    → text_ltb (newest_of first others) p.extractor_version ≡ false
unfolding newest_of
newest_of-over first others p (inl e) =
    subst (λ (x : PolicyProvision). text_ltb (newest_of first others) x.extractor_version ≡ false) e
      (newest_version-newest first.extractor_version others).0
newest_of-over first others p (inr i) = (newest_version-newest first.extractor_version others).1 p i

newest_of-under :
    (first : PolicyProvision) (others : List PolicyProvision) (p : PolicyProvision)
    → IsLatest (first ∷ others) p
    → text_ltb p.extractor_version (newest_of first others) ≡ false
unfolding newest_of
newest_of-under first others p latest = elim (newest_version-known first.extractor_version others) [
  | inl e ↦ rw e (latest first (inl refl))
  | inr (r, i, e) ↦ rw e (latest r (inr i))
]

matching_iff :
    (value : ℤ) (candidates : List PolicyProvision) (p : PolicyProvision)
    → (In p (matching value candidates)
        → In p candidates × IsLatest candidates p × (in_band value p ≡ true))
      × (In p candidates
          → IsLatest candidates p
          → in_band value p ≡ true
          → In p (matching value candidates))
unfolding matching newest_of
matching_iff value [] p = (λ i. absurd i, λ i l b. i)
matching_iff value (first ∷ others) p =
    let test : PolicyProvision → Bool =
      λ r. text_eq r.extractor_version (newest_of first others) && in_band value r in
    let (sorted, unsorted) = In-sort_by clause_before p (keep test (first ∷ others)) in
    let (kept, keeps) = In-keep test p (first ∷ others) in
    (
      λ i.
          let (stated, passes) = kept (sorted i) in
          let (version, band) = both _ _ passes in
          let same = text_eq_sound p.extractor_version (newest_of first others) version in
          (
            stated,
            λ r j.
                subst (λ (t : Text). text_ltb t r.extractor_version ≡ false) (sym same)
                  (newest_of-over first others r j),
            band,
          ),
      λ i latest band.
          let same =
            text_ltb_connex p.extractor_version (newest_of first others)
              (newest_of-under first others p latest) (newest_of-over first others p i) in
          let version = same_text p.extractor_version (newest_of first others) same in
          unsorted (keeps i (rw (version, band) refl)),
    )

module _ (table : List PolicyProvision) (provision_type authority applies_to : Text)
    (value : ℤ) where
  -- The provision is of that type, of that authority, for that fact.
  abbrev pub IsOfKind : PolicyProvision → Type 0
  IsOfKind p =
      (p.provision_type ≡ provision_type) × (p.authority ≡ authority) × (p.applies_to ≡ applies_to)

  -- The provision is of the kind, none of the kind has a newer version, and the value is in its band,
  -- whose ends belong to it.
  pub record Governs (p : PolicyProvision) : Type 0 where
    pub stated : In p table
    pub kind : IsOfKind p
    pub newest :
        (r : PolicyProvision)
        → In r table
        → IsOfKind r
        → text_ltb p.extractor_version r.extractor_version ≡ false
    pub above : IsAbove p.applies_from value
    pub under : IsUnder p.applies_to_max value

  abbrev pub IsDetermined : ApplicableProvision → Type 0
  IsDetermined a =
      ((a.provision ≡ none) × (a.considered ≡ []) × ((p : PolicyProvision) → Governs p → ⊥))
      ⊎ (((p : PolicyProvision) × (a.provision ≡ some p)
            × Governs p
            × ((r : PolicyProvision) → Governs r → p ≡ r))
          ⊎ ((a.provision ≡ none)
              × ((p : PolicyProvision) × (r : PolicyProvision) × (rest : List PolicyProvision)
                  × (a.considered ≡ p ∷ r ∷ rest))
              × ((p : PolicyProvision) → In p a.considered → Governs p)))

  abbrev candidates : List PolicyProvision
  candidates = keep (is_candidate provision_type authority applies_to) table

  kind_iff :
      (p : PolicyProvision)
      → (is_candidate provision_type authority applies_to p ≡ true → IsOfKind p)
        × (IsOfKind p → is_candidate provision_type authority applies_to p ≡ true)
  unfolding is_candidate
  kind_iff p = (
    λ h.
        let (first_two, to_fact) = both _ _ h in
        let (of_type, of_authority) = both _ _ first_two in
        (
          text_eq_sound p.provision_type provision_type of_type,
          text_eq_sound p.authority authority of_authority,
          text_eq_sound p.applies_to applies_to to_fact,
        ),
    λ (of_type, of_authority, to_fact).
        rw
          (
            same_text p.provision_type provision_type of_type,
            same_text p.authority authority of_authority,
            same_text p.applies_to applies_to to_fact,
          )
          refl,
  )

  Governs-iff :
      (p : PolicyProvision)
      → (In p (matching value candidates) → Governs p)
        × (Governs p → In p (matching value candidates))
  unfolding in_band
  Governs-iff p =
      let (there, back) = matching_iff value candidates p in
      (
        λ i.
            let (stated, latest, band) = there i in
            let (in_table, kind) = (In-keep _ p table).0 stated in
            let (above, under) = both _ _ band in
            record {
              stated = in_table;
              kind = (kind_iff p).0 kind;
              newest = λ r j k. latest r ((In-keep _ r table).1 j ((kind_iff r).1 k));
              above = (at_least_iff p.applies_from value).0 above;
              under = (at_most_iff p.applies_to_max value).0 under;
            },
        λ g.
            back ((In-keep _ p table).1 g.stated ((kind_iff p).1 g.kind))
              (λ r j.
                let (in_table, kind) = (In-keep _ r table).0 j in
                g.newest r in_table ((kind_iff r).0 kind))
              (rw
                (
                  (at_least_iff p.applies_from value).1 g.above,
                  (at_most_iff p.applies_to_max value).1 g.under,
                )
                refl),
      )

  chosen-IsDetermined :
      (found : List PolicyProvision)
      → ((p : PolicyProvision) → (In p found → Governs p) × (Governs p → In p found))
      → IsDetermined (chosen_of found)
  unfolding chosen_of
  chosen-IsDetermined [] iff = inl (refl, refl, λ p g. (iff p).1 g)
  chosen-IsDetermined (p ∷ []) iff = inr (
      inl
        (p, refl, (iff p).0 (inl refl), λ r g. elim ((iff r).1 g) [ inl e ↦ e | inr i ↦ absurd i ]))
  chosen-IsDetermined (p ∷ r ∷ rest) iff = inr (inr (refl, (p, r, rest, refl), λ s i. (iff s).0 i))

  pub select_provision-IsDetermined :
      IsDetermined (select_provision table provision_type (some authority) value applies_to)
  unfolding select_provision
  select_provision-IsDetermined = chosen-IsDetermined (matching value candidates) Governs-iff
