-- ===== src/Prelude/Sorting.antt =====
-- Sorting, `sorted` of Python, and what it keeps.
use mathlib.Core.Bool.{Bool}
use mathlib.Core.List.{List, [], ◌∷◌}
use mathlib.Core.Logic.{inl, inr}
use aedifex.Prelude.Tests.{if◌then◌else◌, Bool-cases}
use aedifex.Prelude.Lists.{In}

-- Insertion sort, stable where `before` holds of equal items.
unfoldable pub insert_by {ℓ} : {A : Type ℓ} → (A → A → Bool) → A → List A → List A
insert_by before a [] = a ∷ []
insert_by before a (b ∷ sorted) =
    let rest = insert_by before a sorted in if before a b then a ∷ b ∷ sorted else b ∷ rest

unfoldable pub sort_by {ℓ} : {A : Type ℓ} → (A → A → Bool) → List A → List A
unfolding insert_by
sort_by before [] = []
sort_by before (a ∷ xs) = insert_by before a (sort_by before xs)

In-insert_by :
    {A : Type 0} (before : A → A → Bool) (x a : A) (sorted : List A)
    → (In x (insert_by before a sorted) → In x (a ∷ sorted))
      × (In x (a ∷ sorted) → In x (insert_by before a sorted))
unfolding insert_by
In-insert_by before x a [] = (λ i. i, λ i. i)
In-insert_by before x a (b ∷ sorted) = elim (Bool-cases (before a b)) [
  | inl first ↦ rw (first, insert_by) (λ i. i, λ i. i)
  | inr after ↦
      let (there, back) = In-insert_by before x a sorted in
      rw (after, insert_by)
        (
          λ i. elim i [
            | inl e ↦ inr (inl e)
            | inr j ↦ elim (there j) [ inl e ↦ inl e | inr k ↦ inr (inr k) ]
          ],
          λ i. elim i [
            | inl e ↦ inr (back (inl e))
            | inr j ↦ elim j [ inl e ↦ inl e | inr k ↦ inr (back (inr k)) ]
          ],
        )
]

pub In-sort_by :
    {A : Type 0} (before : A → A → Bool) (x : A) (xs : List A)
    → (In x (sort_by before xs) → In x xs) × (In x xs → In x (sort_by before xs))
unfolding sort_by
In-sort_by before x [] = (λ i. i, λ i. i)
In-sort_by {A} before x (a ∷ xs) =
    let (there, back) = In-sort_by before x xs in
    let (take_out, put_in) = In-insert_by before x a (sort_by before xs) in
    (
      λ i. elim (take_out i) [ inl e ↦ inl e | inr j ↦ inr (there j) ],
      λ i.
          put_in (elim i as (λ _. In x (a ∷ sort_by before xs)) [
            | inl e ↦ inl e
            | inr j ↦ inr (back j)
          ]),
    )
