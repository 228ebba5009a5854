-- ===== src/Crawl/Frontier/Rows.antt =====
-- Membership through the steps of a query.
use mathlib.Core.Path.{subst}
use aedifex.Prelude.{
  ℕ, zero, suc, ◌≡◌, refl, ap, sym, ◌∙◌, ◌⊎◌, inl, inr, ◌≢◌, Bool, true, List, [], ◌∷◌, arith, ◌==◌,
  Bool-cases, In, All, take, map,
}
use aedifex.Crawl.Frontier.{DiscoveredUrl, comes_first, insert_row, in_order, select_rows, has_id}

pub In-select_rows :
    (test : DiscoveredUrl → Bool) (rows : List DiscoveredUrl) (r : DiscoveredUrl)
    → In r (select_rows test rows)
    → In r rows × (test r ≡ true)
unfolding select_rows
In-select_rows test [] r i = absurd i
In-select_rows test (a ∷ rows) r i = elim (Bool-cases (test a)) [
  | inl passes ↦
      let j : In r (a ∷ select_rows test rows) = rw passes at i in
      elim j [
        | inl e ↦ (inl e, subst (λ (t : DiscoveredUrl). test t ≡ true) e passes)
        | inr k ↦ let (there, p) = In-select_rows test rows r k in (inr there, p)
      ]
  | inr fails ↦
      let j : In r (select_rows test rows) = rw fails at i in
      let (there, p) = In-select_rows test rows r j in (inr there, p)
]

pub select_rows-In :
    (test : DiscoveredUrl → Bool) (rows : List DiscoveredUrl) (r : DiscoveredUrl)
    → In r rows
    → test r ≡ true
    → In r (select_rows test rows)
unfolding select_rows
select_rows-In test [] r i p = absurd i
select_rows-In test (a ∷ rows) r (inl e) p =
    let passes : test a ≡ true = subst (λ (t : DiscoveredUrl). test t ≡ true) (sym e) p in
    rw passes (inl e)
select_rows-In test (a ∷ rows) r (inr i) p = elim (Bool-cases (test a)) [
  | inl passes ↦ rw passes (inr (select_rows-In test rows r i p))
  | inr fails ↦ rw fails (select_rows-In test rows r i p)
]

pub In-take :
    (n : ℕ) (rows : List DiscoveredUrl) (r : DiscoveredUrl) → In r (take n rows) → In r rows
In-take zero rows r i = absurd i
In-take (suc n) [] r i = absurd i
In-take (suc n) (a ∷ rows) r (inl e) = inl e
In-take (suc n) (a ∷ rows) r (inr i) = inr (In-take n rows r i)

pub In-map :
    (f : DiscoveredUrl → DiscoveredUrl) (rows : List DiscoveredUrl) (r : DiscoveredUrl)
    → In r (map f rows)
    → (row : DiscoveredUrl) × In row rows × (f row ≡ r)
In-map f [] r i = absurd i
In-map f (a ∷ rows) r (inl e) = (a, inl refl, e)
In-map f (a ∷ rows) r (inr i) = let (row, there, e) = In-map f rows r i in (row, inr there, e)

pub In-insert_row :
    (a : DiscoveredUrl) (rows : List DiscoveredUrl) (r : DiscoveredUrl)
    → In r (insert_row a rows)
    → (a ≡ r) ⊎ In r rows
unfolding insert_row
In-insert_row a [] r i = i
In-insert_row a (b ∷ rows) r i = elim (Bool-cases (comes_first a b)) [
  | inl first ↦ let j : In r (a ∷ b ∷ rows) = rw first at i in j
  | inr later ↦
      let j : In r (b ∷ insert_row a rows) = rw later at i in
      elim j [
        | inl e ↦ inr (inl e)
        | inr k ↦ elim (In-insert_row a rows r k) [ inl e ↦ inl e | inr there ↦ inr (inr there) ]
      ]
]

pub insert_row-In :
    (a : DiscoveredUrl) (rows : List DiscoveredUrl) (r : DiscoveredUrl)
    → (a ≡ r) ⊎ In r rows
    → In r (insert_row a rows)
unfolding insert_row
insert_row-In a [] r i = i
insert_row-In a (b ∷ rows) r i = elim (Bool-cases (comes_first a b)) [
  | inl first ↦ rw first i
  | inr later ↦ rw later (elim i [
    | inl e ↦ inr (insert_row-In a rows r (inl e))
    | inr there ↦ elim there [ inl e ↦ inl e | inr k ↦ inr (insert_row-In a rows r (inr k)) ]
  ])
]

pub In-in_order : (rows : List DiscoveredUrl) (r : DiscoveredUrl) → In r (in_order rows) → In r rows
unfolding in_order
In-in_order [] r i = absurd i
In-in_order (a ∷ rows) r i = elim (In-insert_row a (in_order rows) r i) [
  | inl e ↦ inl e
  | inr there ↦ inr (In-in_order rows r there)
]

pub in_order-In : (rows : List DiscoveredUrl) (r : DiscoveredUrl) → In r rows → In r (in_order rows)
unfolding in_order
in_order-In [] r i = absurd i
in_order-In (a ∷ rows) r (inl e) = insert_row-In a (in_order rows) r (inl e)
in_order-In (a ∷ rows) r (inr i) = insert_row-In a (in_order rows) r (inr (in_order-In rows r i))

pub has_id-In :
    (rows : List DiscoveredUrl) (r : DiscoveredUrl)
    → has_id rows r ≡ true
    → (row : DiscoveredUrl) × In row rows × (row.id ≡ r.id)
has_id-In [] r h = cc
has_id-In (a ∷ rows) r h = elim (Bool-cases (a.id == r.id)) [
  | inl same ↦ (a, inl refl, ground arith)
  | inr other ↦ let (row, there, e) = has_id-In rows r (ground arith) in (row, inr there, e)
]

-- The primary key: no two rows have the same id.
abbrev pub IsKeyed : List DiscoveredUrl → Type 0
IsKeyed [] = Unit
IsKeyed (a ∷ rows) = All (λ b. a.id ≢ b.id) rows × IsKeyed rows

distinct_at :
    (a : DiscoveredUrl) (rows : List DiscoveredUrl) (r : DiscoveredUrl)
    → All (λ b. a.id ≢ b.id) rows
    → In r rows
    → a.id ≢ r.id
distinct_at a [] r h i = absurd i
distinct_at a (b ∷ rows) r h (inl e) = subst (λ (t : DiscoveredUrl). a.id ≢ t.id) e h.0
distinct_at a (b ∷ rows) r h (inr i) = distinct_at a rows r h.1 i

pub same_row :
    (rows : List DiscoveredUrl) (r s : DiscoveredUrl)
    → IsKeyed rows
    → In r rows
    → In s rows
    → r.id ≡ s.id
    → r ≡ s
same_row [] r s k i j e = absurd i
same_row (a ∷ rows) r s k (inl p) (inl q) e = sym p ∙ q
same_row (a ∷ rows) r s k (inl p) (inr j) e =
    absurd (distinct_at a rows s k.0 j (ap (λ (t : DiscoveredUrl). t.id) p ∙ e))
same_row (a ∷ rows) r s k (inr i) (inl q) e =
    absurd (distinct_at a rows r k.0 i (ap (λ (t : DiscoveredUrl). t.id) q ∙ sym e))
same_row (a ∷ rows) r s k (inr i) (inr j) e = same_row rows r s k.1 i j e

map-All :
    (a : DiscoveredUrl) (f : DiscoveredUrl → DiscoveredUrl)
    → ((r : DiscoveredUrl) → (f r).id ≡ r.id)
    → (rows : List DiscoveredUrl) → All (λ b. a.id ≢ b.id) rows
    → All (λ b. a.id ≢ b.id) (map f rows)
map-All a f same [] h = tt
map-All a f same (b ∷ rows) h = (λ e. h.0 (e ∙ same b), map-All a f same rows h.1)

pub map-IsKeyed :
    (f : DiscoveredUrl → DiscoveredUrl)
    → ((r : DiscoveredUrl) → (f r).id ≡ r.id)
    → (rows : List DiscoveredUrl) → IsKeyed rows
    → IsKeyed (map f rows)
map-IsKeyed f same [] k = tt
map-IsKeyed f same (a ∷ rows) k =
    (map-All (f a) f same rows (rw (same a) k.0), map-IsKeyed f same rows k.1)
