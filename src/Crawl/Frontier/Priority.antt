-- ===== src/Crawl/Frontier/Priority.antt =====
-- The order of the queue, and that a claim takes from its front.
use mathlib.Core.Path.{subst}
use aedifex.Prelude.{
  ℕ, zero, suc, ◌≡◌, refl, ◌⊎◌, inl, inr, some, Bool, true, false, not, ◌&&◌, List, [], ◌∷◌, arith,
  Bool-cases, In, All, take, map, if◌then◌else◌,
}
use aedifex.Crawl.Frontier.{
  DiscoveredUrl, FrontierQueue, comes_first, insert_row, in_order, select_rows, is_claimable,
  chosen, claim, claim_rows, has_id, leased,
}
use aedifex.Crawl.Frontier.Rows.{select_rows-In, in_order-In}
use aedifex.Crawl.Frontier.Claims.{IsAvailable, claim-rows}

comes_first_total : (a b : DiscoveredUrl) → comes_first a b ≡ false → comes_first b a ≡ true
unfolding comes_first
comes_first_total a b h = ground arith

comes_first_trans :
    (a b c : DiscoveredUrl)
    → comes_first a b ≡ true
    → comes_first b c ≡ true
    → comes_first a c ≡ true
unfolding comes_first
comes_first_trans a b c h k = ground arith

-- Each row comes no later than any below it.
abbrev pub IsOrdered : List DiscoveredUrl → Type 0
IsOrdered [] = Unit
IsOrdered (a ∷ rows) = All (λ b. comes_first a b ≡ true) rows × IsOrdered rows

All-after :
    (a b : DiscoveredUrl) (rows : List DiscoveredUrl)
    → comes_first a b ≡ true
    → All (λ c. comes_first b c ≡ true) rows
    → All (λ c. comes_first a c ≡ true) rows
All-after a b [] h k = tt
All-after a b (c ∷ rows) h k = (comes_first_trans a b c h k.0, All-after a b rows h k.1)

All-insert_row :
    (a b : DiscoveredUrl) (rows : List DiscoveredUrl)
    → comes_first b a ≡ true
    → All (λ c. comes_first b c ≡ true) rows
    → All (λ c. comes_first b c ≡ true) (insert_row a rows)
unfolding insert_row
All-insert_row a b [] h k = (h, tt)
All-insert_row a b (c ∷ rows) h k = elim (Bool-cases (comes_first a c)) [
  | inl first ↦ rw first (h, k)
  | inr later ↦ rw later (k.0, All-insert_row a b rows h k.1)
]

insert_row-IsOrdered :
    (a : DiscoveredUrl) (rows : List DiscoveredUrl) → IsOrdered rows → IsOrdered (insert_row a rows)
unfolding insert_row
insert_row-IsOrdered a [] h = (tt, tt)
insert_row-IsOrdered a (b ∷ rows) h = elim (Bool-cases (comes_first a b)) [
  | inl first ↦ rw first ((first, All-after a b rows first h.0), h)
  | inr later ↦
      rw later
        (All-insert_row a b rows (comes_first_total a b later) h.0, insert_row-IsOrdered a rows h.1)
]

in_order-IsOrdered : (rows : List DiscoveredUrl) → IsOrdered (in_order rows)
unfolding in_order
in_order-IsOrdered [] = tt
in_order-IsOrdered (a ∷ rows) = insert_row-IsOrdered a (in_order rows) (in_order-IsOrdered rows)

head_first :
    (a : DiscoveredUrl) (rows : List DiscoveredUrl) (b : DiscoveredUrl)
    → All (λ c. comes_first a c ≡ true) rows
    → In b rows
    → comes_first a b ≡ true
head_first a [] b h i = absurd i
head_first a (c ∷ rows) b h (inl e) = subst (λ (t : DiscoveredUrl). comes_first a t ≡ true) e h.0
head_first a (c ∷ rows) b h (inr i) = head_first a rows b h.1 i

taken_first :
    (n : ℕ) (rows : List DiscoveredUrl) (a b : DiscoveredUrl)
    → IsOrdered rows
    → In a (take n rows)
    → In b rows
    → In b (take n rows) ⊎ (comes_first a b ≡ true)
taken_first zero rows a b o i j = absurd i
taken_first (suc n) [] a b o i j = absurd i
taken_first (suc n) (c ∷ rows) a b o i (inl e) = inl (inl e)
taken_first (suc n) (c ∷ rows) a b o (inl e) (inr j) =
    inr (subst (λ (t : DiscoveredUrl). comes_first t b ≡ true) e (head_first c rows b o.0 j))
taken_first (suc n) (c ∷ rows) a b o (inr i) (inr j) = elim (taken_first n rows a b o.1 i j) [
  | inl taken ↦ inl (inr taken)
  | inr first ↦ inr first
]

claim_rows-IsOrdered :
    (q : FrontierQueue) (locked : ℕ → Bool) (now limit : ℕ) (table : List DiscoveredUrl)
    → IsOrdered (claim_rows q locked now limit table).0
unfolding claim_rows
claim_rows-IsOrdered q locked now limit table =
    let picked = chosen q locked now limit table in
    in_order-IsOrdered
      (select_rows (has_id picked) (map (λ r. if has_id picked r then leased q now r else r) table))

-- A claim returns its rows in the order of the queue, and takes from the front of it: a row that it
-- could have taken and did not comes no earlier than any row that it took.
pub claim_priority :
    (q : FrontierQueue) (locked : ℕ → Bool) (now limit : ℕ) (table : List DiscoveredUrl)
    (out : List DiscoveredUrl × List DiscoveredUrl) (taken other : DiscoveredUrl)
    → claim q locked now limit table ≡ some out
    → In taken (chosen q locked now limit table)
    → In other table
    → IsAvailable q locked now other
    → IsOrdered out.0
      × (In other (chosen q locked now limit table) ⊎ (comes_first taken other ≡ true))
unfolding chosen
claim_priority q locked now limit table out taken other h i j free =
    let test = λ (a : DiscoveredUrl). is_claimable q now a && not (locked a.id) in
    let passes : test other ≡ true = rw (free.claimable, free.unlocked) refl in
    (
      subst (λ (o : List DiscoveredUrl × List DiscoveredUrl). IsOrdered o.0)
          (claim-rows q locked now limit table out h)
          (claim_rows-IsOrdered q locked now limit table),
      taken_first limit (in_order (select_rows test table)) taken other
          (in_order-IsOrdered (select_rows test table)) i
          (in_order-In (select_rows test table) other (select_rows-In test table other j passes)),
    )
