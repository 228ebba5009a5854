-- ===== src/Crawl/Frontier/Claims.antt =====
-- What a claim takes, and that no other claim takes it while the lease runs.
use mathlib.Core.Bool.{false≢true}
use mathlib.Core.Path.{subst}
use aedifex.Prelude.{
  ℕ, ◌≡◌, ap, sym, ◌∙◌, Bool, true, false, not, ◌&&◌, List, arith, Bool-cases, In, map, inl, inr,
  some, if◌then◌else◌,
}
use aedifex.Crawl.Frontier.{
  DiscoveredUrl, FrontierQueue, is_claimable, leased, chosen, claim, claim_rows, has_id,
  select_rows,
}
use aedifex.Crawl.Frontier.Rows.{
  IsKeyed, In-in_order, In-select_rows, In-take, In-map, has_id-In, same_row, map-IsKeyed,
}

-- a row that the queue may take at `now`
pub record IsAvailable (q : FrontierQueue) (locked : ℕ → Bool) (now : ℕ) (row : DiscoveredUrl)
    : Type 0 where
  pub claimable : is_claimable q now row ≡ true
  pub unlocked : locked row.id ≡ false

module _ (q : FrontierQueue) (locked : ℕ → Bool) (now limit : ℕ) (table : List DiscoveredUrl) where
  abbrev after_claim : DiscoveredUrl → DiscoveredUrl
  after_claim r = if has_id (chosen q locked now limit table) r then leased q now r else r

  id-after_claim : (r : DiscoveredUrl) → (after_claim r).id ≡ r.id
  id-after_claim r = ground arith

  pub In-chosen :
      (r : DiscoveredUrl)
      → In r (chosen q locked now limit table)
      → In r table × IsAvailable q locked now r
  unfolding chosen
  In-chosen r i =
      let test = λ (a : DiscoveredUrl). is_claimable q now a && not (locked a.id) in
      let in_picked = In-in_order (select_rows test table) r (In-take limit _ r i) in
      let (there, passes) = In-select_rows test table r in_picked in
      (there, record { claimable = ground arith; unlocked = ground arith })

  chosen_row :
      (r row : DiscoveredUrl)
      → IsKeyed table
      → In row table
      → after_claim row ≡ r
      → has_id (chosen q locked now limit table) r ≡ true
      → IsAvailable q locked now row × (leased q now row ≡ r)
  chosen_row r row keyed there e has =
      elim (Bool-cases (has_id (chosen q locked now limit table) row)) [
        | inl hit ↦
            let (p, in_picked, same) = has_id-In (chosen q locked now limit table) row hit in
            let (p_there, p_free) = In-chosen p in_picked in
            (
              subst (λ (t : DiscoveredUrl). IsAvailable q locked now t)
                  (same_row table p row keyed p_there there same) p_free,
              (rw hit at e),
            )
        | inr miss ↦
            let same : row ≡ r = rw miss at e in
            absurd (
              false≢true (
                sym miss
                ∙ ap (λ (t : DiscoveredUrl). has_id (chosen q locked now limit table) t) same
                ∙ has))
      ]

  pub claim-rows :
      (out : List DiscoveredUrl × List DiscoveredUrl)
      → claim q locked now limit table ≡ some out
      → claim_rows q locked now limit table ≡ out
  unfolding claim
  claim-rows out h = ground arith

  claim_rows_takes :
      (r : DiscoveredUrl)
      → IsKeyed table
      → In r (claim_rows q locked now limit table).0
      → ((row : DiscoveredUrl) × In row table
          × IsAvailable q locked now row
          × (leased q now row ≡ r))
        × In r (claim_rows q locked now limit table).1
        × IsKeyed (claim_rows q locked now limit table).1
  unfolding claim_rows
  claim_rows_takes r keyed i =
      let picked = chosen q locked now limit table in
      let in_selected = In-in_order (select_rows (has_id picked) (map after_claim table)) r i in
      let (updated, has) = In-select_rows (has_id picked) (map after_claim table) r in_selected in
      let (row, there, e) = In-map after_claim table r updated in
      let (free, as_leased) = chosen_row r row keyed there e has in
      ((row, there, free, as_leased), updated, map-IsKeyed after_claim id-after_claim table keyed)

  -- Every row that a claim returns stood in the table, was claimable and not locked by anyone else,
  -- and now has the worker's lease, in the table too. The keys of the table stay distinct.
  pub claim_takes :
      (r : DiscoveredUrl) (out : List DiscoveredUrl × List DiscoveredUrl)
      → IsKeyed table
      → claim q locked now limit table ≡ some out
      → In r out.0
      → ((row : DiscoveredUrl) × In row table
          × IsAvailable q locked now row
          × (leased q now row ≡ r))
        × In r out.1
        × IsKeyed out.1
  claim_takes r out keyed h =
      subst
        (λ (o : List DiscoveredUrl × List DiscoveredUrl).
          In r o.0
          → ((row : DiscoveredUrl) × In row table
              × IsAvailable q locked now row
              × (leased q now row ≡ r))
            × In r o.1
            × IsKeyed o.1)
        (claim-rows out h) (claim_rows_takes r keyed)
