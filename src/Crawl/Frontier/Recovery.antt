-- ===== src/Crawl/Frontier/Recovery.antt =====
-- What happens to a URL whose worker stops, time after time.
use aedifex.Prelude.{
  ℕ, ◌+◌, ◌≤◌, ◌<◌, ◌≡◌, refl, ap, ◌⊎◌, inl, inr, true, false, Option, none, some, List, [], ◌∷◌,
  arith, Bool-cases, map, ◌≢◌, ◌&&◌, if◌then◌else◌,
}
use aedifex.Domain.Documents.{downloading, failed}
use aedifex.Crawl.Frontier.{
  DiscoveredUrl, FrontierQueue, is_claimable, leased, settle, is_abandoned, recovered,
  reclaim_expired, select_rows, is_null,
}

recovered_not_abandoned :
    (q : FrontierQueue) (now : ℕ) (r : DiscoveredUrl)
    → is_abandoned q now (if is_abandoned q now r then recovered q now r else r) ≡ false
unfolding is_abandoned recovered
recovered_not_abandoned q now r = ground arith

no_abandoned :
    (q : FrontierQueue) (now : ℕ) (table : List DiscoveredUrl)
    → select_rows
        (is_abandoned q now)
        (map (λ r. if is_abandoned q now r then recovered q now r else r) table)
      ≡ []
unfolding select_rows
no_abandoned q now [] = refl
no_abandoned q now (r ∷ table) = rw (recovered_not_abandoned q now r) (no_abandoned q now table)

nothing_recovered :
    (q : FrontierQueue) (now : ℕ) (table : List DiscoveredUrl)
    → select_rows (is_abandoned q now) table ≡ []
    → map (λ r. if is_abandoned q now r then recovered q now r else r) table ≡ table
unfolding select_rows
nothing_recovered q now [] h = refl
nothing_recovered q now (r ∷ table) h = elim (Bool-cases (is_abandoned q now r)) [
  | inl abandoned ↦
      let h' : r ∷ select_rows (is_abandoned q now) table ≡ [] = rw abandoned at h in cc
  | inr held ↦
      let h' : select_rows (is_abandoned q now) table ≡ [] = rw held at h in
      rw held (ap (λ (l : List DiscoveredUrl). r ∷ l) (nothing_recovered q now table h'))
]

-- Recovery is complete: a second one at the same time finds nothing and changes nothing.
pub reclaim_expired_idem :
    (q : FrontierQueue) (now : ℕ) (table : List DiscoveredUrl)
    → reclaim_expired q now (reclaim_expired q now table).0 ≡ ((reclaim_expired q now table).0, 0)
unfolding reclaim_expired
reclaim_expired_idem q now table =
    rw (nothing_recovered q now _ (no_abandoned q now table), no_abandoned q now table) refl

-- A worker claims the URL at the first time, starts the download, and is gone: the lease runs out,
-- and the URL is recovered at the second time.
unfoldable pub crash_cycle : FrontierQueue → ℕ × ℕ → DiscoveredUrl → Option DiscoveredUrl
crash_cycle q (claimed, noticed) row =
    let busy = record (leased q claimed row) { state = downloading } in
    if is_claimable q claimed row && is_abandoned q noticed busy
    then some (recovered q noticed busy)
    else none

unfoldable pub crash_cycles : FrontierQueue → List (ℕ × ℕ) → DiscoveredUrl → Option DiscoveredUrl
crash_cycles q [] row = some row
crash_cycles q (times ∷ cycles) row = elim (crash_cycle q times row) [
  | none ↦ none
  | some row' ↦ crash_cycles q cycles row'
]

-- what one cycle leaves
record IsCharged (q : FrontierQueue) (before after : DiscoveredUrl) : Type 0 where
  room : before.attempts < q.max_attempts
  charged : after.attempts ≡ before.attempts + 1
  dead : (after.attempts < q.max_attempts) ⊎ (is_null after.dead_lettered_at ≡ false)

-- A URL that is settled as exhausted has failed with no attempts left, and no worker with any
-- limit can claim it at any time; a URL that is settled otherwise keeps its dead-letter mark.
pub settle_exhausted :
    (q q' : FrontierQueue) (now later : ℕ) (row : DiscoveredUrl)
    → (((settle q now row).1 ≡ true)
        × (row.state ≡ failed)
        × (q.max_attempts ≤ row.attempts)
        × (is_claimable q' later (settle q now row).0 ≡ false))
      ⊎ (((settle q now row).1 ≡ false)
          × ((settle q now row).0.dead_lettered_at ≡ row.dead_lettered_at)
          × ((row.attempts < q.max_attempts) ⊎ (row.state ≢ failed)))
unfolding settle is_claimable
settle_exhausted q q' now later row = ground arith
