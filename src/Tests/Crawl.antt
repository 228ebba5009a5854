-- ===== src/Tests/Crawl.antt =====
-- Tests of Crawl.
use aedifex.Prelude.{
  ℕ, ◌≡◌, refl, ◌⊎◌, inl, Bool, true, false, none, some, List, [], ◌∷◌, arith, In,
}
use aedifex.Domain.Documents.{discovered, downloading, failed}
use aedifex.Crawl.Frontier.{
  DiscoveredUrl, FrontierQueue, is_claimable, leased, claim, claim_rows, settle, is_abandoned,
  reclaim_expired, select_rows, in_order, chosen, comes_first,
}
use aedifex.Crawl.Frontier.Rows.{IsKeyed}
use aedifex.Crawl.Frontier.Claims.{IsAvailable, claim_takes}
use aedifex.Crawl.Frontier.Priority.{IsOrdered, claim_priority}

abbrev queue : FrontierQueue
queue = record { source_id = 1; worker = 7; lease = 60; max_attempts = 2 }

abbrev other_worker : FrontierQueue
other_worker = record queue { worker = 8 }

abbrev seed_page : DiscoveredUrl
seed_page = record {
  id = 1;
  source_id = 1;
  url_digest = 11;
  state = discovered;
  depth = 0;
  discovered_at = 5;
  attempts = 0;
  lease_owner = none;
  lease_expires_at = none;
  next_attempt_after = none;
  dead_lettered_at = none;
}

abbrev deep_page : DiscoveredUrl
deep_page = record seed_page { id = 2; url_digest = 12; depth = 3; state = failed; attempts = 1 }

abbrev pages : List DiscoveredUrl
pages = deep_page ∷ seed_page ∷ []

abbrev none_locked : ℕ → Bool
none_locked i = false

abbrev leased_page : DiscoveredUrl
leased_page = leased queue 100 seed_page

abbrev pages_after : List DiscoveredUrl
pages_after = deep_page ∷ leased_page ∷ []

abbrev claimed_later : DiscoveredUrl
claimed_later = leased other_worker 200 leased_page

claim_runs : claim queue none_locked 100 1 pages ≡ some (leased_page ∷ [], pages_after)
unfolding claim claim_rows chosen is_claimable in_order select_rows comes_first
claim_runs = refl

claim_refuses : claim queue none_locked 100 0 pages ≡ none
unfolding claim
claim_refuses = refl

pages-IsKeyed : IsKeyed pages
pages-IsKeyed = ((λ e. omega (arith, e), tt), (tt, tt))

claim_takes_example :
    ((row : DiscoveredUrl) × In row pages
      × IsAvailable queue none_locked 100 row
      × (leased queue 100 row ≡ leased_page))
    × In leased_page pages_after
    × IsKeyed pages_after
claim_takes_example =
    claim_takes queue none_locked 100 1 pages leased_page (leased_page ∷ [], pages_after)
      pages-IsKeyed claim_runs (inl refl)

abbrev two_crashes : List (ℕ × ℕ)
two_crashes = (100, 161) ∷ (170, 240) ∷ []

abbrev dead_page : DiscoveredUrl
dead_page = record seed_page { attempts = 2; state = failed; dead_lettered_at = some 240 }

abbrev stale_pages : List DiscoveredUrl
stale_pages = deep_page ∷ record leased_page { state = downloading } ∷ []

reclaim_runs : (reclaim_expired queue 300 stale_pages).1 ≡ 1
unfolding reclaim_expired select_rows is_abandoned
reclaim_runs = refl

claim_priority_example :
    IsOrdered (leased_page ∷ [])
    × (In deep_page (chosen queue none_locked 100 1 pages)
        ⊎ (comes_first seed_page deep_page ≡ true))
unfolding chosen is_claimable in_order select_rows comes_first
claim_priority_example =
    claim_priority queue none_locked 100 1 pages (leased_page ∷ [], pages_after) seed_page deep_page
      claim_runs (inl refl) (inl refl) (record { claimable = refl; unlocked = refl })

abbrev spent_page : DiscoveredUrl
spent_page = record deep_page { attempts = 2 }

settle_runs : (settle queue 500 spent_page).0.dead_lettered_at ≡ some 500
unfolding settle
settle_runs = refl
