-- ===== src/Crawl/Runner/Rounds.antt =====
-- A proof rule for a crawl: what each row handled keeps of the counters and the visits, while the
-- limits have room, the crawl keeps.
use mathlib.Core.Path.{subst}
use aedifex.Prelude.{
  ℕ, zero, suc, ◌-◌, ◌≡◌, refl, sym, inl, inr, Bool, true, false, ◌&&◌, Option, none, some, List,
  [], ◌∷◌, if◌then◌else◌, Bool-cases, Option-cases,
}
use aedifex.Crawl.Frontier.{DiscoveredUrl, FrontierQueue, claim}
use aedifex.Crawl.Runner.{
  StopReason, CrawlLimits, CrawlJob, World, Visit, Crawl, documents_seen, reaches, find_row,
  handle_row, handle, give_back_all, limit_reached, tick, is_skipped, inspect, batch, claimed,
  after_batch, on_claim, rounds,
}

-- Neither the documents nor the pages have reached their limit.
abbrev pub HasRoom : CrawlLimits → CrawlJob → Type 0
HasRoom bounds job =
    (reaches bounds.max_documents (documents_seen job) ≡ false)
    × (reaches bounds.max_pages job.pages_read ≡ false)

room_left :
    (late full read : Bool)
    → (if late
        then some StopReason.time_limit
        else if full
        then some StopReason.document_limit
        else if read
        then some StopReason.page_limit
        else none)
      ≡ none
    → (full ≡ false) × (read ≡ false)
room_left true full read h = absurd (cc)
room_left false true read h = absurd (cc)
room_left false false true h = absurd (cc)
room_left false false false h = (refl, refl)

module _ (world : World) (q : FrontierQueue) (bounds : CrawlLimits) (started : ℕ)
    (Q : CrawlJob → List Visit → Type 0) where
  abbrev pub Keeps : Crawl → Type 0
  Keeps c = Q c.job c.visits

  limit_reached-HasRoom :
      (c : Crawl) → limit_reached world q bounds started c ≡ none → HasRoom bounds c.job
  unfolding limit_reached
  limit_reached-HasRoom c h =
      room_left (reaches bounds.max_seconds (world.clock c.moment - started)) _ _ h

  give_back_all-Keeps :
      (rows : List DiscoveredUrl) (c : Crawl) → Keeps c → Keeps (give_back_all world q rows c)
  unfolding give_back_all
  give_back_all-Keeps [] c k = k
  give_back_all-Keeps (row ∷ rows) c k = elim (Option-cases (find_row row.id c.table)) [
    | inl e ↦ rw (e, give_back_all) (give_back_all-Keeps rows c k)
    | inr (attached, e) ↦ rw (e, give_back_all) (give_back_all-Keeps rows _ k)
  ]

  inspect-same :
      (row : DiscoveredUrl) (c : Crawl)
      → ((inspect world q bounds started row c).job ≡ c.job)
        × ((inspect world q bounds started row c).visits ≡ c.visits)
  inspect-same row c =
      elim (Bool-cases (bounds.dry_run && world.is_document_url (world.url_of row.url_digest))) [
        | inl e ↦ rw e (refl, refl)
        | inr e ↦ rw e (refl, refl)
      ]

  module _
      (step : (row : DiscoveredUrl) (c : Crawl)
        → HasRoom bounds c.job
        → Keeps c
        → Keeps (handle_row world q bounds.dry_run row c)) where
    handle-Keeps :
        (row : DiscoveredUrl) (c : Crawl)
        → HasRoom bounds c.job
        → Keeps c
        → Keeps (handle world q bounds.dry_run row c)
    unfolding handle
    handle-Keeps row c room k = elim (Option-cases (find_row row.id c.table)) [
      | inl e ↦ rw (e, handle) k
      | inr (attached, e) ↦ rw (e, handle) (step attached c room k)
    ]

    batch-Keeps :
        (rows : List DiscoveredUrl) (progressed : Bool) (c : Crawl)
        → Keeps c
        → Keeps (batch world q bounds started rows progressed c).2
    unfolding batch
    batch-Keeps [] progressed c k = k
    batch-Keeps (row ∷ rows) progressed c k =
        elim (Option-cases (limit_reached world q bounds started c)) [
          | inr (reason, e) ↦
              rw (e, batch) (give_back_all-Keeps (row ∷ rows) (tick world q bounds started c) k)
          | inl e ↦ elim (Bool-cases (is_skipped world q bounds started row c)) [
            | inl skipped ↦
                rw (e, skipped, batch)
                  (batch-Keeps rows progressed (tick world q bounds started c) k)
            | inr new ↦ elim (Bool-cases (world.is_cancelled c.moment)) [
              | inl stopped ↦
                  rw (e, new, stopped, batch)
                    (give_back_all-Keeps (row ∷ rows) (tick world q bounds started c) k)
              | inr on ↦
                  rw (e, new, on, batch)
                    (let (same_job, same_visits) = inspect-same row c in
                      batch-Keeps rows true _ (
                        handle-Keeps row
                          (tick world q bounds started (inspect world q bounds started row c))
                          (subst (HasRoom bounds) (sym same_job) (limit_reached-HasRoom c e))
                          (subst
                            (λ (j : CrawlJob). Q j (inspect world q bounds started row c).visits)
                            (sym same_job) (subst (Q c.job) (sym same_visits) k))))
            ]
          ]
        ]

    after_batch-Keeps :
        (next : Crawl → Option StopReason × Crawl) (result : Option StopReason × Bool × Crawl)
        → ((c : Crawl) → Keeps c → Keeps (next c).1)
        → Keeps result.2
        → Keeps (after_batch world q bounds started next result).1
    after_batch-Keeps next (some reason, progressed, c) go k = k
    after_batch-Keeps next (none, false, c) go k = k
    after_batch-Keeps next (none, true, c) go k = go c k

    on_claim-Keeps :
        (next : Crawl → Option StopReason × Crawl) (rows : List DiscoveredUrl) (c : Crawl)
        → ((c' : Crawl) → Keeps c' → Keeps (next c').1)
        → Keeps c
        → Keeps (on_claim world q bounds started next (rows, c)).1
    on_claim-Keeps next [] c go k = k
    on_claim-Keeps next (row ∷ rows) c go k =
        after_batch-Keeps next _ go (batch-Keeps (row ∷ rows) false c k)

    claimed-Keeps : (c : Crawl) → Keeps c → Keeps (claimed world q bounds started c).1
    unfolding claimed
    claimed-Keeps c k =
        elim (Option-cases
          (claim q (world.locked c.moment) (world.wall c.moment) bounds.batch_size c.table)) [
            | inl e ↦ rw (e, claimed) k
            | inr ((rows, table), e) ↦ rw (e, claimed) k
          ]

    pub rounds-Keeps :
        (fuel : ℕ) (c : Crawl) → Keeps c → Keeps (rounds world q bounds started fuel c).1
    unfolding rounds
    rounds-Keeps zero c k = k
    rounds-Keeps (suc fuel) c k = elim (Bool-cases (world.is_cancelled c.moment)) [
      | inl stopped ↦ rw (stopped, rounds) k
      | inr on ↦ elim (Option-cases (limit_reached world q bounds started c)) [
        | inr (reason, e) ↦ rw (on, e, rounds) k
        | inl e ↦
            rw (on, e, rounds)
              (on_claim-Keeps (rounds world q bounds started fuel) _ _ (rounds-Keeps fuel)
                (claimed-Keeps (tick world q bounds started c) k))
      ]
    ]
