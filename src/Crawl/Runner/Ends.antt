-- ===== src/Crawl/Runner/Ends.antt =====
-- A crawl with a limit of time ends.
use aedifex.Prelude.{
  ℕ, zero, suc, ◌+◌, ◌-◌, ◌≤◌, ◌<◌, ◌≡◌, refl, inl, inr, Bool, true, false, ◌&&◌, Option, none,
  some, List, [], ◌∷◌, Bool-cases, Option-cases, arith, leb, leb→le,
}
use aedifex.Prelude.Text.{Text}
use aedifex.Crawl.Frontier.{DiscoveredUrl, FrontierQueue, claim}
use aedifex.Crawl.Runner.{
  StopReason, CrawlLimits, World, Crawl, reaches, find_row, refuse, would_fetch, acquire_document,
  page_failed, page_links, visit_page, handle_row, handle, give_back_all, limit_reached, tick,
  is_skipped, inspect, batch, claimed, after_batch, on_claim, rounds, crawl,
}

module _ (world : World) (q : FrontierQueue) where
  handle_row-moment :
      (dry_run : Bool) (row : DiscoveredUrl) (c : Crawl)
      → c.moment ≤ (handle_row world q dry_run row c).moment
  unfolding handle_row refuse would_fetch acquire_document visit_page page_failed page_links
  handle_row-moment dry_run row c = elim (Bool-cases (world.allows (world.url_of row.url_digest))) [
    | inr e ↦ rw (e, handle_row) (omega arith)
    | inl e ↦ elim (Bool-cases (world.is_document_url (world.url_of row.url_digest))) [
      | inl f ↦ elim (Bool-cases dry_run) [
        | inl g ↦ rw (e, f, g, handle_row) (omega arith)
        | inr g ↦ rw (e, f, g, handle_row) (omega arith)
      ]
      | inr f ↦ elim (Option-cases (world.read c.moment row)) [
        | inl g ↦ rw (e, f, g, handle_row, visit_page) (omega arith)
        | inr (links, g) ↦ rw (e, f, g, handle_row, visit_page) (omega arith)
      ]
    ]
  ]

  handle-moment :
      (dry_run : Bool) (row : DiscoveredUrl) (c : Crawl)
      → c.moment ≤ (handle world q dry_run row c).moment
  unfolding handle
  handle-moment dry_run row c = elim (Option-cases (find_row row.id c.table)) [
    | inl e ↦ rw (e, handle) (omega arith)
    | inr (attached, e) ↦ rw (e, handle) (handle_row-moment dry_run attached c)
  ]

  give_back_all-moment :
      (rows : List DiscoveredUrl) (c : Crawl) → (give_back_all world q rows c).moment ≡ c.moment
  unfolding give_back_all
  give_back_all-moment [] c = refl
  give_back_all-moment (row ∷ rows) c = elim (Option-cases (find_row row.id c.table)) [
    | inl e ↦ rw (e, give_back_all) (give_back_all-moment rows c)
    | inr (attached, e) ↦ rw (e, give_back_all) (give_back_all-moment rows _)
  ]

  module _ (bounds : CrawlLimits) (started : ℕ) where
    inspect-moment :
        (row : DiscoveredUrl) (c : Crawl) → (inspect world q bounds started row c).moment ≡ c.moment
    inspect-moment row c =
        elim (Bool-cases (bounds.dry_run && world.is_document_url (world.url_of row.url_digest))) [
          | inl e ↦ rw e refl
          | inr e ↦ rw e refl
        ]

    batch-moment :
        (rows : List DiscoveredUrl) (progressed : Bool) (c : Crawl)
        → c.moment ≤ (batch world q bounds started rows progressed c).2.moment
    unfolding batch
    batch-moment [] progressed c = omega arith
    batch-moment (row ∷ rows) progressed c =
        let given = give_back_all-moment (row ∷ rows) (tick world q bounds started c) in
        elim (Option-cases (limit_reached world q bounds started c)) [
          | inr (reason, e) ↦ rw (e, batch) (omega (arith, given))
          | inl e ↦ elim (Bool-cases (is_skipped world q bounds started row c)) [
            | inl f ↦
                let later = batch-moment rows progressed (tick world q bounds started c) in
                rw (e, f, batch) (omega (arith, later))
            | inr f ↦ elim (Bool-cases (world.is_cancelled c.moment)) [
              | inl g ↦ rw (e, f, g, batch) (omega (arith, given))
              | inr g ↦
                  let inspected =
                    tick world q bounds started (inspect world q bounds started row c) in
                  let handled = handle-moment bounds.dry_run row inspected in
                  let later =
                    batch-moment rows true (handle world q bounds.dry_run row inspected) in
                  rw (e, f, g, batch) (omega (arith, later, handled, inspect-moment row c))
            ]
          ]
        ]

    module _ (deadline : ℕ)
        (time_passes : (n : ℕ)
          → deadline ≤ n
          → reaches bounds.max_seconds (world.clock n - started) ≡ true) where
      -- the loop from here on has a reason to stop
      abbrev pub Ends : (Crawl → Option StopReason × Crawl) → Crawl → Type 0
      Ends next c = (next c).0 ≡ none → ⊥

      after_batch-Ends :
          (next : Crawl → Option StopReason × Crawl) (moment : ℕ)
          (result : Option StopReason × Bool × Crawl)
          → ((c : Crawl) → moment ≤ c.moment → Ends next c)
          → moment ≤ result.2.moment
          → (after_batch world q bounds started next result).0 ≡ none
          → ⊥
      after_batch-Ends next moment (some reason, progressed, c) go h e = cc
      after_batch-Ends next moment (none, false, c) go h e = cc
      after_batch-Ends next moment (none, true, c) go h e = go c h e

      on_claim-Ends :
          (next : Crawl → Option StopReason × Crawl) (rows : List DiscoveredUrl) (c : Crawl)
          → ((c' : Crawl) → c.moment ≤ c'.moment → Ends next c')
          → (on_claim world q bounds started next (rows, c)).0 ≡ none
          → ⊥
      on_claim-Ends next [] c go e = cc
      on_claim-Ends next (row ∷ rows) c go e =
          after_batch-Ends next c.moment (batch world q bounds started (row ∷ rows) false c) go
            (batch-moment (row ∷ rows) false c) e

      claimed-moment : (c : Crawl) → (claimed world q bounds started c).1.moment ≡ c.moment + 1
      unfolding claimed
      claimed-moment c =
          elim (Option-cases
            (claim q (world.locked c.moment) (world.wall c.moment) bounds.batch_size c.table)) [
              | inl e ↦ rw (e, claimed) refl
              | inr ((rows, table), e) ↦ rw (e, claimed) refl
            ]

      on_time :
          (c : Crawl)
          → deadline ≤ c.moment
          → limit_reached world q bounds started c ≡ some StopReason.time_limit
      unfolding limit_reached
      on_time c h = rw (time_passes c.moment h, limit_reached) refl

      early : (c : Crawl) → limit_reached world q bounds started c ≡ none → c.moment < deadline
      early c h = elim (Bool-cases (leb deadline c.moment)) [
        | inl late ↦ let stops = on_time c (leb→le deadline c.moment late) in absurd (cc)
        | inr in_time ↦ ground arith
      ]

      rounds-Ends :
          (fuel : ℕ) (c : Crawl)
          → 0 < fuel
          → deadline < fuel + c.moment
          → Ends (rounds world q bounds started fuel) c
      unfolding rounds
      rounds-Ends zero c some_left enough e = absurd (omega arith)
      rounds-Ends (suc fuel) c some_left enough e =
          elim (Bool-cases (world.is_cancelled c.moment)) [
            | inl stopped ↦ absurd (cc (rw (stopped, rounds) at e))
            | inr on ↦ elim (Option-cases (limit_reached world q bounds started c)) [
              | inr (reason, h) ↦ absurd (cc (rw (on, h, rounds) at e))
              | inl h ↦
                  let early : c.moment < deadline = early c h in
                  let asked = claimed-moment (tick world q bounds started c) in
                  on_claim-Ends (rounds world q bounds started fuel)
                    (claimed world q bounds started (tick world q bounds started c)).0
                    (claimed world q bounds started (tick world q bounds started c)).1
                    (λ c' later. rounds-Ends fuel c' (omega arith) (omega (arith, asked)))
                    (rw (on, h, rounds) at e)
            ]
          ]

      -- If from some moment on the clock has passed the limit of time, the crawl ends with a reason
      -- for stopping: more rounds than there are moments before that one are enough.
      pub crawl-Ends :
          (fuel : ℕ) (seeds : List Text) (c : Crawl)
          → deadline < fuel
          → Ends (crawl world q bounds started fuel seeds) c
      unfolding crawl
      crawl-Ends fuel seeds c enough = rounds-Ends fuel _ (omega arith) (omega arith)
