-- ===== src/Crawl/Runner/Limits.antt =====
-- A crawl stays within its limits, asks only for what robots.txt allows, and acquires nothing in a
-- dry run.
use mathlib.Core.Path.{subst}
use aedifex.Prelude.{
  ℕ, ◌+◌, ◌≤◌, ◌≡◌, refl, sym, ◌∙◌, ◌⊎◌, inl, inr, Bool, true, false, ◌||◌, Option, none, some,
  List, ◌∷◌, All, Bool-cases, Option-cases, arith,
}
use aedifex.Prelude.Text.{Text}
use aedifex.Domain.Documents.{DocumentState, is_state}
use aedifex.Crawl.Frontier.{DiscoveredUrl, FrontierQueue}
use aedifex.Crawl.Runner.{
  CrawlLimits, CrawlJob, AcquisitionResult, World, Visit, acquired_document, read_page, Crawl,
  documents_seen, was_already_stored, count_document, count_acquisition, refuse, would_fetch,
  acquire_document, page_failed, page_links, visit_page, handle_row, crawl,
}
use aedifex.Crawl.Runner.Rounds.{rounds-Keeps}

count_document-seen :
    (job : CrawlJob) (result : AcquisitionResult)
    → (documents_seen (count_document job result) ≡ documents_seen job + 1)
      × ((count_document job result).pages_read ≡ job.pages_read)
unfolding count_document
count_document-seen job result =
    elim (Bool-cases (result.already_acquired || was_already_stored result.stored)) [
      | inl e ↦ rw e (omega arith, refl)
      | inr e ↦ elim (Bool-cases (is_state result.state DocumentState.downloaded)) [
        | inl f ↦ rw (e, f) (omega arith, refl)
        | inr f ↦ elim (Bool-cases (is_state result.state DocumentState.quarantined)) [
          | inl g ↦ rw (e, f, g) (omega arith, refl)
          | inr g ↦ rw (e, f, g) (omega arith, refl)
        ]
      ]
    ]

count_acquisition-seen :
    (job : CrawlJob) (result : AcquisitionResult)
    → (documents_seen (count_acquisition job result) ≡ documents_seen job + 1)
      × ((count_acquisition job result).pages_read ≡ job.pages_read)
unfolding count_acquisition
count_acquisition-seen job result = count_document-seen job result

-- What handling a row does to the counters and the visits: nothing, or one document, or one page.
data Effect (world : World) (dry_run : Bool) (c c' : Crawl) : Type 0 where
  no_visit :
      c'.visits ≡ c.visits
      → documents_seen c'.job ≡ documents_seen c.job
      → c'.job.pages_read ≡ c.job.pages_read
      → Effect world dry_run c c'
  one_document :
      (url : Text)
      → world.allows url ≡ true
      → dry_run ≡ false
      → c'.visits ≡ acquired_document url ∷ c.visits
      → documents_seen c'.job ≡ documents_seen c.job + 1
      → c'.job.pages_read ≡ c.job.pages_read
      → Effect world dry_run c c'
  one_page :
      (url : Text)
      → world.allows url ≡ true
      → c'.visits ≡ read_page url ∷ c.visits
      → documents_seen c'.job ≡ documents_seen c.job
      → c'.job.pages_read ≤ c.job.pages_read + 1
      → Effect world dry_run c c'

module _ (world : World) (q : FrontierQueue) where
  handle_row-Effect :
      (dry_run : Bool) (row : DiscoveredUrl) (c : Crawl)
      → Effect world dry_run c (handle_row world q dry_run row c)
  unfolding handle_row refuse would_fetch acquire_document visit_page page_failed page_links
  handle_row-Effect dry_run row c = elim (Bool-cases (world.allows (world.url_of row.url_digest))) [
    | inr refused ↦ rw (refused, handle_row) (no_visit refl refl refl)
    | inl allowed ↦ elim (Bool-cases (world.is_document_url (world.url_of row.url_digest))) [
      | inr is_page ↦ elim (Option-cases (world.read c.moment row)) [
        | inl e ↦
            rw (allowed, is_page, e, handle_row, visit_page)
              (one_page (world.url_of row.url_digest) allowed refl refl (omega arith))
        | inr (links, e) ↦
            rw (allowed, is_page, e, handle_row, visit_page)
              (one_page (world.url_of row.url_digest) allowed refl refl (omega arith))
      ]
      | inl is_document ↦ elim (Bool-cases dry_run) [
        | inl dry ↦ rw (allowed, is_document, dry, handle_row) (no_visit refl refl refl)
        | inr real ↦
            let (seen, pages) = count_acquisition-seen c.job (world.acquire c.moment row) in
            rw (allowed, is_document, real, handle_row)
              (one_document (world.url_of row.url_digest) allowed refl refl seen pages)
      ]
    ]
  ]

-- A counter that was `before` and is `after` has not passed the limit.
abbrev pub Within : Option ℕ → ℕ → ℕ → Type 0
Within none before after = Unit
Within (some most) before after = (after ≤ before) ⊎ (after ≤ most)

abbrev pub visited_url : Visit → Text
visited_url (acquired_document url) = url
visited_url (read_page url) = url

abbrev pub IsAllowed : World → Visit → Type 0
IsAllowed world v = world.allows (visited_url v) ≡ true

abbrev pub IsRead : Visit → Type 0
IsRead (acquired_document url) = ⊥
IsRead (read_page url) = Unit

module _ (world : World) (q : FrontierQueue) (bounds : CrawlLimits) (started : ℕ) where
  module _ (before : CrawlJob) where
    abbrev pub IsBounded : CrawlJob → List Visit → Type 0
    IsBounded job visits =
        Within bounds.max_documents (documents_seen before) (documents_seen job)
        × Within bounds.max_pages before.pages_read job.pages_read

  step-IsAllowed :
      (c c' : Crawl)
      → All (IsAllowed world) c.visits
      → Effect world bounds.dry_run c c'
      → All (IsAllowed world) c'.visits
  step-IsAllowed c c' all (no_visit visits seen read) =
      subst (All (IsAllowed world)) (sym visits) all
  step-IsAllowed c c' all (one_document url a r visits seen read) =
      subst (All (IsAllowed world)) (sym visits) (a, all)
  step-IsAllowed c c' all (one_page url a visits seen read) =
      subst (All (IsAllowed world)) (sym visits) (a, all)

  -- A crawl acquires no document and reads no page whose URL robots.txt does not allow.
  pub crawl-IsAllowed :
      (fuel : ℕ) (seeds : List Text) (c : Crawl)
      → All (IsAllowed world) c.visits
      → All (IsAllowed world) (crawl world q bounds started fuel seeds c).1.visits
  unfolding crawl
  crawl-IsAllowed fuel seeds c all =
      rounds-Keeps world q bounds started (λ job visits. All (IsAllowed world) visits)
        (λ row c' room k. step-IsAllowed c' _ k (handle_row-Effect world q bounds.dry_run row c'))
        fuel _ all

  abbrev pub IsInspection : ℕ → CrawlJob → List Visit → Type 0
  IsInspection seen job visits = (documents_seen job ≡ seen) × All IsRead visits

  step-IsInspection :
      (seen : ℕ) (c c' : Crawl)
      → bounds.dry_run ≡ true
      → IsInspection seen c.job c.visits
      → Effect world bounds.dry_run c c'
      → IsInspection seen c'.job c'.visits
  step-IsInspection seen c c' dry (same, all) (no_visit visits counted read) =
      (counted ∙ same, subst (All IsRead) (sym visits) all)
  step-IsInspection seen c c' dry (same, all) (one_document url a real visits counted read) =
      absurd (cc)
  step-IsInspection seen c c' dry (same, all) (one_page url a visits counted read) =
      (counted ∙ same, subst (All IsRead) (sym visits) (tt, all))

  -- A dry run acquires no document and counts none: it only reads pages.
  pub crawl_dry_run :
      (fuel : ℕ) (seeds : List Text) (c : Crawl)
      → bounds.dry_run ≡ true
      → All IsRead c.visits
      → IsInspection
          (documents_seen c.job)
          (crawl world q bounds started fuel seeds c).1.job
          (crawl world q bounds started fuel seeds c).1.visits
  unfolding crawl
  crawl_dry_run fuel seeds c dry all =
      rounds-Keeps world q bounds started (IsInspection (documents_seen c.job))
        (λ row c' room k.
          step-IsInspection _ c' _ dry k (handle_row-Effect world q bounds.dry_run row c'))
        fuel _ (refl, all)
