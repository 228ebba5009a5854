-- ===== src/Crawl/Runner.antt =====
-- src/aedifex/acquisition/crawl/runner.py: one crawl of a source. What it calls of others is a world
-- that answers at each moment: the clocks, the cancellation, the verdict of robots.txt on a URL (see
-- Crawl.RobotsGate), the acquirer and the page reader. The URLs asked for are kept as a trace.
pub mod Limits
pub mod Rounds
pub mod Ends
use aedifex.Prelude.{
  keep, ℕ, zero, suc, ◌+◌, ◌-◌, ◌*◌, ◌^◌, min, Bool, true, false, not, ◌&&◌, ◌||◌, Option, none,
  some, List, [], ◌∷◌, ◌++◌, ◌==◌, leb, ltb, if◌then◌else◌, length, any_of, map,
}
use aedifex.Prelude.Text.{Text}
use aedifex.Domain.Documents.{DocumentState, is_state}
use aedifex.Crawl.Frontier.{DiscoveredUrl, FrontierQueue, claim, settle, release, reclaim_expired}
use aedifex.Crawl.Frontier.Filling.{Candidate, EnqueueResult, enqueue}

pub data StopReason : Type 0 where
  frontier_drained document_limit page_limit time_limit cancelled failed : StopReason

pub data CrawlJobStatus : Type 0 where
  running succeeded job_failed job_cancelled : CrawlJobStatus

pub record CrawlLimits : Type 0 where
  pub max_documents : Option ℕ
  pub max_pages : Option ℕ
  pub max_seconds : Option ℕ
  pub batch_size : ℕ
  pub dry_run : Bool

-- `__post_init__`
abbrev pub limits_accept : CrawlLimits → Bool
limits_accept limits = not (ltb limits.batch_size 1)

abbrev or_else : Option ℕ → Option ℕ → Option ℕ
or_else none other = other
or_else (some n) other = some n

-- `for_source`, with the source's two limits
unfoldable pub for_source : CrawlLimits → Option ℕ → Option ℕ → CrawlLimits
for_source limits max_documents_per_run max_pages = record limits {
  max_documents = or_else limits.max_documents max_documents_per_run;
  max_pages = or_else limits.max_pages max_pages;
}

-- The counters of `CrawlJob`, `pages_read` of its checkpoint among them.
pub record CrawlJob : Type 0 where
  pub urls_discovered : ℕ
  pub urls_skipped : ℕ
  pub documents_stored : ℕ
  pub documents_duplicate : ℕ
  pub documents_failed : ℕ
  pub documents_quarantined : ℕ
  pub bytes_downloaded : ℕ
  pub pages_read : ℕ

-- What an acquisition says, and the state and the attempts that it leaves in the row.
pub record AcquisitionResult : Type 0 where
  pub state : DocumentState
  pub already_acquired : Bool
  pub stored : Option (Bool × ℕ)  -- whether it was there already, and its size
  pub row_state : DocumentState
  pub row_attempts : ℕ

pub data LinkKind : Type 0 where
  document page ignored : LinkKind

pub record DiscoveredLink : Type 0 where
  pub url : Text
  pub kind : LinkKind
  pub depth : ℕ

pub record World : Type 0 where
  pub is_cancelled : ℕ → Bool
  pub clock : ℕ → ℕ
  pub wall : ℕ → ℕ
  pub locked : ℕ → ℕ → Bool
  pub fresh_id : ℕ → ℕ → ℕ
  pub url_of : ℕ → Text
  pub allows : Text → Bool
  pub is_document_url : Text → Bool
  pub acquire : ℕ → DiscoveredUrl → AcquisitionResult
  pub read : ℕ → DiscoveredUrl → Option (List DiscoveredLink)
  pub canonical_url : Text → Option Text
  pub url_digest : Text → ℕ
  pub second : ℕ

-- Something done about a URL: its document acquired, or its page read.
pub data Visit : Type 0 where
  acquired_document read_page : Text → Visit

-- The variables of a crawl; `moment` counts what was asked of the world.
pub record Crawl : Type 0 where
  pub table : List DiscoveredUrl
  pub job : CrawlJob
  pub moment : ℕ
  pub inspected : List ℕ
  pub visits : List Visit

-- `CrawlOutcome.documents_seen`, and `attempted` of `_limit_reached`
abbrev pub documents_seen : CrawlJob → ℕ
documents_seen job =
    job.documents_stored + job.documents_duplicate + job.documents_failed
    + job.documents_quarantined

abbrev pub reaches : Option ℕ → ℕ → Bool
reaches none n = false
reaches (some most) n = leb most n

abbrev pub was_already_stored : Option (Bool × ℕ) → Bool
was_already_stored none = false
was_already_stored (some (already_present, size)) = already_present

abbrev new_bytes : Option (Bool × ℕ) → ℕ
new_bytes none = 0
new_bytes (some (already_present, size)) = if already_present then 0 else size

-- `_count_acquisition`, the document's counter
unfoldable pub count_document : CrawlJob → AcquisitionResult → CrawlJob
count_document job result =
    if result.already_acquired || was_already_stored result.stored
    then record job { documents_duplicate = job.documents_duplicate + 1 }
    else if is_state result.state DocumentState.downloaded
    then record job { documents_stored = job.documents_stored + 1 }
    else if is_state result.state DocumentState.quarantined
    then record job { documents_quarantined = job.documents_quarantined + 1 }
    else record job { documents_failed = job.documents_failed + 1 }

-- `_count_acquisition`
unfoldable pub count_acquisition : CrawlJob → AcquisitionResult → CrawlJob
unfolding count_document
count_acquisition job result =
    let counted = count_document job result in
    record counted { bytes_downloaded = counted.bytes_downloaded + new_bytes result.stored }

abbrev pub find_row : ℕ → List DiscoveredUrl → Option DiscoveredUrl
find_row id [] = none
find_row id (row ∷ table) = let rest = find_row id table in if row.id == id then some row else rest

abbrev put_row : DiscoveredUrl → List DiscoveredUrl → List DiscoveredUrl
put_row row table = map (λ r. if r.id == row.id then row else r) table

abbrev is_queueable : DiscoveredLink → Bool
is_queueable link = elim link.kind as (λ _. Bool) [ ignored ↦ false | _ ↦ true ]

-- `_retire`
abbrev retired : ℕ → DiscoveredUrl → DiscoveredUrl
retired now row = record row { dead_lettered_at = some now }

module _ (world : World) (q : FrontierQueue) where
  -- `_backoff`, in ticks
  unfoldable pub crawl_backoff : ℕ → ℕ
  crawl_backoff attempts = min (6 * 3600) (300 * 2 ^ (attempts - 1)) * world.second

  -- `settle` and, where the row failed and has attempts left, `release`
  unfoldable pub settled : Bool → ℕ → DiscoveredUrl → DiscoveredUrl
  unfolding settle release crawl_backoff
  settled has_failed now row =
      let (kept, exhausted) = settle q now row in
      if has_failed && not exhausted
      then release q now (some (crawl_backoff row.attempts)) kept
      else kept

  -- `_refuse`
  unfoldable pub refuse : DiscoveredUrl → Crawl → Crawl
  unfolding settled
  refuse row c =
      let now = world.wall c.moment in
      record c {
        table = put_row (settled false now (retired now row)) c.table;
        job = record c.job { urls_skipped = c.job.urls_skipped + 1 };
        moment = c.moment + 1;
      }

  -- `_would_fetch`
  unfoldable pub would_fetch : DiscoveredUrl → Crawl → Crawl
  unfolding release
  would_fetch row c = record c {
    table = put_row (release q (world.wall c.moment) (some world.second) row) c.table;
    moment = c.moment + 1;
  }

  -- the branch of `_handle` that acquires a document
  unfoldable pub acquire_document : DiscoveredUrl → Crawl → Crawl
  unfolding count_acquisition settled
  acquire_document row c =
      let result = world.acquire c.moment row in
      let recorded = record row { state = result.row_state; attempts = result.row_attempts } in
      let now = world.wall c.moment in
      record c {
        table = put_row (settled (is_state result.state DocumentState.failed) now recorded) c.table;
        job = count_acquisition c.job result;
        moment = c.moment + 1;
        visits = acquired_document (world.url_of row.url_digest) ∷ c.visits;
      }

  -- `_read_page`, of what the reader gave
  unfoldable pub page_failed : DiscoveredUrl → Crawl → Crawl
  unfolding settled
  page_failed row c =
      let failed_row = record row { state = DocumentState.failed; attempts = row.attempts + 1 } in
      record c {
        table = put_row (settled true (world.wall c.moment) failed_row) c.table;
        moment = c.moment + 1;
        visits = read_page (world.url_of row.url_digest) ∷ c.visits;
      }

  unfoldable pub page_links : DiscoveredUrl → List DiscoveredLink → Crawl → Crawl
  unfolding enqueue settled
  page_links row links c =
      let now = world.wall c.moment in
      let queueable = keep is_queueable links in
      let permitted = keep (λ link. world.allows link.url) queueable in
      let (result, filled) =
        enqueue world.canonical_url world.url_digest (world.fresh_id c.moment) now q
          (map (λ link. record { url = link.url; depth = link.depth }) permitted) c.table in
      record c {
        table = put_row (settled false now (retired now row)) filled;
        job = record c.job {
          urls_discovered = c.job.urls_discovered + result.accepted;
          urls_skipped =
              c.job.urls_skipped
              + ((length links - length queueable)
                  + (length queueable - length permitted)
                  + length result.rejected);
          pages_read = c.job.pages_read + 1;
        };
        moment = c.moment + 1;
        visits = read_page (world.url_of row.url_digest) ∷ c.visits;
      }

  unfoldable pub visit_page : DiscoveredUrl → Crawl → Crawl
  unfolding page_failed page_links
  visit_page row c = elim (world.read c.moment row) [
    | none ↦ page_failed row c
    | some links ↦ page_links row links c
  ]

  -- `_handle`, of the row as the session gives it
  unfoldable pub handle_row : Bool → DiscoveredUrl → Crawl → Crawl
  unfolding refuse would_fetch acquire_document visit_page
  handle_row dry_run row c =
      let url = world.url_of row.url_digest in
      if not (world.allows url)
      then refuse row c
      else if world.is_document_url url
      then (if dry_run then would_fetch row c else acquire_document row c)
      else visit_page row c

  -- `_handle`
  unfoldable pub handle : Bool → DiscoveredUrl → Crawl → Crawl
  unfolding handle_row
  handle dry_run row c = elim (find_row row.id c.table) [
    | none ↦ c
    | some attached ↦ handle_row dry_run attached c
  ]

  -- `_give_back_all`
  unfoldable pub give_back_all : List DiscoveredUrl → Crawl → Crawl
  unfolding release
  give_back_all [] c = c
  give_back_all (row ∷ rows) c = elim (find_row row.id c.table) [
    | none ↦ give_back_all rows c
    | some attached ↦
        give_back_all rows
          (record c { table = put_row (release q (world.wall c.moment) none attached) c.table })
  ]

  module _ (bounds : CrawlLimits) (started : ℕ) where
    -- `_limit_reached`, of the job that the database has
    unfoldable pub limit_reached : Crawl → Option StopReason
    limit_reached c =
        if reaches bounds.max_seconds (world.clock c.moment - started)
        then some time_limit
        else if reaches bounds.max_documents (documents_seen c.job)
        then some document_limit
        else if reaches bounds.max_pages c.job.pages_read
        then some page_limit
        else none

    abbrev pub tick : Crawl → Crawl
    tick c = record c { moment = c.moment + 1 }

    -- a document of a dry run that was inspected already
    abbrev pub is_skipped : DiscoveredUrl → Crawl → Bool
    is_skipped row c =
        bounds.dry_run
        && world.is_document_url (world.url_of row.url_digest)
        && any_of (λ id. id == row.id) c.inspected

    abbrev pub inspect : DiscoveredUrl → Crawl → Crawl
    inspect row c =
        if bounds.dry_run && world.is_document_url (world.url_of row.url_digest)
        then record c { inspected = row.id ∷ c.inspected }
        else c

    -- the `for` over the rows claimed: whether to stop, and whether a row was handled
    unfoldable pub batch : List DiscoveredUrl → Bool → Crawl → Option StopReason × Bool × Crawl
    unfolding limit_reached give_back_all handle
    batch [] progressed c = (none, progressed, c)
    batch (row ∷ rows) progressed c = elim (limit_reached c) [
      | some reason ↦ (some reason, progressed, give_back_all (row ∷ rows) (tick c))
      | none ↦ elim (is_skipped row c) [
        | true ↦ batch rows progressed (tick c)
        | false ↦ elim (world.is_cancelled c.moment) [
          | true ↦ (some cancelled, true, give_back_all (row ∷ rows) (tick c))
          | false ↦ batch rows true (handle bounds.dry_run row (tick (inspect row c)))
        ]
      ]
    ]

    -- the claim of a round; `claim` raises on a batch size of 0, which the limits exclude
    unfoldable pub claimed : Crawl → List DiscoveredUrl × Crawl
    unfolding claim
    claimed c =
        elim (claim q (world.locked c.moment) (world.wall c.moment) bounds.batch_size c.table) [
          | none ↦ ([], tick c)
          | some (rows, table) ↦ (rows, record c { table = table; moment = c.moment + 1 })
        ]

    abbrev pub after_batch :
        (Crawl → Option StopReason × Crawl)
        → Option StopReason × Bool × Crawl
        → Option StopReason × Crawl
    after_batch next (some reason, progressed, c) = (some reason, c)
    after_batch next (none, false, c) = (some frontier_drained, c)
    after_batch next (none, true, c) = next c

    abbrev pub on_claim :
        (Crawl → Option StopReason × Crawl) → List DiscoveredUrl × Crawl → Option StopReason × Crawl
    on_claim next ([], c) = (some frontier_drained, c)
    on_claim next (row ∷ rows, c) = after_batch next (batch (row ∷ rows) false c)

    -- the `while` loop; with no fuel left there is no reason yet
    unfoldable pub rounds : ℕ → Crawl → Option StopReason × Crawl
    unfolding limit_reached claimed batch
    rounds zero c = (none, c)
    rounds (suc fuel) c =
        if world.is_cancelled c.moment then (some cancelled, tick c) else elim (limit_reached c) [
          | some reason ↦ (some reason, tick c)
          | none ↦ on_claim (rounds fuel) (claimed (tick c))
        ]

    -- `_seed` and the recovery before the loop, and the loop
    unfoldable pub crawl : ℕ → List Text → Crawl → Option StopReason × Crawl
    unfolding rounds enqueue reclaim_expired
    crawl fuel seeds c =
        let now = world.wall c.moment in
        let permitted = keep world.allows seeds in
        let (result, filled) =
          enqueue world.canonical_url world.url_digest (world.fresh_id c.moment) now q
            (map (λ url. record { url = url; depth = 0 }) permitted) c.table in
        rounds fuel (record c {
          table = (reclaim_expired q now filled).0;
          job = record c.job {
            urls_discovered = c.job.urls_discovered + result.accepted;
            urls_skipped =
                c.job.urls_skipped + ((length seeds - length permitted) + length result.rejected);
          };
          moment = c.moment + 1;
        })

-- the status that `run` closes the job with
unfoldable pub status_of : StopReason → CrawlJobStatus
status_of cancelled = job_cancelled
status_of failed = job_failed
status_of _ = succeeded
