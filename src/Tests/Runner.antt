-- ===== src/Tests/Runner.antt =====
-- A crawl of a small site: a page that offers two documents, one of them disallowed.
use aedifex.Prelude.{
  ℕ, ◌+◌, ◌-◌, ◌*◌, ◌≤◌, ◌≡◌, refl, true, false, Option, none, some, List, [], ◌∷◌, ◌==◌,
  if◌then◌else◌, length, arith, All,
}
use aedifex.Prelude.Text.{Text, codes}
use aedifex.Domain.Documents.{DocumentState}
use aedifex.Crawl.Frontier.{FrontierQueue}
use aedifex.Crawl.Runner.{
  StopReason, CrawlLimits, CrawlJob, LinkKind, DiscoveredLink, World, Visit, acquired_document,
  read_page, Crawl, reaches, crawl,
}
use aedifex.Crawl.Runner.Limits.{IsAllowed, crawl-IsAllowed, IsInspection, crawl_dry_run}
use aedifex.Crawl.Runner.Ends.{crawl-Ends}

abbrev start_page : Text
start_page = codes "https://a.in/"

abbrev bill : Text
bill = codes "https://a.in/x.pdf"

abbrev hidden : Text
hidden = codes "https://a.in/secret.pdf"

abbrev to_document : Text → DiscoveredLink
to_document url = record { url = url; kind = LinkKind.document; depth = 1 }

-- each of the three URLs has another length, which serves as its digest
abbrev site : World
site = record {
  is_cancelled = λ n. false;
  clock = λ n. n * 10;
  wall = λ n. 1000 + n;
  locked = λ n id. false;
  fresh_id = λ n i. n * 100 + i;
  url_of = λ digest. if digest == 13 then start_page else if digest == 18 then bill else hidden;
  allows = λ url. if length url == 23 then false else true;
  is_document_url = λ url. if length url == 13 then false else true;
  acquire = λ n row. record {
    state = DocumentState.downloaded;
    already_acquired = false;
    stored = some (false, 500);
    row_state = DocumentState.downloaded;
    row_attempts = 1;
  };
  read = λ n row. some (to_document bill ∷ to_document hidden ∷ []);
  canonical_url = λ url. some url;
  url_digest = length;
  second = 1;
}

abbrev queue : FrontierQueue
queue = record { source_id = 1; worker = 7; lease = 60; max_attempts = 3 }

abbrev bounds : CrawlLimits
bounds = record {
  max_documents = some 5;
  max_pages = some 5;
  max_seconds = some 300;
  batch_size = 10;
  dry_run = false;
}

abbrev inspection : CrawlLimits
inspection = record bounds { dry_run = true }

abbrev new_job : CrawlJob
new_job = record {
  urls_discovered = 0;
  urls_skipped = 0;
  documents_stored = 0;
  documents_duplicate = 0;
  documents_failed = 0;
  documents_quarantined = 0;
  bytes_downloaded = 0;
  pages_read = 0;
}

abbrev at_start : Crawl
at_start = record { table = []; job = new_job; moment = 0; inspected = []; visits = [] }

abbrev stopped : Option StopReason × Crawl → Option StopReason × CrawlJob × List Visit
stopped (reason, c) = (reason, c.job, c.visits)

crawl_runs : stopped (crawl site queue bounds 0 31 (start_page ∷ []) at_start) ≡ (
  some StopReason.frontier_drained,
  record new_job {
    urls_discovered = 2;
    urls_skipped = 1;
    documents_stored = 1;
    bytes_downloaded = 500;
    pages_read = 1;
  },
  acquired_document bill ∷ read_page start_page ∷ [],
)
unfolding crawl
crawl_runs = refl

crawl-IsAllowed_example :
    All (IsAllowed site) (crawl site queue bounds 0 31 (start_page ∷ []) at_start).1.visits
crawl-IsAllowed_example = crawl-IsAllowed site queue bounds 0 31 (start_page ∷ []) at_start tt

crawl_dry_run_example :
    IsInspection site queue inspection 0 0
      (crawl site queue inspection 0 31 (start_page ∷ []) at_start).1.job
      (crawl site queue inspection 0 31 (start_page ∷ []) at_start).1.visits
crawl_dry_run_example = crawl_dry_run site queue inspection 0 31 (start_page ∷ []) at_start refl tt

late_enough : (n : ℕ) → 30 ≤ n → reaches (some 300) (n * 10 - 0) ≡ true
late_enough n h = ground arith

crawl-Ends_example : (crawl site queue bounds 0 31 (start_page ∷ []) at_start).0 ≡ none → ⊥
crawl-Ends_example =
    crawl-Ends site queue bounds 0 30 late_enough 31 (start_page ∷ []) at_start (omega arith)
