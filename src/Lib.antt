-- ===== src/Lib.antt =====
-- Aedifex collects construction documents from public portals and checks what they state. A queue of
-- discovered URLs decides what is visited next; a visit follows redirects hop by hop, each hop
-- guarded against forbidden addresses and fetched with retries inside one time budget; a limiter
-- spaces the requests to a host; what arrives has a lifecycle, and people see a projection of it.
--
-- Prelude: the library names that the development uses, Boolean tests and lists measured by native
--   numbers, texts as code points.
-- Domain.Documents (src/aedifex/domain/documents.py): states, transitions and document types.
-- Domain.Workflow (src/aedifex/domain/workflow.py, Outcome of src/aedifex/verification/rules.py):
--   the status that people see, computed from state, outcome and open questions.
-- Domain.Evidence (src/aedifex/domain/evidence.py): versions, kinds of fact, relationships.
-- Analysis.Facts (ExtractedFact of src/aedifex/infrastructure/database/models.py).
-- Analysis.Selection (src/aedifex/extraction/selection.py): select_one and select_facts, which decide
--   which of several statements of a fact a project may use.
-- Analysis.Calculation (src/aedifex/calculation/engine.py): compute_for_work_item.
-- Analysis.Reconciliation (src/aedifex/verification/reconciliation.py): the four rules on a work item.
-- Analysis.WorkItems (reconcile_work_items of src/aedifex/extraction/runner.py): the three in a row.
-- Analysis.Provisions (src/aedifex/extraction/applicability.py,
--   src/aedifex/verification/reference_policy.py, compute_required_bid_security of
--   src/aedifex/calculation/engine.py): select_provision, and the judgement of a bid security.
-- Fetch.Timing (src/aedifex/acquisition/fetch/timing.py): TimeoutPolicy and TimeoutBudget.
-- Fetch.Retry (src/aedifex/acquisition/fetch/retry.py): BackoffPolicy.ceiling_for and delay_for,
--   RetryPolicy.classify.
-- Fetch.Controller (src/aedifex/acquisition/fetch/controller.py): RetryController.fetch, the loop
--   of attempts; it uses Retry and Timing.
-- Fetch.RateLimit (src/aedifex/acquisition/fetch/ratelimit.py): wait_seconds and the rounds of
--   RateLimiter._wait_for_rate. A run is a list of rounds of any callers, in the order in which the
--   lock lets them in.
-- Fetch.Slots (the same file): the semaphores of RateLimiter.slot, as steps of threads.
-- Fetch.Redirects (src/aedifex/acquisition/fetch/redirects.py): RedirectPolicy.evaluate.
-- Fetch.RedirectController (src/aedifex/acquisition/fetch/redirect_controller.py):
--   RedirectController.fetch, which validates each URL, fetches it and asks Redirects what follows.
-- Fetch.Addresses (src/aedifex/acquisition/fetch/addresses.py): classify_address, over the tables of
--   Python's ipaddress. Fetch.Hosts (src/aedifex/acquisition/fetch/hosts.py): the hosts of a source.
-- Fetch.Urls (src/aedifex/acquisition/fetch/urls.py): normalize_url and to_url.
-- Fetch.Guard (src/aedifex/acquisition/fetch/guard.py, answers of
--   src/aedifex/acquisition/fetch/resolver.py): validate_url, which joins the three; Fetch.Guard.Chain
--   puts it into the loop of Fetch.RedirectController.
-- Crawl.Frontier (src/aedifex/acquisition/crawl/frontier.py, DiscoveredUrl of
--   src/aedifex/infrastructure/database/models.py): FrontierQueue over the table as a list of rows;
--   it uses the states of Domain.Documents. Crawl.Frontier.Filling is enqueue.
-- Crawl.Robots (src/aedifex/acquisition/crawl/robots.py): which rule of robots.txt decides on a
--   path, and RateLimits with a Crawl-delay, which Fetch.RateLimit then keeps.
-- Crawl.RobotsFile (the same file): _collect_groups and parse_robots, from the text to the rules and
--   the delay of the group that applies to the crawler.
-- Crawl.RobotsGate (the same file): RobotsGate, which keeps one robots.txt for each scheme and host
--   and asks Robots about each URL.
-- Crawl.Runner (src/aedifex/acquisition/crawl/runner.py): CrawlRunner._crawl, which claims rows of the
--   frontier batch by batch and handles each, and the counters of its job.
-- Storage.Keys (src/aedifex/infrastructure/storage/keys.py): raw_key and derived_key; they use the
--   formats of Domain.Files (src/aedifex/domain/files.py).
-- Tests: runs on concrete inputs, and the theorems at concrete inputs.
-- A component's proofs are in the modules below it, each named for what it proves.
--
-- Times are whole ticks, `second` of them in a second, where the code has float seconds; the
-- backoff factor is a whole number. In the table of URLs, ids, instants and identities are numbers.
-- A deque of grants is a list with the newest first. Amounts are integers at the scale of their column:
-- hundredths for a fact, ten-thousandths for a product of two. Dicts are lists of pairs. An exception is a constructor of the result.
--
-- Loops: RetryController.fetch runs on fuel `max_attempts`, and RedirectController.fetch on
-- `max_hops + 1`; both have a theorem that the fuel does not run out, so that the result is always
-- one that the code gives. The rounds of a crawl run on any fuel: a crawl with a limit of time has
-- enough with one round more than the moments before its clock passes the limit, and what holds at
-- every moment is stated for every fuel.
--
-- Parameters: the acquirer and the page reader of a crawl, the transport and the random factor
-- (an environment that says what each attempt meets), urljoin, urlsplit, the parser of IP
-- literals, the IDNA codec, the DNS resolver, canonical_url and the digest of a URL, which rows
-- other transactions have locked, the decoding of UTF-8, and the number that `float` reads in a
-- Crawl-delay, and Python's table of letters and digits.
--
-- Not modelled: discovery, the object store and the pipeline that joins them, extraction, the remaining
-- calculations and rules (the bill of quantities' total, the bill's estimate, the share of bid
-- security, row arithmetic, rules across documents), which are separate parts; parse_retry_after,
-- which parses dates. Logging, the schema, HTTP routes and command lines have no logic of their
-- own to state.
pub mod Prelude
pub mod Domain
pub mod Analysis
pub mod Fetch
pub mod Storage
pub mod Crawl
pub mod Tests
