-- ===== src/Crawl/RobotsGate.antt =====
-- src/aedifex/acquisition/crawl/robots.py, RobotsGate: whether a URL may be requested, from a
-- robots.txt that is fetched once for each scheme and host. What the redirect controller gives for
-- a robots.txt is an argument; so are `float` of a Crawl-delay and the decoding of UTF-8. A URL is
-- what `urlsplit` makes of it. The texts of reasons are left out.
pub mod Closed
pub mod Reading
use aedifex.Prelude.{
  ℕ, ◌+◌, ◌*◌, ◌==◌, min, Bool, true, false, not, ◌&&◌, ◌||◌, Option, none, some, List, [], ◌∷◌,
  ◌++◌, leb, ltb, if◌then◌else◌, length, take, any_of,
}
use aedifex.Prelude.Text.{Text, codes, text_eq, contains, strip, lstrip, lower}
use aedifex.Crawl.Robots.{Rule, RobotsVerdict, allowed, disallowed, RobotsDecision, decide}
use aedifex.Crawl.RobotsFile.{RobotsRules, before, parse_robots}

abbrev pub max_robots_bytes : ℕ
max_robots_bytes = 500 * 1024

pub data Origin : Type 0 where
  parsed absent unreadable : Origin

pub record CachedRobots : Type 0 where
  pub rules : RobotsRules
  pub origin : Origin

abbrev pub rules_of : List Rule → Bool → RobotsRules
rules_of rules saw = record {
  rules = rules;
  crawl_delay = none;
  sitemaps = [];
  matched_agent = none;
  saw_any_directive = saw;
}

-- `_ALLOW_ALL` and `_DENY_ALL`
abbrev pub allow_all : RobotsRules
allow_all = rules_of [] false

abbrev pub deny_all : RobotsRules
deny_all = rules_of (record { allow = false; pattern = codes "/" } ∷ []) true

abbrev pub cannot_read : CachedRobots
cannot_read = record { rules = deny_all; origin = unreadable }

abbrev pub none_there : CachedRobots
none_there = record { rules = allow_all; origin = absent }

-- `_from_status`
unfoldable pub from_status : Option ℕ → CachedRobots
from_status none = cannot_read
from_status (some status) =
    if status == 429 || leb 500 status
    then cannot_read
    else if leb 400 status && ltb status 500
    then none_there
    else cannot_read

-- `_looks_like_markup`
unfoldable pub looks_like_markup : Text → Bool
looks_like_markup body =
    let head = lower (lstrip (take 2048 body)) in
    any_of (λ hint. contains hint head)
      (codes "<html" ∷ codes "<!doctype" ∷ codes "<?xml" ∷ codes "<head" ∷ codes "<body" ∷ [])

-- the loop of `_read_text` over the chunks, with what has been read and its length
unfoldable pub read_chunks : ℕ → List ℕ → ℕ → List (List ℕ) → List ℕ
read_chunks limit read total [] = read
read_chunks limit read total (chunk ∷ chunks) =
    let rest = read_chunks limit (read ++ chunk) (total + length chunk) chunks in
    if leb limit (total + length chunk) then read ++ chunk else rest

-- the bytes that `_read_text` decodes
unfoldable pub read_bytes : List (List ℕ) → List ℕ
unfolding read_chunks
read_bytes chunks = take max_robots_bytes (read_chunks max_robots_bytes [] 0 chunks)

pub record RawResponse : Type 0 where
  pub content_type : Text
  pub chunks : List (List ℕ)

-- what `RedirectController.fetch` gives: a response, a failure with the status of its last attempt,
-- or an error of another type, also while the body is read
pub data FetchResult : Type 0 where
  answered : RawResponse → FetchResult
  fetch_failed : Option ℕ → FetchResult
  refused : FetchResult

pub record SplitUrl : Type 0 where
  pub scheme : Text
  pub netloc : Text
  pub path : Text
  pub query : Text

pub record RobotsGate : Type 0 where
  pub respect : Bool
  pub user_agent : Text
  pub cache : List (Text × CachedRobots)

unfoldable pub authority_of : SplitUrl → Text
authority_of url = url.scheme ++ codes "://" ++ url.netloc

-- `self._cache.get(authority)`
unfoldable pub cached_for : Text → List (Text × CachedRobots) → Option CachedRobots
cached_for authority [] = none
cached_for authority ((name, robots) ∷ cache) =
    let rest = cached_for authority cache in if text_eq name authority then some robots else rest

-- the path and query that a rule is matched with
unfoldable pub target_of : SplitUrl → Text
target_of url =
    let target = if text_eq url.path [] then codes "/" else url.path in
    if text_eq url.query [] then target else target ++ b'?' ∷ url.query

-- what `allows` says once it has the file
unfoldable pub decision_of : Origin → List Rule → Text → RobotsDecision
decision_of unreadable rules target = record { verdict = disallowed; rule = none }
decision_of parsed rules target = decide rules target
decision_of absent rules target = decide rules target

module _ (positive_float : Text → Option ℕ) (decode : List ℕ → Text) where
  -- `_interpret`; `parse_robots` never raises
  unfoldable pub interpret : Text → RawResponse → CachedRobots
  unfolding before strip lower read_bytes looks_like_markup parse_robots
  interpret user_agent response =
      let declared = lower (strip (before (λ c. c == b';') response.content_type)) in
      let body = decode (read_bytes response.chunks) in
      if not (text_eq declared []) && not (text_eq declared (codes "text/plain"))
      then none_there
      else elim (parse_robots positive_float body user_agent) [
        | none ↦ cannot_read
        | some rules ↦
            if not rules.saw_any_directive && looks_like_markup body
            then cannot_read
            else if not rules.saw_any_directive
            then record { rules = rules; origin = absent }
            else record { rules = rules; origin = parsed }
      ]

  -- `_fetch`
  unfoldable pub fetch_robots : Text → FetchResult → CachedRobots
  unfolding interpret from_status
  fetch_robots user_agent (answered response) = interpret user_agent response
  fetch_robots user_agent (fetch_failed status) = from_status status
  fetch_robots user_agent refused = cannot_read

  -- `_rules_for`, with what a fetch of the robots.txt would give now; and the gate that it leaves
  unfoldable pub rules_for : FetchResult → SplitUrl → RobotsGate → CachedRobots × RobotsGate
  unfolding authority_of cached_for fetch_robots
  rules_for result url gate = elim (cached_for (authority_of url) gate.cache) [
    | some robots ↦ (robots, gate)
    | none ↦
        let robots = fetch_robots gate.user_agent result in
        (robots, record gate { cache = (authority_of url, robots) ∷ gate.cache })
  ]

  -- `allows`
  unfoldable pub allows : FetchResult → SplitUrl → RobotsGate → RobotsDecision × RobotsGate
  unfolding rules_for target_of decision_of
  allows result url gate =
      let (cached, gate') = rules_for result url gate in
      if not gate.respect
      then (record { verdict = allowed; rule = none }, gate)
      else (decision_of cached.origin cached.rules.rules (target_of url), gate')
