-- ===== src/Crawl/RobotsGate/Closed.antt =====
-- The gate is closed where robots.txt cannot be read, and asks for each file once.
use aedifex.Prelude.{
  ℕ, ◌≤◌, ◌<◌, ◌≡◌, ◌≢◌, refl, inl, inr, ◌↔◌, Option, none, some, List, ◌∷◌, arith, Option-cases,
}
use aedifex.Prelude.Text.{Text, text_eq_refl}
use aedifex.Crawl.RobotsGate.{
  RobotsGate, CachedRobots, absent, FetchResult, SplitUrl, from_status, fetch_robots, cached_for,
  authority_of, rules_for,
}

absent_status :
    (status : ℕ)
    → (from_status (some status)).origin ≡ absent
    → (400 ≤ status) × (status < 500) × (status ≢ 429)
unfolding from_status
absent_status status h = ground arith

status_absent :
    (status : ℕ)
    → 400 ≤ status
    → status < 500
    → status ≢ 429
    → (from_status (some status)).origin ≡ absent
unfolding from_status
status_absent status low high other = ground arith

same_status : (a b : ℕ) → some a ≡ some b → a ≡ b
same_status a b e = cc

-- A robots.txt whose fetch fails counts as absent for a client error other than 429, and for
-- nothing else: no answer, 429, a server error and any other status leave it unreadable.
pub from_status_iff :
    (status : Option ℕ)
    → ((from_status status).origin ≡ absent)
      ↔ ((code : ℕ) × (status ≡ some code) × (400 ≤ code) × (code < 500) × (code ≢ 429))
unfolding from_status
from_status_iff none = (λ h. cc, λ (code, e, _, _, _). cc)
from_status_iff (some status) = (
  λ h. let (low, high, other) = absent_status status h in (status, refl, low, high, other),
  λ (code, e, low, high, other).
      let same = same_status status code e in
      status_absent status (omega (arith, same)) (omega (arith, same))
        (λ n. other (omega (arith, n, same))),
)

cached_here :
    (authority : Text) (robots : CachedRobots) (cache : List (Text × CachedRobots))
    → cached_for authority ((authority, robots) ∷ cache) ≡ some robots
unfolding cached_for
cached_here authority robots cache = rw (text_eq_refl authority) refl

module _ (positive_float : Text → Option ℕ) (decode : List ℕ → Text) where
  rules_for_known :
      (result : FetchResult) (url : SplitUrl) (gate : RobotsGate) (robots : CachedRobots)
      → cached_for (authority_of url) gate.cache ≡ some robots
      → rules_for positive_float decode result url gate ≡ (robots, gate)
  unfolding rules_for
  rules_for_known result url gate robots known = rw (known, rules_for) refl

  rules_for_unknown :
      (result : FetchResult) (url : SplitUrl) (gate : RobotsGate)
      → cached_for (authority_of url) gate.cache ≡ none
      → rules_for positive_float decode result url gate ≡ (
        fetch_robots positive_float decode gate.user_agent result,
        record gate {
          cache =
              (authority_of url, fetch_robots positive_float decode gate.user_agent result)
              ∷ gate.cache;
        },
      )
  unfolding rules_for
  rules_for_unknown result url gate unknown = rw (unknown, rules_for) refl

  -- A second question for the same scheme and host, whatever a second fetch would give, finds the
  -- answer of the first and changes nothing.
  pub rules_for_once :
      (result later : FetchResult) (url url' : SplitUrl) (gate : RobotsGate)
      → authority_of url' ≡ authority_of url
      → rules_for positive_float decode later url'
          (rules_for positive_float decode result url gate).1
        ≡ rules_for positive_float decode result url gate
  rules_for_once result later url url' gate same =
      elim (Option-cases (cached_for (authority_of url) gate.cache)) [
        | inr (robots, known) ↦
            let first = rules_for_known result url gate robots known in
            let again : cached_for (authority_of url') gate.cache ≡ some robots = rw same known in
            rw first (rules_for_known later url' gate robots again)
        | inl unknown ↦
            let first = rules_for_unknown result url gate unknown in
            let robots = fetch_robots positive_float decode gate.user_agent result in
            let gate' : RobotsGate = record gate {
              cache = (authority_of url, robots) ∷ gate.cache;
            } in
            let again : cached_for (authority_of url') gate'.cache ≡ some robots =
              rw same (cached_here (authority_of url) robots gate.cache) in
            rw first (rules_for_known later url' gate' robots again)
      ]
