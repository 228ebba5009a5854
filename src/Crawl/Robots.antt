-- ===== src/Crawl/Robots.antt =====
-- src/aedifex/acquisition/crawl/robots.py, the rules: which rule a path meets, and the limits that
-- a Crawl-delay leads to. A target has no line breaks, as it is the path and query of a URL, so
-- `.*` of a compiled pattern is any run of characters and its `$` the end of the target.
pub mod Matching
pub mod Decision
pub mod Politeness
use aedifex.Prelude.{
  ℕ, zero, suc, ◌-◌, ◌*◌, ◌/◌, min, max, Bool, true, false, not, ◌&&◌, ◌||◌, Option, none, some,
  List, [], ◌∷◌, ◌==◌, leb, ltb, if◌then◌else◌, length,
}
use aedifex.Prelude.Text.{Text}
use aedifex.Fetch.Timing.{second}
use aedifex.Fetch.RateLimit.{RateLimits}

abbrev pub max_honourable_crawl_delay : ℕ
max_honourable_crawl_delay = 300 * second

pub data RobotsVerdict : Type 0 where
  allowed disallowed : RobotsVerdict

pub record Rule : Type 0 where
  pub allow : Bool
  pub pattern : Text

pub record RobotsDecision : Type 0 where
  pub verdict : RobotsVerdict
  pub rule : Option Rule

-- `pattern.endswith("$")`
unfoldable pub is_anchored : Text → Bool
is_anchored [] = false
is_anchored (c ∷ []) = c == b'$'
is_anchored (c ∷ d ∷ s) = is_anchored (d ∷ s)

-- `pattern.removesuffix("$")`
unfoldable pub body_of : Text → Text
body_of [] = []
body_of (c ∷ []) = if c == b'$' then [] else c ∷ []
body_of (c ∷ d ∷ s) = c ∷ body_of (d ∷ s)

unfoldable pub is_empty : Text → Bool
is_empty [] = true
is_empty (c ∷ s) = false

-- whether some end of the text, the whole of it and the empty one too, passes
unfoldable pub some_end : (Text → Bool) → Text → Bool
some_end test [] = test []
some_end test (c ∷ s) = let rest = some_end test s in test (c ∷ s) || rest

-- whether the text is the character and then one that passes
unfoldable pub literal_then : (Text → Bool) → ℕ → Text → Bool
literal_then test c [] = false
literal_then test c (d ∷ s) = c == d && test s

-- `re.match` of the expression that `_compile_rule` builds: each `*` is `.*`, all else itself
unfoldable pub matches_body : Bool → Text → Text → Bool
unfolding some_end literal_then is_empty
matches_body anchored [] s = if anchored then is_empty s else true
matches_body anchored (c ∷ p) s =
    let rest = matches_body anchored p in
    if c == b'*' then some_end rest s else literal_then rest c s

-- `matches`
unfoldable pub matches : Rule → Text → Bool
unfolding is_anchored body_of matches_body
matches rule target = matches_body (is_anchored rule.pattern) (body_of rule.pattern) target

-- `specificity`
unfoldable pub specificity : Rule → ℕ
unfolding body_of
specificity rule = length (body_of rule.pattern)

-- `_outranks`
unfoldable pub outranks : Rule → Rule → Bool
outranks candidate incumbent =
    if not (specificity candidate == specificity incumbent)
    then ltb (specificity incumbent) (specificity candidate)
    else candidate.allow && not incumbent.allow

unfoldable pub beats : Rule → Option Rule → Bool
beats rule none = true
beats rule (some incumbent) = outranks rule incumbent

-- the loop of `decide`
unfoldable pub best_of : Text → Option Rule → List Rule → Option Rule
best_of target best [] = best
best_of target best (rule ∷ rules) =
    best_of target (if matches rule target && beats rule best then some rule else best) rules

-- `decide`
unfoldable pub decide : List Rule → Text → RobotsDecision
decide rules target = elim (best_of target none rules) [
  | none ↦ record { verdict = allowed; rule = none }
  | some best ↦
      if best.allow
      then record { verdict = allowed; rule = some best }
      else record { verdict = disallowed; rule = some best }
]

-- `polite_limits` for a Crawl-delay; `none` where it raises
unfoldable pub polite_limits : RateLimits → Option ℕ → Option RateLimits
polite_limits limits none = some limits
polite_limits limits (some requested) =
    if leb requested limits.min_delay_seconds
    then some limits
    else if ltb max_honourable_crawl_delay requested
    then none
    else some (record {
      requests_per_minute = min limits.requests_per_minute (max 1 (60 * second / requested));
      max_concurrency = 1;
      min_delay_seconds = requested;
    })
