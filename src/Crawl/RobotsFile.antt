-- ===== src/Crawl/RobotsFile.antt =====
-- src/aedifex/acquisition/crawl/robots.py, the reading of a robots.txt: lines, directives, groups,
-- and the group that applies to a crawler. A `dict` of groups is a list of them in the order of
-- insertion, a missing key is `none`. `positive_float` is a parameter: the ticks of a text that
-- `float` reads as a positive, finite number. `lower` folds ASCII letters.
pub mod Groups
pub mod Reading
pub mod Agent
use aedifex.Prelude.{
  ℕ, max, Bool, true, false, not, ◌&&◌, ◌||◌, Option, none, some, List, [], ◌∷◌, ◌++◌, ◌==◌, ltb,
  if◌then◌else◌, length, any_of, map,
}
use aedifex.Prelude.Text.{Text, codes, text_eq, contains, is_space, strip, lower}
use aedifex.Crawl.Robots.{Rule}

pub record Group : Type 0 where
  pub rules : List Rule
  pub crawl_delay : Option ℕ
  pub saw_directive : Bool

pub record RobotsRules : Type 0 where
  pub rules : List Rule
  pub crawl_delay : Option ℕ
  pub sitemaps : List Text
  pub matched_agent : Option Text
  pub saw_any_directive : Bool

-- `text.lstrip("\ufeff")`
unfoldable pub without_mark : Text → Text
without_mark [] = []
without_mark (c ∷ s) = let rest = without_mark s in if c == 65279 then rest else c ∷ s

unfoldable pub push_char : ℕ → List Text → List Text
push_char c [] = (c ∷ []) ∷ []
push_char c (line ∷ later) = (c ∷ line) ∷ later

-- `re.split(r"\r\n|\r|\n", body)`; the flag says that the last character was a carriage return
unfoldable pub split_lines : Bool → Text → List Text
unfolding push_char
split_lines after_return [] = [] ∷ []
split_lines after_return (c ∷ s) =
    let plain = split_lines false s in
    let after = split_lines true s in
    if c == 13
    then [] ∷ after
    else if c == 10
    then (if after_return then plain else [] ∷ plain)
    else push_char c plain

-- `text.split(sep, 1)[0]`, for one of several separators
unfoldable pub before : (ℕ → Bool) → Text → Text
before is_sep [] = []
before is_sep (c ∷ s) = let rest = before is_sep s in if is_sep c then [] else c ∷ rest

-- `_lines`
unfoldable pub lines : Text → List Text
unfolding without_mark split_lines before strip
lines text =
    map (λ line. strip (before (λ c. c == b'#') line)) (split_lines false (without_mark text))

-- the text before and after the first colon
unfoldable pub partition_colon : Text → Option (Text × Text)
partition_colon [] = none
partition_colon (c ∷ s) =
    let rest = partition_colon s in
    if c == b':'
    then some ([], s)
    else elim rest [ none ↦ none | some (name, value) ↦ some (c ∷ name, value) ]

-- `_split_directive`
unfoldable pub split_directive : Text → Option (Text × Text)
unfolding partition_colon strip lower
split_directive line = elim (partition_colon line) [
  | none ↦ none
  | some (name, value) ↦ some (lower (strip name), strip value)
]

abbrev pub Groups : Type 0
Groups = List (Text × Group)

abbrev pub new_group : Group
new_group = record { rules = []; crawl_delay = none; saw_directive = false }

-- `groups[agent]`
unfoldable pub group_of : Text → Groups → Option Group
group_of agent [] = none
group_of agent ((name, group) ∷ groups) =
    let rest = group_of agent groups in if text_eq name agent then some group else rest

-- `groups.setdefault(agent, _Group(rules=[]))`
unfoldable pub set_default : Text → Groups → Groups
set_default agent [] = (agent, new_group) ∷ []
set_default agent ((name, group) ∷ groups) =
    let rest = set_default agent groups in
    if text_eq name agent then (name, group) ∷ groups else (name, group) ∷ rest

-- a change of `groups[agent]`, with `none` for the `KeyError`
unfoldable pub change : (Group → Group) → Text → Groups → Option Groups
change f agent [] = none
change f agent ((name, group) ∷ groups) =
    let rest = change f agent groups in
    if text_eq name agent
    then some ((name, f group) ∷ groups)
    else elim rest [ none ↦ none | some changed ↦ some ((name, group) ∷ changed) ]

-- the same for each agent of `current`
unfoldable pub change_all : (Group → Group) → List Text → Groups → Option Groups
unfolding change
change_all f [] groups = some groups
change_all f (agent ∷ current) groups = elim (change f agent groups) [
  | none ↦ none
  | some changed ↦ change_all f current changed
]

pub record Collecting : Type 0 where
  pub groups : Groups
  pub current : List Text
  pub starting_new_group : Bool

abbrev pub with_rule : Bool → Text → Group → Group
with_rule allow [] group = record group { saw_directive = true }
with_rule allow (c ∷ value) group = record group {
  saw_directive = true;
  rules = group.rules ++ record { allow = allow; pattern = c ∷ value } ∷ [];
}

abbrev pub with_delay : ℕ → Group → Group
with_delay delay group = record group {
  saw_directive = true;
  crawl_delay = elim group.crawl_delay [
    | none ↦ some delay
    | some existing ↦ some (max existing delay)
  ];
}

-- a `user-agent` line
unfoldable pub on_agent : Text → Collecting → Collecting
unfolding set_default
on_agent agent c =
    let kept = if c.starting_new_group then c.current else [] in
    elim agent [
      | [] ↦ record { groups = c.groups; current = kept; starting_new_group = true }
      | d ∷ s ↦ record {
        groups = set_default (d ∷ s) c.groups;
        current = kept ++ (d ∷ s) ∷ [];
        starting_new_group = true;
      }
    ]

-- what a directive does to the groups of the current agents
unfoldable pub on_groups : (Group → Group) → Collecting → Option Collecting
unfolding change_all
on_groups f c = elim (change_all f c.current c.groups) [
  | none ↦ none
  | some changed ↦ some (record c { groups = changed; starting_new_group = false })
]

module _ (positive_float : Text → Option ℕ) where
  -- the body of the loop of `_collect_groups`, for a line with a directive
  unfoldable pub on_directive : Text → Text → Collecting → Option Collecting
  unfolding on_agent on_groups
  on_directive name value c =
      if text_eq name (codes "user-agent")
      then some (on_agent (lower value) c)
      else if text_eq name (codes "allow") || text_eq name (codes "disallow")
      then on_groups (with_rule (text_eq name (codes "allow")) value) c
      else if text_eq name (codes "crawl-delay")
      then elim (positive_float value) [
        | none ↦ some (record c { starting_new_group = false })
        | some delay ↦ on_groups (with_delay delay) c
      ]
      else some (record c { starting_new_group = false })

  unfoldable pub on_line : Text → Collecting → Option Collecting
  unfolding on_directive split_directive
  on_line line c = elim (split_directive line) [
    | none ↦ some c
    | some (name, value) ↦ on_directive name value c
  ]

  unfoldable pub collect : List Text → Collecting → Option Collecting
  unfolding on_line
  collect [] c = some c
  collect (line ∷ rest) c = elim (on_line line c) [ none ↦ none | some c' ↦ collect rest c' ]

  -- `_collect_groups`
  unfoldable pub collect_groups : Text → Option Groups
  unfolding collect lines
  collect_groups text =
      elim (collect (lines text)
        (record { groups = []; current = []; starting_new_group = true })) [
          | none ↦ none
          | some c ↦ some c.groups
        ]

-- `_product_token`
unfoldable pub product_token : Text → Text
unfolding before strip lower
product_token user_agent = lower (before (λ c. c == b'/' || is_space c) (strip user_agent))

-- `_agent_specificity`, with `none` for -1
unfoldable pub agent_specificity : Text → Text → Option ℕ
unfolding contains
agent_specificity agent token =
    if text_eq agent (codes "*")
    then some 0
    else if contains agent token
    then some (length agent)
    else none

-- `if score > best_score`, for the score of an agent
unfoldable pub better_of : Option ℕ → Text → Option (Text × ℕ) → Option (Text × ℕ)
better_of none agent best = best
better_of (some score) agent none = some (agent, score)
better_of (some score) agent (some (best, best_score)) =
    if ltb best_score score then some (agent, score) else some (best, best_score)

-- the loop of `parse_robots` over the agents
unfoldable pub best_agent : Text → Option (Text × ℕ) → Groups → Option (Text × ℕ)
unfolding agent_specificity better_of
best_agent token best [] = best
best_agent token best ((agent, group) ∷ groups) =
    best_agent token (better_of (agent_specificity agent token) agent best) groups

-- `_sitemaps`
unfoldable pub sitemaps_of : List Text → List Text
unfolding split_directive
sitemaps_of [] = []
sitemaps_of (line ∷ rest) =
    let found = sitemaps_of rest in
    elim (split_directive line) [
      | none ↦ found
      | some (name, []) ↦ found
      | some (name, c ∷ value) ↦
          if text_eq name (codes "sitemap") then (c ∷ value) ∷ found else found
    ]

abbrev no_rules : Bool → RobotsRules
no_rules saw_any = record {
  rules = [];
  crawl_delay = none;
  sitemaps = [];
  matched_agent = none;
  saw_any_directive = saw_any;
}

unfoldable pub rules_for_agent : Text → Text → Groups → Option RobotsRules
unfolding best_agent group_of lines sitemaps_of
rules_for_agent text token groups =
    let saw_any = any_of (λ entry. entry.1.saw_directive) groups in
    elim (best_agent token none groups) [
      | none ↦ some (no_rules saw_any)
      | some (agent, score) ↦ elim (group_of agent groups) [
        | none ↦ none
        | some chosen ↦ some (record {
          rules = chosen.rules;
          crawl_delay = chosen.crawl_delay;
          sitemaps = sitemaps_of (lines text);
          matched_agent = some agent;
          saw_any_directive = saw_any;
        })
      ]
    ]

-- `parse_robots`, with `none` for a `KeyError`
unfoldable pub parse_robots : (Text → Option ℕ) → Text → Text → Option RobotsRules
unfolding collect_groups product_token rules_for_agent
parse_robots positive_float text user_agent = elim (collect_groups positive_float text) [
  | none ↦ none
  | some groups ↦ rules_for_agent text (product_token user_agent) groups
]
