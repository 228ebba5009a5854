-- ===== src/Tests/RobotsFile.antt =====
-- Tests of Crawl.RobotsFile.
use aedifex.Prelude.{ℕ, ◌≡◌, refl, true, false, Option, none, some, [], ◌∷◌, ◌++◌, if◌then◌else◌}
use aedifex.Prelude.Text.{Text, codes, text_eq, contains, starts_with, strip, lstrip, lower}
use aedifex.Crawl.RobotsFile.{
  Groups, RobotsRules, Collecting, group_of, set_default, change, change_all, on_agent, on_groups,
  on_directive, on_line, collect, collect_groups, lines, split_lines, push_char, without_mark,
  before, split_directive, partition_colon, agent_specificity, rules_for_agent, parse_robots,
  product_token, best_agent, better_of, sitemaps_of,
}
use aedifex.Crawl.RobotsFile.Agent.{IsChosen, rules_for_agent-IsChosen}

abbrev ten_seconds : Text → Option ℕ
ten_seconds value = if text_eq value (codes "10") then some 10000 else none

abbrev newline : Text
newline = 10 ∷ []

abbrev for_all : Text
for_all = codes "User-agent: *"

abbrev site_file : Text
site_file =
    for_all
    ++ newline
    ++ codes "Disallow: /a # all of it"
    ++ newline
    ++ codes "User-agent: Bot"
    ++ newline
    ++ codes "Crawl-delay: 10"
    ++ newline
    ++ codes "Allow: /b"

parse_run :
    parse_robots ten_seconds site_file (codes "MyBot/1.0")
    ≡ some (record {
      rules = record { allow = true; pattern = codes "/b" } ∷ [];
      crawl_delay = some 10000;
      sitemaps = [];
      matched_agent = some (codes "bot");
      saw_any_directive = true;
    })
unfolding parse_robots rules_for_agent best_agent better_of agent_specificity contains starts_with
    product_token collect_groups collect on_line on_directive on_agent on_groups change_all change
    set_default group_of split_directive partition_colon lines split_lines push_char without_mark
    before strip lstrip lower text_eq sitemaps_of
parse_run = refl

abbrev read_so_far : Collecting
read_so_far = record {
  groups = (codes "*", record { rules = []; crawl_delay = none; saw_directive = false }) ∷ [];
  current = codes "*" ∷ [];
  starting_new_group = true;
}

abbrev two_groups : Groups
two_groups =
    (codes "*", record { rules = []; crawl_delay = none; saw_directive = true })
    ∷ (
      codes "bot",
      record {
        rules = record { allow = false; pattern = codes "/a" } ∷ [];
        crawl_delay = none;
        saw_directive = true;
      },
    )
    ∷ []

rules_for_agent-IsChosen_example :
    (r : RobotsRules) × (rules_for_agent site_file (codes "mybot") two_groups ≡ some r)
    × IsChosen (codes "mybot") two_groups r
rules_for_agent-IsChosen_example = rules_for_agent-IsChosen site_file (codes "mybot") two_groups
