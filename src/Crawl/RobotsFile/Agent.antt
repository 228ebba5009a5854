-- ===== src/Crawl/RobotsFile/Agent.antt =====
-- Which group of a robots.txt applies to a crawler.
use mathlib.Core.Path.{subst}
use aedifex.Prelude.{
  ℕ, ◌≤◌, ◌<◌, ◌≡◌, refl, sym, ap, ◌∙◌, ◌⊎◌, inl, inr, Option, none, some, [], ◌∷◌, ltb, arith, In,
  Bool-cases, Option-cases, any_of,
}
use aedifex.Prelude.Text.{Text, text_eq, text_eq_refl}
use aedifex.Crawl.RobotsFile.{
  Group, Groups, RobotsRules, group_of, agent_specificity, better_of, best_agent, rules_for_agent,
  no_rules, lines, sitemaps_of,
}

-- What the loop ends with, from the best that it starts with.
record IsBestAgent (token : Text) (start : Option (Text × ℕ)) (groups : Groups) (best : Text × ℕ)
    : Type 0 where
  origin :
      (start ≡ some best)
      ⊎ (((g : Group) × In (best.0, g) groups) × (agent_specificity best.0 token ≡ some best.1))
  top :
      (agent : Text) (g : Group) (score : ℕ)
      → In (agent, g) groups
      → agent_specificity agent token ≡ some score
      → score ≤ best.1
  above : (held : Text × ℕ) → start ≡ some held → held.1 ≤ best.1

same_best : (a b : Text × ℕ) → some a ≡ some b → a ≡ b
same_best a b e = cc

same_score : (a b : ℕ) → some a ≡ some b → a ≡ b
same_score a b e = cc

record IsNext (score : Option ℕ) (agent : Text) (best next : Option (Text × ℕ)) : Type 0 where
  new :
      (held : Text × ℕ)
      → next ≡ some held
      → (best ≡ some held) ⊎ ((agent ≡ held.0) × (score ≡ some held.1))
  rises :
      (held : Text × ℕ)
      → best ≡ some held
      → (held' : Text × ℕ) × (next ≡ some held') × (held.1 ≤ held'.1)
  covers : (n : ℕ) → score ≡ some n → (held' : Text × ℕ) × (next ≡ some held') × (n ≤ held'.1)

better_of-IsNext :
    (score : Option ℕ) (agent : Text) (best : Option (Text × ℕ))
    → IsNext score agent best (better_of score agent best)
unfolding better_of
better_of-IsNext none agent best = record {
  new = λ held e. inl e;
  rises = λ held e. (held, e, omega arith);
  covers = λ n e. cc;
}
better_of-IsNext (some score) agent none = record {
  new = λ held e.
      let same = same_best (agent, score) held e in
      inr (ap (λ (t : Text × ℕ). t.0) same, ap (λ (t : Text × ℕ). some t.1) same);
  rises = λ held e. cc;
  covers = λ n e. let same = same_score score n e in ((agent, score), refl, omega (arith, same));
}
better_of-IsNext (some score) agent (some (best, best_score)) =
    elim (Bool-cases (ltb best_score score)) [
      | inl higher ↦ rw higher (record {
        new = λ held e.
            let same = same_best (agent, score) held e in
            inr (ap (λ (t : Text × ℕ). t.0) same, ap (λ (t : Text × ℕ). some t.1) same);
        rises = λ held e.
            let same = ap (λ (t : Text × ℕ). t.1) (same_best (best, best_score) held e) in
            let lt : best_score < score = ground arith in
            ((agent, score), refl, omega (arith, lt, same));
        covers =
            λ n e. let same = same_score score n e in ((agent, score), refl, omega (arith, same));
      })
      | inr lower ↦ rw lower (record {
        new = λ held e. inl e;
        rises = λ held e. (held, e, omega arith);
        covers = λ n e.
            let same = same_score score n e in
            let le : score ≤ best_score = ground arith in
            ((best, best_score), refl, omega (arith, le, same));
      })
    ]

best_agent-IsBestAgent :
    (token : Text) (start : Option (Text × ℕ)) (groups : Groups) (best : Text × ℕ)
    → best_agent token start groups ≡ some best
    → IsBestAgent token start groups best
unfolding best_agent
best_agent-IsBestAgent token start [] best h = record {
  origin = inl h;
  top = λ agent g score i m. absurd i;
  above = λ held e.
      let same = ap (λ (t : Text × ℕ). t.1) (same_best held best (sym e ∙ h)) in
      omega (arith, same);
}
best_agent-IsBestAgent token start ((agent, group) ∷ groups) best h =
    let score = agent_specificity agent token in
    let next = better_of-IsNext score agent start in
    let rest = best_agent-IsBestAgent token (better_of score agent start) groups best h in
    record {
      origin = elim rest.origin [
        | inr ((g, i), matched) ↦ inr ((g, inr i), matched)
        | inl e ↦ elim (next.new best e) [
          | inl held ↦ inl held
          | inr (same, matched) ↦ inr (
            (group, inl (ap (λ (t : Text). (t, group)) same)),
            subst (λ (t : Text). agent_specificity t token ≡ some best.1) same matched,
          )
        ]
      ];
      top = λ a g n i matched. elim i [
        | inr j ↦ rest.top a g n j matched
        | inl e ↦
            let same = ap (λ (t : Text × Group). t.0) e in
            let (held, found, le) =
              next.covers n
                (subst (λ (t : Text). agent_specificity t token ≡ some n) (sym same) matched) in
            omega (arith, le, rest.above held found)
      ];
      above = λ held e.
          let (held', found, le) = next.rises held e in omega (arith, le, rest.above held' found);
    }

some_is_none : {A : Type 0} (b : Text × ℕ) → some b ≡ none → A
some_is_none b e = cc

better_of-none :
    (score : Option ℕ) (agent : Text) (best : Option (Text × ℕ))
    → better_of score agent best ≡ none
    → (best ≡ none) × (score ≡ none)
unfolding better_of
better_of-none none agent best h = (h, refl)
better_of-none (some score) agent none h = cc
better_of-none (some score) agent (some (best, best_score)) h =
    elim (Bool-cases (ltb best_score score)) [
      | inl higher ↦
          let e : some (agent, score) ≡ none = rw higher at h in some_is_none (agent, score) e
      | inr lower ↦
          let e : some (best, best_score) ≡ none = rw lower at h in
          some_is_none (best, best_score) e
    ]

-- an agent of the file has a group
In-group_of :
    (agent : Text) (g : Group) (groups : Groups)
    → In (agent, g) groups
    → (g' : Group) × (group_of agent groups ≡ some g')
unfolding group_of
In-group_of agent g [] i = absurd i
In-group_of agent g ((name, group) ∷ groups) (inl e) =
    let same = ap (λ (t : Text × Group). t.0) e in (group, rw same (rw (text_eq_refl agent) refl))
In-group_of agent g ((name, group) ∷ groups) (inr i) = elim (Bool-cases (text_eq name agent)) [
  | inl here ↦ (group, rw here refl)
  | inr further ↦ let (g', e) = In-group_of agent g groups i in (g', rw further e)
]

best_agent-none :
    (token : Text) (start : Option (Text × ℕ)) (groups : Groups)
    → best_agent token start groups ≡ none
    → (start ≡ none)
      × ((agent : Text) (g : Group) → In (agent, g) groups → agent_specificity agent token ≡ none)
unfolding best_agent
best_agent-none token start [] h = (h, λ agent g i. absurd i)
best_agent-none token start ((agent, group) ∷ groups) h =
    let score = agent_specificity agent token in
    let (ends, rest) = best_agent-none token (better_of score agent start) groups h in
    let (free, unmatched) = better_of-none score agent start ends in
    (
      free,
      λ a g i. elim i [
        | inl e ↦
            subst (λ (t : Text). agent_specificity t token ≡ none)
              (ap (λ (t : Text × Group). t.0) e) unmatched
        | inr j ↦ rest a g j
      ],
    )

-- no agent of the file concerns the crawler, and no rule applies
pub record IsFree (token : Text) (groups : Groups) (r : RobotsRules) : Type 0 where
  pub unnamed : r.matched_agent ≡ none
  pub free : r.rules ≡ []
  pub unmatched :
      (agent : Text) (g : Group) → In (agent, g) groups → agent_specificity agent token ≡ none

-- the rules are those of the agent's group, and the agent's score is the highest
pub record IsOfGroup (token : Text) (groups : Groups) (r : RobotsRules) (agent : Text) (g : Group)
    (score : ℕ) : Type 0 where
  pub named : r.matched_agent ≡ some agent
  pub held : group_of agent groups ≡ some g
  pub rules : r.rules ≡ g.rules
  pub delay : r.crawl_delay ≡ g.crawl_delay
  pub scored : agent_specificity agent token ≡ some score
  pub highest :
      (other : Text) (g' : Group) (score' : ℕ)
      → In (other, g') groups
      → agent_specificity other token ≡ some score'
      → score' ≤ score

abbrev pub IsChosen : Text → Groups → RobotsRules → Type 0
IsChosen token groups r =
    IsFree token groups r
    ⊎ ((agent : Text) × (g : Group) × (score : ℕ) × IsOfGroup token groups r agent g score)

-- The group chosen for a crawler belongs to an agent that the crawler's name contains, or to `*`, and
-- no other such agent of the file has a longer name; the rules and the delay are that group's. Where
-- the file has no such agent, no group is chosen and nothing is forbidden.
pub rules_for_agent-IsChosen :
    (text token : Text) (groups : Groups)
    → (r : RobotsRules) × (rules_for_agent text token groups ≡ some r) × IsChosen token groups r
unfolding rules_for_agent
rules_for_agent-IsChosen text token groups = elim (Option-cases (best_agent token none groups)) [
  | inl nothing ↦
      let (_, unmatched) = best_agent-none token none groups nothing in
      let saw_any = any_of (λ entry. entry.1.saw_directive) groups in
      (
        no_rules saw_any,
        rw (nothing, rules_for_agent) refl,
        inl (record { unnamed = refl; free = refl; unmatched = unmatched }),
      )
  | inr ((agent, score), found) ↦
      let best = best_agent-IsBestAgent token none groups (agent, score) found in
      elim best.origin [
        | inl e ↦ absurd (cc)
        | inr ((g, i), matched) ↦
            let (g', held) = In-group_of agent g groups i in
            (
              record {
                rules = g'.rules;
                crawl_delay = g'.crawl_delay;
                sitemaps = sitemaps_of (lines text);
                matched_agent = some agent;
                saw_any_directive = any_of (λ entry. entry.1.saw_directive) groups;
              },
              rw (found, rules_for_agent, held) refl,
              inr (
                agent,
                g',
                score,
                record {
                  named = refl;
                  held = held;
                  rules = refl;
                  delay = refl;
                  scored = matched;
                  highest = best.top;
                },
              ),
            )
      ]
]
