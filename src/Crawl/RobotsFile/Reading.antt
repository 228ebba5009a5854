-- ===== src/Crawl/RobotsFile/Reading.antt =====
-- The loop over the lines of a robots.txt: no key is ever missing, and no rule is lost.
use mathlib.Core.Path.{subst}
use aedifex.Prelude.{
  ℕ, ◌≡◌, refl, inl, inr, Bool, true, false, ◌||◌, Option, some, List, [], ◌∷◌, ◌++◌, In, All,
  Bool-cases, Option-cases, if◌then◌else◌,
}
use aedifex.Prelude.Text.{Text, codes, text_eq, lower}
use aedifex.Crawl.Robots.{Rule}
use aedifex.Crawl.RobotsFile.{
  Group, Groups, Collecting, group_of, set_default, change_all, with_rule, with_delay, on_agent,
  on_groups, on_directive, on_line, collect, collect_groups, lines, split_directive,
}
use aedifex.Crawl.RobotsFile.Groups.{
  Grows, Extends, Extends-refl, Extends-trans, set_default-Extends, set_default-group_of,
  change-Extends, change_there, with_rule-Grows, with_delay-Grows,
}

abbrev HasGroup : Groups → Text → Type 0
HasGroup groups agent = (g : Group) × (group_of agent groups ≡ some g)

-- Every agent of the block that is being read has a group.
abbrev IsKnown : Collecting → Type 0
IsKnown c = All (HasGroup c.groups) c.current

HasGroup-Extends :
    (before after : Groups) (agent : Text)
    → Extends before after
    → HasGroup before agent
    → HasGroup after agent
HasGroup-Extends before after agent h (g, e) = let (g', e', _) = h agent g e in (g', e')

All-Extends :
    (before after : Groups) (agents : List Text)
    → Extends before after
    → All (HasGroup before) agents
    → All (HasGroup after) agents
All-Extends before after [] h k = tt
All-Extends before after (agent ∷ agents) h k =
    (HasGroup-Extends before after agent h k.0, All-Extends before after agents h k.1)

-- `changed` has all of `groups`, and each of the agents has what `f` made of its group.
record IsChanged (f : Group → Group) (agents : List Text) (groups changed : Groups) : Type 0 where
  extends : Extends groups changed
  made :
      (agent : Text)
      → In agent agents
      → (g : Group) × (g' : Group) × (group_of agent changed ≡ some g') × Grows (f g) g'

change_all_total :
    (f : Group → Group) (agents : List Text) (groups : Groups)
    → ((g : Group) → Grows g (f g))
    → All (HasGroup groups) agents
    → (changed : Groups) × (change_all f agents groups ≡ some changed)
      × IsChanged f agents groups changed
unfolding change_all
change_all_total f [] groups grows known =
    (groups, refl, record { extends = Extends-refl groups; made = λ agent i. absurd i })
change_all_total f (agent ∷ agents) groups grows ((g, e), known) =
    let (next, done, found) = change_there f agent groups g e in
    let first = change-Extends f agent groups next grows done in
    let (changed, done', rest) =
      change_all_total f agents next grows (All-Extends groups next agents first known) in
    let (g', e', grown) = rest.extends agent (f g) found in
    (
      changed,
      rw (done, change_all) done',
      record {
        extends = Extends-trans groups next changed first rest.extends;
        made = λ a i. elim i [
          | inl same ↦ (g, g', subst (λ (t : Text). group_of t changed ≡ some g') same e', grown)
          | inr j ↦ rest.made a j
        ];
      },
    )

-- The step succeeds, keeps what has been read, and leaves a group for every agent of the block.
abbrev Advances : Collecting → Option Collecting → Type 0
Advances c step = (c' : Collecting) × (step ≡ some c') × Extends c.groups c'.groups × IsKnown c'

on_groups-Advances :
    (f : Group → Group) (c : Collecting)
    → ((g : Group) → Grows g (f g))
    → IsKnown c
    → Advances c (on_groups f c)
unfolding on_groups
on_groups-Advances f c grows known =
    let (changed, done, h) = change_all_total f c.current c.groups grows known in
    (
      record c { groups = changed; starting_new_group = false },
      rw (done, on_groups) refl,
      h.extends,
      All-Extends c.groups changed c.current h.extends known,
    )

All-append_last :
    (groups : Groups) (agents : List Text) (agent : Text)
    → All (HasGroup groups) agents
    → HasGroup groups agent
    → All (HasGroup groups) (agents ++ agent ∷ [])
All-append_last groups [] agent h k = (k, tt)
All-append_last groups (a ∷ agents) agent h k = (h.0, All-append_last groups agents agent h.1 k)

kept_block :
    (starting : Bool) (groups : Groups) (agents : List Text)
    → All (HasGroup groups) agents
    → All (HasGroup groups) (if starting then agents else [])
kept_block true groups agents h = h
kept_block false groups agents h = tt

on_agent-Advances :
    (agent : Text) (c : Collecting) → IsKnown c → Advances c (some (on_agent agent c))
unfolding on_agent
on_agent-Advances [] c known =
    (_, refl, Extends-refl c.groups, kept_block c.starting_new_group c.groups c.current known)
on_agent-Advances (d ∷ s) c known =
    let kept = if c.starting_new_group then c.current else [] in
    let after = set_default (d ∷ s) c.groups in
    let grown = set_default-Extends (d ∷ s) c.groups in
    let still =
      All-Extends c.groups after kept grown
        (kept_block c.starting_new_group c.groups c.current known) in
    (
      _,
      refl,
      grown,
      All-append_last after kept (d ∷ s) still (set_default-group_of (d ∷ s) c.groups),
    )

module _ (positive_float : Text → Option ℕ) where
  on_directive-Advances :
      (name value : Text) (c : Collecting)
      → IsKnown c
      → Advances c (on_directive positive_float name value c)
  unfolding on_directive
  on_directive-Advances name value c known = elim (Bool-cases (text_eq name (codes "user-agent"))) [
    | inl is_agent ↦ rw is_agent (on_agent-Advances (lower value) c known)
    | inr not_agent ↦
        rw not_agent
          (elim (Bool-cases (text_eq name (codes "allow") || text_eq name (codes "disallow"))) [
            | inl is_rule ↦
                let allow = text_eq name (codes "allow") in
                rw is_rule
                  (on_groups-Advances (with_rule allow value) c (with_rule-Grows allow value) known)
            | inr not_rule ↦ rw not_rule (elim (Bool-cases (text_eq name (codes "crawl-delay"))) [
              | inr other ↦ rw other (_, refl, Extends-refl c.groups, known)
              | inl is_delay ↦ rw is_delay (elim (Option-cases (positive_float value)) [
                | inl unread ↦ rw unread (_, refl, Extends-refl c.groups, known)
                | inr (delay, reads) ↦
                    rw reads
                      (on_groups-Advances (with_delay delay) c (with_delay-Grows delay) known)
              ])
            ])
          ])
  ]

  on_line-Advances :
      (line : Text) (c : Collecting) → IsKnown c → Advances c (on_line positive_float line c)
  unfolding on_line
  on_line-Advances line c known = elim (Option-cases (split_directive line)) [
    | inl nothing ↦ rw (nothing, on_line) (c, refl, Extends-refl c.groups, known)
    | inr ((name, value), found) ↦ rw (found, on_line) (on_directive-Advances name value c known)
  ]

  collect-Advances :
      (rest : List Text) (c : Collecting) → IsKnown c → Advances c (collect positive_float rest c)
  unfolding collect
  collect-Advances [] c known = (c, refl, Extends-refl c.groups, known)
  collect-Advances (line ∷ rest) c known =
      let (c', done, grown, known') = on_line-Advances line c known in
      let (c'', done', grown', known'') = collect-Advances rest c' known' in
      (
        c'',
        rw (done, collect) done',
        Extends-trans c.groups c'.groups c''.groups grown grown',
        known'',
      )

  abbrev pub at_start : Collecting
  at_start = record { groups = []; current = []; starting_new_group = true }

  -- Reading never meets a missing key, whatever the file is.
  pub collect_groups_total :
      (text : Text) → (groups : Groups) × (collect_groups positive_float text ≡ some groups)
  unfolding collect_groups
  collect_groups_total text =
      let (c, done, _, _) = collect-Advances (lines text) at_start tt in
      (c.groups, rw (done, collect_groups) refl)

  abbrev pub name_of : Bool → Text
  name_of allow = if allow then codes "allow" else codes "disallow"

  -- The agent's group holds the rule.
  abbrev pub HoldsRule : Text → Rule → Groups → Type 0
  HoldsRule agent rule groups = (g : Group) × (group_of agent groups ≡ some g) × In rule g.rules
