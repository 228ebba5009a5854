-- ===== src/Crawl/RobotsFile/Groups.antt =====
-- The groups of a robots.txt: every agent of a block has one, and what it holds is never lost.
use mathlib.Core.Path.{subst}
use aedifex.Prelude.{
  ℕ, ◌≤◌, ◌≡◌, refl, ap, inl, inr, max, Bool, true, none, some, List, [], ◌∷◌, ◌++◌, arith, In,
  Bool-cases, Option-cases,
}
use aedifex.Prelude.Text.{Text, text_eq, text_eq_refl}
use aedifex.Crawl.Robots.{Rule}
use aedifex.Crawl.RobotsFile.{
  Group, Groups, new_group, group_of, set_default, change, with_rule, with_delay,
}

-- `g'` holds all that `g` does, and asks for no shorter delay.
pub record Grows (g g' : Group) : Type 0 where
  pub keeps : (r : Rule) → In r g.rules → In r g'.rules
  pub delay : (d : ℕ) → g.crawl_delay ≡ some d → (d' : ℕ) × (g'.crawl_delay ≡ some d') × (d ≤ d')
  pub saw : g.saw_directive ≡ true → g'.saw_directive ≡ true

abbrev pub Extends : Groups → Groups → Type 0
Extends before after =
    (agent : Text) (g : Group)
    → group_of agent before ≡ some g
    → (g' : Group) × (group_of agent after ≡ some g') × Grows g g'

pub Grows-refl : (g : Group) → Grows g g
Grows-refl g = record { keeps = λ r i. i; delay = λ d e. (d, e, omega arith); saw = λ e. e }

pub Grows-trans : (a b c : Group) → Grows a b → Grows b c → Grows a c
Grows-trans a b c h k = record {
  keeps = λ r i. k.keeps r (h.keeps r i);
  delay = λ d e.
      let (d', e', le) = h.delay d e in
      let (d'', e'', le') = k.delay d' e' in (d'', e'', omega (arith, le, le'));
  saw = λ e. k.saw (h.saw e);
}

pub Extends-refl : (groups : Groups) → Extends groups groups
Extends-refl groups agent g e = (g, e, Grows-refl g)

pub Extends-trans : (a b c : Groups) → Extends a b → Extends b c → Extends a c
Extends-trans a b c h k agent g e =
    let (g', e', grows) = h agent g e in
    let (g'', e'', grows') = k agent g' e' in (g'', e'', Grows-trans g g' g'' grows grows')

In-append_left : (r : Rule) (rules more : List Rule) → In r rules → In r (rules ++ more)
In-append_left r [] more i = absurd i
In-append_left r (s ∷ rules) more (inl e) = inl e
In-append_left r (s ∷ rules) more (inr i) = inr (In-append_left r rules more i)

pub In-append_last : (r : Rule) (rules : List Rule) → In r (rules ++ r ∷ [])
In-append_last r [] = inl refl
In-append_last r (s ∷ rules) = inr (In-append_last r rules)

pub with_rule-Grows : (allow : Bool) (value : Text) (g : Group) → Grows g (with_rule allow value g)
with_rule-Grows allow [] g = record {
  keeps = λ r i. i;
  delay = λ d e. (d, e, omega arith);
  saw = λ e. refl;
}
with_rule-Grows allow (c ∷ value) g = record {
  keeps = λ r i. In-append_left r g.rules _ i;
  delay = λ d e. (d, e, omega arith);
  saw = λ e. refl;
}

pub with_delay-Grows : (delay : ℕ) (g : Group) → Grows g (with_delay delay g)
with_delay-Grows delay g = record {
  keeps = λ r i. i;
  delay = λ d e. (max d delay, rw e refl, omega arith);
  saw = λ e. refl;
}

Extends-cons :
    (name : Text) (g g' : Group) (before after : Groups)
    → Grows g g'
    → Extends before after
    → Extends ((name, g) ∷ before) ((name, g') ∷ after)
unfolding group_of
Extends-cons name g g' before after grows h agent held e = elim (Bool-cases (text_eq name agent)) [
  | inl here ↦
      let same : some g ≡ some held = rw here at e in
      let is_held : g ≡ held = cc in
      (g', rw here refl, subst (λ (t : Group). Grows t g') is_held grows)
  | inr further ↦
      let e' : group_of agent before ≡ some held = rw (further, group_of) at e in
      let (found, e'', grows') = h agent held e' in (found, rw further e'', grows')
]

pub set_default-Extends :
    (agent : Text) (groups : Groups) → Extends groups (set_default agent groups)
unfolding set_default group_of
set_default-Extends agent [] = λ a g e. cc
set_default-Extends agent ((name, group) ∷ groups) = elim (Bool-cases (text_eq name agent)) [
  | inl here ↦ rw here (Extends-refl ((name, group) ∷ groups))
  | inr further ↦ rw further (
      Extends-cons name group group groups (set_default agent groups) (Grows-refl group)
        (set_default-Extends agent groups))
]

pub set_default-group_of :
    (agent : Text) (groups : Groups)
    → (g : Group) × (group_of agent (set_default agent groups) ≡ some g)
unfolding set_default group_of
set_default-group_of agent [] = (new_group, rw (text_eq_refl agent) refl)
set_default-group_of agent ((name, group) ∷ groups) = elim (Bool-cases (text_eq name agent)) [
  | inl here ↦ (group, rw (here, here) refl)
  | inr further ↦ let (g, e) = set_default-group_of agent groups in (g, rw (further, further) e)
]

same_groups : (a b : Groups) → some a ≡ some b → a ≡ b
same_groups a b e = cc

pub change-Extends :
    (f : Group → Group) (agent : Text) (groups changed : Groups)
    → ((g : Group) → Grows g (f g))
    → change f agent groups ≡ some changed
    → Extends groups changed
unfolding change
change-Extends f agent [] changed grows h = cc
change-Extends f agent ((name, group) ∷ groups) changed grows h =
    elim (Bool-cases (text_eq name agent)) [
      | inl here ↦
          let e : some ((name, f group) ∷ groups) ≡ some changed = rw here at h in
          subst (λ (t : Groups). Extends ((name, group) ∷ groups) t)
            (same_groups ((name, f group) ∷ groups) changed e)
            (Extends-cons name group (f group) groups groups (grows group) (Extends-refl groups))
      | inr further ↦ elim (Option-cases (change f agent groups)) [
        | inl nothing ↦ let e : none ≡ some changed = rw (further, change, nothing) at h in cc
        | inr (rest, e) ↦
            let e' : some ((name, group) ∷ rest) ≡ some changed = rw (further, change, e) at h in
            subst (λ (t : Groups). Extends ((name, group) ∷ groups) t)
              (same_groups ((name, group) ∷ rest) changed e')
              (Extends-cons name group group groups rest (Grows-refl group)
                (change-Extends f agent groups rest grows e))
      ]
    ]

pub change_there :
    (f : Group → Group) (agent : Text) (groups : Groups) (g : Group)
    → group_of agent groups ≡ some g
    → (changed : Groups) × (change f agent groups ≡ some changed)
      × (group_of agent changed ≡ some (f g))
unfolding change group_of
change_there f agent [] g e = cc
change_there f agent ((name, group) ∷ groups) g e = elim (Bool-cases (text_eq name agent)) [
  | inl here ↦
      let same : some group ≡ some g = rw here at e in
      let is_held : group ≡ g = cc in
      ((name, f group) ∷ groups, rw here refl, rw here (ap (λ (t : Group). some (f t)) is_held))
  | inr further ↦
      let e' : group_of agent groups ≡ some g = rw (further, group_of) at e in
      let (changed, done, found) = change_there f agent groups g e' in
      ((name, group) ∷ changed, rw (further, done) refl, rw further found)
]
