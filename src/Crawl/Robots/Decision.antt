-- ===== src/Crawl/Robots/Decision.antt =====
-- The rule that decides is the most specific one, and Allow wins where two are equally specific.
use mathlib.Core.Path.{subst}
use aedifex.Prelude.{
  ℕ, suc, ◌*◌, ◌≤◌, ◌<◌, ◌≡◌, refl, sym, ◌∙◌, ◌⊎◌, inl, inr, ◌↔◌, true, false, ◌&&◌, Option, none,
  some, List, [], ◌∷◌, arith, In, Bool-cases, Option-cases, if◌then◌else◌,
}
use aedifex.Prelude.Text.{Text}
use aedifex.Crawl.Robots.{
  Rule, RobotsVerdict, allowed, disallowed, matches, specificity, outranks, beats, best_of, decide,
}

-- The rank of a rule: its specificity, with Allow above Disallow where they are the same.
abbrev pub rank : Rule → ℕ
rank r = if r.allow then suc (specificity r * 2) else specificity r * 2

outranks_iff : (a b : Rule) → (outranks a b ≡ true) ↔ (rank b < rank a)
unfolding outranks
outranks_iff a b = ground arith

-- What the loop ends with, from the incumbent that it starts with.
record IsBest (target : Text) (rules : List Rule) (start : Option Rule) (best : Rule) : Type 0 where
  origin : (start ≡ some best) ⊎ (In best rules × (matches best target ≡ true))
  top : (r : Rule) → In r rules → matches r target ≡ true → rank r ≤ rank best
  above : (r : Rule) → start ≡ some r → rank r ≤ rank best

step-rank :
    (target : Text) (start : Option Rule) (rule : Rule)
    → matches rule target ≡ true
    → beats rule start ≡ false
    → (r : Rule) × (start ≡ some r) × (rank rule ≤ rank r)
unfolding beats
step-rank target none rule m h = cc
step-rank target (some r) rule m h = (r, refl, ground (arith, outranks_iff rule r))

beaten_by_none :
    (target : Text) (start : Option Rule) (rule : Rule)
    → matches rule target && beats rule start ≡ false
    → start ≡ none
    → matches rule target ≡ false
unfolding beats
beaten_by_none target none rule h e = ground arith
beaten_by_none target (some r) rule h e = cc

same_some : (a b : Rule) → some a ≡ some b → a ≡ b
same_some a b e = cc

taken-IsBest :
    (target : Text) (start : Option Rule) (rule : Rule) (rules : List Rule) (best : Rule)
    → matches rule target ≡ true
    → ((r : Rule) → start ≡ some r → rank r ≤ rank rule)
    → IsBest target rules (some rule) best
    → IsBest target (rule ∷ rules) start best
taken-IsBest target start rule rules best m below h = record {
  origin = elim h.origin [
    | inl e ↦
        let same = same_some rule best e in
        inr (inl same, subst (λ (t : Rule). matches t target ≡ true) same m)
    | inr (i, hit) ↦ inr (inr i, hit)
  ];
  top = λ r i hit. elim i [
    | inl e ↦ subst (λ (t : Rule). rank t ≤ rank best) e (h.above rule refl)
    | inr j ↦ h.top r j hit
  ];
  above = λ r e. omega (arith, below r e, h.above rule refl);
}

kept-IsBest :
    (target : Text) (start : Option Rule) (rule : Rule) (rules : List Rule) (best : Rule)
    → (matches rule target ≡ true → (r : Rule) × (start ≡ some r) × (rank rule ≤ rank r))
    → IsBest target rules start best
    → IsBest target (rule ∷ rules) start best
kept-IsBest target start rule rules best beaten h = record {
  origin = elim h.origin [ inl e ↦ inl e | inr (i, hit) ↦ inr (inr i, hit) ];
  top = λ r i hit. elim i [
    | inl e ↦
        let (r', held, le) = beaten (subst (λ (t : Rule). matches t target ≡ true) (sym e) hit) in
        subst (λ (t : Rule). rank t ≤ rank best) e (omega (arith, le, h.above r' held))
    | inr j ↦ h.top r j hit
  ];
  above = h.above;
}

beats-rank :
    (start : Option Rule) (rule r : Rule)
    → beats rule start ≡ true
    → start ≡ some r
    → rank r ≤ rank rule
unfolding beats
beats-rank none rule r h e = cc
beats-rank (some s) rule r h e =
    let same = same_some s r e in
    subst (λ (t : Rule). rank t ≤ rank rule) same (ground (arith, outranks_iff rule s))

best_of-IsBest :
    (target : Text) (start : Option Rule) (rules : List Rule) (best : Rule)
    → best_of target start rules ≡ some best
    → IsBest target rules start best
unfolding best_of
best_of-IsBest target start [] best h = record {
  origin = inl h;
  top = λ r i m. absurd i;
  above = λ r e.
      let same = same_some r best (sym e ∙ h) in
      subst (λ (t : Rule). rank r ≤ rank t) same (omega arith);
}
best_of-IsBest target start (rule ∷ rules) best h =
    elim (Bool-cases (matches rule target && beats rule start)) [
      | inl taken ↦
          let h' : best_of target (some rule) rules ≡ some best = rw (taken, best_of) at h in
          let b : beats rule start ≡ true = ground arith in
          taken-IsBest target start rule rules best (ground arith)
            (λ r e. beats-rank start rule r b e) (best_of-IsBest target (some rule) rules best h')
      | inr passed ↦
          let h' : best_of target start rules ≡ some best = rw (passed, best_of) at h in
          kept-IsBest target start rule rules best
            (λ m. step-rank target start rule m (ground arith))
            (best_of-IsBest target start rules best h')
    ]

best_of-none :
    (target : Text) (start : Option Rule) (rules : List Rule)
    → best_of target start rules ≡ none
    → (start ≡ none) × ((r : Rule) → In r rules → matches r target ≡ false)
unfolding best_of
best_of-none target start [] h = (h, λ r i. absurd i)
best_of-none target start (rule ∷ rules) h =
    elim (Bool-cases (matches rule target && beats rule start)) [
      | inl taken ↦
          let h' : best_of target (some rule) rules ≡ none = rw (taken, best_of) at h in
          let (e, _) = best_of-none target (some rule) rules h' in cc
      | inr passed ↦
          let h' : best_of target start rules ≡ none = rw (passed, best_of) at h in
          let (free, rest) = best_of-none target start rules h' in
          let miss : matches rule target ≡ false = beaten_by_none target start rule passed free in
          (
            free,
            λ r i. elim i [
              | inl e ↦ subst (λ (t : Rule). matches t target ≡ false) e miss
              | inr j ↦ rest r j
            ],
          )
    ]

verdict_of_best :
    (rules : List Rule) (target : Text) (best : Rule)
    → best_of target none rules ≡ some best
    → ((decide rules target).verdict ≡ disallowed) ↔ (best.allow ≡ false)
unfolding decide
verdict_of_best rules target best h = ground arith

verdict_of_none :
    (rules : List Rule) (target : Text)
    → best_of target none rules ≡ none
    → (decide rules target).verdict ≡ allowed
unfolding decide
verdict_of_none rules target h = ground arith

-- A Disallow matches the target, and is more specific than every Allow that matches it.
abbrev pub IsRefused : List Rule → Text → Type 0
IsRefused rules target =
    (r : Rule) × In r rules
    × (matches r target ≡ true)
    × (r.allow ≡ false)
    × ((r' : Rule)
        → In r' rules
        → matches r' target ≡ true
        → r'.allow ≡ true
        → specificity r' < specificity r)

below_refusal :
    (a b : Rule)
    → b.allow ≡ false
    → a.allow ≡ true
    → rank a ≤ rank b
    → specificity a < specificity b
below_refusal a b refuses permits h = ground arith

IsBest-IsRefused :
    (rules : List Rule) (target : Text) (best : Rule)
    → best.allow ≡ false
    → IsBest target rules none best
    → IsRefused rules target
IsBest-IsRefused rules target best refuses h = elim h.origin [
  | inl e ↦ cc
  | inr (i, hit) ↦ (
    best,
    i,
    hit,
    refuses,
    λ r' i' hit' permits. below_refusal r' best refuses permits (h.top r' i' hit'),
  )
]

not_both :
    (r best : Rule)
    → r.allow ≡ false
    → best.allow ≡ true
    → rank r ≤ rank best
    → specificity best < specificity r
    → ⊥
not_both r best refuses permits above below = ground arith

IsRefused-IsBest :
    (rules : List Rule) (target : Text) (best : Rule)
    → IsRefused rules target
    → IsBest target rules none best
    → best.allow ≡ false
IsRefused-IsBest rules target best (r, i, hit, refuses, most) h = elim (Bool-cases best.allow) [
  | inr refuses' ↦ refuses'
  | inl permits ↦ elim h.origin [
    | inl e ↦ cc
    | inr (i', hit') ↦
        let above = h.top r i hit in
        let below = most best i' hit' permits in
        absurd (not_both r best refuses permits above below)
  ]
]

IsRefused-same :
    (rules rules' : List Rule) (target : Text)
    → ((r : Rule) → In r rules ↔ In r rules')
    → IsRefused rules target
    → IsRefused rules' target
IsRefused-same rules rules' target same (r, i, hit, refuses, most) =
    (r, (same r).0 i, hit, refuses, λ r' i' hit' permits. most r' ((same r').1 i') hit' permits)

same_verdict :
    (v w : RobotsVerdict)
    → (v ≡ disallowed → w ≡ disallowed)
    → (w ≡ disallowed → v ≡ disallowed)
    → v ≡ w
same_verdict allowed allowed f g = refl
same_verdict allowed disallowed f g = g refl
same_verdict disallowed allowed f g = sym (f refl)
same_verdict disallowed disallowed f g = refl

-- The target is refused for one reason only: a Disallow matches it that is more specific than every
-- Allow that matches it.
pub decide-disallowed_iff :
    (rules : List Rule) (target : Text)
    → ((decide rules target).verdict ≡ disallowed) ↔ IsRefused rules target
decide-disallowed_iff rules target = elim (Option-cases (best_of target none rules)) [
  | inl nothing ↦
      let (_, misses) = best_of-none target none rules nothing in
      let free = verdict_of_none rules target nothing in
      (λ e. cc, λ (r, i, hit, _, _). let miss = misses r i in cc)
  | inr (best, found) ↦
      let is_best = best_of-IsBest target none rules best found in
      let (to, from) = verdict_of_best rules target best found in
      (
        λ e. IsBest-IsRefused rules target best (to e) is_best,
        λ refused. from (IsRefused-IsBest rules target best refused is_best),
      )
]

-- The order in which the file gives its rules does not matter, nor do repeated rules: two lists of
-- the same rules refuse the same targets.
pub decide_unordered :
    (rules rules' : List Rule) (target : Text)
    → ((r : Rule) → In r rules ↔ In r rules')
    → (decide rules target).verdict ≡ (decide rules' target).verdict
decide_unordered rules rules' target same =
    let (to, from) = decide-disallowed_iff rules target in
    let (to', from') = decide-disallowed_iff rules' target in
    same_verdict (decide rules target).verdict (decide rules' target).verdict
      (λ e. from' (IsRefused-same rules rules' target same (to e)))
      (λ e. from (IsRefused-same rules' rules target (λ r. ((same r).1, (same r).0)) (to' e)))
