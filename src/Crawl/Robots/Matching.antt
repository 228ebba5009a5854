-- ===== src/Crawl/Robots/Matching.antt =====
-- What a pattern of robots.txt stands for.
use mathlib.Core.Bool.{false≢true}
use mathlib.Core.Path.{subst}
use aedifex.Prelude.{
  ℕ, ◌≡◌, refl, sym, ap, ◌∙◌, ◌⊎◌, inl, inr, ◌↔◌, ◌≢◌, Bool, true, false, [], ◌∷◌, ◌++◌, ◌==◌,
  ==_iff, arith, Bool-cases, if◌then◌else◌,
}
use aedifex.Prelude.Text.{Text}
use aedifex.Crawl.Robots.{
  Rule, is_anchored, body_of, is_empty, some_end, literal_then, matches_body, matches,
}

-- `s` is what the pattern stands for, then anything, or nothing where the pattern is anchored.
-- A `*` stands for any text.
abbrev pub Stands : Bool → Text → Text → Type 0
Stands anchored [] s = if anchored then s ≡ [] else Unit
Stands anchored (c ∷ p) s =
    ((c ≡ b'*') × (skipped : Text) × (rest : Text) × (s ≡ skipped ++ rest) × Stands anchored p rest)
    ⊎ ((c ≢ b'*') × (rest : Text) × (s ≡ c ∷ rest) × Stands anchored p rest)

some_end-split :
    (test : Text → Bool) (s : Text)
    → some_end test s ≡ true
    → (skipped : Text) × (rest : Text) × (s ≡ skipped ++ rest) × (test rest ≡ true)
unfolding some_end
some_end-split test [] h = ([], [], refl, h)
some_end-split test (c ∷ s) h = elim (Bool-cases (test (c ∷ s))) [
  | inl here ↦ ([], c ∷ s, refl, here)
  | inr later ↦
      let h' : some_end test s ≡ true = rw (later, some_end) at h in
      let (skipped, rest, e, passes) = some_end-split test s h' in
      (c ∷ skipped, rest, ap (λ (t : Text). c ∷ t) e, passes)
]

split-some_end :
    (test : Text → Bool) (skipped rest : Text)
    → test rest ≡ true
    → some_end test (skipped ++ rest) ≡ true
unfolding some_end
split-some_end test [] [] h = h
split-some_end test [] (c ∷ rest) h = rw h refl
split-some_end test (c ∷ skipped) rest h = rw (split-some_end test skipped rest h) (ground arith)

literal-split :
    (test : Text → Bool) (c : ℕ) (s : Text)
    → literal_then test c s ≡ true
    → (rest : Text) × (s ≡ c ∷ rest) × (test rest ≡ true)
unfolding literal_then
literal-split test c [] h = cc
literal-split test c (d ∷ s) h =
    let same : d ≡ c = ground arith in (s, ap (λ (t : ℕ). t ∷ s) same, ground arith)

split-literal :
    (test : Text → Bool) (c : ℕ) (rest : Text)
    → test rest ≡ true
    → literal_then test c (c ∷ rest) ≡ true
unfolding literal_then
split-literal test c rest h = rw ((==_iff c c).1 refl, h) refl

matches_body-Stands :
    (anchored : Bool) (p s : Text) → matches_body anchored p s ≡ true → Stands anchored p s
unfolding matches_body
matches_body-Stands true [] [] h = refl
matches_body-Stands true [] (c ∷ s) h = cc
matches_body-Stands false [] s h = tt
matches_body-Stands anchored (c ∷ p) s h = elim (Bool-cases (c == b'*')) [
  | inl star ↦
      let h' : some_end (matches_body anchored p) s ≡ true = rw (star, matches_body) at h in
      let (skipped, rest, e, passes) = some_end-split (matches_body anchored p) s h' in
      inl ((==_iff c b'*').0 star, skipped, rest, e, matches_body-Stands anchored p rest passes)
  | inr literal ↦
      let h' : literal_then (matches_body anchored p) c s ≡ true =
        rw (literal, matches_body) at h in
      let (rest, e, passes) = literal-split (matches_body anchored p) c s h' in
      let other : c ≢ b'*' = λ same. false≢true (sym literal ∙ (==_iff c b'*').1 same) in
      inr (other, rest, e, matches_body-Stands anchored p rest passes)
]

Stands-matches_body :
    (anchored : Bool) (p s : Text) → Stands anchored p s → matches_body anchored p s ≡ true
unfolding matches_body
Stands-matches_body true [] s e = subst (λ (t : Text). is_empty t ≡ true) (sym e) refl
Stands-matches_body false [] s tt = refl
Stands-matches_body anchored (c ∷ p) s (inl (star, skipped, rest, e, stands)) =
    let passes = Stands-matches_body anchored p rest stands in
    let found = split-some_end (matches_body anchored p) skipped rest passes in
    rw ((==_iff c b'*').1 star, e) found
Stands-matches_body anchored (c ∷ p) s (inr (other, rest, e, stands)) =
    let passes = Stands-matches_body anchored p rest stands in
    let literal : (c == b'*') ≡ false = ground arith in
    rw (literal, e) (split-literal (matches_body anchored p) c rest passes)

-- A rule applies to exactly the targets that its pattern stands for: each `*` is any text, a last
-- `$` is the end, any other character is itself, and what follows the pattern is free without `$`.
pub matches-Stands :
    (rule : Rule) (target : Text)
    → (matches rule target ≡ true) ↔ Stands (is_anchored rule.pattern) (body_of rule.pattern) target
unfolding matches
matches-Stands rule target = (
  matches_body-Stands (is_anchored rule.pattern) (body_of rule.pattern) target,
  Stands-matches_body (is_anchored rule.pattern) (body_of rule.pattern) target,
)
