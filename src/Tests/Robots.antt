-- ===== src/Tests/Robots.antt =====
-- Tests of Crawl.Robots.
use aedifex.Prelude.{◌*◌, ◌≡◌, refl, inl, inr, ◌↔◌, true, false, some, List, [], ◌∷◌, In}
use aedifex.Prelude.Text.{codes}
use aedifex.Fetch.Timing.{second}
use aedifex.Fetch.RateLimit.{RateLimits}
use aedifex.Crawl.Robots.{
  Rule, allowed, disallowed, matches, is_anchored, body_of, is_empty, some_end, literal_then,
  matches_body, specificity, outranks, beats, best_of, decide, polite_limits,
}
use aedifex.Crawl.Robots.Matching.{Stands, matches-Stands}
use aedifex.Crawl.Robots.Decision.{IsRefused, decide-disallowed_iff}

abbrev no_docs : Rule
no_docs = record { allow = false; pattern = codes "/docs" }

abbrev public_docs : Rule
public_docs = record { allow = true; pattern = codes "/docs/open" }

abbrev no_pdf : Rule
no_pdf = record { allow = false; pattern = codes "/*.pdf$" }

abbrev site_rules : List Rule
site_rules = no_docs ∷ public_docs ∷ no_pdf ∷ []

abbrev other_order : List Rule
other_order = no_pdf ∷ public_docs ∷ no_docs ∷ []

closed_run : (decide site_rules (codes "/docs/a")).verdict ≡ disallowed
unfolding decide best_of beats outranks specificity matches matches_body is_anchored body_of
    is_empty some_end literal_then
closed_run = refl

open_run : (decide site_rules (codes "/docs/open/a.pdf")).verdict ≡ allowed
unfolding decide best_of beats outranks specificity matches matches_body is_anchored body_of
    is_empty some_end literal_then
open_run = refl

pdf_run : (decide site_rules (codes "/x/a.pdf")).verdict ≡ disallowed
unfolding decide best_of beats outranks specificity matches matches_body is_anchored body_of
    is_empty some_end literal_then
pdf_run = refl

matches-Stands_example :
    (matches no_pdf (codes "/x/a.pdf") ≡ true)
    ↔ Stands (is_anchored no_pdf.pattern) (body_of no_pdf.pattern) (codes "/x/a.pdf")
matches-Stands_example = matches-Stands no_pdf (codes "/x/a.pdf")

decide-disallowed_iff_example :
    ((decide site_rules (codes "/docs/a")).verdict ≡ disallowed)
    ↔ IsRefused site_rules (codes "/docs/a")
decide-disallowed_iff_example = decide-disallowed_iff site_rules (codes "/docs/a")

same_rules : (r : Rule) → In r site_rules ↔ In r other_order
same_rules r = (
  λ i. elim i [
    | inl e ↦ inr (inr (inl e))
    | inr (inl e) ↦ inr (inl e)
    | inr (inr (inl e)) ↦ inl e
    | inr (inr (inr ends)) ↦ absurd ends
  ],
  λ i. elim i [
    | inl e ↦ inr (inr (inl e))
    | inr (inl e) ↦ inr (inl e)
    | inr (inr (inl e)) ↦ inl e
    | inr (inr (inr ends)) ↦ absurd ends
  ],
)

abbrev source_limits : RateLimits
source_limits = record {
  requests_per_minute = 30;
  max_concurrency = 4;
  min_delay_seconds = 2 * second;
}

slower_run :
    polite_limits source_limits (some (10 * second))
    ≡ some
        (record { requests_per_minute = 6; max_concurrency = 1; min_delay_seconds = 10 * second })
unfolding polite_limits
slower_run = refl
