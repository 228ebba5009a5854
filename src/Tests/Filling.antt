-- ===== src/Tests/Filling.antt =====
-- Tests of Crawl.Frontier.Filling.
use aedifex.Prelude.{ℕ, ◌+◌, ◌≡◌, refl, Option, none, some, List, [], ◌∷◌, length, if◌then◌else◌}
use aedifex.Prelude.Text.{Text, codes, starts_with}
use aedifex.Crawl.Frontier.{FrontierQueue}
use aedifex.Crawl.Frontier.Filling.{Candidate, has_digest, is_known, gather, insert_batch, enqueue}
use aedifex.Crawl.Frontier.Filling.Candidates.{IsFilled, enqueue-IsFilled}

abbrev source_queue : FrontierQueue
source_queue = record { source_id = 1; worker = 7; lease = 60; max_attempts = 2 }

abbrev as_given : Text → Option Text
as_given url = if starts_with (codes "https:") url then some url else none

abbrev by_length : Text → ℕ
by_length url = length url

abbrev numbered : ℕ → ℕ
numbered n = 100 + n

abbrev found_links : List Candidate
found_links =
    record { url = codes "https://a"; depth = 1 }
    ∷ record { url = codes "ftp://a"; depth = 1 }
    ∷ record { url = codes "https://b"; depth = 2 }
    ∷ record { url = codes "https://long"; depth = 2 }
    ∷ []

enqueue_run :
    (enqueue as_given by_length numbered 50 source_queue found_links []).0
    ≡ record { accepted = 2; duplicates = 0; rejected = codes "ftp://a" ∷ [] }
unfolding enqueue gather has_digest insert_batch is_known starts_with
enqueue_run = refl

enqueue-IsFilled_example :
    IsFilled as_given by_length 1 found_links []
      (enqueue as_given by_length numbered 50 source_queue found_links []).0
      (enqueue as_given by_length numbered 50 source_queue found_links []).1
enqueue-IsFilled_example =
    enqueue-IsFilled as_given by_length numbered 50 source_queue found_links []
