-- ===== src/Tests/RobotsGate.antt =====
-- Tests of Crawl.RobotsGate.
use aedifex.Prelude.{ℕ, ◌≡◌, refl, true, Option, none, List, [], ◌∷◌}
use aedifex.Prelude.Text.{Text, codes, text_eq}
use aedifex.Crawl.RobotsGate.{RobotsGate, FetchResult, answered, SplitUrl, target_of}

abbrev no_delays : Text → Option ℕ
no_delays value = none

abbrev as_ascii : List ℕ → Text
as_ascii bytes = bytes

abbrev page : SplitUrl
page = record { scheme = codes "https"; netloc = codes "a.in"; path = codes "/x"; query = [] }

abbrev other_page : SplitUrl
other_page = record page { path = codes "/y"; query = codes "n=1" }

abbrev new_gate : RobotsGate
new_gate = record { respect = true; user_agent = codes "bot"; cache = [] }

abbrev plain_file : FetchResult
plain_file = answered (record {
  content_type = codes "text/plain";
  chunks = codes "User-agent: *" ∷ (10 ∷ codes "Allow: /") ∷ [];
})

target_run : target_of other_page ≡ codes "/y?n=1"
unfolding target_of text_eq
target_run = refl
