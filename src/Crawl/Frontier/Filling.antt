-- ===== src/Crawl/Frontier/Filling.antt =====
-- src/aedifex/acquisition/crawl/frontier.py, FrontierQueue.enqueue: what a batch of candidates adds.
-- `canonical_url`, with `none` where it raises, and the digest are parameters, as are the ids of new
-- rows and the time of the statement. `discovered_via` and the job only describe a row.
pub mod Uniqueness
pub mod Batches
pub mod Candidates
use aedifex.Prelude.{
  ℕ, zero, suc, ◌+◌, ◌-◌, Bool, true, false, ◌&&◌, Option, none, some, List, [], ◌∷◌, ◌++◌, ◌==◌,
  if◌then◌else◌, length, any_of,
}
use aedifex.Prelude.Text.{Text}
use aedifex.Domain.Documents.{discovered}
use aedifex.Crawl.Frontier.{DiscoveredUrl, FrontierQueue}

pub record Candidate : Type 0 where
  pub url : Text
  pub depth : ℕ

pub record EnqueueResult : Type 0 where
  pub accepted : ℕ
  pub duplicates : ℕ
  pub rejected : List Text

abbrev pub Batch : Type 0
Batch = List (ℕ × Candidate)

-- `digest in batch`
unfoldable pub has_digest : ℕ → Batch → Bool
has_digest digest [] = false
has_digest digest ((d, c) ∷ batch) =
    let rest = has_digest digest batch in if d == digest then true else rest

-- a row of the table stands for the source's URL with this digest: the unique constraint
unfoldable pub is_known : ℕ → ℕ → List DiscoveredUrl → Bool
is_known source digest [] = false
is_known source digest (row ∷ table) =
    let rest = is_known source digest table in
    if row.source_id == source && row.url_digest == digest then true else rest

module _ (canonical_url : Text → Option Text) (url_digest : Text → ℕ) where
  -- the loop over the candidates: the batch, and the URLs that are rejected
  unfoldable pub gather : Batch → List Text → List Candidate → Batch × List Text
  unfolding has_digest
  gather batch rejected [] = (batch, rejected)
  gather batch rejected (candidate ∷ candidates) = elim (canonical_url candidate.url) [
    | none ↦ gather batch (rejected ++ candidate.url ∷ []) candidates
    | some url ↦
        gather
          (if has_digest (url_digest url) batch
            then batch
            else batch ++ (url_digest url, candidate) ∷ [])
          rejected candidates
  ]

  module _ (fresh_id : ℕ → ℕ) (now : ℕ) (q : FrontierQueue) where
    abbrev pub new_row : ℕ → ℕ → Candidate → DiscoveredUrl
    new_row id digest candidate = record {
      id = id;
      source_id = q.source_id;
      url_digest = digest;
      state = discovered;
      depth = candidate.depth;
      discovered_at = now;
      attempts = 0;
      lease_owner = none;
      lease_expires_at = none;
      next_attempt_after = none;
      dead_lettered_at = none;
    }

    -- `INSERT ... ON CONFLICT DO NOTHING`, row by row, with the number of rows inserted so far
    unfoldable pub insert_batch : ℕ → Batch → List DiscoveredUrl → List DiscoveredUrl × ℕ
    unfolding is_known
    insert_batch n [] table = (table, n)
    insert_batch n ((digest, candidate) ∷ batch) table =
        let known = is_known q.source_id digest table in
        insert_batch (if known then n else n + 1) batch
          (if known then table else table ++ new_row (fresh_id n) digest candidate ∷ [])

    -- `enqueue`; a batch without rows inserts none
    unfoldable pub enqueue :
        List Candidate → List DiscoveredUrl → EnqueueResult × List DiscoveredUrl
    unfolding gather insert_batch
    enqueue candidates table =
        let (batch, rejected) = gather [] [] candidates in
        let (filled, inserted) = insert_batch 0 batch table in
        (
          record { accepted = inserted; duplicates = length batch - inserted; rejected = rejected },
          filled,
        )
