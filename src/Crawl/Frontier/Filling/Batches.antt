-- ===== src/Crawl/Frontier/Filling/Batches.antt =====
-- A batch of candidates as a whole: what is queued, counted and rejected.
use mathlib.Core.Path.{subst}
use aedifex.Prelude.{
  ℕ, ◌+◌, ◌≤◌, ◌≡◌, ◌⊎◌, inl, inr, true, false, Option, List, [], ◌∷◌, ◌++◌, ◌==◌, ==_iff, arith,
  In, Bool-cases, length, length-append,
}
use aedifex.Prelude.Text.{Text}
use aedifex.Crawl.Frontier.{DiscoveredUrl, FrontierQueue}
use aedifex.Crawl.Frontier.Filling.{Candidate, Batch, has_digest, is_known, new_row, insert_batch}
use aedifex.Crawl.Frontier.Filling.Uniqueness.{
  IsUnique, is_known_append, is_known_last, append-IsUnique,
}

In-append_one :
    (r row : DiscoveredUrl) (table : List DiscoveredUrl) → In r table → In r (table ++ row ∷ [])
In-append_one r row [] i = absurd i
In-append_one r row (t ∷ table) (inl e) = inl e
In-append_one r row (t ∷ table) (inr i) = inr (In-append_one r row table i)

-- What an insertion of a batch does to the table, with `n` rows inserted before.
pub record IsInserted (source n : ℕ) (batch : Batch) (table after : List DiscoveredUrl)
    (inserted : ℕ) : Type 0 where
  pub unique : IsUnique table → IsUnique after
  pub grown : length after + n ≡ length table + inserted
  pub least : n ≤ inserted
  pub most : inserted ≤ n + length batch
  pub kept : (s d : ℕ) → is_known s d table ≡ true → is_known s d after ≡ true
  pub rows : (r : DiscoveredUrl) → In r table → In r after
  pub known : (d : ℕ) → has_digest d batch ≡ true → is_known source d after ≡ true

has_digest_cons :
    (d digest : ℕ) (candidate : Candidate) (batch : Batch)
    → has_digest d ((digest, candidate) ∷ batch) ≡ true
    → (digest ≡ d) ⊎ (has_digest d batch ≡ true)
unfolding has_digest
has_digest_cons d digest candidate batch h = elim (Bool-cases (digest == d)) [
  | inl here ↦ inl ((==_iff digest d).0 here)
  | inr further ↦ inr (rw (further, has_digest) at h)
]

skipped-IsInserted :
    (source n digest : ℕ) (candidate : Candidate) (batch : Batch) (table after : List DiscoveredUrl)
    (inserted : ℕ)
    → is_known source digest table ≡ true
    → IsInserted source n batch table after inserted
    → IsInserted source n ((digest, candidate) ∷ batch) table after inserted
skipped-IsInserted source n digest candidate batch table after inserted held h = record {
  unique = h.unique;
  grown = h.grown;
  least = h.least;
  most = omega (arith, h.most);
  kept = h.kept;
  rows = h.rows;
  known = λ d has. elim (has_digest_cons d digest candidate batch has) [
    | inl e ↦ h.kept source d (subst (λ (t : ℕ). is_known source t table ≡ true) e held)
    | inr later ↦ h.known d later
  ];
}

added-IsInserted :
    (n : ℕ) (row : DiscoveredUrl) (candidate : Candidate) (batch : Batch)
    (table after : List DiscoveredUrl) (inserted : ℕ)
    → is_known row.source_id row.url_digest table ≡ false
    → IsInserted row.source_id (n + 1) batch (table ++ row ∷ []) after inserted
    → IsInserted row.source_id n ((row.url_digest, candidate) ∷ batch) table after inserted
added-IsInserted n row candidate batch table after inserted new h = record {
  unique = λ u. h.unique (append-IsUnique table row u new);
  grown = omega (arith, h.grown, length-append table (row ∷ []));
  least = omega (arith, h.least);
  most = omega (arith, h.most);
  kept = λ s d held. h.kept s d (is_known_append s d table row held);
  rows = λ r i. h.rows r (In-append_one r row table i);
  known = λ d has. elim (has_digest_cons d row.url_digest candidate batch has) [
    | inl e ↦ h.kept row.source_id d (
        subst (λ (t : ℕ). is_known row.source_id t (table ++ row ∷ []) ≡ true) e
          (is_known_last table row))
    | inr later ↦ h.known d later
  ];
}

module _ (fresh_id : ℕ → ℕ) (now : ℕ) (q : FrontierQueue) (canonical_url : Text → Option Text)
    (url_digest : Text → ℕ) where
  abbrev pub inserted : ℕ → Batch → List DiscoveredUrl → List DiscoveredUrl × ℕ
  inserted n batch table = insert_batch canonical_url url_digest fresh_id now q n batch table

  pub insert_batch-IsInserted :
      (n : ℕ) (batch : Batch) (table : List DiscoveredUrl)
      → IsInserted q.source_id n batch table (inserted n batch table).0 (inserted n batch table).1
  unfolding insert_batch has_digest
  insert_batch-IsInserted n [] table = record {
    unique = λ u. u;
    grown = omega arith;
    least = omega arith;
    most = omega arith;
    kept = λ s d h. h;
    rows = λ r i. i;
    known = λ d h. cc;
  }
  insert_batch-IsInserted n ((digest, candidate) ∷ batch) table =
      elim (Bool-cases (is_known q.source_id digest table)) [
        | inl held ↦
            rw (held, insert_batch)
              (skipped-IsInserted q.source_id n digest candidate batch table _ _ held
                (insert_batch-IsInserted n batch table))
        | inr new ↦
            let row =
              new_row canonical_url url_digest fresh_id now q (fresh_id n) digest candidate in
            rw (new, insert_batch)
              (added-IsInserted n row candidate batch table _ _ new
                (insert_batch-IsInserted (n + 1) batch (table ++ row ∷ [])))
      ]
