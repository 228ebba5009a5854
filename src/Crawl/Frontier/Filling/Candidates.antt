-- ===== src/Crawl/Frontier/Filling/Candidates.antt =====
-- The loop over the candidates, and `enqueue` as a whole.
use mathlib.Core.Path.{subst}
use aedifex.Prelude.{
  ℕ, ◌+◌, ◌≤◌, ◌≡◌, refl, sym, ap, ◌∙◌, inl, inr, true, Option, none, some, List, [], ◌∷◌, ◌++◌,
  ◌==◌, ==_iff, arith, In, Bool-cases, Option-cases, length, length-append, if◌then◌else◌,
}
use aedifex.Prelude.Text.{Text}
use aedifex.Crawl.Frontier.{DiscoveredUrl, FrontierQueue}
use aedifex.Crawl.Frontier.Filling.{
  Candidate, EnqueueResult, Batch, has_digest, is_known, gather, insert_batch, enqueue,
}
use aedifex.Crawl.Frontier.Filling.Uniqueness.{IsUnique}
use aedifex.Crawl.Frontier.Filling.Batches.{insert_batch-IsInserted}

has_digest_append :
    (d : ℕ) (batch : Batch) (entry : ℕ × Candidate)
    → has_digest d batch ≡ true
    → has_digest d (batch ++ entry ∷ []) ≡ true
unfolding has_digest
has_digest_append d [] entry h = cc
has_digest_append d ((digest, candidate) ∷ batch) entry h = elim (Bool-cases (digest == d)) [
  | inl here ↦ rw here refl
  | inr further ↦
      let h' : has_digest d batch ≡ true = rw (further, has_digest) at h in
      rw further (has_digest_append d batch entry h')
]

has_digest_last :
    (d : ℕ) (candidate : Candidate) (batch : Batch)
    → has_digest d (batch ++ (d, candidate) ∷ []) ≡ true
unfolding has_digest
has_digest_last d candidate [] = rw ((==_iff d d).1 refl) refl
has_digest_last d candidate ((digest, c) ∷ batch) =
    rw (has_digest_last d candidate batch) (ground arith)

In-append_url : (u v : Text) (urls : List Text) → In u urls → In u (urls ++ v ∷ [])
In-append_url u v [] i = absurd i
In-append_url u v (w ∷ urls) (inl e) = inl e
In-append_url u v (w ∷ urls) (inr i) = inr (In-append_url u v urls i)

In-last_url : (v : Text) (urls : List Text) → In v (urls ++ v ∷ [])
In-last_url v [] = inl refl
In-last_url v (w ∷ urls) = inr (In-last_url v urls)

same_text : (a b : Text) → some a ≡ some b → a ≡ b
same_text a b e = cc

module _ (canonical_url : Text → Option Text) (url_digest : Text → ℕ) where
  -- What the loop leaves of the candidates.
  record IsGathered (batch : Batch) (rejected : List Text) (candidates : List Candidate)
      (batch' : Batch) (rejected' : List Text) : Type 0 where
    counts : length batch' + length rejected' ≤ length batch + length rejected + length candidates
    kept : (d : ℕ) → has_digest d batch ≡ true → has_digest d batch' ≡ true
    kept_urls : (u : Text) → In u rejected → In u rejected'
    found :
        (c : Candidate) (url : Text)
        → In c candidates
        → canonical_url c.url ≡ some url
        → has_digest (url_digest url) batch' ≡ true
    refused : (c : Candidate) → In c candidates → canonical_url c.url ≡ none → In c.url rejected'

  next_batch : Batch → Text → Candidate → Batch
  next_batch batch url candidate =
      if has_digest (url_digest url) batch then batch else batch ++ (url_digest url, candidate) ∷ []

  next_batch_has :
      (batch : Batch) (url : Text) (candidate : Candidate)
      → (has_digest (url_digest url) (next_batch batch url candidate) ≡ true)
        × ((d : ℕ)
            → has_digest d batch ≡ true
            → has_digest d (next_batch batch url candidate) ≡ true)
        × (length (next_batch batch url candidate) ≤ length batch + 1)
  unfolding next_batch
  next_batch_has batch url candidate = elim (Bool-cases (has_digest (url_digest url) batch)) [
    | inl has ↦ rw has (has, (λ d h. h), omega arith)
    | inr new ↦ rw new (
      has_digest_last (url_digest url) candidate batch,
      (λ d h. has_digest_append d batch (url_digest url, candidate) h),
      omega (arith, length-append batch ((url_digest url, candidate) ∷ [])),
    )
  ]

  rejected-IsGathered :
      (batch : Batch) (rejected : List Text) (candidate : Candidate) (candidates : List Candidate)
      (batch' : Batch) (rejected' : List Text)
      → canonical_url candidate.url ≡ none
      → IsGathered batch (rejected ++ candidate.url ∷ []) candidates batch' rejected'
      → IsGathered batch rejected (candidate ∷ candidates) batch' rejected'
  rejected-IsGathered batch rejected candidate candidates batch' rejected' off h = record {
    counts = omega (arith, h.counts, length-append rejected (candidate.url ∷ []));
    kept = h.kept;
    kept_urls = λ u i. h.kept_urls u (In-append_url u candidate.url rejected i);
    found = λ c url i e. elim i [
      | inl same ↦
          let e' : canonical_url candidate.url ≡ some url =
            subst (λ (t : Candidate). canonical_url t.url ≡ some url) (sym same) e in
          cc
      | inr j ↦ h.found c url j e
    ];
    refused = λ c i e. elim i [
      | inl same ↦
          subst (λ (t : Candidate). In t.url rejected') same
            (h.kept_urls candidate.url (In-last_url candidate.url rejected))
      | inr j ↦ h.refused c j e
    ];
  }

  queued-IsGathered :
      (batch : Batch) (rejected : List Text) (url : Text) (candidate : Candidate)
      (candidates : List Candidate) (batch' : Batch) (rejected' : List Text)
      → canonical_url candidate.url ≡ some url
      → IsGathered (next_batch batch url candidate) rejected candidates batch' rejected'
      → IsGathered batch rejected (candidate ∷ candidates) batch' rejected'
  queued-IsGathered batch rejected url candidate candidates batch' rejected' reads h =
      let (has, keeps, few) = next_batch_has batch url candidate in
      record {
        counts = omega (arith, h.counts, few);
        kept = λ d e. h.kept d (keeps d e);
        kept_urls = h.kept_urls;
        found = λ c url' i e. elim i [
          | inl same ↦
              let e' : canonical_url candidate.url ≡ some url' =
                subst (λ (t : Candidate). canonical_url t.url ≡ some url') (sym same) e in
              let same_url = same_text url url' (sym reads ∙ e') in
              subst (λ (t : Text). has_digest (url_digest t) batch' ≡ true) same_url
                (h.kept (url_digest url) has)
          | inr j ↦ h.found c url' j e
        ];
        refused = λ c i e. elim i [
          | inl same ↦
              let e' : canonical_url candidate.url ≡ none =
                subst (λ (t : Candidate). canonical_url t.url ≡ none) (sym same) e in
              cc
          | inr j ↦ h.refused c j e
        ];
      }

  gather-IsGathered :
      (batch : Batch) (rejected : List Text) (candidates : List Candidate)
      → IsGathered batch rejected candidates
          (gather canonical_url url_digest batch rejected candidates).0
          (gather canonical_url url_digest batch rejected candidates).1
  unfolding gather next_batch
  gather-IsGathered batch rejected [] = record {
    counts = omega arith;
    kept = λ d h. h;
    kept_urls = λ u i. i;
    found = λ c url i e. absurd i;
    refused = λ c i e. absurd i;
  }
  gather-IsGathered batch rejected (candidate ∷ candidates) =
      elim (Option-cases (canonical_url candidate.url)) [
        | inl off ↦
            let rest = gather-IsGathered batch (rejected ++ candidate.url ∷ []) candidates in
            rw (off, gather) (rejected-IsGathered batch rejected candidate candidates _ _ off rest)
        | inr (url, reads) ↦
            let rest = gather-IsGathered (next_batch batch url candidate) rejected candidates in
            rw (reads, gather)
              (queued-IsGathered batch rejected url candidate candidates _ _ reads rest)
      ]

  -- What `enqueue` promises of its result and of the table that it leaves.
  pub record IsFilled (source : ℕ) (candidates : List Candidate) (table : List DiscoveredUrl)
      (result : EnqueueResult) (after : List DiscoveredUrl) : Type 0 where
    pub unique : IsUnique table → IsUnique after
    pub rows : (r : DiscoveredUrl) → In r table → In r after
    pub grown : length after ≡ length table + result.accepted
    pub counts : result.accepted + result.duplicates + length result.rejected ≤ length candidates
    pub queued :
        (c : Candidate) (url : Text)
        → In c candidates
        → canonical_url c.url ≡ some url
        → is_known source (url_digest url) after ≡ true
    pub refused :
        (c : Candidate) → In c candidates → canonical_url c.url ≡ none → In c.url result.rejected

  module _ (fresh_id : ℕ → ℕ) (now : ℕ) (q : FrontierQueue) where
    -- Queueing keeps every row and the unique constraint, adds as many rows as it says, accounts
    -- for no candidate twice, leaves a row for each URL that is in order, and reports each that is
    -- not.
    pub enqueue-IsFilled :
        (candidates : List Candidate) (table : List DiscoveredUrl)
        → IsFilled q.source_id candidates table
            (enqueue canonical_url url_digest fresh_id now q candidates table).0
            (enqueue canonical_url url_digest fresh_id now q candidates table).1
    unfolding enqueue
    enqueue-IsFilled candidates table =
        let g = gather-IsGathered [] [] candidates in
        let batch = (gather canonical_url url_digest [] [] candidates).0 in
        let h = insert_batch-IsInserted fresh_id now q canonical_url url_digest 0 batch table in
        record {
          unique = h.unique;
          rows = h.rows;
          grown = omega (arith, h.grown);
          counts = omega (arith, h.most, g.counts);
          queued = λ c url i e. h.known (url_digest url) (g.found c url i e);
          refused = g.refused;
        }

    insert_batch_known :
        (n : ℕ) (batch : Batch) (table : List DiscoveredUrl)
        → ((d : ℕ) → has_digest d batch ≡ true → is_known q.source_id d table ≡ true)
        → insert_batch canonical_url url_digest fresh_id now q n batch table ≡ (table, n)
    unfolding insert_batch has_digest
    insert_batch_known n [] table h = refl
    insert_batch_known n ((digest, candidate) ∷ batch) table h =
        let first : is_known q.source_id digest table ≡ true =
          h digest (rw ((==_iff digest digest).1 refl) refl) in
        rw (first, insert_batch)
          (insert_batch_known n batch table (λ d has.
            h d (elim (Bool-cases (digest == d)) [ inl e ↦ rw e refl | inr e ↦ rw e has ])))

  -- The same candidates once more, at any later time, add nothing and change nothing.
  pub enqueue_idem :
      (fresh_id fresh_id' : ℕ → ℕ) (now later : ℕ) (q : FrontierQueue) (candidates : List Candidate)
      (table : List DiscoveredUrl)
      → ((enqueue canonical_url url_digest fresh_id' later q candidates
            (enqueue canonical_url url_digest fresh_id now q candidates table).1).0.accepted
          ≡ 0)
        × ((enqueue canonical_url url_digest fresh_id' later q candidates
              (enqueue canonical_url url_digest fresh_id now q candidates table).1).1
            ≡ (enqueue canonical_url url_digest fresh_id now q candidates table).1)
  unfolding enqueue
  enqueue_idem fresh_id fresh_id' now later q candidates table =
      let batch = (gather canonical_url url_digest [] [] candidates).0 in
      let h = insert_batch-IsInserted fresh_id now q canonical_url url_digest 0 batch table in
      let after = (insert_batch canonical_url url_digest fresh_id now q 0 batch table).0 in
      let same = insert_batch_known fresh_id' later q 0 batch after h.known in
      (ap (λ (t : List DiscoveredUrl × ℕ). t.1) same, ap (λ (t : List DiscoveredUrl × ℕ). t.0) same)
