-- ===== src/Crawl/Frontier/Filling/Uniqueness.antt =====
-- What filling the queue keeps and adds.
use aedifex.Prelude.{
  ℕ, ◌≡◌, refl, inl, inr, true, false, ◌&&◌, List, [], ◌∷◌, ◌++◌, ◌==◌, arith, Bool-cases,
}
use aedifex.Crawl.Frontier.{DiscoveredUrl}
use aedifex.Crawl.Frontier.Filling.{is_known}

-- No two rows stand for the same URL of the same source.
abbrev pub IsUnique : List DiscoveredUrl → Type 0
IsUnique [] = Unit
IsUnique (row ∷ table) = (is_known row.source_id row.url_digest table ≡ false) × IsUnique table

pub is_known_append :
    (source digest : ℕ) (table : List DiscoveredUrl) (row : DiscoveredUrl)
    → is_known source digest table ≡ true
    → is_known source digest (table ++ row ∷ []) ≡ true
unfolding is_known
is_known_append source digest [] row h = cc
is_known_append source digest (r ∷ table) row h =
    elim (Bool-cases (r.source_id == source && r.url_digest == digest)) [
      | inl here ↦ rw here refl
      | inr further ↦
          let h' : is_known source digest table ≡ true = rw (further, is_known) at h in
          rw further (is_known_append source digest table row h')
    ]

pub is_known_last :
    (table : List DiscoveredUrl) (row : DiscoveredUrl)
    → is_known row.source_id row.url_digest (table ++ row ∷ []) ≡ true
unfolding is_known
is_known_last [] row =
    let same : row.source_id == row.source_id && row.url_digest == row.url_digest ≡ true =
      ground arith in
    rw same refl
is_known_last (r ∷ table) row = rw (is_known_last table row) (ground arith)

unknown_append :
    (source digest : ℕ) (table : List DiscoveredUrl) (row : DiscoveredUrl)
    → is_known source digest table ≡ false
    → row.source_id == source && row.url_digest == digest ≡ false
    → is_known source digest (table ++ row ∷ []) ≡ false
unfolding is_known
unknown_append source digest [] row h other = rw other refl
unknown_append source digest (r ∷ table) row h other =
    elim (Bool-cases (r.source_id == source && r.url_digest == digest)) [
      | inl here ↦ let e : true ≡ false = rw (here, is_known) at h in cc
      | inr further ↦
          let h' : is_known source digest table ≡ false = rw (further, is_known) at h in
          rw further (unknown_append source digest table row h' other)
    ]

pub append-IsUnique :
    (table : List DiscoveredUrl) (row : DiscoveredUrl)
    → IsUnique table
    → is_known row.source_id row.url_digest table ≡ false
    → IsUnique (table ++ row ∷ [])
unfolding is_known
append-IsUnique [] row u h = (refl, tt)
append-IsUnique (r ∷ table) row u h =
    elim (Bool-cases (r.source_id == row.source_id && r.url_digest == row.url_digest)) [
      | inl here ↦ let e : true ≡ false = rw (here, is_known) at h in cc
      | inr further ↦
          let h' : is_known row.source_id row.url_digest table ≡ false =
            rw (further, is_known) at h in
          let other : row.source_id == r.source_id && row.url_digest == r.url_digest ≡ false =
            ground arith in
          (
            unknown_append r.source_id r.url_digest table row u.0 other,
            append-IsUnique table row u.1 h',
          )
    ]
