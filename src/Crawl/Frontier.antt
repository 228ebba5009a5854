-- ===== src/Crawl/Frontier.antt =====
-- src/aedifex/acquisition/crawl/frontier.py: the work queue over the table of discovered URLs.
-- The table is a list of rows. A row's id, the instants and the identities of sources and workers
-- are numbers. `canonical_url` and the digest are parameters; rows that another transaction has
-- locked are a test on ids, which `FOR UPDATE SKIP LOCKED` leaves out.
pub mod Rows
pub mod Claims
pub mod Priority
pub mod Recovery
pub mod Filling
use aedifex.Prelude.{
  ℕ, zero, suc, ◌+◌, Bool, true, false, not, ◌&&◌, ◌||◌, Option, none, some, List, [], ◌∷◌, ◌++◌,
  ◌==◌, leb, ltb, if◌then◌else◌, length, take, map, any_of,
}
use aedifex.Domain.Documents.{DocumentState, discovered, downloading, failed, is_state}

pub record DiscoveredUrl : Type 0 where
  pub id : ℕ
  pub source_id : ℕ
  pub url_digest : ℕ
  pub state : DocumentState
  pub depth : ℕ
  pub discovered_at : ℕ
  pub attempts : ℕ
  pub lease_owner : Option ℕ
  pub lease_expires_at : Option ℕ
  pub next_attempt_after : Option ℕ
  pub dead_lettered_at : Option ℕ

pub record FrontierQueue : Type 0 where
  pub source_id : ℕ
  pub worker : ℕ
  pub lease : ℕ
  pub max_attempts : ℕ

-- the tests on `max_attempts` and `lease_seconds` in `__init__`
unfoldable pub queue_accepts : FrontierQueue → Bool
queue_accepts q = if leb q.lease 0 then false else if ltb q.max_attempts 1 then false else true

abbrev pub is_null : Option ℕ → Bool
is_null none = true
is_null (some t) = false

-- `column IS NULL OR column < now`
abbrev pub null_or_before : Option ℕ → ℕ → Bool
null_or_before none now = true
null_or_before (some t) now = ltb t now

-- `column IS NULL OR column <= now`
abbrev pub null_or_until : Option ℕ → ℕ → Bool
null_or_until none now = true
null_or_until (some t) now = leb t now

-- `column IS NOT NULL AND column < now`
abbrev pub set_and_before : Option ℕ → ℕ → Bool
set_and_before none now = false
set_and_before (some t) now = ltb t now

-- `_CLAIMABLE_STATES`
abbrev pub in_claimable_state : DocumentState → Bool
in_claimable_state state = is_state state discovered || is_state state failed

-- `_claimable`
unfoldable pub is_claimable : FrontierQueue → ℕ → DiscoveredUrl → Bool
is_claimable q now row =
    row.source_id == q.source_id
    && in_claimable_state row.state
    && is_null row.dead_lettered_at
    && ltb row.attempts q.max_attempts
    && null_or_before row.lease_expires_at now
    && null_or_until row.next_attempt_after now

-- the order of `claim`: by depth, discovery and id
unfoldable pub comes_first : DiscoveredUrl → DiscoveredUrl → Bool
comes_first a b =
    if ltb a.depth b.depth
    then true
    else if ltb b.depth a.depth
    then false
    else if ltb a.discovered_at b.discovered_at
    then true
    else if ltb b.discovered_at a.discovered_at
    then false
    else leb a.id b.id

pub insert_row : DiscoveredUrl → List DiscoveredUrl → List DiscoveredUrl
insert_row a [] = a ∷ []
insert_row a (b ∷ rows) =
    let rest = insert_row a rows in if comes_first a b then a ∷ b ∷ rows else b ∷ rest

-- `ORDER BY`, and `list.sort` with the same key
unfoldable pub in_order : List DiscoveredUrl → List DiscoveredUrl
unfolding insert_row
in_order [] = []
in_order (a ∷ rows) = insert_row a (in_order rows)

unfoldable pub select_rows : (DiscoveredUrl → Bool) → List DiscoveredUrl → List DiscoveredUrl
select_rows test [] = []
select_rows test (a ∷ rows) = let rest = select_rows test rows in if test a then a ∷ rest else rest

abbrev has_id : List DiscoveredUrl → DiscoveredUrl → Bool
has_id rows row = any_of (λ r. r.id == row.id) rows

module _ (q : FrontierQueue) where
  abbrev pub leased : ℕ → DiscoveredUrl → DiscoveredUrl
  leased now row = record row {
    lease_owner = some q.worker;
    lease_expires_at = some (now + q.lease);
  }

  -- the subquery of `claim`
  unfoldable pub chosen : (ℕ → Bool) → ℕ → ℕ → List DiscoveredUrl → List DiscoveredUrl
  unfolding select_rows in_order is_claimable
  chosen locked now limit table =
      take limit (in_order (select_rows (λ r. is_claimable q now r && not (locked r.id)) table))

  -- the update of `claim`: the rows that `RETURNING` gives, sorted again, and the table it leaves
  unfoldable pub claim_rows :
      (ℕ → Bool) → ℕ → ℕ → List DiscoveredUrl → List DiscoveredUrl × List DiscoveredUrl
  unfolding chosen
  claim_rows locked now limit table =
      let picked = chosen locked now limit table in
      let updated = map (λ r. if has_id picked r then leased now r else r) table in
      (in_order (select_rows (has_id picked) updated), updated)

  -- `claim`; `none` where it raises
  unfoldable pub claim :
      (ℕ → Bool) → ℕ → ℕ → List DiscoveredUrl → Option (List DiscoveredUrl × List DiscoveredUrl)
  unfolding claim_rows
  claim locked now limit table =
      if ltb limit 1 then none else some (claim_rows locked now limit table)

  -- `settle`, with the state that the acquirer has recorded
  unfoldable pub settle : ℕ → DiscoveredUrl → DiscoveredUrl × Bool
  settle now row =
      let exhausted = is_state row.state failed && leb q.max_attempts row.attempts in
      (
        record row {
          lease_owner = none;
          lease_expires_at = none;
          dead_lettered_at =
              if exhausted && is_null row.dead_lettered_at then some now else row.dead_lettered_at;
        },
        exhausted,
      )

  unfoldable pub release : ℕ → Option ℕ → DiscoveredUrl → DiscoveredUrl
  release now retry_after row = record row {
    lease_owner = none;
    lease_expires_at = none;
    next_attempt_after = elim retry_after [
      | none ↦ row.next_attempt_after
      | some seconds ↦ some (now + seconds)
    ];
  }

  -- the `WHERE` of `reclaim_expired`
  unfoldable pub is_abandoned : ℕ → DiscoveredUrl → Bool
  is_abandoned now row =
      row.source_id == q.source_id
      && is_state row.state downloading
      && set_and_before row.lease_expires_at now

  -- its `SET`
  unfoldable pub recovered : ℕ → DiscoveredUrl → DiscoveredUrl
  recovered now row = record row {
    state = failed;
    attempts = row.attempts + 1;
    lease_owner = none;
    lease_expires_at = none;
    dead_lettered_at = if leb q.max_attempts (row.attempts + 1) then some now else none;
  }

  -- `reclaim_expired`, with the number of rows changed
  unfoldable pub reclaim_expired : ℕ → List DiscoveredUrl → List DiscoveredUrl × ℕ
  unfolding is_abandoned recovered select_rows
  reclaim_expired now table = (
    map (λ r. if is_abandoned now r then recovered now r else r) table,
    length (select_rows (is_abandoned now) table),
  )

  -- `pending`
  unfoldable pub pending : ℕ → List DiscoveredUrl → ℕ
  unfolding select_rows is_claimable
  pending now table = length (select_rows (is_claimable q now) table)
