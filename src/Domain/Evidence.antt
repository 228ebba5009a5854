-- ===== src/Domain/Evidence.antt =====
-- src/aedifex/domain/evidence.py: the vocabulary of facts and of relationships of documents.
use aedifex.Prelude.{◌≡◌, ◌⊎◌, Bool, true, false, arith}

pub data DocumentVersionState : Type 0 where
  active superseded retired unknown : DocumentVersionState

unfoldable pub is_current : DocumentVersionState → Bool
is_current active = true
is_current _ = false

pub data FactKind : Type 0 where
  money quantity percentage date duration identifier company location document_reference text :
      FactKind

unfoldable pub is_comparable : FactKind → Bool
is_comparable money = true
is_comparable quantity = true
is_comparable percentage = true
is_comparable duration = true
is_comparable _ = false

pub data RelationshipType : Type 0 where
  same_tender same_contract amendment_of amends supersedes parent_document child_document :
      RelationshipType
  invites_bids_for awards prices measures claims_against certifies references : RelationshipType

unfoldable pub is_symmetric : RelationshipType → Bool
is_symmetric same_tender = true
is_symmetric same_contract = true
is_symmetric _ = false

unfoldable pub inverse : RelationshipType → RelationshipType
inverse parent_document = child_document
inverse child_document = parent_document
inverse other = other

-- Reading a relationship from either side and back is the relationship itself, a symmetric one reads
-- the same from both sides, and only parent and child documents have a name for the other side.
pub inverse-inverse :
    (r : RelationshipType)
    → (inverse (inverse r) ≡ r)
      × ((is_symmetric r ≡ false) ⊎ (inverse r ≡ r))
      × ((inverse r ≡ r) ⊎ ((r ≡ parent_document) ⊎ (r ≡ child_document)))
unfolding inverse is_symmetric
inverse-inverse r = ground arith
