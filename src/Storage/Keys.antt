-- ===== src/Storage/Keys.antt =====
-- src/aedifex/infrastructure/storage/keys.py: the keys of objects in the store.
pub mod Pieces
pub mod Layout
use aedifex.Prelude.{
  ℕ, Bool, true, false, ◌&&◌, ◌||◌, not, List, [], ◌∷◌, ◌++◌, length, take, drop, all_of, ◌==◌, leb,
  if◌then◌else◌,
}
use aedifex.Prelude.Text.{Text, codes, text_eq, strip, lower, lstrip_of}
use aedifex.Domain.Files.{FileFormat, canonical_extension}

pub data StorageTier : Type 0 where
  raw : StorageTier
  processed : StorageTier
  normalized : StorageTier
  labeled : StorageTier
  synthetic : StorageTier

abbrev pub tier_value : StorageTier → Text
tier_value raw = codes "raw"
tier_value processed = codes "processed"
tier_value normalized = codes "normalized"
tier_value labeled = codes "labeled"
tier_value synthetic = codes "synthetic"

-- `tier is StorageTier.RAW`
abbrev pub is_raw : StorageTier → Bool
is_raw raw = true
is_raw _ = false

-- the ValueErrors of the two functions
pub data KeyError : Type 0 where
  immutable_tier : KeyError
  malformed_source : KeyError
  malformed_digest : KeyError
  malformed_stage : KeyError
  malformed_extension : KeyError

pub data StorageKey : Type 0 where
  keyed : Text → StorageKey
  raised : KeyError → StorageKey

-- What `$` lets a pattern end before: one newline at the end of the text.
unfoldable pub before_newline : Text → Text
before_newline [] = []
before_newline (c ∷ s) =
    let rest = before_newline s in if c == 10 && text_eq s [] then [] else c ∷ rest

abbrev pub is_lower : ℕ → Bool
is_lower c = leb b'a' c && leb c b'z'

abbrev pub is_digit : ℕ → Bool
is_digit c = leb b'0' c && leb c b'9'

abbrev pub is_hex : ℕ → Bool
is_hex c = is_digit c || (leb b'a' c && leb c b'f')

abbrev pub is_word : ℕ → Bool
is_word c = is_lower c || is_digit c || c == b'_'

-- `[a-z][a-z0-9_]*`
unfoldable pub is_snake : Text → Bool
is_snake [] = false
is_snake (c ∷ s) = is_lower c && all_of is_word s

-- `_SOURCE_ID_PATTERN.match` and `_STAGE_PATTERN.match`
unfoldable pub name_matches : Text → Bool
unfolding before_newline is_snake
name_matches s = is_snake (before_newline s)

-- `_SHA256_PATTERN.match`
unfoldable pub digest_matches : Text → Bool
unfolding before_newline
digest_matches s = length (before_newline s) == 64 && all_of is_hex (before_newline s)

-- the layout of both kinds of key; `suffix` is the extension with its dot
unfoldable pub key_text : Text → Text → Text → Text → Text
key_text tier name sha256 suffix =
    tier
    ++ b'/'
      ∷ (name
          ++ b'/' ∷ (take 2 sha256 ++ b'/' ∷ (take 2 (drop 2 sha256) ++ b'/' ∷ (sha256 ++ suffix))))

unfoldable pub raw_key : Text → Text → FileFormat → StorageKey
unfolding name_matches digest_matches key_text
raw_key source_id sha256 file_format =
    if not (name_matches source_id)
    then raised malformed_source
    else if not (digest_matches sha256)
    then raised malformed_digest
    else keyed (key_text (tier_value raw) source_id sha256 (canonical_extension file_format))

-- `extension.strip().lower().lstrip(".")`
unfoldable pub normalized_extension : Text → Text
unfolding strip lower lstrip_of
normalized_extension extension = lstrip_of (λ c. c == b'.') (lower (strip extension))

-- `is_alnum` is Python's table of letters and digits.
unfoldable pub derived_key : (ℕ → Bool) → StorageTier → Text → Text → Text → StorageKey
unfolding name_matches digest_matches key_text normalized_extension text_eq
derived_key is_alnum tier sha256 stage extension =
    let suffix = normalized_extension extension in
    if is_raw tier
    then raised immutable_tier
    else if not (digest_matches sha256)
    then raised malformed_digest
    else if not (name_matches stage)
    then raised malformed_stage
    else if text_eq suffix [] || not (all_of is_alnum suffix)
    then raised malformed_extension
    else keyed (key_text (tier_value tier) stage sha256 (b'.' ∷ suffix))
