-- ===== src/Storage/Keys/Layout.antt =====
-- What a key tells of the object it names.
use aedifex.Prelude.{
  ℕ, ◌≡◌, ◌≢◌, refl, sym, ◌∙◌, inl, inr, Bool, true, false, ◌||◌, not, [], ◌∷◌, ◌++◌, List, length,
  take, drop, all_of, Bool-cases, both, ◌==◌, arith,
}
use aedifex.Prelude.Text.{Text, codes, text_eq, split_on}
use aedifex.Domain.Files.{
  FileFormat, pdf, xlsx, xls, docx, doc, csv, json, xml, html, zip, png, jpeg, tiff,
  canonical_extension,
}
use aedifex.Storage.Keys.{
  StorageTier, raw, processed, normalized, labeled, synthetic, keyed, tier_value, is_raw,
  before_newline, is_lower, is_hex, is_word, is_snake, name_matches, digest_matches, key_text,
  raw_key, derived_key, normalized_extension,
}
use aedifex.Storage.Keys.Pieces.{
  IsPiece, split_on-piece, split_on-pieces, take-IsPiece, drop-IsPiece, append-IsPiece,
  all_of-IsPiece, before_newline-IsPiece,
}

is_snake-IsPiece : (s : Text) → is_snake s ≡ true → IsPiece s
unfolding is_snake
is_snake-IsPiece [] h = refl
is_snake-IsPiece (c ∷ s) h =
    let (first, words) = both (is_lower c) (all_of is_word s) h in
    let other : (c == b'/') ≡ false = ground (arith, first) in
    rw other (all_of-IsPiece is_word s refl words)

name_matches-IsPiece : (s : Text) → name_matches s ≡ true → IsPiece s
unfolding name_matches
name_matches-IsPiece s h = before_newline-IsPiece s (is_snake-IsPiece (before_newline s) h)

digest_matches-IsPiece : (s : Text) → digest_matches s ≡ true → IsPiece s
unfolding digest_matches
digest_matches-IsPiece s h =
    let (long, hexes) =
      both (length (before_newline s) == 64) (all_of is_hex (before_newline s)) h in
    before_newline-IsPiece s (all_of-IsPiece is_hex (before_newline s) refl hexes)

canonical_extension-IsPiece : (f : FileFormat) → IsPiece (canonical_extension f)
canonical_extension-IsPiece pdf = refl
canonical_extension-IsPiece xlsx = refl
canonical_extension-IsPiece xls = refl
canonical_extension-IsPiece docx = refl
canonical_extension-IsPiece doc = refl
canonical_extension-IsPiece csv = refl
canonical_extension-IsPiece json = refl
canonical_extension-IsPiece xml = refl
canonical_extension-IsPiece html = refl
canonical_extension-IsPiece zip = refl
canonical_extension-IsPiece png = refl
canonical_extension-IsPiece jpeg = refl
canonical_extension-IsPiece tiff = refl

tier_value-IsPiece : (tier : StorageTier) → IsPiece (tier_value tier)
tier_value-IsPiece raw = refl
tier_value-IsPiece processed = refl
tier_value-IsPiece normalized = refl
tier_value-IsPiece labeled = refl
tier_value-IsPiece synthetic = refl

-- the parts of a key in order
abbrev parts : Text → Text → Text → Text → List Text
parts tier name sha256 suffix =
    tier ∷ name ∷ take 2 sha256 ∷ take 2 (drop 2 sha256) ∷ (sha256 ++ suffix) ∷ []

split_on-key_text :
    (tier name sha256 suffix : Text)
    → IsPiece tier
    → IsPiece name
    → IsPiece sha256
    → IsPiece suffix
    → split_on b'/' (key_text tier name sha256 suffix) ≡ parts tier name sha256 suffix
unfolding key_text
split_on-key_text tier name sha256 suffix t n d e = rw (split_on-pieces tier _ t) (
    rw (split_on-pieces name _ n) (
      rw (split_on-pieces (take 2 sha256) _ (take-IsPiece 2 sha256 d)) (
        rw
          (split_on-pieces (take 2 (drop 2 sha256)) _
            (take-IsPiece 2 (drop 2 sha256) (drop-IsPiece 2 sha256 d)))
          (rw (split_on-piece (sha256 ++ suffix) (append-IsPiece sha256 suffix d e)) refl))))

heads : {s t : Text} {ss ts : List Text} → s ∷ ss ≡ t ∷ ts → s ≡ t
heads e = cc

other_tier : (tier : StorageTier) → is_raw tier ≡ false → codes "raw" ≢ tier_value tier
other_tier raw h e = cc
other_tier processed h e = cc
other_tier normalized h e = cc
other_tier labeled h e = cc
other_tier synthetic h e = cc

-- A raw key, split at its slashes, gives back the tier, the source, the first two pairs of the
-- digest, and the digest with the extension of the format.
pub raw_key-split :
    (source_id sha256 : Text) (file_format : FileFormat) (key : Text)
    → raw_key source_id sha256 file_format ≡ keyed key
    → split_on b'/' key ≡ parts (codes "raw") source_id sha256 (canonical_extension file_format)
unfolding raw_key
raw_key-split source_id sha256 file_format key h = elim (Bool-cases (name_matches source_id)) [
  | inr bad ↦ absurd (cc (rw (bad, raw_key) at h))
  | inl named ↦ elim (Bool-cases (digest_matches sha256)) [
    | inr bad ↦ absurd (cc (rw (named, bad, raw_key) at h))
    | inl digest ↦
        let suffix = canonical_extension file_format in
        let made : key_text (codes "raw") source_id sha256 suffix ≡ key =
          cc (rw (named, digest, raw_key) at h) in
        rw (sym made) (
          split_on-key_text (codes "raw") source_id sha256 suffix refl
            (name_matches-IsPiece source_id named) (digest_matches-IsPiece sha256 digest)
            (canonical_extension-IsPiece file_format))
  ]
]

module _ (is_alnum : ℕ → Bool) (no_slash : is_alnum b'/' ≡ false) where
  -- A derived key, split at its slashes, gives back its tier, which is not the raw one, the stage, the
  -- first two pairs of the digest, and the digest with the normalized extension, where the slash is
  -- neither a letter nor a digit.
  derived_key-split :
      (tier : StorageTier) (sha256 stage extension key : Text)
      → derived_key is_alnum tier sha256 stage extension ≡ keyed key
      → (is_raw tier ≡ false)
        × (split_on b'/' key
            ≡ parts (tier_value tier) stage sha256 (b'.' ∷ normalized_extension extension))
  unfolding derived_key
  derived_key-split tier sha256 stage extension key h =
      let suffix = normalized_extension extension in
      elim (Bool-cases (is_raw tier)) [
        | inl immutable ↦ absurd (cc (rw (immutable, derived_key) at h))
        | inr regenerable ↦ elim (Bool-cases (digest_matches sha256)) [
          | inr bad ↦ absurd (cc (rw (regenerable, bad, derived_key) at h))
          | inl digest ↦ elim (Bool-cases (name_matches stage)) [
            | inr bad ↦ absurd (cc (rw (regenerable, digest, bad, derived_key) at h))
            | inl named ↦ elim (Bool-cases (text_eq suffix [] || not (all_of is_alnum suffix))) [
              | inl bad ↦ absurd (cc (rw (regenerable, digest, named, bad, derived_key) at h))
              | inr good ↦
                  let made : key_text (tier_value tier) stage sha256 (b'.' ∷ suffix) ≡ key =
                    cc (rw (regenerable, digest, named, good, derived_key) at h) in
                  (
                    regenerable,
                    rw (sym made) (
                        split_on-key_text (tier_value tier) stage sha256 (b'.' ∷ suffix)
                          (tier_value-IsPiece tier) (name_matches-IsPiece stage named)
                          (digest_matches-IsPiece sha256 digest)
                          (all_of-IsPiece is_alnum suffix no_slash (ground (arith, good)))),
                  )
            ]
          ]
        ]
      ]

  -- No artifact is written under the key of a raw document.
  pub derived_key-apart :
      (source_id sha256 sha256' stage extension key : Text) (file_format : FileFormat)
      (tier : StorageTier)
      → raw_key source_id sha256 file_format ≡ keyed key
      → derived_key is_alnum tier sha256' stage extension ≢ keyed key
  derived_key-apart source_id sha256 sha256' stage extension key file_format tier h k =
      let (regenerable, split) = derived_key-split tier sha256' stage extension key k in
      other_tier tier regenerable
        (heads (sym (raw_key-split source_id sha256 file_format key h) ∙ split))
