-- ===== src/Tests/Storage.antt =====
-- Keys of objects in the store on concrete inputs.
use aedifex.Prelude.{ℕ, ◌≡◌, ◌≢◌, refl, Bool, true, ◌&&◌, ◌||◌, [], ◌∷◌, leb}
use aedifex.Prelude.Text.{Text, codes, text_eq, split_on}
use aedifex.Domain.Files.{jpeg}
use aedifex.Storage.Keys.{
  raw, processed, keyed, raised, immutable_tier, malformed_source, malformed_digest, raw_key,
  derived_key, name_matches,
}
use aedifex.Storage.Keys.Layout.{raw_key-split, derived_key-apart}

abbrev digest : Text
digest = codes "0123456789abcdef0123456789abcdef0123456789abcdef0123456789abcdef"

abbrev source : Text
source = codes "cpwd_tenders"

abbrev photo_key : Text
photo_key =
    codes
      "raw/cpwd_tenders/01/23/0123456789abcdef0123456789abcdef0123456789abcdef0123456789abcdef.jpg"

abbrev is_alnum : ℕ → Bool
is_alnum c = (leb b'a' c && leb c b'z') || (leb b'0' c && leb c b'9')

raw_key_photo : raw_key source digest jpeg ≡ keyed photo_key
unfolding raw_key
raw_key_photo = refl

raw_key_capital : raw_key (codes "CPWD") digest jpeg ≡ raised malformed_source
unfolding raw_key
raw_key_capital = refl

raw_key_short : raw_key source (codes "0123") jpeg ≡ raised malformed_digest
unfolding raw_key
raw_key_short = refl

derived_key_raw :
    derived_key is_alnum raw digest (codes "ocr") (codes "txt") ≡ raised immutable_tier
unfolding derived_key
derived_key_raw = refl

derived_key_text :
    derived_key is_alnum processed digest (codes "ocr") (codes " .TXT ")
    ≡ keyed (
        codes
          "processed/ocr/01/23/0123456789abcdef0123456789abcdef0123456789abcdef0123456789abcdef.txt")
unfolding derived_key
derived_key_text = refl

-- A pattern that ends in `$` matches before a newline at the end.
name_matches_newline : name_matches (codes "ocr\n") ≡ true
unfolding name_matches text_eq
name_matches_newline = refl

raw_key-split_example :
    split_on b'/' photo_key
    ≡ codes "raw"
      ∷ source
      ∷ codes "01"
      ∷ codes "23"
      ∷ codes "0123456789abcdef0123456789abcdef0123456789abcdef0123456789abcdef.jpg"
      ∷ []
raw_key-split_example = raw_key-split source digest jpeg photo_key raw_key_photo

derived_key-apart_example :
    derived_key is_alnum processed digest (codes "ocr") (codes "jpg") ≢ keyed photo_key
derived_key-apart_example =
    derived_key-apart is_alnum refl source digest digest (codes "ocr") (codes "jpg") photo_key jpeg
      processed raw_key_photo
