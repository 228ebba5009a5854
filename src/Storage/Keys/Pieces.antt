-- ===== src/Storage/Keys/Pieces.antt =====
-- Texts without a slash, and what splitting a key at its slashes gives back.
use mathlib.Core.Path.{subst}
use aedifex.Prelude.{
  ℕ, zero, suc, ◌≡◌, refl, inl, inr, Bool, true, false, ◌&&◌, [], ◌∷◌, ◌++◌, take, drop, all_of,
  any_of, arith, Bool-cases, both, ◌==◌,
}
use aedifex.Prelude.Text.{Text, text_eq, text_eq_sound, split_on}
use aedifex.Storage.Keys.{before_newline}

-- no slash stands in the text
abbrev pub IsPiece : Text → Type 0
IsPiece s = any_of (λ c. c == b'/') s ≡ false

pub split_on-piece : (s : Text) → IsPiece s → split_on b'/' s ≡ s ∷ []
unfolding split_on
split_on-piece [] h = refl
split_on-piece (c ∷ s) h = elim (Bool-cases (c == b'/')) [
  | inl slash ↦ absurd (ground (arith, h, slash))
  | inr other ↦ let later : IsPiece s = rw other at h in rw other (rw (split_on-piece s later) refl)
]

pub split_on-pieces :
    (s rest : Text) → IsPiece s → split_on b'/' (s ++ b'/' ∷ rest) ≡ s ∷ split_on b'/' rest
unfolding split_on
split_on-pieces [] rest h = refl
split_on-pieces (c ∷ s) rest h = elim (Bool-cases (c == b'/')) [
  | inl slash ↦ absurd (ground (arith, h, slash))
  | inr other ↦
      let later : IsPiece s = rw other at h in rw other (rw (split_on-pieces s rest later) refl)
]

pub take-IsPiece : (n : ℕ) (s : Text) → IsPiece s → IsPiece (take n s)
take-IsPiece zero s h = refl
take-IsPiece (suc n) [] h = refl
take-IsPiece (suc n) (c ∷ s) h = elim (Bool-cases (c == b'/')) [
  | inl slash ↦ absurd (ground (arith, h, slash))
  | inr other ↦ let later : IsPiece s = rw other at h in rw other (take-IsPiece n s later)
]

pub drop-IsPiece : (n : ℕ) (s : Text) → IsPiece s → IsPiece (drop n s)
drop-IsPiece zero s h = h
drop-IsPiece (suc n) [] h = refl
drop-IsPiece (suc n) (c ∷ s) h = elim (Bool-cases (c == b'/')) [
  | inl slash ↦ absurd (ground (arith, h, slash))
  | inr other ↦ let later : IsPiece s = rw other at h in drop-IsPiece n s later
]

pub append-IsPiece : (s t : Text) → IsPiece s → IsPiece t → IsPiece (s ++ t)
append-IsPiece [] t h k = k
append-IsPiece (c ∷ s) t h k = elim (Bool-cases (c == b'/')) [
  | inl slash ↦ absurd (ground (arith, h, slash))
  | inr other ↦ let later : IsPiece s = rw other at h in rw other (append-IsPiece s t later k)
]

-- A class of characters without the slash has only pieces.
pub all_of-IsPiece : (p : ℕ → Bool) (s : Text) → p b'/' ≡ false → all_of p s ≡ true → IsPiece s
all_of-IsPiece p [] none_such h = refl
all_of-IsPiece p (c ∷ s) none_such h =
    let (here, later) = both (p c) (all_of p s) h in
    elim (Bool-cases (c == b'/')) [
      | inl slash ↦
          let e : c ≡ b'/' = ground (arith, slash) in
          let passes : p b'/' ≡ true = subst (λ z. p z ≡ true) e here in cc
      | inr other ↦ rw other (all_of-IsPiece p s none_such later)
    ]

pub before_newline-IsPiece : (s : Text) → IsPiece (before_newline s) → IsPiece s
unfolding before_newline
before_newline-IsPiece [] h = refl
before_newline-IsPiece (c ∷ s) h = elim (Bool-cases (c == 10 && text_eq s [])) [
  | inl last ↦
      let (newline, empty) = both (c == 10) (text_eq s []) last in
      let other : (c == b'/') ≡ false = ground (arith, newline) in
      rw other (rw (text_eq_sound s [] empty) refl)
  | inr more ↦
      let h' : IsPiece (c ∷ before_newline s) = rw more at h in
      elim (Bool-cases (c == b'/')) [
        | inl slash ↦ absurd (ground (arith, h', slash))
        | inr other ↦
            let later : IsPiece (before_newline s) = rw other at h' in
            rw other (before_newline-IsPiece s later)
      ]
]
