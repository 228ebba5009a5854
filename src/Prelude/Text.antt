-- ===== src/Prelude/Text.antt =====
-- Texts as lists of code points, and the methods of `str` that the program calls.
-- `lower` folds the letters A to Z alone, which is what URLs, hosts and header values need.
use Prim.Native.Char.{code}
use Prim.Native.Nat.{ℕ, ◌+◌}
use Prim.Native.String.{String}
use mathlib.Core.Path.{◌≡◌, refl, sym, ap, subst}
use mathlib.Core.Logic.{inl, inr}
use mathlib.Core.Bool.{Bool, true, false, ◌&&◌, ◌||◌}
use mathlib.Core.List.{List, [], ◌∷◌, ◌++◌, map, reverse}
use native.Mathlib.Omega.{arith}
use aedifex.Prelude.Tests.{leb, ◌==◌, if◌then◌else◌, Bool-cases}
use aedifex.Prelude.Lists.{any_of, In, any_of-In}

abbrev pub Text : Type 0
Text = List ℕ

abbrev pub codes : String → Text
codes String.[] = []
codes (String.◌∷◌ c s) = code c ∷ codes s

-- `a == b` on texts
unfoldable pub text_eq : Text → Text → Bool
text_eq [] [] = true
text_eq [] (d ∷ t) = false
text_eq (c ∷ s) [] = false
text_eq (c ∷ s) (d ∷ t) = c == d && text_eq s t

pub text_eq_sound : (s t : Text) → text_eq s t ≡ true → s ≡ t
unfolding text_eq
text_eq_sound [] [] h = refl
text_eq_sound [] (d ∷ t) h = cc
text_eq_sound (c ∷ s) [] h = cc
text_eq_sound (c ∷ s) (d ∷ t) h = ground (arith, text_eq_sound s t)

pub text_eq_refl : (s : Text) → text_eq s s ≡ true
unfolding text_eq
text_eq_refl [] = refl
text_eq_refl (c ∷ s) = ground (arith, text_eq_refl s)

-- `item in texts`
abbrev pub is_among : Text → List Text → Bool
is_among s texts = any_of (text_eq s) texts

pub not-In_of_is_among : (s : Text) (texts : List Text) → is_among s texts ≡ false → In s texts → ⊥
not-In_of_is_among s (t ∷ texts) h (inl e) =
    let same : text_eq s t ≡ true = subst (λ (u : Text). text_eq u t ≡ true) e (text_eq_refl t) in
    ground (arith, same)
not-In_of_is_among s (t ∷ texts) h (inr i) = not-In_of_is_among s texts (ground arith) i
not-In_of_is_among s [] h i = i

pub is_among-In : (s : Text) (texts : List Text) → is_among s texts ≡ true → In s texts
is_among-In s texts h =
    let (t, i, same) = any_of-In (text_eq s) texts h in
    subst (λ (u : Text). In u texts) (sym (text_eq_sound s t same)) i

-- `s.startswith(p)`
unfoldable pub starts_with : Text → Text → Bool
starts_with [] s = true
starts_with (c ∷ p) [] = false
starts_with (c ∷ p) (d ∷ s) = c == d && starts_with p s

-- `p in s`
unfoldable pub contains : Text → Text → Bool
unfolding starts_with
contains p [] = starts_with p []
contains p (c ∷ s) = starts_with p (c ∷ s) || contains p s

abbrev pub is_space : ℕ → Bool
is_space c =
    (leb 9 c && leb c 13)
    || (leb 28 c && leb c 32)
    || any_of (λ d. c == d) (133 ∷ 160 ∷ 5760 ∷ 8232 ∷ 8233 ∷ 8239 ∷ 8287 ∷ 12288 ∷ [])
    || (leb 8192 c && leb c 8202)

-- `s.lstrip()`
unfoldable pub lstrip : Text → Text
lstrip [] = []
lstrip (c ∷ s) = let rest = lstrip s in if is_space c then rest else c ∷ s

-- `s.strip()`
unfoldable pub strip : Text → Text
unfolding lstrip
strip s = reverse (lstrip (reverse (lstrip s)))

abbrev pub lower_code : ℕ → ℕ
lower_code c = if leb b'A' c && leb c b'Z' then c + 32 else c

unfoldable pub lower : Text → Text
lower s = map lower_code s

-- `s.endswith(p)`
unfoldable pub ends_with : Text → Text → Bool
unfolding text_eq
ends_with p [] = text_eq p []
ends_with p (c ∷ s) = text_eq p (c ∷ s) || ends_with p s

-- `s.lstrip(chars)`, `s.rstrip(chars)` and `s.strip(chars)`, for a test on characters
unfoldable pub lstrip_of : (ℕ → Bool) → Text → Text
lstrip_of drops [] = []
lstrip_of drops (c ∷ s) = let rest = lstrip_of drops s in if drops c then rest else c ∷ s

unfoldable pub rstrip_of : (ℕ → Bool) → Text → Text
unfolding lstrip_of
rstrip_of drops s = reverse (lstrip_of drops (reverse s))

unfoldable pub strip_of : (ℕ → Bool) → Text → Text
unfolding lstrip_of rstrip_of
strip_of drops s = rstrip_of drops (lstrip_of drops s)

-- `s.split(sep)`, for one character
unfoldable pub split_on : ℕ → Text → List Text
split_on sep [] = [] ∷ []
split_on sep (c ∷ s) =
    let rest = split_on sep s in
    if c == sep
    then [] ∷ rest
    else elim rest [ [] ↦ (c ∷ []) ∷ [] | piece ∷ later ↦ (c ∷ piece) ∷ later ]

pub ends_with-split : (p s : Text) → ends_with p s ≡ true → (front : Text) × (s ≡ front ++ p)
unfolding ends_with
ends_with-split p [] h = ([], sym (text_eq_sound p [] h))
ends_with-split p (c ∷ s) h = elim (Bool-cases (text_eq p (c ∷ s))) [
  | inl whole ↦ ([], sym (text_eq_sound p (c ∷ s) whole))
  | inr later ↦
      let (front, e) = ends_with-split p s (rw (later, ends_with) at h) in
      (c ∷ front, ap (λ (t : Text). c ∷ t) e)
]

pub split-ends_with : (front p : Text) → ends_with p (front ++ p) ≡ true
unfolding ends_with
split-ends_with [] [] = refl
split-ends_with [] (d ∷ p) = rw (text_eq_refl (d ∷ p)) refl
split-ends_with (c ∷ front) p = ground (arith, split-ends_with front p)
