-- ===== src/Fetch/Urls/Normalized.antt =====
-- What an accepted URL is like.
use mathlib.Core.Path.{subst}
use aedifex.Prelude.{
  ℕ, zero, suc, ◌≤◌, ◌≡◌, ◌≢◌, refl, inl, inr, Bool, true, false, not, ◌||◌, Option, none, some,
  List, [], ◌∷◌, ◌==◌, ltb, if◌then◌else◌, arith, length, any_of, All, In, Bool-cases, ==_iff,
  any_of-In,
}
use aedifex.Prelude.Text.{Text, is_among-In, ends_with, split_on}
use aedifex.Fetch.Addresses.{IpAddress}
use aedifex.Fetch.Urls.Postconditions.{
  Ensures, on_ok, on_rejected, Ensures-value, Ensures-bind, Ensures-reject_if,
}
use aedifex.Fetch.Urls.{
  missing_host, ok, rejected, ◌>>=◌, UrlParts, UrlLibrary, NormalizedUrl, allowed_schemes,
  allowed_ports, forbidden_suffixes, is_alnum, is_label_rest, is_label, check_name, normalize_host,
  normalize_parts, normalize_url,
}

pub not-not : (b : Bool) → not b ≡ false → b ≡ true
not-not true h = refl
not-not false h = cc

not_ltb : (a b : ℕ) → ltb a b ≡ false → b ≤ a
not_ltb a b h = ground arith

pub All-map :
    {A : Type 0} (P Q : A → Type 0) → ((x : A) → P x → Q x) → (xs : List A) → All P xs → All Q xs
All-map P Q f [] all = tt
All-map P Q f (x ∷ xs) all = (f x all.0, All-map P Q f xs all.1)

pub none_of-All :
    {A : Type 0} (p : A → Bool) (xs : List A) → any_of p xs ≡ false → All (λ x. p x ≡ false) xs
none_of-All p [] h = tt
none_of-All p (x ∷ xs) h = elim (Bool-cases (p x)) [
  | inl here ↦ absurd (cc (rw here at h))
  | inr other ↦ (other, none_of-All p xs (rw other at h))
]

-- At most 63 characters, each a small letter, a digit or a hyphen, and at least one.
abbrev pub IsLabel : Text → Type 0
IsLabel label = (label ≢ []) × (length label ≤ 63) × All (λ c. is_alnum c || c == b'-' ≡ true) label

is_label_rest-fits :
    (room : ℕ) (s : Text)
    → is_label_rest room s ≡ true
    → (length s ≤ room) × All (λ c. is_alnum c || c == b'-' ≡ true) s
unfolding is_label_rest
is_label_rest-fits room [] h = (omega arith, tt)
is_label_rest-fits zero (c ∷ s) h = cc
is_label_rest-fits (suc room) (c ∷ []) h = (omega arith, (rw h refl, tt))
is_label_rest-fits (suc room) (c ∷ d ∷ s) h = elim (Bool-cases (is_alnum c || c == b'-')) [
  | inl here ↦
      let rest : is_label_rest room (d ∷ s) ≡ true = rw here at h in
      let (short, all) = is_label_rest-fits room (d ∷ s) rest in (omega arith, (here, all))
  | inr other ↦ absurd (cc (rw other at h))
]

is_label-IsLabel : (label : Text) → is_label label ≡ true → IsLabel label
unfolding is_label
is_label-IsLabel [] h = cc
is_label-IsLabel (c ∷ s) h = elim (Bool-cases (is_alnum c)) [
  | inl here ↦
      let (short, all) = is_label_rest-fits 62 s (rw here at h) in
      (λ e. cc, omega arith, (rw here refl, all))
  | inr other ↦ absurd (cc (rw other at h))
]

-- The name has at least two labels, each of them valid, and no private suffix.
abbrev pub IsName : Text → Type 0
IsName host =
    (2 ≤ length (split_on b'.' host))
    × All IsLabel (split_on b'.' host)
    × All (λ suffix. ends_with suffix host ≡ false) forbidden_suffixes

-- an allowed scheme and port, and a host that is an IP literal or such a name
abbrev pub IsNormalized : NormalizedUrl → Type 0
IsNormalized u =
    In u.scheme allowed_schemes × In u.port allowed_ports × (u.ip_literal ≡ none → IsName u.host)

port-In : (p : ℕ) → not (any_of (λ q. q == p) allowed_ports) ≡ false → In p allowed_ports
port-In p h =
    let (q, i, same) = any_of-In (λ q. q == p) allowed_ports (not-not _ h) in
    subst (λ (r : ℕ). In r allowed_ports) ((==_iff q p).0 same) i

module _ (lib : UrlLibrary) where
  check_name-IsName : (stripped : Text) → Ensures IsName (check_name lib stripped)
  unfolding check_name
  check_name-IsName stripped = Ensures-reject_if _ _ _ λ short. Ensures-bind _ _ λ name ascii.
      Ensures-reject_if _ _ _ λ two. Ensures-reject_if _ _ _ λ labels.
        Ensures-reject_if _ _ _ λ decodable. Ensures-reject_if _ _ _ λ suffixes. on_ok (
          not_ltb (length (split_on b'.' name)) 2 two,
          All-map _ _ is_label-IsLabel (split_on b'.' name) (
              All-map _ (λ label. is_label label ≡ true) (λ label. not-not (is_label label))
                (split_on b'.' name)
                (none_of-All (λ label. not (is_label label)) (split_on b'.' name) labels)),
          none_of-All (λ suffix. ends_with suffix name) forbidden_suffixes suffixes,
        )

  IsNamed : Text × Option IpAddress → Type 0
  IsNamed (host, literal) = literal ≡ none → IsName host

  normalized_name-IsName :
      (host : Text) (empty : Bool) (literal : Option IpAddress)
      → Ensures IsNamed (
          if empty then rejected missing_host else elim literal [
            | some address ↦ ok (lib.format_ip address, some address)
            | none ↦ check_name lib host >>= λ name. ok (name, none)
          ])
  unfolding IsNamed
  normalized_name-IsName host true literal = on_rejected
  normalized_name-IsName host false (some address) = on_ok (λ e. cc)
  normalized_name-IsName host false none =
      Ensures-bind _ _ λ name h. on_ok (λ _. Ensures-value _ (check_name-IsName host) name h)

  normalize_host-IsName : (raw : Text) → Ensures IsNamed (normalize_host lib raw)
  unfolding normalize_host
  normalize_host-IsName raw = normalized_name-IsName _ _ _

  normalize_parts-IsNormalized :
      (parts : UrlParts) → Ensures IsNormalized (normalize_parts lib parts)
  unfolding normalize_parts IsNamed
  normalize_parts-IsNormalized parts = Ensures-reject_if _ _ _ λ scheme.
      Ensures-reject_if _ _ _ λ credentials. Ensures-bind _ _ λ hostname _.
        Ensures-bind _ _ λ raw_host _. Ensures-reject_if _ _ _ λ named. Ensures-bind _ _ λ port _.
          Ensures-reject_if _ _ _ λ allowed. Ensures-bind _ _ λ host host_ok. on_ok (
            is_among-In _ allowed_schemes (not-not _ scheme),
            port-In _ allowed,
            Ensures-value _ (normalize_host-IsName raw_host) host host_ok,
          )

  normalize_url-Ensures : (raw : Text) → Ensures IsNormalized (normalize_url lib raw)
  unfolding normalize_url
  normalize_url-Ensures raw = Ensures-reject_if _ _ _ λ _. Ensures-reject_if _ _ _ λ _.
      Ensures-reject_if _ _ _ λ _. Ensures-bind _ _ λ parts _. normalize_parts-IsNormalized parts

  -- A URL that is accepted has an allowed scheme and port, and its host is an IP literal or a name
  -- of at least two labels, each of 1 to 63 small letters, digits and hyphens, with no suffix of a
  -- private network.
  pub normalize_url-IsNormalized :
      (raw : Text) (u : NormalizedUrl) → normalize_url lib raw ≡ ok u → IsNormalized u
  normalize_url-IsNormalized raw u h = Ensures-value _ (normalize_url-Ensures raw) u h
