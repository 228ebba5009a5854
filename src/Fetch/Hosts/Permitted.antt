-- ===== src/Fetch/Hosts/Permitted.antt =====
-- Which hosts are permitted.
use mathlib.Core.Bool.{false≢true}
use mathlib.Core.Path.{subst}
use aedifex.Prelude.{
  ◌≡◌, ◌≢◌, refl, sym, ◌∙◌, ◌⊎◌, inl, inr, ◌↔◌, true, false, [], ◌∷◌, ◌++◌, arith, In, Bool-cases,
  any_of, any_of-In, In-any_of, if◌then◌else◌,
}
use aedifex.Prelude.Text.{
  Text, text_eq, text_eq_refl, text_eq_sound, is_among, ends_with-split, split-ends_with,
  not-In_of_is_among, is_among-In,
}
use aedifex.Fetch.Hosts.{SourceHostPolicy, canonical_host, is_below, permits}

-- The host is the base, or whole labels stand before it.
abbrev pub IsBelow : Text → Text → Type 0
IsBelow host base = (host ≡ base) ⊎ ((front : Text) × (host ≡ front ++ b'.' ∷ base))

abbrev pub IsPermitted : SourceHostPolicy → Text → Type 0
IsPermitted policy host =
    (host ≢ [])
    × (In host policy.exact_hosts ⊎ ((base : Text) × In base policy.base_hosts × IsBelow host base))

is_below_iff : (host base : Text) → (is_below host base ≡ true) ↔ IsBelow host base
unfolding is_below
is_below_iff host base = (
  λ h. elim (Bool-cases (text_eq host base)) [
    | inl whole ↦ inl (text_eq_sound host base whole)
    | inr other ↦ inr (ends_with-split (b'.' ∷ base) host (rw (other, is_below) at h))
  ],
  λ h. elim h [
    | inl e ↦ rw e (rw (text_eq_refl base) refl)
    | inr (front, e) ↦ rw e (rw (split-ends_with front (b'.' ∷ base)) (ground arith))
  ],
)

no_text : (host : Text) → text_eq host [] ≡ false → host ≢ []
no_text host h e =
    let same : text_eq [] [] ≡ false = subst (λ (t : Text). text_eq t [] ≡ false) e h in
    false≢true (sym same ∙ text_eq_refl [])

permits_candidate :
    (policy : SourceHostPolicy) (host : Text)
    → ((if text_eq host []
          then false
          else if is_among host policy.exact_hosts
          then true
          else any_of (is_below host) policy.base_hosts)
        ≡ true)
      ↔ IsPermitted policy host
permits_candidate policy host = elim (Bool-cases (text_eq host [])) [
  | inl empty ↦
      rw empty ((λ h. cc), λ (some_host, _). absurd (some_host (text_eq_sound host [] empty)))
  | inr named ↦ rw named (elim (Bool-cases (is_among host policy.exact_hosts)) [
    | inl exact ↦
        rw exact
          ((λ h. (no_text host named, inl (is_among-In host policy.exact_hosts exact))), λ h. refl)
    | inr other ↦ rw other (
      (λ h.
          let (base, i, below) = any_of-In (is_below host) policy.base_hosts h in
          (no_text host named, inr (base, i, (is_below_iff host base).0 below))),
      λ (_, how). elim how [
        | inl i ↦ absurd (not-In_of_is_among host policy.exact_hosts other i)
        | inr (base, i, below) ↦
            In-any_of (is_below host) base policy.base_hosts i ((is_below_iff host base).1 below)
      ],
    )
  ])
]

-- A host is permitted exactly where its canonical form is not empty and is one of the exact hosts,
-- or a base host, or stands below a base host with a dot between.
pub permits_iff :
    (policy : SourceHostPolicy) (host : Text)
    → (permits policy host ≡ true) ↔ IsPermitted policy (canonical_host host)
unfolding permits
permits_iff policy host = permits_candidate policy (canonical_host host)
