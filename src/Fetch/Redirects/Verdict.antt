-- ===== src/Fetch/Redirects/Verdict.antt =====
-- What a decision to follow rests on, and what a refusal carries.
use aedifex.Prelude.{
  ℕ, ◌+◌, ◌-◌, ◌<◌, ◌≡◌, ◌⊎◌, inl, inr, refl, true, false, not, ◌&&◌, Option, none, some, List,
  arith, leb, ◌==◌, Bool-cases, Option-cases, In, length,
}
use aedifex.Prelude.Text.{Text, codes, contains, strip, is_among, not-In_of_is_among}
use aedifex.Fetch.Redirects.{
  redirect_statuses, is_redirect, follow, reject, RedirectDecision, RedirectPolicy, evaluate,
  leaves_https, judge_location, judge, resolve, is_blank,
}

-- A refusal names no URL and rewrites nothing.
abbrev pub IsRefusal : RedirectDecision → Type 0
IsRefusal d = (d.outcome ≡ reject) × (d.url ≡ none) × (d.rewrite_method_to_get ≡ false)

module _ (policy : RedirectPolicy) (status : ℕ) (current_scheme : Text) (history : List Text) where
  -- The target is absolute, new in the chain and within the hops allowed, and does not leave https
  -- unless the policy allows it.
  pub record IsFollowed (d : RedirectDecision) (target : Text) : Type 0 where
    pub outcome : d.outcome ≡ follow
    pub url : d.url ≡ some target
    pub status_listed : In status redirect_statuses
    pub hops_left : length history < policy.max_hops + 1
    pub absolute : contains (codes "://") target ≡ true
    pub fresh : In target history → ⊥
    pub secure :
        (leaves_https current_scheme target ≡ false) ⊎ (policy.allow_transport_downgrade ≡ true)
    pub rewrite : d.rewrite_method_to_get ≡ (status == 303)

  abbrev pub Judged : RedirectDecision → Type 0
  Judged d = IsRefusal d ⊎ ((target : Text) × IsFollowed d target)

module _ (urljoin : Text → Text → Option Text) (policy : RedirectPolicy) (status : ℕ)
    (current_scheme : Text) (history : List Text) where
  judge-Judged :
      (target : Text)
      → In status redirect_statuses
      → length history < policy.max_hops + 1
      → contains (codes "://") target ≡ true
      → Judged policy status current_scheme history
          (judge urljoin policy status current_scheme history target)
  unfolding judge
  judge-Judged target s l a = elim (Bool-cases (is_among target history)) [
    | inl seen ↦ rw seen (inl (refl, refl, refl))
    | inr fresh ↦
        rw fresh
          (elim (Bool-cases
            (leaves_https current_scheme target && not policy.allow_transport_downgrade)) [
              | inl leaves ↦ rw leaves (inl (refl, refl, refl))
              | inr stays ↦ rw stays (
                  inr (
                    target,
                    record {
                      outcome = refl;
                      url = refl;
                      status_listed = s;
                      hops_left = l;
                      absolute = a;
                      fresh = not-In_of_is_among target history fresh;
                      secure = ground arith;
                      rewrite = refl;
                    },
                  ))
            ])
  ]

  resolve-absolute :
      (raw current_url : Text) (target : Text)
      → resolve urljoin raw current_url ≡ some target
      → contains (codes "://") target ≡ true
  unfolding resolve
  resolve-absolute raw current_url target h = ground arith

  judge_location-Judged :
      (raw current_url : Text)
      → In status redirect_statuses
      → Judged policy status current_scheme history
          (judge_location urljoin policy status raw current_url current_scheme history)
  unfolding judge_location
  judge_location-Judged raw current_url s =
      elim (Bool-cases (leb policy.max_hops (length history - 1))) [
        | inl spent ↦ rw spent (inl (refl, refl, refl))
        | inr left ↦ rw left (elim (Option-cases (resolve urljoin raw current_url)) [
          | inl broken ↦ rw broken (inl (refl, refl, refl))
          | inr (target, found) ↦
              rw found (
                judge-Judged target s (ground arith)
                  (resolve-absolute raw current_url target found))
        ])
      ]

  In-of_is_redirect : is_redirect status ≡ true → In status redirect_statuses
  In-of_is_redirect h = ground arith

  -- Whatever `urljoin` does, a redirect is refused, with no URL and no rewriting, or its target is
  -- named: then the status is one of the five followed, fewer than `max_hops` hops were taken, the
  -- target is absolute and was not visited before, it does not go from https to http unless the
  -- policy allows that, and the method is rewritten exactly for 303.
  pub evaluate-Judged :
      (location : Option Text) (current_url : Text)
      → Judged policy status current_scheme history
          (evaluate urljoin policy status location current_url current_scheme history)
  unfolding evaluate
  evaluate-Judged location current_url = elim (Bool-cases (is_redirect status)) [
    | inr other ↦ rw other (inl (refl, refl, refl))
    | inl listed ↦ rw listed (elim (Option-cases location) [
      | inl absent ↦ rw absent (inl (refl, refl, refl))
      | inr (raw, present) ↦ rw present (elim (Bool-cases (is_blank (strip raw))) [
        | inl blank ↦ rw blank (inl (refl, refl, refl))
        | inr text ↦
            rw text (judge_location-Judged (strip raw) current_url (In-of_is_redirect listed))
      ])
    ])
  ]
