-- ===== src/Analysis/Provisions/Judged.antt =====
-- When a stated bid security is judged, and by what.
use mathlib.Core.Path.{subst}
use aedifex.Prelude.{
  clash, ◌≡◌, refl, sym, ◌∙◌, ◌⊎◌, inl, inr, true, false, Option, none, some, List, if◌then◌else◌,
  arith, Bool-cases, Option-cases,
}
use aedifex.Prelude.Text.{Text}
use aedifex.Prelude.Integers.{ℤ, ◌+ℤ◌, ◌-ℤ◌, ◌*ℤ◌, ◌≤ℤ◌, leb_ℤ}
use aedifex.Domain.Workflow.{Outcome}
use aedifex.Analysis.Provisions.{
  PolicyProvision, select_provision, share_scale, capped, compute_required_bid_security,
  reference_bid_security_tolerance, is_close, evaluate_bid_security_against_policy,
  judge_bid_security, compare_stated, required_by,
}
use aedifex.Analysis.Provisions.Governing.{Governs, select_provision-IsDetermined}

-- The lesser of a product and a cap.
abbrev pub IsRequired : ℤ → Option ℤ → ℤ → Type 0
IsRequired product none need = need ≡ product
IsRequired product (some cap) need =
    (need ≤ℤ product)
    × (need ≤ℤ cap *ℤ share_scale)
    × ((need ≡ product) ⊎ (need ≡ cap *ℤ share_scale))

within : (a b : ℤ) → leb_ℤ a b ≡ true → a ≤ℤ b
within a b h = ground arith

beyond : (a b : ℤ) → leb_ℤ a b ≡ false → b ≤ℤ a
beyond a b h = ground arith

capped-IsRequired : (product : ℤ) (cap : Option ℤ) → IsRequired product cap (capped product cap)
unfolding capped
capped-IsRequired product none = refl
capped-IsRequired product (some cap) = elim (Bool-cases (leb_ℤ product (cap *ℤ share_scale))) [
  | inl e ↦ rw (e, capped) (omega arith, within product (cap *ℤ share_scale) e, inl refl)
  | inr e ↦ rw (e, capped) (beyond product (cap *ℤ share_scale) e, omega arith, inr refl)
]

-- The two are at most the tolerance apart.
abbrev pub IsClose : ℤ → ℤ → Type 0
IsClose a b =
    (a ≤ℤ b +ℤ reference_bid_security_tolerance) × (b ≤ℤ a +ℤ reference_bid_security_tolerance)

is_close_iff : (a b : ℤ) → (is_close a b ≡ true → IsClose a b) × (IsClose a b → is_close a b ≡ true)
unfolding is_close ◌-ℤ◌ ◌+ℤ◌
is_close_iff a b = (λ h. ground arith, λ h. ground arith)

module _ (table : List PolicyProvision) (provision_type applies_to authority : Text) where
  -- What a judgement rests on: both amounts, a provision that alone governs the cost, its share, and
  -- the amount that they require; and the judgement is a pass exactly where the stated amount is
  -- close to it.
  pub record IsFounded (cost security : Option ℤ) (outcome : Outcome) : Type 0 where
    pub value : ℤ
    pub stated : ℤ
    pub provision : PolicyProvision
    pub share : ℤ
    pub need : ℤ
    pub of_cost : cost ≡ some value
    pub of_security : security ≡ some stated
    pub governs : Governs table provision_type authority applies_to value provision
    pub alone :
        (r : PolicyProvision)
        → Governs table provision_type authority applies_to value r
        → provision ≡ r
    pub of_share : provision.share ≡ some share
    pub required : IsRequired (value *ℤ share) provision.cap_amount need
    pub judged :
        ((outcome ≡ Outcome.pass) × IsClose (stated *ℤ share_scale) need)
        ⊎ ((outcome ≡ Outcome.fail) × (IsClose (stated *ℤ share_scale) need → ⊥))

  selected-Governs :
      (value : ℤ) (p : PolicyProvision)
      → (select_provision table provision_type (some authority) value applies_to).provision ≡ some p
      → Governs table provision_type authority applies_to value p
        × ((r : PolicyProvision)
            → Governs table provision_type authority applies_to value r
            → p ≡ r)
  selected-Governs value p e =
      elim (select_provision-IsDetermined table provision_type authority applies_to value) [
        | inl (nothing, _, _) ↦ absurd (cc)
        | inr other ↦ elim other [
          | inl (s, chosen, governs, alone) ↦
              let same : s ≡ p = cc in
              (
                subst (Governs table provision_type authority applies_to value) same governs,
                λ r g. sym same ∙ alone r g,
              )
          | inr (nothing, _, _) ↦ absurd (cc)
        ]
      ]

  judged_close :
      (a b : ℤ)
      → (((if is_close a b then Outcome.pass else Outcome.fail) ≡ Outcome.pass) × IsClose a b)
        ⊎ (((if is_close a b then Outcome.pass else Outcome.fail) ≡ Outcome.fail)
            × (IsClose a b → ⊥))
  judged_close a b = elim (Bool-cases (is_close a b)) [
    | inl e ↦ inl (rw e refl, (is_close_iff a b).0 e)
    | inr e ↦ inr (rw e refl, λ c. clash e ((is_close_iff a b).1 c))
  ]

  -- an outcome that is inconclusive or founded
  abbrev IsJudged : Option ℤ → Option ℤ → Outcome → Type 0
  IsJudged cost security outcome =
      (outcome ≡ Outcome.inconclusive) ⊎ IsFounded cost security outcome

  compare_stated-IsJudged :
      (value : ℤ) (security : Option ℤ) (o : Option PolicyProvision)
      → (select_provision table provision_type (some authority) value applies_to).provision ≡ o
      → IsJudged (some value) security (compare_stated o (required_by value o) security)
  unfolding compare_stated required_by compute_required_bid_security
  compare_stated-IsJudged value security none e = inl refl
  compare_stated-IsJudged value none (some p) e = elim (Option-cases p.share) [
    | inl f ↦ inl (rw (f, compare_stated, required_by, compute_required_bid_security) refl)
    | inr (share, f) ↦ inl (rw (f, compare_stated, required_by, compute_required_bid_security) refl)
  ]
  compare_stated-IsJudged value (some stated) (some p) e = elim (Option-cases p.share) [
    | inl f ↦ inl (rw (f, compare_stated, required_by, compute_required_bid_security) refl)
    | inr (share, f) ↦
        let (governs, alone) = selected-Governs value p e in
        let need = capped (value *ℤ share) p.cap_amount in
        inr (record {
          value = value;
          stated = stated;
          provision = p;
          share = share;
          need = need;
          of_cost = refl;
          of_security = refl;
          governs = governs;
          alone = alone;
          of_share = f;
          required = capped-IsRequired (value *ℤ share) p.cap_amount;
          judged =
              rw (f, compare_stated, required_by, compute_required_bid_security)
                (judged_close (stated *ℤ share_scale) need);
        })
  ]

  -- The rule on the reference policy is inconclusive, or it is founded: the document states both
  -- amounts, exactly one provision of the document's authority governs the cost and prescribes a
  -- share, and the rule passes where the stated bid security is within the tolerance of the share of
  -- the cost, at most the cap, and fails where it is not.
  pub judge_bid_security-IsFounded :
      (cost security : Option ℤ)
      → (judge_bid_security table provision_type applies_to (some authority) cost security
          ≡ Outcome.inconclusive)
        ⊎ IsFounded cost security
            (judge_bid_security table provision_type applies_to (some authority) cost security)
  unfolding judge_bid_security evaluate_bid_security_against_policy
  judge_bid_security-IsFounded none security = inl refl
  judge_bid_security-IsFounded (some value) security = compare_stated-IsJudged value security _ refl
