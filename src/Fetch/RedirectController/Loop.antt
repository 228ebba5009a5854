-- ===== src/Fetch/RedirectController/Loop.antt =====
-- The chain ends, visits no target twice, and takes nothing of the caller's to another host.
use aedifex.Prelude.{
  ◌+◌, ◌≤◌, ◌<◌, ◌≡◌, ◌⊎◌, true, false, none, some, List, [], ◌∷◌, length, Distinct,
}
use aedifex.Prelude.Text.{Text}
use aedifex.Fetch.Redirects.{RedirectPolicy}
use aedifex.Fetch.RedirectController.{
  ValidatedTarget, Request, Environment, RedirectHop, ChainOutcome, out_of_fuel, Chain, get_method,
  crosses_host,
}

abbrev pub IsBare : Request → Type 0
IsBare r = (r.method ≡ get_method) × (r.headers ≡ none) × (r.body ≡ none)

module _ (env : Environment) where
  -- What may be asked of `next_url` after `before` was asked: if its host is another one, a bare
  -- GET; otherwise the same headers.
  abbrev pub Carries : ValidatedTarget × Request → Text → Request → Type 0
  Carries (target, before) next_url after =
      ((crosses_host env target.hostname next_url ≡ true) × IsBare after)
      ⊎ ((crosses_host env target.hostname next_url ≡ false) × (after.headers ≡ before.headers))

  -- Each request went to a target that the guard validated, and each but the first carries no more
  -- than the hop before it allows.
  abbrev pub IsLinked : List (ValidatedTarget × Request) → Type 0
  IsLinked [] = Unit
  IsLinked ((target, request) ∷ []) = (url : Text) × (env.validate url ≡ some target)
  IsLinked ((target, request) ∷ before ∷ sent) =
      ((url : Text) × (env.validate url ≡ some target) × Carries before url request)
      × IsLinked (before ∷ sent)

  -- the request that is about to be made is allowed after those made
  abbrev Follows : List (ValidatedTarget × Request) → Text → Request → Type 0
  Follows [] url request = Unit
  Follows (before ∷ sent) url request = Carries before url request

  module _ (policy : RedirectPolicy) where
    abbrev pub IsGood : Chain → Type 0
    IsGood c =
        Distinct c.visited
        × (length c.visited ≡ length c.sent)
        × (length c.sent ≤ policy.max_hops + 1)
        × IsLinked c.sent

    abbrev pub IsFinished : ChainOutcome × Chain → Type 0
    IsFinished (outcome, c) = (outcome ≡ out_of_fuel → ⊥) × IsGood c

    module _ (next : Text → Request → Chain → ChainOutcome × Chain) (c : Chain)
        (request : Request) where
      -- the next round of the loop, with any hops recorded, is finished well
      abbrev GoesOn : ValidatedTarget → Type 0
      GoesOn target =
          (next_url : Text) (r : Request) (hops : List RedirectHop)
          → length c.visited < policy.max_hops + 1
          → Carries (target, request) next_url r
          → IsFinished (next next_url r (record c { hops = hops }))
