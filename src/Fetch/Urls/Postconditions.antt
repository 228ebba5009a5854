-- ===== src/Fetch/Urls/Postconditions.antt =====
-- Postconditions of checks that may turn a value down, with a rule for each combinator.
use mathlib.Core.Path.{subst}
use aedifex.Prelude.{◌≡◌, refl, Bool, true, false}
use aedifex.Fetch.Urls.{RejectionReason, Checked, ok, rejected, ◌>>=◌, reject_if}

ok-injective : {A : Type 0} {a b : A} → ok a ≡ ok b → a ≡ b
ok-injective h = cc

-- A value that a check gives has the property.
pub data Ensures {A : Type 0} (P : A → Type 0) : Checked A → Type 0 where
  on_ok : {a : A} → P a → Ensures P (ok a)
  on_rejected : {r : RejectionReason} → Ensures P (rejected r)

pub Ensures-value :
    {A : Type 0} {P : A → Type 0} (m : Checked A) → Ensures P m → (a : A) → m ≡ ok a → P a
Ensures-value {A} {P} (ok b) (on_ok p) a h = subst P (ok-injective h) p
Ensures-value (rejected r) e a h = cc

pub Ensures-bind :
    {A B : Type 0} {P : B → Type 0} (m : Checked A) (f : A → Checked B)
    → ((a : A) → m ≡ ok a → Ensures P (f a))
    → Ensures P (m >>= f)
unfolding ◌>>=◌
Ensures-bind (ok a) f h = h a refl
Ensures-bind (rejected r) f h = on_rejected

pub Ensures-reject_if :
    {B : Type 0} {P : B → Type 0} (test : Bool) (r : RejectionReason) (f : Unit {0} → Checked B)
    → (test ≡ false → Ensures P (f tt))
    → Ensures P (reject_if test r >>= f)
unfolding ◌>>=◌ reject_if
Ensures-reject_if true r f h = on_rejected
Ensures-reject_if false r f h = h refl
