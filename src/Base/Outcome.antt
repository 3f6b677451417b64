-- ===== src/Base/Outcome.antt =====
-- The outcome of C code: a value, or undefined behaviour (an access out of range, a null pointer) or a failed
-- assertion.
use mathlib.Core.Path.{◌≡◌, refl, subst}
use mathlib.Core.Logic.{◌⊎◌, inl, inr}
use mathlib.Core.Bool.{Bool, true, false}
use mathlib.Core.Option.{Option, none, some}
use cs.Base.Tests.{if◌then◌else◌}

pub data Run {ℓ} (A : Type ℓ) : Type ℓ where
  done : A → Run A
  fault : Run A

infixl 5 ◌>>=◌ ◌>>◌
unfoldable pub ◌>>=◌ {ℓ κ} : {A : Type ℓ} {B : Type κ} → Run A → (A → Run B) → Run B
done a >>= f = f a
fault >>= f = fault

unfoldable pub ◌>>◌ {κ} : {B : Type κ} → Run (Unit {0}) → Run B → Run B
unfolding ◌>>=◌
m >> k = m >>= λ _. k

-- `assert`, and the checks of an address.
abbrev pub require : Bool → Run (Unit {0})
require true = done tt
require false = fault

-- Following a pointer that may be null.
abbrev pub deref {ℓ} : {A : Type ℓ} → Option A → Run A
deref none = fault
deref (some a) = done a

-- Inversion of a normal run.
pub >>=-eq-done {ℓ κ} :
    {A : Type ℓ} {B : Type κ} (m : Run A) (f : A → Run B) {b : B}
    → (m >>= f) ≡ done b
    → (a : A) × (m ≡ done a) × (f a ≡ done b)
unfolding ◌>>=◌
>>=-eq-done (done a) f h = (a, refl, h)
>>=-eq-done fault f h = cc

pub Run-cases {ℓ} : {A : Type ℓ} (r : Run A) → ((a : A) × (r ≡ done a)) ⊎ (r ≡ fault)
Run-cases (done a) = inl (a, refl)
Run-cases fault = inr refl

-- What holds of the value of every normal run.
pub data Ensures {ℓ κ} {A : Type ℓ} (P : A → Type κ) : Run A → Type (ℓ ⊔ κ) where
  returns : {a : A} → P a → Ensures P (done a)
  undefined : Ensures P fault

module _ {A B : Type 0} where
  -- A step whose value does not matter.
  pub next :
      {P : B → Type 0} (m : Run A) {f : A → Run B}
      → ((a : A) → Ensures P (f a))
      → Ensures P (m >>= f)
  unfolding ◌>>=◌
  next (done a) k = k a
  next fault k = undefined

  pub bind :
      {P : B → Type 0} {Q : A → Type 0} {m : Run A} {f : A → Run B}
      → Ensures Q m
      → ((a : A) → Q a → Ensures P (f a))
      → Ensures P (m >>= f)
  unfolding ◌>>=◌
  bind (returns q) k = k _ q
  bind undefined k = undefined

module _ {A : Type 0} where
  pub branch :
      {P : A → Type 0} (b : Bool) {x y : Run A}
      → Ensures P x
      → Ensures P y
      → Ensures P (if b then x else y)
  branch true h k = h
  branch false h k = k

  pub Ensures-mono :
      {P Q : A → Type 0} {r : Run A} → Ensures P r → ((a : A) → P a → Q a) → Ensures Q r
  Ensures-mono (returns p) f = returns (f _ p)
  Ensures-mono undefined f = undefined

  -- A value together with where it comes from.
  pub known : (r : Run A) → Ensures (λ a. r ≡ done a) r
  known (done a) = returns refl
  known fault = undefined

  pub done-injective : {a b : A} → done a ≡ done b → a ≡ b
  done-injective e = cc

  pub Ensures-done : {P : A → Type 0} {r : Run A} {a : A} → Ensures P r → r ≡ done a → P a
  Ensures-done {P} (returns {a = b} p) e = subst P (done-injective e) p
  Ensures-done undefined e = cc

module _ {A B : Type 0} where
  -- A run that comes to grief whatever its first step yields.
  pub next-fault : (m : Run A) {f : A → Run B} → ((a : A) → f a ≡ fault) → (m >>= f) ≡ fault
  unfolding ◌>>=◌
  next-fault (done a) k = k a
  next-fault fault k = refl
