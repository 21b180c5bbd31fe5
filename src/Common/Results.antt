-- ===== src/Common/Results.antt =====
-- `Result<T, E>` and the `?` operator as `do` blocks.
use mathlib.Core.Path.{◌≡◌, refl, ap}
use mathlib.Core.Logic.{◌⊎◌, inl, inr}
use mathlib.Core.Bool.{Bool, true, false}
use mathlib.Core.Option.{Option, none, some}
use agent_voice.Common.Tests.{if◌then◌else◌}

pub data Result {ℓ κ} (E : Type ℓ) (A : Type κ) : Type (ℓ ⊔ κ) where
  ok : A → Result E A
  err : E → Result E A

infixl 5 ◌>>=◌ ◌>>◌
abbrev pub ◌>>=◌ {ε ℓ κ} :
    {E : Type ε} {A : Type ℓ} {B : Type κ} → Result E A → (A → Result E B) → Result E B
ok a >>= f = f a
err e >>= f = err e

abbrev pub ◌>>◌ {ε ℓ} : {E : Type ε} {B : Type ℓ} → Result E (Unit {0}) → Result E B → Result E B
m >> k = m >>= λ _. k

-- `if !test { return Err(e); }`
abbrev pub guard {ε} : {E : Type ε} → Bool → E → Result E (Unit {0})
guard true e = ok tt
guard false e = err e

-- `Option::ok_or`
abbrev pub ok_or {ε ℓ} : {E : Type ε} {A : Type ℓ} → Option A → E → Result E A
ok_or (some a) e = ok a
ok_or none e = err e

pub ok-injective {ε ℓ} :
    {E : Type ε} {A : Type ℓ} {a b : A} → ◌≡◌ {A = Result E A} (ok a) (ok b) → a ≡ b
ok-injective h = cc

pub some-injective {ℓ} : {A : Type ℓ} {a b : A} → ◌≡◌ {A = Option A} (some a) (some b) → a ≡ b
some-injective h = cc

pub err-injective {ε ℓ} :
    {E : Type ε} {A : Type ℓ} {a b : E} → ◌≡◌ {A = Result E A} (err a) (err b) → a ≡ b
err-injective h = cc

-- To split on a computed result and keep the equation.
pub Result-cases {ε ℓ} :
    {E : Type ε} {A : Type ℓ} (m : Result E A) → ((a : A) × (m ≡ ok a)) ⊎ ((e : E) × (m ≡ err e))
Result-cases (ok a) = inl (a, refl)
Result-cases (err e) = inr (e, refl)

-- What a chain of `?` gives comes from a success of each of its steps.
pub bind_ok {ε ℓ κ} :
    {E : Type ε} {A : Type ℓ} {B : Type κ} {b : B} (m : Result E A) (f : A → Result E B)
    → (m >>= f) ≡ ok b
    → (a : A) × ((m ≡ ok a) × (f a ≡ ok b))
bind_ok (ok a) f h = (a, (refl, h))
bind_ok (err e) f h = cc

pub guard_ok {ε} : {E : Type ε} {u : Unit {0}} (b : Bool) (e : E) → guard b e ≡ ok u → b ≡ true
guard_ok true e h = refl
guard_ok false e h = cc

pub ok_or_ok {ε ℓ} :
    {E : Type ε} {A : Type ℓ} {a : A} (o : Option A) (e : E) → ok_or o e ≡ ok a → o ≡ some a
ok_or_ok (some a) e h = ap some (ok-injective h)
ok_or_ok none e h = cc

-- What a validator that gives its argument back has accepted is the argument.
pub if_err-ok {ε ℓ} :
    {E : Type ε} {A : Type ℓ} (test : Bool) (e : E) (a b : A)
    → (if test then err e else ok a) ≡ ok b
    → a ≡ b
if_err-ok true e a b h = cc
if_err-ok false e a b h = ok-injective h

pub if_err-false {ε ℓ} :
    {E : Type ε} {A : Type ℓ} (test : Bool) (e : E) (a b : A)
    → (if test then err e else ok a) ≡ ok b
    → test ≡ false
if_err-false true e a b h = cc
if_err-false false e a b h = refl
