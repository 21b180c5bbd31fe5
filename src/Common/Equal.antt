-- ===== src/Common/Equal.antt =====
-- `==` of types that derive `PartialEq`, as a test, from the decision of equality.
use mathlib.Core.Path.{◌≡◌, refl}
use mathlib.Core.Bool.{Bool, true, false}

module _ {ℓ} {A : Type ℓ} (discrete : Discrete A) where
  pub eqb : A → A → Bool
  eqb a b = elim (discrete a b) [ yes _ ↦ true | no _ ↦ false ]

  pub eqb→eq : (a b : A) → eqb a b ≡ true → a ≡ b
  unfolding eqb
  eqb→eq a b h =
      elim (discrete a b) as (λ d. elim d [ yes _ ↦ true | no _ ↦ false ] ≡ true → a ≡ b) [
        | yes e ↦ λ _. e
        | no e ↦ λ k. cc
      ]
        h

  pub eqb_refl : (a : A) → eqb a a ≡ true
  unfolding eqb
  eqb_refl a = elim (discrete a a) as (λ d. elim d [ yes _ ↦ true | no _ ↦ false ] ≡ true) [
    | yes _ ↦ refl
    | no e ↦ absurd (e refl)
  ]
