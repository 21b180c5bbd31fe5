-- ===== src/Common/Assoc.antt =====
-- A map with text keys as the list of its entries: what a lookup gives after an entry is set.
use mathlib.Core.Path.{◌≡◌, refl}
use mathlib.Core.Bool.{false}
use mathlib.Core.List.{List, [], ◌∷◌}
use mathlib.Core.Option.{Option, none, some}
use mathlib.Core.Logic.{inl, inr}
use agent_voice.Common.Tests.{if◌then◌else◌, Bool-cases}
use agent_voice.Common.Ascii.{Bytes, bytes_eq, bytes_eq_refl, bytes_eq→eq}

module _ {ℓ} {A : Type ℓ} where
  -- `HashMap::get` and `BTreeMap::get`.
  unfoldable pub lookup : Bytes → List (Bytes × A) → Option A
  lookup key [] = none
  lookup key ((k, a) ∷ entries) =
      let rest = lookup key entries in if bytes_eq k key then some a else rest

  -- The entry of the key is replaced, or added at the end.
  pub put : Bytes → A → List (Bytes × A) → List (Bytes × A)
  put key a [] = (key, a) ∷ []
  put key a ((k, b) ∷ entries) =
      let rest = put key a entries in if bytes_eq k key then (k, a) ∷ entries else (k, b) ∷ rest

  pub lookup-put :
      (key : Bytes) (a : A) (entries : List (Bytes × A)) → lookup key (put key a entries) ≡ some a
  unfolding lookup put
  lookup-put key a [] = rw (bytes_eq_refl key) refl
  lookup-put key a ((k, b) ∷ entries) = elim (Bool-cases (bytes_eq k key)) [
    | inl e ↦ rw (e, e) refl
    | inr e ↦ rw (e, e) (lookup-put key a entries)
  ]

  pub lookup-put_other :
      (key other : Bytes) (a : A) (entries : List (Bytes × A))
      → bytes_eq key other ≡ false
      → lookup other (put key a entries) ≡ lookup other entries
  unfolding lookup put
  lookup-put_other key other a [] h = rw h refl
  lookup-put_other key other a ((k, b) ∷ entries) h = elim (Bool-cases (bytes_eq k key)) [
    | inl e ↦
        let differs : bytes_eq k other ≡ false = rw (bytes_eq→eq k key e) h in rw (e, differs) refl
    | inr e ↦ elim (Bool-cases (bytes_eq k other)) [
      | inl f ↦ rw (e, f) refl
      | inr f ↦ rw (e, f) (lookup-put_other key other a entries h)
    ]
  ]
