-- ===== src/Common/Distinct.antt =====
-- Lists whose elements have pairwise different numeric keys.
use Prim.Native.Nat.{ℕ, zero, suc}
use mathlib.Core.Path.{sym}
use mathlib.Core.Logic.{◌≢◌, inl, inr}
use mathlib.Core.Bool.{Bool}
use mathlib.Core.List.{List, [], ◌∷◌}
use agent_voice.Common.Tests.{leb, Bool-cases}
use agent_voice.Common.Lists.{All, All-retain, All-take, take, retain}
use agent_voice.Common.Sort.{insert_by, sort_by_key, All-insert_by, All-sort_by_key}

module _ {ℓ} {A : Type ℓ} (key : A → ℕ) where
  abbrev pub Distinct : List A → Type 0
  Distinct [] = Unit
  Distinct (x ∷ xs) = All (λ y. key x ≢ key y) xs × Distinct xs

  pub Distinct-retain : (p : A → Bool) (xs : List A) → Distinct xs → Distinct (retain p xs)
  Distinct-retain p [] d = tt
  Distinct-retain p (x ∷ xs) (h, d) = elim (Bool-cases (p x)) [
    | inl e ↦ rw e (All-retain (λ y. key x ≢ key y) p xs h, Distinct-retain p xs d)
    | inr e ↦ rw e (Distinct-retain p xs d)
  ]

  pub Distinct-take : (n : ℕ) (xs : List A) → Distinct xs → Distinct (take n xs)
  Distinct-take zero xs d = tt
  Distinct-take (suc n) [] d = tt
  Distinct-take (suc n) (x ∷ xs) (h, d) =
      (All-take (λ y. key x ≢ key y) n xs h, Distinct-take n xs d)

  module _ (order : A → ℕ) where
    Distinct-insert_by :
        (x : A) (ys : List A)
        → All (λ y. key x ≢ key y) ys
        → Distinct ys
        → Distinct (insert_by order x ys)
    unfolding insert_by
    Distinct-insert_by x [] h d = (tt, tt)
    Distinct-insert_by x (y ∷ ys) (hy, h) (dy, d) = elim (Bool-cases (leb (order x) (order y))) [
      | inl e ↦ rw e ((hy, h), (dy, d))
      | inr e ↦ rw e (
        All-insert_by order (λ z. key y ≢ key z) x ys (λ same. hy (sym same)) dy,
        Distinct-insert_by x ys h d,
      )
    ]

    pub Distinct-sort_by_key : (xs : List A) → Distinct xs → Distinct (sort_by_key order xs)
    unfolding sort_by_key
    Distinct-sort_by_key [] d = tt
    Distinct-sort_by_key (x ∷ xs) (h, d) =
        Distinct-insert_by x (sort_by_key order xs)
          (All-sort_by_key order (λ y. key x ≢ key y) xs h) (Distinct-sort_by_key xs d)
