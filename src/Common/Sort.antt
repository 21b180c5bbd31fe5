-- ===== src/Common/Sort.antt =====
-- `slice::sort_by_key`: a stable sort by a numeric key, with its order and its elements.
use Prim.Native.Nat.{ℕ, zero, suc, ◌≤◌}
use mathlib.Core.Path.{◌≡◌}
use mathlib.Core.Logic.{inl, inr}
use mathlib.Core.List.{List, [], ◌∷◌, map}
use native.Mathlib.Omega.{arith}
use agent_voice.Common.Tests.{leb, leb→le, if◌then◌else◌, Bool-cases}
use agent_voice.Common.Lists.{All, take}

module _ {ℓ} {A : Type ℓ} (key : A → ℕ) where
  -- Before the first element whose key is not smaller: an equal key keeps its place.
  unfoldable pub insert_by : A → List A → List A
  insert_by x [] = x ∷ []
  insert_by x (y ∷ ys) =
      let later = insert_by x ys in if leb (key x) (key y) then x ∷ y ∷ ys else y ∷ later

  unfoldable pub sort_by_key : List A → List A
  unfolding insert_by
  sort_by_key [] = []
  sort_by_key (x ∷ xs) = insert_by x (sort_by_key xs)

  abbrev pub SortedFrom : ℕ → List A → Type 0
  SortedFrom b [] = Unit
  SortedFrom b (x ∷ xs) = (b ≤ key x) × SortedFrom (key x) xs

  abbrev pub Sorted : List A → Type 0
  Sorted [] = Unit
  Sorted (x ∷ xs) = SortedFrom (key x) xs

  pub SortedFrom-weaken : (b c : ℕ) (xs : List A) → b ≤ c → SortedFrom c xs → SortedFrom b xs
  SortedFrom-weaken b c [] h s = tt
  SortedFrom-weaken b c (x ∷ xs) h (hx, s) = (omega arith, s)

  SortedFrom-insert_by :
      (b : ℕ) (x : A) (ys : List A) → b ≤ key x → SortedFrom b ys → SortedFrom b (insert_by x ys)
  unfolding insert_by
  SortedFrom-insert_by b x [] h s = (h, tt)
  SortedFrom-insert_by b x (y ∷ ys) h (hy, s) = elim (Bool-cases (leb (key x) (key y))) [
    | inl e ↦ rw e (h, (leb→le _ _ e, s))
    | inr e ↦ rw e (hy, SortedFrom-insert_by (key y) x ys (ground arith) s)
  ]

  pub SortedFrom-take : (n b : ℕ) (xs : List A) → SortedFrom b xs → SortedFrom b (take n xs)
  SortedFrom-take zero b xs s = tt
  SortedFrom-take (suc n) b [] s = tt
  SortedFrom-take (suc n) b (x ∷ xs) (hx, s) = (hx, SortedFrom-take n (key x) xs s)

  -- A change that keeps the keys keeps the order.
  pub SortedFrom-map :
      (f : A → A)
      → ((x : A) → key (f x) ≡ key x)
      → (b : ℕ) (xs : List A) → SortedFrom b xs
      → SortedFrom b (map f xs)
  SortedFrom-map f same b [] s = tt
  SortedFrom-map f same b (x ∷ xs) (hx, s) = rw (same x) (hx, SortedFrom-map f same (key x) xs s)

  pub SortedFrom-sort_by_key : (xs : List A) → SortedFrom 0 (sort_by_key xs)
  unfolding sort_by_key
  SortedFrom-sort_by_key [] = tt
  SortedFrom-sort_by_key (x ∷ xs) =
      SortedFrom-insert_by 0 x (sort_by_key xs) (omega arith) (SortedFrom-sort_by_key xs)

  Sorted-SortedFrom : (b : ℕ) (xs : List A) → SortedFrom b xs → Sorted xs
  Sorted-SortedFrom b [] s = tt
  Sorted-SortedFrom b (x ∷ xs) (_, s) = s

  pub sort_by_key-Sorted : (xs : List A) → Sorted (sort_by_key xs)
  sort_by_key-Sorted xs = Sorted-SortedFrom 0 (sort_by_key xs) (SortedFrom-sort_by_key xs)

  module _ {κ} (P : A → Type κ) where
    pub All-insert_by : (x : A) (ys : List A) → P x → All P ys → All P (insert_by x ys)
    unfolding insert_by
    All-insert_by x [] h s = (h, tt)
    All-insert_by x (y ∷ ys) h (hy, s) = elim (Bool-cases (leb (key x) (key y))) [
      | inl e ↦ rw e (h, (hy, s))
      | inr e ↦ rw e (hy, All-insert_by x ys h s)
    ]

    pub All-of_insert_by : (x : A) (ys : List A) → All P (insert_by x ys) → P x × All P ys
    unfolding insert_by
    All-of_insert_by x [] h = h
    All-of_insert_by x (y ∷ ys) h = elim (Bool-cases (leb (key x) (key y))) [
      | inl e ↦ rw e at h
      | inr e ↦
          let (hy, later) = rw e at h in
          let (hx, rest) = All-of_insert_by x ys later in (hx, (hy, rest))
    ]

    pub All-sort_by_key : (xs : List A) → All P xs → All P (sort_by_key xs)
    unfolding sort_by_key
    All-sort_by_key [] h = tt
    All-sort_by_key (x ∷ xs) (h, hs) = All-insert_by x (sort_by_key xs) h (All-sort_by_key xs hs)

    pub All-of_sort_by_key : (xs : List A) → All P (sort_by_key xs) → All P xs
    unfolding sort_by_key
    All-of_sort_by_key [] h = tt
    All-of_sort_by_key (x ∷ xs) h =
        let (hx, rest) = All-of_insert_by x (sort_by_key xs) h in (hx, All-of_sort_by_key xs rest)
