-- ===== src/Common/OrderLaws.antt =====
-- The order of texts and pairs, and lists sorted by a total order.
use mathlib.Core.Path.{◌≡◌, refl, ap, ◌∙◌}
use mathlib.Core.Bool.{Bool, true, false}
use mathlib.Core.Logic.{inl, inr}
use mathlib.Core.List.{List, [], ◌∷◌, map, Permᴰ}
use native.Mathlib.Omega.{arith}
use agent_voice.Common.Tests.{Bool-cases}
use agent_voice.Common.Ascii.{Bytes, bytes_eq_refl, bytes_eq→eq}
use agent_voice.Common.Order.{bytes_leb, pair_leb, insert_sorted, sort}

pub record IsTotal {ℓ} {A : Type ℓ} (below : A → A → Bool) : Type ℓ where
  pub total : (x y : A) → below x y ≡ false → below y x ≡ true
  pub antisym : (x y : A) → below x y ≡ true → below y x ≡ true → x ≡ y
  pub trans : (x y z : A) → below x y ≡ true → below y z ≡ true → below x z ≡ true

bytes_leb_total : (xs ys : Bytes) → bytes_leb xs ys ≡ false → bytes_leb ys xs ≡ true
unfolding bytes_leb
bytes_leb_total [] ys h = cc
bytes_leb_total (x ∷ xs) [] h = refl
bytes_leb_total (x ∷ xs) (y ∷ ys) h = ground (arith, bytes_leb_total xs ys)

bytes_leb_antisym : (xs ys : Bytes) → bytes_leb xs ys ≡ true → bytes_leb ys xs ≡ true → xs ≡ ys
unfolding bytes_leb
bytes_leb_antisym [] [] h k = refl
bytes_leb_antisym [] (y ∷ ys) h k = cc
bytes_leb_antisym (x ∷ xs) [] h k = cc
bytes_leb_antisym (x ∷ xs) (y ∷ ys) h k = ground (arith, bytes_leb_antisym xs ys)

bytes_leb_trans :
    (xs ys zs : Bytes) → bytes_leb xs ys ≡ true → bytes_leb ys zs ≡ true → bytes_leb xs zs ≡ true
unfolding bytes_leb
bytes_leb_trans [] ys zs h k = refl
bytes_leb_trans (x ∷ xs) [] zs h k = cc
bytes_leb_trans (x ∷ xs) (y ∷ ys) [] h k = cc
bytes_leb_trans (x ∷ xs) (y ∷ ys) (z ∷ zs) h k = ground (arith, bytes_leb_trans xs ys zs)

pub bytes_leb-IsTotal : IsTotal bytes_leb
bytes_leb-IsTotal = record {
  total = bytes_leb_total;
  antisym = bytes_leb_antisym;
  trans = bytes_leb_trans;
}

pair_leb_total : (p q : Bytes × Bytes) → pair_leb p q ≡ false → pair_leb q p ≡ true
unfolding pair_leb
pair_leb_total (a, b) (c, d) h = ground (
  arith,
  bytes_eq→eq a c,
  bytes_eq→eq c a,
  bytes_eq_refl a,
  bytes_leb_total b d,
  bytes_leb_total a c,
)

pair_leb_antisym : (p q : Bytes × Bytes) → pair_leb p q ≡ true → pair_leb q p ≡ true → p ≡ q
unfolding pair_leb
pair_leb_antisym (a, b) (c, d) h k = ground (
  arith,
  bytes_eq→eq a c,
  bytes_eq→eq c a,
  bytes_eq_refl a,
  bytes_leb_antisym b d,
  bytes_leb_antisym a c,
)

pair_leb_trans :
    (p q r : Bytes × Bytes) → pair_leb p q ≡ true → pair_leb q r ≡ true → pair_leb p r ≡ true
unfolding pair_leb
pair_leb_trans (a, b) (c, d) (e, f) h k = ground (
  arith,
  bytes_eq→eq a c,
  bytes_eq→eq c e,
  bytes_eq→eq a e,
  bytes_eq_refl a,
  bytes_eq_refl c,
  bytes_leb_trans b d f,
  bytes_leb_trans a c e,
  bytes_leb_antisym a c,
)

pub pair_leb-IsTotal : IsTotal pair_leb
pair_leb-IsTotal = record {
  total = pair_leb_total;
  antisym = pair_leb_antisym;
  trans = pair_leb_trans;
}

module _ {ℓ} {A : Type ℓ} (below : A → A → Bool) (t : IsTotal below) where
  insert_sorted_comm :
      (x y : A) (l : List A)
      → insert_sorted below x (insert_sorted below y l)
        ≡ insert_sorted below y (insert_sorted below x l)
  unfolding insert_sorted
  insert_sorted_comm x y [] = elim (Bool-cases (below x y)) [
    | inl e ↦ elim (Bool-cases (below y x)) [ inl f ↦ rw (t.antisym x y e f) | inr f ↦ rw (e, f) ]
    | inr e ↦ rw (e, t.total x y e)
  ]
  insert_sorted_comm x y (z ∷ l) =
      ground
        (arith, insert_sorted_comm x y l, t.total x y, t.antisym x y, t.trans x y z, t.trans y x z)

  -- The order in which the elements come does not show in the sorted list.
  pub sort-perm : {xs ys : List A} → Permᴰ xs ys → sort below xs ≡ sort below ys
  unfolding sort
  sort-perm Permᴰ.nil = refl
  sort-perm (Permᴰ.cons {b = b} e p) = rw e (ap (insert_sorted below b) (sort-perm p))
  sort-perm (Permᴰ.swap {a = a} {b = b} {l = l} e f) =
      rw (← e, ← f) (insert_sorted_comm a b (sort below l))
  sort-perm (Permᴰ.trans p q) = sort-perm p ∙ sort-perm q

pub map-perm {ℓ κ} :
    {A : Type ℓ} {B : Type κ} (f : A → B) {xs ys : List A}
    → Permᴰ xs ys
    → Permᴰ (map f xs) (map f ys)
map-perm f Permᴰ.nil = Permᴰ.nil
map-perm f (Permᴰ.cons e p) = Permᴰ.cons (ap f e) (map-perm f p)
map-perm f (Permᴰ.swap e g) = Permᴰ.swap (ap f e) (ap f g)
map-perm f (Permᴰ.trans p q) = Permᴰ.trans (map-perm f p) (map-perm f q)
