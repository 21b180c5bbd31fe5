-- ===== src/Common/Order.antt =====
-- The order of `str` and of pairs, and sorting by it: `sort_unstable`, whose result for equal
-- elements does not depend on how it sorts.
use mathlib.Core.Bool.{Bool, true, false, ◌&&◌, ◌||◌}
use mathlib.Core.List.{List, [], ◌∷◌}
use agent_voice.Common.Tests.{ltb, ◌==◌, if◌then◌else◌}
use agent_voice.Common.Ascii.{Bytes, bytes_eq}

-- Byte by byte; a prefix comes first.
unfoldable pub bytes_leb : Bytes → Bytes → Bool
bytes_leb [] ys = true
bytes_leb (x ∷ xs) [] = false
bytes_leb (x ∷ xs) (y ∷ ys) = ltb x y || ((x == y) && bytes_leb xs ys)

unfoldable pub pair_leb : Bytes × Bytes → Bytes × Bytes → Bool
unfolding bytes_leb
pair_leb (a, b) (c, d) = if bytes_eq a c then bytes_leb b d else bytes_leb a c

module _ {ℓ} {A : Type ℓ} (below : A → A → Bool) where
  unfoldable pub insert_sorted : A → List A → List A
  insert_sorted x [] = x ∷ []
  insert_sorted x (y ∷ ys) =
      let later = insert_sorted x ys in if below x y then x ∷ y ∷ ys else y ∷ later

  unfoldable pub sort : List A → List A
  unfolding insert_sorted
  sort [] = []
  sort (x ∷ xs) = insert_sorted x (sort xs)
