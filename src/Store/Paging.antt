-- ===== src/Store/Paging.antt =====
-- The lists of src/pa/store.rs that a client reads page by page: `WHERE id > cursor ORDER BY id
-- LIMIT limit` on rows kept by id, and a client that reads pages until one is empty.
pub mod Complete
use agent_voice.Common.{
  ℕ, zero, suc, ◌<◌, ltb, leb, not, ◌&&◌, Bool, true, false, Option, none, some, List, [], ◌∷◌,
  ◌++◌, retain, take, Bytes, codes,
}
use agent_voice.Common.Int.{ℤ, pos, negsuc}
use agent_voice.Common.Results.{Result, ok, err, guard, ◌>>=◌, ◌>>◌}
use agent_voice.Store.Errors.{StoreResult, invalid_input}

-- `?1 IS NULL OR id > ?1`
abbrev is_after : Option ℤ → ℕ → Bool
is_after none id = true
is_after (some (pos n)) id = ltb n id
is_after (some (negsuc n)) id = true

abbrev is_cursor : Option ℤ → Bool
is_cursor none = true
is_cursor (some (pos n)) = not (leb n 0)
is_cursor (some (negsuc n)) = false

-- The first checks of each list operation; every maximum fits an `i64`.
pub validate_page : Option ℤ → ℕ → ℕ → StoreResult (Unit {0})
validate_page after_id limit maximum = do
  guard (is_cursor after_id) (invalid_input (codes "cursor"))
  guard (not (leb limit 0) && not (ltb maximum limit)) (invalid_input (codes "limit"))

-- `rows.into_iter().map(decode).collect()`
pub decode_each : {A B : Type 0} → (A → StoreResult B) → List A → StoreResult (List B)
decode_each decode [] = ok []
decode_each decode (row ∷ rows) = do
  value ← decode row
  values ← decode_each decode rows
  ok (value ∷ values)

module _ {A : Type 0} (id : A → ℕ) where
  abbrev pub page : Option ℤ → ℕ → List A → List A
  page after_id limit rows = take limit (retain (λ row. is_after after_id (id row)) rows)

  abbrev pub Ascending : ℕ → List A → Type 0
  Ascending b [] = Unit
  Ascending b (row ∷ rows) = (b < id row) × Ascending (id row) rows

  pub last_of : A → List A → A
  last_of row [] = row
  last_of row (next ∷ rows) = last_of next rows

  -- A client that asks for the rows after the last one it has seen, until there are none.
  unfoldable pub read_pages :
      (Option ℤ → StoreResult (List A)) → ℕ → Option ℤ → StoreResult (List A)
  read_pages fetch zero after_id = err (invalid_input (codes "fuel"))
  read_pages fetch (suc fuel) after_id = fetch after_id >>= λ rows. elim rows [
    | [] ↦ ok []
    | row ∷ rows ↦ read_pages fetch fuel (some (pos (id (last_of row rows)))) >>= λ rest.
        ok ((row ∷ rows) ++ rest)
  ]
