-- ===== src/Store/Cursor.antt =====
-- src/pa/store.rs: the provider cursors. The table has one row for a provider; a cursor may be
-- NULL. `put` is the insertion of a row, and the update of the one row that was just read.
pub mod Laws
use agent_voice.Common.{
  Bool, true, false, not, if◌then◌else◌, Option, none, some, List, Bytes, codes,
}
use agent_voice.Common.Assoc.{lookup, put}
use agent_voice.Common.Equal.{eqb}
use agent_voice.Common.Results.{Result, ok, err, guard, ◌>>=◌, ◌>>◌}
use agent_voice.Common.Text.{Text}
use agent_voice.Store.Errors.{StoreError, StoreResult, cursor_conflict, stored_record_invalid}
use agent_voice.Store.Texts.{
  traverse, validate_provider_stream_identifier, validate_provider_cursor_identifier,
}
use native.Mathlib.Decide.{ℕ_discrete}

abbrev pub Cursors : Type 0
Cursors = List (Text × Option Text)

pub option_text_discrete : Discrete (Option Text)
option_text_discrete = hlevel ℕ_discrete

abbrev pub provider_cursor : Bytes
provider_cursor = codes "provider cursor"

abbrev stored_cursor {ε} : {E : Type ε} → Result E Text → StoreResult Text
stored_cursor (ok cursor) = ok cursor
stored_cursor (err e) = err (stored_record_invalid provider_cursor)

abbrev read_cursor : Text → StoreResult Text
read_cursor cursor = stored_cursor (validate_provider_cursor_identifier cursor (codes "cursor"))

-- An absent row and a NULL cursor are both `None`.
abbrev flatten : Option (Option Text) → Option Text
flatten none = none
flatten (some cursor) = cursor

unfoldable pub load_provider_cursor : Cursors → Text → StoreResult (Option Text)
load_provider_cursor rows stream_id = do
  stream ← validate_provider_stream_identifier stream_id (codes "stream_id")
  traverse read_cursor (flatten (lookup stream rows))

abbrev pub is_some : Option Text → Bool
is_some none = false
is_some (some value) = true

-- The `match` on the current row in `advance_provider_cursor`.
unfoldable pub replace_cursor :
    Cursors → Text → Option Text → Text → Option (Option Text) → StoreResult Cursors
replace_cursor rows stream expected next none = do
  guard (not (is_some expected)) (cursor_conflict provider_cursor)
  ok (put stream (some next) rows)
replace_cursor rows stream expected next (some current) = do
  guard (eqb option_text_discrete expected current) (cursor_conflict provider_cursor)
  ok (if eqb option_text_discrete current (some next) then rows else put stream (some next) rows)

unfoldable pub advance_provider_cursor : Cursors → Text → Option Text → Text → StoreResult Cursors
advance_provider_cursor rows stream_id expected next = do
  stream ← validate_provider_stream_identifier stream_id (codes "stream_id")
  expected ←
      traverse (λ value. validate_provider_cursor_identifier value (codes "expected")) expected
  next ← validate_provider_cursor_identifier next (codes "next")
  checked ← traverse read_cursor (flatten (lookup stream rows))
  replace_cursor rows stream expected next (lookup stream rows)
