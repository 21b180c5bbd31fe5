-- ===== src/Store/Errors.antt =====
-- src/pa/store.rs: `StoreError`. A `&'static str` is its bytes; the errors of SQLite and of the
-- cipher are one constructor each.
use agent_voice.Common.{Bytes}
use agent_voice.Common.Int.{ℤ}
use agent_voice.Common.Results.{Result}

pub data StoreError : Type 0 where
  empty_database_key : StoreError
  sql_cipher_unavailable : StoreError
  unsupported_schema_version : ℤ → StoreError
  invalid_input : Bytes → StoreError
  not_found : Bytes → StoreError
  appointment_quote_not_yet_valid : StoreError
  appointment_quote_expired : StoreError
  cursor_conflict : Bytes → StoreError
  conflict : Bytes → StoreError
  stored_value_invalid : StoreError
  stored_record_invalid : Bytes → StoreError
  crypto : StoreError
  sqlite : StoreError

abbrev pub StoreResult {ℓ} : Type ℓ → Type ℓ
StoreResult A = Result StoreError A
