-- ===== src/Store/Messages.antt =====
-- src/pa/store.rs: provider messages, recorded once and triaged by compare-and-set. A row's
-- validators give their argument back, so the reader gives the row back or an error. `clock` is the
-- time that SQLite writes for a new row.
pub mod Insert
pub mod Update
pub mod Lifecycle
pub mod Recorded
pub mod Transition
pub mod Succeeds
pub mod Queries
use agent_voice.Common.{
  ℕ, suc, ◌+◌, ltb, leb, ◌==◌, if◌then◌else◌, Bool, true, false, not, ◌&&◌, ◌||◌, Option, none,
  some, List, [], ◌∷◌, ◌++◌, retain, take, Bytes, bytes_eq, codes,
}
use agent_voice.Common.Equal.{eqb}
use agent_voice.Common.Int.{ℤ, pos, negsuc}
use agent_voice.Common.Results.{Result, ok, err, guard, ok_or, ◌>>=◌, ◌>>◌}
use agent_voice.Common.Text.{Text}
use agent_voice.Store.Errors.{
  StoreError, StoreResult, invalid_input, not_found, conflict, stored_record_invalid,
}
use agent_voice.Store.Instants.{
  OffsetDateTime, format_message_timestamp, format_message_updated_timestamp,
}
use agent_voice.Store.Names.{
  MessageProvider, voice, outlook, gmail, MessageTriageState, recorded, unprocessed, actionable,
  ambiguous, ignored, triaged,
}
use agent_voice.Store.Table.{find, update, count}
use agent_voice.Store.Texts.{
  validate_message_identifier, validate_message_summary, validate_message_subject,
  validate_message_sender,
}
use native.Mathlib.Decide.{ℕ_discrete}

pub record StoredMessage : Type 0 where
  pub id : ℕ
  pub idempotency_key : Text
  pub source_id : Text
  pub provider : MessageProvider
  pub provider_message_id : Text
  pub summary : Text
  pub subject : Option Text
  pub sender : Option Text
  pub received_at : ℕ
  pub triage_state : MessageTriageState
  pub created_at : ℕ
  pub updated_at : ℕ

abbrev message_text : Bytes
message_text = codes "message"

abbrev pub message_invalid : StoreError
message_invalid = stored_record_invalid message_text

abbrev max_message_list_limit : ℕ
max_message_list_limit = 100

pub MessageProvider-discrete : Discrete MessageProvider
MessageProvider-discrete = hlevel

pub MessageTriageState-discrete : Discrete MessageTriageState
MessageTriageState-discrete = hlevel

pub option_text_discrete : Discrete (Option Text)
option_text_discrete = hlevel ℕ_discrete

unfoldable pub initial_message_state : MessageProvider → MessageTriageState
initial_message_state voice = recorded
initial_message_state outlook = unprocessed
initial_message_state gmail = unprocessed

abbrev is_recorded : MessageTriageState → Bool
is_recorded recorded = true
is_recorded _ = false

unfoldable pub valid_message_state : MessageProvider → MessageTriageState → Bool
valid_message_state voice state = is_recorded state
valid_message_state outlook state = not (is_recorded state)
valid_message_state gmail state = not (is_recorded state)

unfoldable pub valid_message_transition : MessageTriageState → MessageTriageState → Bool
valid_message_transition unprocessed actionable = true
valid_message_transition unprocessed ambiguous = true
valid_message_transition unprocessed ignored = true
valid_message_transition actionable triaged = true
valid_message_transition _ _ = false

abbrev message_field : {A : Type 0} → StoreResult A → StoreResult (Unit {0})
message_field (ok a) = ok tt
message_field (err e) = err message_invalid

-- The checks of `decode_message_row` on the fields that no operation changes.
unfoldable pub message_fields : StoredMessage → StoreResult (Unit {0})
message_fields row = do
  guard (not (leb row.id 0)) message_invalid
  message_field (validate_message_identifier row.idempotency_key (codes "idempotency_key"))
  message_field (validate_message_identifier row.source_id (codes "source_id"))
  message_field (validate_message_identifier row.provider_message_id (codes "provider_message_id"))
  message_field (validate_message_summary row.summary)
  message_field (validate_message_subject row.subject)
  message_field (validate_message_sender row.sender)

unfoldable pub decode_message_row : StoredMessage → StoreResult StoredMessage
decode_message_row row = do
  message_fields row
  guard (valid_message_state row.provider row.triage_state) message_invalid
  ok row

abbrev pub by_key : Text → StoredMessage → Bool
by_key key row = bytes_eq row.idempotency_key key

abbrev pub by_source : Text → StoredMessage → Bool
by_source source row = bytes_eq row.source_id source

abbrev same_provider : MessageProvider → StoredMessage → Bool
same_provider provider row = eqb MessageProvider-discrete row.provider provider

abbrev by_provider_message : MessageProvider → Text → StoredMessage → Bool
by_provider_message provider id row =
    same_provider provider row && bytes_eq row.provider_message_id id

abbrev pub by_id : ℕ → StoredMessage → Bool
by_id id row = row.id == id

-- `load_message_by_id` and its three siblings, by the test of their SELECT.
unfoldable pub load_message :
    List StoredMessage → (StoredMessage → Bool) → StoreResult StoredMessage
load_message rows test = do
  row ← ok_or (find test rows) (not_found message_text)
  decode_message_row row

unfoldable pub load_message_by_source_id : List StoredMessage → Text → StoreResult StoredMessage
load_message_by_source_id rows source_id = do
  source ← validate_message_identifier source_id (codes "source_id")
  load_message rows (by_source source)

unfoldable pub load_message_by_idempotency_key :
    List StoredMessage → Text → StoreResult StoredMessage
load_message_by_idempotency_key rows idempotency_key = do
  key ← validate_message_identifier idempotency_key (codes "idempotency_key")
  load_message rows (by_key key)

unfoldable pub load_message_by_provider_message_id :
    List StoredMessage → MessageProvider → Text → StoreResult StoredMessage
load_message_by_provider_message_id rows provider provider_message_id = do
  id ← validate_message_identifier provider_message_id (codes "provider_message_id")
  load_message rows (by_provider_message provider id)
