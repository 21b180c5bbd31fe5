-- ===== src/Store/Tasks.antt =====
-- src/pa/store.rs: tasks extracted from actionable emails, recorded once and moved by
-- compare-and-set. Each operation looks at the task's message too: the state is both tables.
pub mod Insert
pub mod Update
pub mod Linked
pub mod Moved
pub mod Transition
pub mod Queries
pub mod Machine
mod Examples
use agent_voice.Common.{
  ℕ, zero, suc, ◌+◌, ◌*◌, ◌<◌, ltb, leb, ◌==◌, if◌then◌else◌, Bool, true, false, not, ◌&&◌, ◌||◌,
  Option, none, some, List, [], ◌∷◌, ◌++◌, retain, take, Bytes, bytes_eq, codes,
}
use agent_voice.Common.Equal.{eqb}
use agent_voice.Common.Int.{ℤ, pos, negsuc, pos_part}
use agent_voice.Common.Results.{Result, ok, err, guard, ok_or, ◌>>=◌, ◌>>◌}
use agent_voice.Common.Text.{Text}
use agent_voice.Domain.Kinds.{TaskKind, task_minutes}
use agent_voice.Store.Errors.{
  StoreError, StoreResult, invalid_input, not_found, conflict, stored_record_invalid,
}
use agent_voice.Store.Instants.{
  OffsetDateTime, format_task_timestamp, format_task_updated_timestamp,
}
use agent_voice.Store.Names.{
  MessageProvider, voice, outlook, gmail, MessageTriageState, actionable, triaged, StoredTaskState,
  pending, proposed, scheduled, no_slot,
}
use agent_voice.Store.Messages.{StoredMessage, decode_message_row, by_id, message_invalid}
use agent_voice.Store.Table.{find, update, count}
use agent_voice.Store.Texts.{traverse, validate_task_identifier, validate_task_title}
use native.Mathlib.Decide.{ℕ_discrete}

pub record StoredTask : Type 0 where
  pub id : ℕ
  pub idempotency_key : Text
  pub source_id : Text
  pub message_id : ℕ
  pub title : Text
  pub kind : TaskKind
  pub minutes : ℕ
  pub due_at : Option ℕ
  pub state : StoredTaskState
  pub created_at : ℕ
  pub updated_at : ℕ

pub record Tables : Type 0 where
  pub messages : List StoredMessage
  pub tasks : List StoredTask

abbrev task_text : Bytes
task_text = codes "task"

abbrev task_invalid : StoreError
task_invalid = stored_record_invalid task_text

abbrev max_task_duration_minutes : ℕ
max_task_duration_minutes = 24 * 60

pub TaskKind-discrete : Discrete TaskKind
TaskKind-discrete = hlevel

pub StoredTaskState-discrete : Discrete StoredTaskState
StoredTaskState-discrete = hlevel

pub option_ℕ_discrete : Discrete (Option ℕ)
option_ℕ_discrete = hlevel ℕ_discrete

unfoldable pub valid_task_transition : StoredTaskState → StoredTaskState → Bool
valid_task_transition pending proposed = true
valid_task_transition pending no_slot = true
valid_task_transition proposed scheduled = true
valid_task_transition proposed no_slot = true
valid_task_transition _ _ = false

unfoldable pub validate_task_duration : ℕ → StoreResult ℕ
validate_task_duration minutes =
    if (minutes == 0) || ltb max_task_duration_minutes minutes
    then err (invalid_input (codes "duration_minutes"))
    else ok minutes

abbrev task_field : {A : Type 0} → StoreResult A → StoreResult (Unit {0})
task_field (ok a) = ok tt
task_field (err e) = err task_invalid

-- The checks of `decode_task_row` on the fields; a stored time is canonical.
task_fields : StoredTask → StoreResult (Unit {0})
task_fields row = do
  guard (not (leb row.id 0 || leb row.message_id 0)) task_invalid
  task_field (validate_task_identifier row.idempotency_key (codes "idempotency_key"))
  task_field (validate_task_identifier row.source_id (codes "source_id"))
  task_field (validate_task_title row.title)
  task_field (validate_task_duration row.minutes)

pub decode_task_row : StoredTask → StoreResult StoredTask
decode_task_row row = do task_fields row; ok row

abbrev pub is_email : MessageProvider → Bool
is_email voice = false
is_email outlook = true
is_email gmail = true

abbrev is_actionable : MessageTriageState → Bool
is_actionable actionable = true
is_actionable _ = false

abbrev is_actionable_or_scheduled : MessageTriageState → Bool
is_actionable_or_scheduled actionable = true
is_actionable_or_scheduled triaged = true
is_actionable_or_scheduled _ = false

unfoldable pub validate_actionable_message : StoredMessage → StoreError → StoreResult (Unit {0})
validate_actionable_message row e =
    guard (is_email row.provider && is_actionable row.triage_state) e

validate_task_message_lifecycle : StoredMessage → StoreError → StoreResult (Unit {0})
validate_task_message_lifecycle row e =
    guard (is_email row.provider && is_actionable_or_scheduled row.triage_state) e

abbrev as_task_error : {A : Type 0} → StoreResult A → StoreResult A
as_task_error (ok a) = ok a
as_task_error (err e) = err task_invalid

abbrev as_message_error : {A : Type 0} → StoreResult A → StoreResult A
as_message_error (ok a) = ok a
as_message_error (err e) = err message_invalid

-- `validate_task_message_in_transaction`
pub validate_task_message_in_transaction : Tables → ℕ → StoreResult (Unit {0})
validate_task_message_in_transaction tables message_id = do
  row ← ok_or (find (by_id message_id) tables.messages) task_invalid
  message ← as_task_error (decode_message_row row)
  validate_actionable_message message task_invalid

-- `validate_task_message_in_lifecycle_transaction` and `validate_task_message_on_connection`
pub validate_task_message : Tables → ℕ → StoreResult (Unit {0})
validate_task_message tables message_id = do
  row ← ok_or (find (by_id message_id) tables.messages) task_invalid
  message ← as_task_error (decode_message_row row)
  validate_task_message_lifecycle message task_invalid

abbrev by_task_key : Text → StoredTask → Bool
by_task_key key row = bytes_eq row.idempotency_key key

abbrev by_task_source : Text → StoredTask → Bool
by_task_source source row = bytes_eq row.source_id source

-- `load_task_by_source_id` and its siblings behind the validation of their argument.
unfoldable pub load_task : Tables → (StoredTask → Bool) → StoreResult StoredTask
load_task tables test = do
  row ← ok_or (find test tables.tasks) (not_found task_text)
  task ← decode_task_row row
  validate_task_message tables task.message_id
  ok task

unfoldable pub load_task_by_source_id : Tables → Text → StoreResult StoredTask
load_task_by_source_id tables source_id = do
  source ← validate_task_identifier source_id (codes "source_id")
  load_task tables (by_task_source source)

unfoldable pub load_task_by_idempotency_key : Tables → Text → StoreResult StoredTask
load_task_by_idempotency_key tables idempotency_key = do
  key ← validate_task_identifier idempotency_key (codes "idempotency_key")
  load_task tables (by_task_key key)
