-- ===== src/Store/Tasks/Update.antt =====
-- src/pa/store.rs: `transition_task`.
use agent_voice.Common.{ℕ, ◌==◌, if◌then◌else◌, Bool, not, ◌&&◌, codes}
use agent_voice.Common.Equal.{eqb}
use agent_voice.Common.Results.{ok, err, guard, ok_or, ◌>>=◌, ◌>>◌}
use agent_voice.Common.Text.{Text}
use agent_voice.Store.Errors.{StoreError, StoreResult, not_found, conflict}
use agent_voice.Store.Instants.{OffsetDateTime, format_task_updated_timestamp}
use agent_voice.Store.Names.{StoredTaskState}
use agent_voice.Store.Table.{find, update, count}
use agent_voice.Store.Texts.{validate_task_identifier}
use agent_voice.Store.Tasks.{
  StoredTask, StoredTaskState-discrete, Tables, by_task_source, decode_task_row, task_invalid,
  task_text, valid_task_transition, validate_task_message,
}

abbrev pub in_task_state : StoredTaskState → StoredTask → Bool
in_task_state state row = eqb StoredTaskState-discrete row.state state

unfoldable pub with_task_state : StoredTaskState → ℕ → StoredTask → StoredTask
with_task_state state at row = record row { state = state; updated_at = at }

abbrev pub task_conflict : StoreError
task_conflict = conflict (codes "task transition")

unfoldable pub update_task :
    Tables → Text → StoredTaskState → StoredTaskState → ℕ → StoreResult (StoredTask × Tables)
update_task tables source expected next at = do
  let test = λ (row : StoredTask). by_task_source source row && in_task_state expected row
  let tables' = record tables { tasks = update test (with_task_state next at) tables.tasks }
  guard (count test tables.tasks == 1) task_conflict
  row ← ok_or (find (by_task_source source) tables'.tasks) task_invalid
  stored ← decode_task_row row
  validate_task_message tables' stored.message_id
  ok (stored, tables')

unfoldable pub transition_task :
    Tables
    → Text
    → StoredTaskState
    → StoredTaskState
    → OffsetDateTime
    → StoreResult (StoredTask × Tables)
transition_task tables source_id expected next updated_at = do
  source ← validate_task_identifier source_id (codes "source_id")
  at ← format_task_updated_timestamp updated_at
  guard (valid_task_transition expected next) task_conflict
  row ← ok_or (find (by_task_source source) tables.tasks) (not_found task_text)
  current ← decode_task_row row
  validate_task_message tables current.message_id
  (if in_task_state next current && (current.updated_at == at)
      then ok (current, tables)
      else if not (in_task_state expected current)
      then err task_conflict
      else update_task tables source expected next at)
