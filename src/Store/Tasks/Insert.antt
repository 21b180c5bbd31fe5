-- ===== src/Store/Tasks/Insert.antt =====
-- src/pa/store.rs: `record_task`.
use agent_voice.Common.{
  ℕ, suc, ltb, leb, ◌==◌, if◌then◌else◌, Bool, true, false, not, ◌&&◌, ◌||◌, Option, none, some,
  List, [], ◌∷◌, ◌++◌, retain, bytes_eq, codes,
}
use agent_voice.Common.Equal.{eqb}
use agent_voice.Common.Int.{ℤ, pos, negsuc, pos_part}
use agent_voice.Common.Results.{ok, guard, ok_or, ◌>>=◌, ◌>>◌}
use agent_voice.Common.Text.{Text}
use agent_voice.Domain.Kinds.{TaskKind, task_minutes}
use agent_voice.Store.Errors.{StoreResult, invalid_input, conflict}
use agent_voice.Store.Instants.{OffsetDateTime, format_task_timestamp}
use agent_voice.Store.Names.{pending}
use agent_voice.Store.Messages.{decode_message_row, by_id, message_invalid}
use agent_voice.Store.Table.{find}
use agent_voice.Store.Texts.{traverse, validate_task_identifier, validate_task_title}
use agent_voice.Store.Tasks.{
  StoredTask, Tables, TaskKind-discrete, as_message_error, by_task_key, by_task_source,
  decode_task_row, option_ℕ_discrete, task_invalid, task_text, validate_actionable_message,
  validate_task_duration, validate_task_message_in_transaction,
}

unfoldable pub next_task_id : List StoredTask → ℕ
next_task_id [] = 1
next_task_id (row ∷ rows) =
    let rest = next_task_id rows in if ltb row.id rest then rest else suc row.id

abbrev pub has_task_identity : StoredTask → StoredTask → Bool
has_task_identity new row = by_task_key new.idempotency_key row || by_task_source new.source_id row

unfoldable pub is_same_task : StoredTask → StoredTask → Bool
is_same_task stored new =
    bytes_eq stored.idempotency_key new.idempotency_key
    && (bytes_eq stored.source_id new.source_id
        && ((stored.message_id == new.message_id)
            && (bytes_eq stored.title new.title
                && (eqb TaskKind-discrete stored.kind new.kind
                    && ((stored.minutes == new.minutes)
                        && eqb option_ℕ_discrete stored.due_at new.due_at)))))

abbrev is_no_task : Option StoredTask → Bool
is_no_task none = true
is_no_task (some row) = false

-- The loop over the rows that share an identity with the new one.
unfoldable pub exact_task_retry :
    Tables → StoredTask → Option StoredTask → List StoredTask → StoreResult (Option StoredTask)
exact_task_retry tables new found [] = ok found
exact_task_retry tables new found (candidate ∷ candidates) = do
  stored ← decode_task_row candidate
  validate_task_message_in_transaction tables stored.message_id
  guard (is_same_task stored new) (conflict task_text)
  guard (is_no_task found) task_invalid
  exact_task_retry tables new (some stored) candidates

unfoldable pub insert_task : Tables → StoredTask → StoreResult (StoredTask × Tables)
insert_task tables new = elim (find (has_task_identity new) tables.tasks) [
  | none ↦ do
    stored ← decode_task_row new
    validate_task_message_in_transaction tables stored.message_id
    ok (stored, record tables { tasks = tables.tasks ++ (new ∷ []) })
  | some _ ↦ do
    found ← exact_task_retry tables new none (retain (has_task_identity new) tables.tasks)
    stored ← ok_or found task_invalid
    ok (stored, tables)
]

abbrev pub is_positive_id : ℤ → Bool
is_positive_id (pos n) = not (leb n 0)
is_positive_id (negsuc n) = false

abbrev pub minutes_or_default : TaskKind → Option ℕ → ℕ
minutes_or_default kind none = task_minutes kind
minutes_or_default kind (some minutes) = minutes

-- `clock` is the time that SQLite writes for a new row.
unfoldable pub record_task :
    Tables
    → ℕ
    → Text
    → Text
    → ℤ
    → Text
    → TaskKind
    → Option ℕ
    → Option OffsetDateTime
    → StoreResult (StoredTask × Tables)
record_task tables clock idempotency_key source_id message_id title kind duration_minutes due_at =
    do
      key ← validate_task_identifier idempotency_key (codes "idempotency_key")
      source ← validate_task_identifier source_id (codes "source_id")
      guard (is_positive_id message_id) (invalid_input (codes "message_id"))
      title ← validate_task_title title
      minutes ← validate_task_duration (minutes_or_default kind duration_minutes)
      due ← traverse (λ at. format_task_timestamp at (codes "due_at")) due_at
      row ← ok_or (find (by_id (pos_part message_id)) tables.messages) message_invalid
      message ← as_message_error (decode_message_row row)
      validate_actionable_message message message_invalid
      insert_task tables (record {
        id = next_task_id tables.tasks;
        idempotency_key = key;
        source_id = source;
        message_id = pos_part message_id;
        title = title;
        kind = kind;
        minutes = minutes;
        due_at = due;
        state = pending;
        created_at = clock;
        updated_at = clock;
      })
