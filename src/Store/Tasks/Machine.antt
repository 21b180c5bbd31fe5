-- ===== src/Store/Tasks/Machine.antt =====
-- src/pa/store.rs: the four operations on messages and tasks as one step of the two tables, and
-- what every sequence of them keeps. An operation that fails leaves the tables as they are.
use agent_voice.Common.{ℕ, ◌≡◌, refl, Option, List, [], ◌∷◌}
use agent_voice.Common.Int.{ℤ}
use agent_voice.Common.Results.{ok, err}
use agent_voice.Common.Text.{Text}
use agent_voice.Domain.Kinds.{TaskKind}
use agent_voice.Store.Errors.{StoreResult}
use agent_voice.Store.Instants.{OffsetDateTime}
use agent_voice.Store.Names.{MessageProvider, MessageTriageState, StoredTaskState}
use agent_voice.Store.Messages.{StoredMessage}
use agent_voice.Store.Messages.Insert.{record_message}
use agent_voice.Store.Messages.Update.{transition_message}
use agent_voice.Store.Tasks.{StoredTask, Tables}
use agent_voice.Store.Tasks.Insert.{record_task}
use agent_voice.Store.Tasks.Update.{transition_task}
use agent_voice.Store.Tasks.Linked.{
  IsLinked, with_messages, record_message-IsLinked, transition_message-IsLinked,
}
use agent_voice.Store.Tasks.Moved.{record_task-IsLinked}
use agent_voice.Store.Tasks.Transition.{transition_task-IsLinked}

pub data Op : Type 0 where
  recording_message :
      (clock : ℕ) (key source : Text) (provider : MessageProvider) (message_id summary : Text)
      (subject sender : Option Text) (received_at : OffsetDateTime)
      → Op
  moving_message :
      (source : Text) (expected next : MessageTriageState) (updated_at : OffsetDateTime) → Op
  recording_task :
      (clock : ℕ) (key source : Text) (message_id : ℤ) (title : Text) (kind : TaskKind)
      (minutes : Option ℕ) (due_at : Option OffsetDateTime)
      → Op
  moving_task : (source : Text) (expected next : StoredTaskState) (updated_at : OffsetDateTime) → Op

abbrev keep_messages : Tables → StoreResult (StoredMessage × List StoredMessage) → Tables
keep_messages tables (ok (stored, messages)) = with_messages tables messages
keep_messages tables (err e) = tables

abbrev keep_tables : Tables → StoreResult (StoredTask × Tables) → Tables
keep_tables tables (ok (stored, final)) = final
keep_tables tables (err e) = tables

unfoldable pub step : Tables → Op → Tables
step tables (recording_message clock key source provider id summary subject sender at) =
    keep_messages tables
      (record_message tables.messages clock key source provider id summary subject sender at)
step tables (moving_message source expected next at) =
    keep_messages tables (transition_message tables.messages source expected next at)
step tables (recording_task clock key source id title kind minutes due) =
    keep_tables tables (record_task tables clock key source id title kind minutes due)
step tables (moving_task source expected next at) =
    keep_tables tables (transition_task tables source expected next at)

unfoldable pub run : Tables → List Op → Tables
run tables [] = tables
run tables (op ∷ ops) = run (step tables op) ops

messages-IsLinked :
    (tables : Tables) (result : StoreResult (StoredMessage × List StoredMessage))
    → IsLinked tables
    → ((stored : StoredMessage) (final : List StoredMessage)
        → result ≡ ok (stored, final)
        → IsLinked (with_messages tables final))
    → IsLinked (keep_messages tables result)
messages-IsLinked tables (ok (stored, final)) l keep = keep stored final refl
messages-IsLinked tables (err e) l keep = l

tables-IsLinked :
    (tables : Tables) (result : StoreResult (StoredTask × Tables))
    → IsLinked tables
    → ((stored : StoredTask) (final : Tables) → result ≡ ok (stored, final) → IsLinked final)
    → IsLinked (keep_tables tables result)
tables-IsLinked tables (ok (stored, final)) l keep = keep stored final refl
tables-IsLinked tables (err e) l keep = l

step-IsLinked : (tables : Tables) (op : Op) → IsLinked tables → IsLinked (step tables op)
unfolding step
step-IsLinked tables (recording_message clock key source provider id summary subject sender at) l =
    messages-IsLinked tables _ l (λ stored final h.
      record_message-IsLinked tables clock key source provider id summary subject sender at stored
        final l h)
step-IsLinked tables (moving_message source expected next at) l =
    messages-IsLinked tables _ l (λ stored final h.
      transition_message-IsLinked tables source expected next at stored final l h)
step-IsLinked tables (recording_task clock key source id title kind minutes due) l =
    tables-IsLinked tables _ l (λ stored final h.
      record_task-IsLinked tables clock key source id title kind minutes due stored final l h)
step-IsLinked tables (moving_task source expected next at) l =
    tables-IsLinked tables _ l
      (λ stored final h. transition_task-IsLinked tables source expected next at stored final l h)

-- Whatever operations on messages and tasks run, in any order and whether they succeed or not,
-- linked tables stay linked: messages and tasks can be read back, no two tasks share a source, and
-- the message of each task is an email that is actionable or scheduled.
pub run-IsLinked : (tables : Tables) (ops : List Op) → IsLinked tables → IsLinked (run tables ops)
unfolding run
run-IsLinked tables [] l = l
run-IsLinked tables (op ∷ ops) l = run-IsLinked (step tables op) ops (step-IsLinked tables op l)
