-- ===== src/Store/Tasks/Examples.antt =====
-- Runs of the messages and tasks of pa/store.rs.
use agent_voice.Common.{
  ◌≡◌, ◌≢◌, ◌⊎◌, refl, none, some, List, [], ◌∷◌, codes, retain, length, ◌+◌, arith, true, bytes_eq,
}
use agent_voice.Common.Int.{pos}
use agent_voice.Common.Results.{ok, err}
use agent_voice.Common.Text.{trim}
use agent_voice.Domain.Kinds.{bill, task_minutes}
use agent_voice.Store.Errors.{stored_record_invalid}
use agent_voice.Store.Instants.{
  OffsetDateTime, format_message_updated_timestamp, format_task_updated_timestamp,
}
use agent_voice.Store.Names.{voice, gmail, actionable, ambiguous, triaged, pending, proposed}
use agent_voice.Store.Texts.{
  len, validate_message_identifier, validate_message_summary, validate_message_subject,
  validate_message_sender, validate_task_identifier, validate_task_title,
}
use agent_voice.Store.Table.{find}
use agent_voice.Store.Paging.{read_pages}
use agent_voice.Store.Tasks.Queries.{list_tasks_by_state}
use agent_voice.Store.Tasks.Queries.Pages.{list_tasks_by_state_all}
use agent_voice.Store.Messages.{
  StoredMessage, by_source, by_id, decode_message_row, message_fields, valid_message_state,
  valid_message_transition,
}
use agent_voice.Store.Messages.Update.{with_triage_state, transition_message}
use agent_voice.Store.Messages.Lifecycle.{IsValid}
use agent_voice.Store.Messages.Transition.{IsTriageMove, retriaged_row, transition_message_moves}
use agent_voice.Store.Messages.Succeeds.{transition_message_ok}
use agent_voice.Store.Tasks.{
  StoredTask, Tables, by_task_source, decode_task_row, task_fields, validate_task_duration,
  validate_task_message, validate_task_message_lifecycle, validate_actionable_message,
}
use agent_voice.Store.Tasks.Insert.{record_task}
use agent_voice.Store.Tasks.Update.{in_task_state, transition_task}
use agent_voice.Store.Tasks.Linked.{IsLinked}
use agent_voice.Store.Tasks.Transition.{transition_task_ok, moved_row, proposal}
use agent_voice.Store.Tasks.Machine.{Op, moving_message, moving_task, run, run-IsLinked}

abbrev email : StoredMessage
email = record {
  id = 1;
  idempotency_key = codes "gmail:1";
  source_id = codes "mail-1";
  provider = gmail;
  provider_message_id = codes "m1";
  summary = codes "A bill";
  subject = none;
  sender = none;
  received_at = 0;
  triage_state = actionable;
  created_at = 0;
  updated_at = 0;
}

abbrev task : StoredTask
task = record {
  id = 1;
  idempotency_key = codes "task-1";
  source_id = codes "task-1";
  message_id = 1;
  title = codes "Pay";
  kind = bill;
  minutes = 15;
  due_at = none;
  state = pending;
  created_at = 0;
  updated_at = 0;
}

abbrev tables : Tables
tables = record { messages = email ∷ []; tasks = task ∷ [] }

abbrev noon : OffsetDateTime
noon = record { instant = 43_200_000_000_000; offset = pos 0 }

messages-IsValid : IsValid (email ∷ [])
unfolding decode_message_row message_fields validate_message_identifier len validate_message_summary
    trim validate_message_subject validate_message_sender valid_message_state find
messages-IsValid = record { readable = (refl, tt); sources = (refl, tt) }

tables-IsLinked : IsLinked tables
unfolding decode_message_row message_fields validate_message_identifier len validate_message_summary
    trim validate_message_subject validate_message_sender valid_message_state find decode_task_row
    task_fields validate_task_identifier validate_task_title validate_task_duration
    validate_task_message validate_task_message_lifecycle
tables-IsLinked = record {
  messages = messages-IsValid;
  readable = (refl, tt);
  sources = (refl, tt);
  linked = (refl, tt);
}

email_found : find (by_source (codes "mail-1")) (email ∷ []) ≡ some email
unfolding find bytes_eq
email_found = refl

source-valid :
    validate_message_identifier (codes "mail-1") (codes "source_id") ≡ ok (codes "mail-1")
unfolding validate_message_identifier len
source-valid = refl

noon-valid : format_message_updated_timestamp noon ≡ ok noon.instant
unfolding format_message_updated_timestamp
noon-valid = refl

triaging : valid_message_transition actionable triaged ≡ true
unfolding valid_message_transition
triaging = refl

triaged_run :
    (final : List StoredMessage) × (transition_message
        (email ∷ [])
        (codes "mail-1")
        actionable
        triaged
        noon
      ≡ ok (with_triage_state triaged noon.instant email, final))
    × (find (by_source (codes "mail-1")) final
        ≡ some (with_triage_state triaged noon.instant email))
    × IsValid final
triaged_run =
    transition_message_ok (email ∷ []) (codes "mail-1") actionable triaged noon email
      messages-IsValid email_found source-valid noon-valid triaging refl refl

email_1 : find (by_id 1) (email ∷ []) ≡ some email
unfolding find
email_1 = refl

transition_message_moves_example :
    (find (by_id 1) triaged_run.0 ≡ some email)
    ⊎ ((find (by_id 1) triaged_run.0 ≡ some (retriaged_row triaged noon.instant email))
        × ((gmail ≢ voice) × IsTriageMove actionable triaged))
transition_message_moves_example =
    transition_message_moves (email ∷ []) (codes "mail-1") actionable triaged noon
      (with_triage_state triaged noon.instant email) triaged_run.0 1 email triaged_run.1 email_1

task_found : find (by_task_source (codes "task-1")) (task ∷ []) ≡ some task
unfolding find bytes_eq
task_found = refl

task_source-valid :
    validate_task_identifier (codes "task-1") (codes "source_id") ≡ ok (codes "task-1")
unfolding validate_task_identifier len
task_source-valid = refl

task_noon-valid : format_task_updated_timestamp noon ≡ ok noon.instant
unfolding format_task_updated_timestamp
task_noon-valid = refl

transition_task_ok_example :
    (final : Tables) × (transition_task tables (codes "task-1") pending proposed noon
      ≡ ok (moved_row proposed noon.instant task, final))
    × (find (by_task_source (codes "task-1")) final.tasks
        ≡ some (moved_row proposed noon.instant task))
    × IsLinked final
transition_task_ok_example =
    transition_task_ok tables (codes "task-1") pending proposed noon task tables-IsLinked task_found
      task_source-valid task_noon-valid proposal refl

abbrev ops : List Op
ops =
    moving_message (codes "mail-1") actionable triaged noon
    ∷ moving_task (codes "task-1") pending proposed noon
    ∷ moving_message (codes "mail-1") actionable ambiguous noon
    ∷ []

run-IsLinked_example : IsLinked (run tables ops)
run-IsLinked_example = run-IsLinked tables ops tables-IsLinked

-- The request that recorded the task is refused when its email has been scheduled.
late_retry_run :
    record_task
      (record tables { messages = with_triage_state triaged 0 email ∷ [] })
      9
      (codes "task-1")
      (codes "task-1")
      (pos 1)
      (codes "Pay")
      bill
      none
      none
    ≡ err (stored_record_invalid (codes "message"))
unfolding record_task decode_message_row message_fields validate_message_identifier len
    validate_message_summary trim validate_message_subject validate_message_sender
    valid_message_state find validate_task_identifier validate_task_title validate_task_duration
    task_minutes validate_actionable_message with_triage_state
late_retry_run = refl

list_tasks_by_state_all_example :
    read_pages
      (λ row. row.id)
      (λ c. list_tasks_by_state tables pending c 1)
      (length (retain (in_task_state pending) tables.tasks) + 1)
      none
    ≡ ok (retain (in_task_state pending) tables.tasks)
list_tasks_by_state_all_example =
    list_tasks_by_state_all tables 0 pending tables-IsLinked (omega arith, tt) (omega arith)
