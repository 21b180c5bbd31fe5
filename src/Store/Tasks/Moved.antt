-- ===== src/Store/Tasks/Moved.antt =====
-- src/pa/store.rs: the results of `record_task` and `transition_task`.
use agent_voice.Common.{
  ℕ, ◌≡◌, refl, sym, ap, ◌∙◌, inl, inr, Bool, true, false, ◌&&◌, ◌||◌, Bool-cases, Option-cases,
  Option, none, List, [], ◌∷◌, ◌++◌, All-append, All-map, retain, codes,
}
use mathlib.Core.Path.{subst}
use agent_voice.Common.Int.{ℤ, pos_part}
use agent_voice.Common.Results.{ok, guard, ok_or, bind_ok, guard_ok, ok_or_ok, ok-injective}
use agent_voice.Common.Text.{Text}
use agent_voice.Domain.Kinds.{TaskKind}
use agent_voice.Store.Errors.{invalid_input}
use agent_voice.Store.Instants.{OffsetDateTime, format_task_timestamp}
use agent_voice.Store.Names.{
  MessageProvider, voice, outlook, gmail, MessageTriageState, actionable, triaged, recorded,
  unprocessed, ambiguous, ignored, StoredTaskState,
}
use agent_voice.Store.Messages.{decode_message_row, by_id, message_invalid}
use agent_voice.Store.Table.{find, update, updated_row, All-updated, Unique-map, Unique-append}
use agent_voice.Store.Texts.{traverse, validate_task_identifier, validate_task_title}
use agent_voice.Store.Tasks.{
  StoredTask, Tables, task_invalid, task_fields, decode_task_row, is_email, is_actionable,
  is_actionable_or_scheduled, validate_actionable_message, validate_task_message_in_transaction,
  validate_task_message, by_task_source, by_task_key, as_message_error, as_task_error,
  validate_task_duration,
}
use agent_voice.Store.Tasks.Insert.{
  has_task_identity, is_positive_id, minutes_or_default, exact_task_retry, insert_task, record_task,
}
use agent_voice.Store.Tasks.Update.{in_task_state, with_task_state}
use agent_voice.Store.Tasks.Linked.{
  IsLinked, link-of_parts, IsTaskMessage, as_task_error-ok, link-frame,
}
use agent_voice.Store.Messages.Recorded.{decode-same}

abbrev pub with_tasks : Tables → List StoredTask → Tables
with_tasks tables tasks = record tables { tasks = tasks }

-- A message that a new task may have is one that a task may keep.
actionable-fits :
    (provider : MessageProvider) (state : MessageTriageState)
    → (is_email provider && is_actionable state) ≡ true
    → (is_email provider && is_actionable_or_scheduled state) ≡ true
actionable-fits voice state h = cc
actionable-fits outlook actionable h = refl
actionable-fits outlook recorded h = cc
actionable-fits outlook unprocessed h = cc
actionable-fits outlook ambiguous h = cc
actionable-fits outlook ignored h = cc
actionable-fits outlook triaged h = cc
actionable-fits gmail actionable h = refl
actionable-fits gmail recorded h = cc
actionable-fits gmail unprocessed h = cc
actionable-fits gmail ambiguous h = cc
actionable-fits gmail ignored h = cc
actionable-fits gmail triaged h = cc

new_link :
    (tables : Tables) (id : ℕ)
    → validate_task_message_in_transaction tables id ≡ ok tt
    → validate_task_message tables id ≡ ok tt
unfolding validate_task_message_in_transaction validate_actionable_message
new_link tables id run =
    let (row, (found, run)) =
      bind_ok (ok_or (find (by_id id) tables.messages) task_invalid) _ run in
    let (message, (read, last)) = bind_ok (as_task_error (decode_message_row row)) _ run in
    let decoded = as_task_error-ok (decode_message_row row) message read in
    let same = decode-same row message decoded in
    link-of_parts tables id row (ok_or_ok _ _ found) (decoded ∙ ap ok (sym same)) (
      subst IsTaskMessage (sym same)
        (actionable-fits message.provider message.triage_state (guard_ok _ _ last)))

task-source-absent :
    (new : StoredTask) (rows : List StoredTask)
    → find (has_task_identity new) rows ≡ none
    → find (by_task_source new.source_id) rows ≡ none
unfolding find
task-source-absent new [] h = refl
task-source-absent new (x ∷ rows) h = elim (Bool-cases (has_task_identity new x)) [
  | inl e ↦ cc (rw e at h)
  | inr e ↦
      let apart = neither (by_task_key new.idempotency_key x) (by_task_source new.source_id x) e in
      rw apart (task-source-absent new rows (rw e at h))
]
  where
    neither : (a b : Bool) → (a || b) ≡ false → b ≡ false
    neither true b h = cc
    neither false b h = h

decode_task-same : (row stored : StoredTask) → decode_task_row row ≡ ok stored → row ≡ stored
unfolding decode_task_row
decode_task-same row stored run =
    let (_, (_, last)) = bind_ok (task_fields row) _ run in ok-injective last

-- A task that is inserted, or found again, leaves the tables linked.
insert_task-IsLinked :
    (tables : Tables) (new stored : StoredTask) (final : Tables)
    → IsLinked tables
    → insert_task tables new ≡ ok (stored, final)
    → IsLinked final
unfolding insert_task
insert_task-IsLinked tables new stored final l run =
    elim (Option-cases (find (has_task_identity new) tables.tasks)) [
      | inl absent ↦
          let (made, (read, last)) =
            bind_ok (decode_task_row new) _ (rw (absent, insert_task) at run) in
          let (_, (link, last)) =
            bind_ok (validate_task_message_in_transaction tables made.message_id) _ last in
          let same = decode_task-same new made read in
          let own =
            subst (λ (t : StoredTask). validate_task_message tables t.message_id ≡ ok tt) (sym same)
              (new_link tables made.message_id link) in
          let frame =
            λ (task : StoredTask) (h : validate_task_message tables task.message_id ≡ ok tt).
              link-frame tables (with_tasks tables (tables.tasks ++ (new ∷ []))) task.message_id
                refl h in
          subst IsLinked (ap (λ p. p.1) (ok-injective last)) (record {
            messages = l.messages;
            readable =
                All-append (λ task. decode_task_row task ≡ ok task) tables.tasks (new ∷ [])
                  l.readable (read ∙ ap ok (sym same), tt);
            sources =
                Unique-append (λ task. task.source_id) tables.tasks new
                  (task-source-absent new tables.tasks absent) l.sources;
            linked =
                All-append
                  (λ task.
                    validate_task_message (with_tasks tables (tables.tasks ++ (new ∷ [])))
                      task.message_id
                    ≡ ok tt)
                  tables.tasks (new ∷ [])
                  (All-map
                    {Q = λ task.
                      validate_task_message (with_tasks tables (tables.tasks ++ (new ∷ [])))
                        task.message_id
                      ≡ ok tt}
                    frame tables.tasks l.linked)
                  (frame new own, tt);
          })
      | inr (row, found) ↦
          let (retried, (_, last)) =
            bind_ok (exact_task_retry tables new none (retain (has_task_identity new) tables.tasks))
              _ (rw (found, insert_task) at run) in
          let (made, (_, last)) = bind_ok (ok_or retried task_invalid) _ last in
          subst IsLinked (ap (λ p. p.1) (ok-injective last)) l
    ]

pub record_task-IsLinked :
    (tables : Tables) (clock : ℕ) (key source : Text) (message_id : ℤ) (title : Text)
    (kind : TaskKind) (minutes : Option ℕ) (due_at : Option OffsetDateTime) (stored : StoredTask)
    (final : Tables)
    → IsLinked tables
    → record_task tables clock key source message_id title kind minutes due_at ≡ ok (stored, final)
    → IsLinked final
unfolding record_task
record_task-IsLinked tables clock key source message_id title kind minutes due_at stored final l
      run =
    let (_, (_, run)) = bind_ok (validate_task_identifier key (codes "idempotency_key")) _ run in
    let (_, (_, run)) = bind_ok (validate_task_identifier source (codes "source_id")) _ run in
    let (_, (_, run)) =
      bind_ok (guard (is_positive_id message_id) (invalid_input (codes "message_id"))) _ run in
    let (_, (_, run)) = bind_ok (validate_task_title title) _ run in
    let (_, (_, run)) = bind_ok (validate_task_duration (minutes_or_default kind minutes)) _ run in
    let (_, (_, run)) =
      bind_ok (traverse (λ at. format_task_timestamp at (codes "due_at")) due_at) _ run in
    let (row, (_, run)) =
      bind_ok (ok_or (find (by_id (pos_part message_id)) tables.messages) message_invalid) _ run in
    let (message, (_, run)) = bind_ok (as_message_error (decode_message_row row)) _ run in
    let (_, (_, run)) = bind_ok (validate_actionable_message message message_invalid) _ run in
    insert_task-IsLinked tables _ stored final l run

-- The condition of the update in `transition_task`.
abbrev pub task_test : Text → StoredTaskState → StoredTask → Bool
task_test source expected row = by_task_source source row && in_task_state expected row

decode_moved :
    (next : StoredTaskState) (at : ℕ) (task : StoredTask)
    → decode_task_row task ≡ ok task
    → decode_task_row (with_task_state next at task) ≡ ok (with_task_state next at task)
unfolding with_task_state decode_task_row task_fields
decode_moved next at task run =
    let (_, (fields, _)) = bind_ok (task_fields task) _ run in rw fields refl

module _ (source : Text) (expected next : StoredTaskState) (at : ℕ) where
  abbrev pub moved_task : StoredTask → StoredTask
  moved_task = updated_row (task_test source expected) (with_task_state next at)

  pub task_source_kept : (row : StoredTask) → (moved_task row).source_id ≡ row.source_id
  unfolding with_task_state
  task_source_kept row = elim (Bool-cases (task_test source expected row)) [
    | inl e ↦ rw e refl
    | inr e ↦ rw e refl
  ]

  pub task_id_kept : (row : StoredTask) → (moved_task row).id ≡ row.id
  unfolding with_task_state
  task_id_kept row = elim (Bool-cases (task_test source expected row)) [
    | inl e ↦ rw e refl
    | inr e ↦ rw e refl
  ]

  pub update_task-IsLinked :
      (tables : Tables)
      → IsLinked tables
      → IsLinked (
          with_tasks tables
            (update (task_test source expected) (with_task_state next at) tables.tasks))
  unfolding with_task_state
  update_task-IsLinked tables l =
      let rows = update (task_test source expected) (with_task_state next at) tables.tasks in
      let frame = λ (task : StoredTask) (h : validate_task_message tables task.message_id ≡ ok tt).
        link-frame tables (with_tasks tables rows) task.message_id refl h in
      record {
        messages = l.messages;
        readable =
            All-updated (λ task. decode_task_row task ≡ ok task) (task_test source expected)
              (with_task_state next at) tables.tasks (λ task h run. decode_moved next at task run)
              l.readable;
        sources =
            Unique-map (λ task. task.source_id) moved_task tables.tasks task_source_kept l.sources;
        linked =
            All-updated
              (λ task. validate_task_message (with_tasks tables rows) task.message_id ≡ ok tt)
              (task_test source expected) (with_task_state next at) tables.tasks (λ task h run. run)
              (All-map
                {Q = λ task. validate_task_message (with_tasks tables rows) task.message_id ≡ ok tt}
                frame tables.tasks l.linked);
      }
