-- ===== src/Store/Tasks/Linked.antt =====
-- src/pa/store.rs: every task keeps its email, whatever the operations on messages and tasks do.
use agent_voice.Common.{
  ℕ, ◌≡◌, refl, sym, ap, ◌∙◌, inl, inr, true, ◌&&◌, Option, some, List, [], ◌∷◌, All, All-map,
}
use mathlib.Core.Path.{subst}
use agent_voice.Common.Results.{ok, err, ok_or, bind_ok, guard_ok, ok_or_ok}
use agent_voice.Common.Text.{Text}
use agent_voice.Store.Errors.{StoreResult}
use agent_voice.Store.Instants.{OffsetDateTime}
use agent_voice.Store.Names.{
  MessageProvider, voice, outlook, gmail, MessageTriageState, recorded, unprocessed, actionable,
  ambiguous, ignored, triaged,
}
use agent_voice.Store.Messages.{StoredMessage, decode_message_row, by_id, valid_message_transition}
use agent_voice.Store.Messages.Insert.{record_message}
use agent_voice.Store.Messages.Update.{with_triage_state, transition_message}
use agent_voice.Store.Messages.Lifecycle.{IsValid}
use agent_voice.Store.Messages.Recorded.{
  record-parts, insert_message-cases, record_message-IsValid, decode-same,
}
use agent_voice.Store.Messages.Transition.{row-transition_message, transition_message-IsValid}
use agent_voice.Store.Table.{find, find-All, find-append_found, Unique}
use agent_voice.Store.Tasks.{
  Tables, task_invalid, decode_task_row, is_email, is_actionable_or_scheduled,
  validate_task_message_lifecycle, as_task_error, validate_task_message,
}

-- The messages are valid, the reader gives each task back, no two tasks have the same source, and
-- the message of each task is an email that is actionable or scheduled.
pub record IsLinked (tables : Tables) : Type 0 where
  pub messages : IsValid tables.messages
  pub readable : All (λ task. decode_task_row task ≡ ok task) tables.tasks
  pub sources : Unique (λ task. task.source_id) tables.tasks
  pub linked : All (λ task. validate_task_message tables task.message_id ≡ ok tt) tables.tasks

abbrev pub IsTaskMessage : StoredMessage → Type 0
IsTaskMessage row = (is_email row.provider && is_actionable_or_scheduled row.triage_state) ≡ true

pub as_task_error-ok : {A : Type 0} (m : StoreResult A) (a : A) → as_task_error m ≡ ok a → m ≡ ok a
as_task_error-ok (ok b) a h = h
as_task_error-ok (err e) a h = cc

link-parts :
    (tables : Tables) (id : ℕ)
    → validate_task_message tables id ≡ ok tt
    → (row : StoredMessage) × ((find (by_id id) tables.messages ≡ some row)
        × ((decode_message_row row ≡ ok row) × IsTaskMessage row))
unfolding validate_task_message validate_task_message_lifecycle
link-parts tables id run =
    let (row, (found, run)) =
      bind_ok (ok_or (find (by_id id) tables.messages) task_invalid) _ run in
    let (message, (read, last)) = bind_ok (as_task_error (decode_message_row row)) _ run in
    let decoded = as_task_error-ok (decode_message_row row) message read in
    let same = decode-same row message decoded in
    (
      row,
      (
        ok_or_ok _ _ found,
        (decoded ∙ ap ok (sym same), subst IsTaskMessage (sym same) (guard_ok _ _ last)),
      ),
    )

pub link-of_parts :
    (tables : Tables) (id : ℕ) (row : StoredMessage)
    → find (by_id id) tables.messages ≡ some row
    → decode_message_row row ≡ ok row
    → IsTaskMessage row
    → validate_task_message tables id ≡ ok tt
unfolding validate_task_message validate_task_message_lifecycle
link-of_parts tables id row found read fits = rw (found, read, fits) refl

-- A link depends on the messages only.
pub link-frame :
    (tables tables' : Tables) (id : ℕ)
    → tables'.messages ≡ tables.messages
    → validate_task_message tables id ≡ ok tt
    → validate_task_message tables' id ≡ ok tt
link-frame tables tables' id same h =
    let (row, (found, (read, fits))) = link-parts tables id h in
    link-of_parts tables' id row (ap (find (by_id id)) same ∙ found) read fits

-- An email that is actionable or scheduled stays so along the triage graph.
moved-fits :
    (provider : MessageProvider) (state next : MessageTriageState)
    → (is_email provider && is_actionable_or_scheduled state) ≡ true
    → valid_message_transition state next ≡ true
    → (is_email provider && is_actionable_or_scheduled next) ≡ true
unfolding valid_message_transition
moved-fits voice state next h g = cc
moved-fits outlook actionable triaged h g = refl
moved-fits gmail actionable triaged h g = refl
moved-fits outlook actionable actionable h g = refl
moved-fits gmail actionable actionable h g = refl
moved-fits outlook actionable recorded h g = cc
moved-fits outlook actionable unprocessed h g = cc
moved-fits outlook actionable ambiguous h g = cc
moved-fits outlook actionable ignored h g = cc
moved-fits gmail actionable recorded h g = cc
moved-fits gmail actionable unprocessed h g = cc
moved-fits gmail actionable ambiguous h g = cc
moved-fits gmail actionable ignored h g = cc
moved-fits outlook recorded next h g = cc
moved-fits outlook unprocessed next h g = cc
moved-fits outlook ambiguous next h g = cc
moved-fits outlook ignored next h g = cc
moved-fits outlook triaged next h g = cc
moved-fits gmail recorded next h g = cc
moved-fits gmail unprocessed next h g = cc
moved-fits gmail ambiguous next h g = cc
moved-fits gmail ignored next h g = cc
moved-fits gmail triaged next h g = cc

abbrev pub with_messages : Tables → List StoredMessage → Tables
with_messages tables messages = record tables { messages = messages }

-- Messages that keep the tasks' emails take the place of the messages.
relink :
    (tables : Tables) (messages : List StoredMessage)
    → IsLinked tables
    → IsValid messages
    → ((id : ℕ)
        → validate_task_message tables id ≡ ok tt
        → validate_task_message (with_messages tables messages) id ≡ ok tt)
    → IsLinked (with_messages tables messages)
relink tables messages l v keep = record {
  messages = v;
  readable = l.readable;
  sources = l.sources;
  linked =
      All-map
        {Q = λ task. validate_task_message (with_messages tables messages) task.message_id ≡ ok tt}
        (λ task h. keep task.message_id h) tables.tasks l.linked;
}

pub record_message-IsLinked :
    (tables : Tables) (clock : ℕ) (key source : Text) (provider : MessageProvider)
    (message_id summary : Text) (subject sender : Option Text) (received_at : OffsetDateTime)
    (stored : StoredMessage) (final : List StoredMessage)
    → IsLinked tables
    → record_message tables.messages clock key source provider message_id summary subject sender
        received_at
      ≡ ok (stored, final)
    → IsLinked (with_messages tables final)
record_message-IsLinked tables clock key source provider message_id summary subject sender
      received_at stored final l run =
    let valid =
      record_message-IsValid tables.messages clock key source provider message_id summary subject
        sender received_at stored final l.messages run in
    let (new, inserted) =
      record-parts tables.messages clock key source provider message_id summary subject sender
        received_at (stored, final) run in
    elim (insert_message-cases tables.messages new stored final inserted) [
      | inr same ↦ relink tables final l valid (λ id h.
          subst
            (λ (d : List StoredMessage). validate_task_message (with_messages tables d) id ≡ ok tt)
            (sym same) h)
      | inl (_, (_, (_, made))) ↦ relink tables final l valid (λ id h.
          let (row, (found, (read, fits))) = link-parts tables id h in
          link-of_parts (with_messages tables final) id row
            (ap (find (by_id id)) made
              ∙ find-append_found (by_id id) tables.messages (new ∷ []) row found)
            read fits)
    ]

pub transition_message-IsLinked :
    (tables : Tables) (source : Text) (expected next : MessageTriageState)
    (updated_at : OffsetDateTime) (stored : StoredMessage) (final : List StoredMessage)
    → IsLinked tables
    → transition_message tables.messages source expected next updated_at ≡ ok (stored, final)
    → IsLinked (with_messages tables final)
unfolding with_triage_state
transition_message-IsLinked tables source expected next updated_at stored final l run =
    let valid =
      transition_message-IsValid tables.messages source expected next updated_at stored final
        l.messages run in
    relink tables final l valid (λ id h.
      let (row, (found, (read, fits))) = link-parts tables id h in
      elim (row-transition_message tables.messages source expected next updated_at stored final id
        row run found) [
          | inl same ↦ link-of_parts (with_messages tables final) id row same read fits
          | inr (there, (_, moved)) ↦
              let at = updated_at.instant in
              link-of_parts (with_messages tables final) id (with_triage_state next at row) there
                (find-All (λ r. decode_message_row r ≡ ok r) (by_id id)
                  (with_triage_state next at row) final valid.readable there)
                (moved-fits row.provider row.triage_state next fits moved)
        ])
