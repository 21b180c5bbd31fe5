-- ===== src/Domain/Drafts.antt =====
-- src/pa/domain.rs: `IdempotencyKey`, `AppointmentDraft` and `OwnerTaskDraft`.
pub mod Wire
use agent_voice.Common.{
  ℕ, ◌-◌, Bool, true, false, Option, none, some, leb, ◌==◌, if◌then◌else◌, Bytes, codes,
}
use agent_voice.Common.Results.{Result, ok, err, ◌>>=◌, ◌>>◌, guard}
use agent_voice.Common.Text.{Text}
use agent_voice.Domain.Kinds.{
  DomainError, DomainResult, zero_duration, AppointmentKind, TaskKind, DurationMinutes,
  new_duration, non_blank, appointment_duration, task_minutes, requester_included_by_default,
}
use agent_voice.Domain.Email.{CallerIdentity}
use agent_voice.Domain.Quote.{QuoteId, checked_add}

pub record IdempotencyKey : Type 0 where
  pub text : Text

-- `IdempotencyKey::new`; deserializing a key is it on the text.
unfoldable pub new_key : Text → DomainResult IdempotencyKey
new_key value = do text ← non_blank value (codes "idempotency_key"); ok (record { text = text })

pub record AppointmentDraft : Type 0 where
  pub quote_id : QuoteId
  pub caller : CallerIdentity
  pub kind : AppointmentKind
  pub starts_at : ℕ
  pub ends_at : ℕ
  pub requester_included : Bool
  pub idempotency_key : IdempotencyKey

-- The result is `none` where `starts_at + duration` panics.
new_with_requester_inclusion :
    ℕ
    → AppointmentKind
    → CallerIdentity
    → ℕ
    → QuoteId
    → IdempotencyKey
    → Bool
    → Option (DomainResult AppointmentDraft)
unfolding appointment_duration checked_add
new_with_requester_inclusion latest kind caller starts_at quote_id key requester_included =
    if leb (appointment_duration kind) 0
    then some (err (zero_duration (codes "duration")))
    else elim (checked_add latest starts_at (appointment_duration kind)) [
      | none ↦ none
      | some ends_at ↦ some (
          ok (record {
            quote_id = quote_id;
            caller = caller;
            kind = kind;
            starts_at = starts_at;
            ends_at = ends_at;
            requester_included = requester_included;
            idempotency_key = key;
          }))
    ]

-- `AppointmentDraft::new` and `try_new`.
new_draft :
    ℕ
    → AppointmentKind
    → CallerIdentity
    → ℕ
    → QuoteId
    → IdempotencyKey
    → Option (DomainResult AppointmentDraft)
unfolding new_with_requester_inclusion
new_draft latest kind caller starts_at quote_id key =
    new_with_requester_inclusion latest kind caller starts_at quote_id key
      (requester_included_by_default kind)

draft_duration : AppointmentDraft → ℕ
draft_duration draft = draft.ends_at - draft.starts_at

pub record OwnerTaskDraft : Type 0 where
  pub kind : TaskKind
  pub title : Text
  pub duration : DurationMinutes
  pub due_at : Option ℕ
  pub idempotency_key : IdempotencyKey

unfoldable pub with_duration :
    TaskKind → Text → ℕ → Option ℕ → IdempotencyKey → DomainResult OwnerTaskDraft
with_duration kind title duration_minutes due_at key = do
  title' ← non_blank title (codes "title")
  duration ← new_duration duration_minutes
  ok (record {
    kind = kind;
    title = title';
    duration = duration;
    due_at = due_at;
    idempotency_key = key;
  })

unfoldable pub new_task : TaskKind → Text → IdempotencyKey → DomainResult OwnerTaskDraft
unfolding task_minutes with_duration
new_task kind title key = with_duration kind title (task_minutes kind) none key

unfoldable pub new_with_duration :
    TaskKind → Text → ℕ → IdempotencyKey → DomainResult OwnerTaskDraft
unfolding with_duration
new_with_duration kind title duration_minutes key =
    with_duration kind title duration_minutes none key

unfoldable pub with_due_at : TaskKind → Text → ℕ → IdempotencyKey → DomainResult OwnerTaskDraft
unfolding task_minutes with_duration
with_due_at kind title due_at key = with_duration kind title (task_minutes kind) (some due_at) key

-- What `Serialize` writes of a task, and the fields of `Wire`: a duration is its minutes, a key its
-- text.
pub record TaskWire : Type 0 where
  pub kind : TaskKind
  pub title : Text
  pub duration : ℕ
  pub due_at : Option ℕ
  pub idempotency_key : Text

serialize_task : OwnerTaskDraft → TaskWire
serialize_task task = record {
  kind = task.kind;
  title = task.title;
  duration = task.duration.minutes;
  due_at = task.due_at;
  idempotency_key = task.idempotency_key.text;
}

deserialize_task : TaskWire → DomainResult OwnerTaskDraft
deserialize_task wire = do
  duration ← new_duration wire.duration
  key ← new_key wire.idempotency_key
  with_duration wire.kind wire.title duration.minutes wire.due_at key
