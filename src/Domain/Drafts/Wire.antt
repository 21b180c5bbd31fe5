-- ===== src/Domain/Drafts/Wire.antt =====
-- src/pa/domain.rs: the drafts, built, serialized and deserialized.
use mathlib.Core.Path.{subst}
use agent_voice.Common.{
  ℕ, ◌+◌, ◌*◌, ◌≤◌, ◌≡◌, refl, false, Option, some, leb, ◌==◌, Bytes, codes, arith, Bool-cases, inl,
  inr, le→leb,
}
use agent_voice.Common.Results.{ok, ok-injective, bind_ok}
use agent_voice.Common.Text.{Text, trim, is_empty}
use agent_voice.Common.Text.Trim.{trim_idempotent}
use agent_voice.Domain.Kinds.{
  AppointmentKind, callback, meeting, TaskKind, DurationMinutes, new_duration, non_blank,
  appointment_minutes, minute_ns, requester_included_by_default,
}
use agent_voice.Domain.Email.{CallerIdentity}
use agent_voice.Domain.Quote.{QuoteId}
use agent_voice.Domain.Drafts.{
  IdempotencyKey, new_key, AppointmentDraft, new_draft, draft_duration, OwnerTaskDraft,
  with_duration, serialize_task, deserialize_task,
}

-- Text that was accepted is accepted again as it is.
non_blank_idempotent :
    (value : Text) (field other : Bytes) (text : Text)
    → non_blank value field ≡ ok text
    → non_blank text other ≡ ok text
unfolding non_blank
non_blank_idempotent value field other text h = elim (Bool-cases (is_empty (trim value))) [
  | inl e ↦ cc (rw (e, non_blank) at h)
  | inr e ↦
      subst (λ t. non_blank t other ≡ ok t) (ok-injective (rw (e, non_blank) at h))
        (rw (trim_idempotent value, e) refl)
]

new_duration_lem :
    (minutes : ℕ) (d : DurationMinutes)
    → new_duration minutes ≡ ok d
    → new_duration d.minutes ≡ ok d
unfolding new_duration
new_duration_lem minutes d h = elim (Bool-cases (minutes == 0)) [
  | inl e ↦ cc (rw (e, new_duration) at h)
  | inr e ↦
      subst (λ x. new_duration x.minutes ≡ ok x) (ok-injective (rw (e, new_duration) at h))
        (rw e refl)
]

new_key_lem :
    (value : Text) (key : IdempotencyKey) → new_key value ≡ ok key → new_key key.text ≡ ok key
unfolding new_key
new_key_lem value key h =
    let (text, (a, b)) = bind_ok (non_blank value (codes "idempotency_key")) _ h in
    subst (λ k. new_key k.text ≡ ok k) (ok-injective b)
      (rw (non_blank_idempotent value (codes "idempotency_key") (codes "idempotency_key") text a)
        refl)

task_of : TaskKind → Text → DurationMinutes → Option ℕ → IdempotencyKey → OwnerTaskDraft
task_of kind title duration due_at key = record {
  kind = kind;
  title = title;
  duration = duration;
  due_at = due_at;
  idempotency_key = key;
}

task_survives :
    (kind : TaskKind) (title : Text) (duration : DurationMinutes) (due_at : Option ℕ)
    (key : IdempotencyKey)
    → non_blank title (codes "title") ≡ ok title
    → new_duration duration.minutes ≡ ok duration
    → new_key key.text ≡ ok key
    → deserialize_task (serialize_task (task_of kind title duration due_at key))
      ≡ ok (task_of kind title duration due_at key)
unfolding deserialize_task serialize_task with_duration task_of
task_survives kind title duration due_at key t d k = rw (d, k, t) (rw d refl)

-- A task that was constructed, with a key that was, survives serialization.
deserialize_task-serialize_task :
    (kind : TaskKind) (title : Text) (minutes : ℕ) (due_at : Option ℕ) (value : Text)
    (key : IdempotencyKey) (task : OwnerTaskDraft)
    → new_key value ≡ ok key
    → with_duration kind title minutes due_at key ≡ ok task
    → deserialize_task (serialize_task task) ≡ ok task
unfolding with_duration task_of
deserialize_task-serialize_task kind title minutes due_at value key task k h =
    let (text, (title_ok, h)) = bind_ok (non_blank title (codes "title")) _ h in
    let (duration, (duration_ok, h)) = bind_ok (new_duration minutes) _ h in
    subst (λ t. deserialize_task (serialize_task t) ≡ ok t) (ok-injective h)
      (task_survives kind text duration due_at key
        (non_blank_idempotent title (codes "title") (codes "title") text title_ok)
        (new_duration_lem minutes duration duration_ok) (new_key_lem value key k))

abbrev draft_of : AppointmentKind → CallerIdentity → ℕ → QuoteId → IdempotencyKey → AppointmentDraft
draft_of kind caller starts_at quote_id key = record {
  quote_id = quote_id;
  caller = caller;
  kind = kind;
  starts_at = starts_at;
  ends_at = starts_at + appointment_minutes kind * minute_ns;
  requester_included = requester_included_by_default kind;
  idempotency_key = key;
}

drafted :
    (latest : ℕ) (kind : AppointmentKind) (caller : CallerIdentity) (starts_at : ℕ)
    (quote_id : QuoteId) (key : IdempotencyKey)
    → leb (appointment_minutes kind * minute_ns) 0 ≡ false
    → starts_at + appointment_minutes kind * minute_ns ≤ latest
    → (draft : AppointmentDraft) × ((new_draft latest kind caller starts_at quote_id key
          ≡ some (ok draft))
        × ((draft_duration draft ≡ appointment_minutes kind * minute_ns)
            × (draft.requester_included ≡ requester_included_by_default kind)))
unfolding new_draft draft_duration
drafted latest kind caller starts_at quote_id key positive h = (
  draft_of kind caller starts_at quote_id key,
  (
    rw (positive, le→leb (starts_at + appointment_minutes kind * minute_ns) latest h) refl,
    (omega arith, refl),
  ),
)

-- A draft ends its kind's minutes after its start, unless that instant does not exist, and includes
-- the requester when it is a meeting.
new_draft_lem :
    (latest : ℕ) (kind : AppointmentKind) (caller : CallerIdentity) (starts_at : ℕ)
    (quote_id : QuoteId) (key : IdempotencyKey)
    → starts_at + appointment_minutes kind * minute_ns ≤ latest
    → (draft : AppointmentDraft) × ((new_draft latest kind caller starts_at quote_id key
          ≡ some (ok draft))
        × ((draft_duration draft ≡ appointment_minutes kind * minute_ns)
            × (draft.requester_included ≡ requester_included_by_default kind)))
unfolding appointment_minutes
new_draft_lem latest callback caller starts_at quote_id key h =
    drafted latest callback caller starts_at quote_id key refl h
new_draft_lem latest meeting caller starts_at quote_id key h =
    drafted latest meeting caller starts_at quote_id key refl h
