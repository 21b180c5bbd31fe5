-- ===== src/Store/Outbox/Once.antt =====
-- src/pa/store.rs: `enqueue_notification`, called again under the same key.
use agent_voice.Store.Table.{find}
use agent_voice.Common.{ℕ, ◌≡◌, refl, sym, ap, ◌∙◌, inl, inr, Option, some, codes}
use mathlib.Core.Path.{subst}
use agent_voice.Common.Int.{ℤ}
use agent_voice.Common.Results.{ok, some-injective}
use agent_voice.Common.Text.{Text, trim}
use agent_voice.Store.Instants.{OffsetDateTime, normalize_notification_time}
use agent_voice.Store.Names.{NotificationKind}
use agent_voice.Store.Templates.{TemplateData, deserialize_template}
use agent_voice.Store.Outbox.{StoredNotification, Database}
use agent_voice.Store.Outbox.Enqueue.{has_key, new_row, to_id, enqueue_notification}
use agent_voice.Store.Outbox.Valid.{IsValid}
use agent_voice.Store.Outbox.Insert.{SameRequest, insert_or_retry-cases, is_exact_retry-SameRequest}
use agent_voice.Store.Outbox.Requests.{
  insert_or_retry-found, references_again, row_for, enqueue-parts, IsRequest-row_for,
  enqueue-IsInserted, SameRequest-row_for, non_blank-trim,
}

-- Enqueueing is idempotent: on a valid outbox, a call that succeeds and the same call after it, at
-- any clock, return the same notification, and the second changes nothing. The template is one that
-- its constructor built.
pub enqueue_notification_twice :
    (db : Database) (clock later : ℕ) (key : Text) (proposal mapping : Option ℤ)
    (kind : NotificationKind) (recipient : Text) (template : TemplateData)
    (available_at : OffsetDateTime) (stored : StoredNotification) (final : Database)
    → IsValid db
    → deserialize_template template ≡ ok template
    → enqueue_notification db clock key proposal mapping kind recipient template available_at
      ≡ ok (stored, final)
    → IsValid final
      × (enqueue_notification final later key proposal mapping kind recipient template available_at
          ≡ ok (stored, final))
unfolding enqueue_notification normalize_notification_time new_row
enqueue_notification_twice db clock later key proposal mapping kind recipient template available_at
      stored final v built run =
    let (text, (named, (references, done))) =
      enqueue-IsInserted clock key proposal mapping kind recipient template available_at db stored
        final v built run in
    let again = references_again db final proposal mapping kind done.frame references in
    let next = row_for later key proposal mapping kind recipient template available_at final text in
    let same : SameRequest stored next =
      SameRequest-row_for clock later key proposal mapping kind recipient template available_at db
        final text stored done.request in
    (
      done.valid,
      rw (named, again) (insert_or_retry-found final next stored done.valid done.found same),
    )

-- One key stands for one notification: once a call under a key has succeeded on a valid outbox,
-- any call under a key with the same trimmed text that succeeds returns that notification, changes
-- nothing, and has the same kind, recipient, template, time and references. The templates are ones that
-- their constructor built.
pub enqueue_notification_once :
    (db : Database) (clock later : ℕ) (key key' : Text)
    (proposal proposal' mapping mapping' : Option ℤ) (kind kind' : NotificationKind)
    (recipient recipient' : Text) (template template' : TemplateData)
    (available_at available_at' : OffsetDateTime) (stored stored' : StoredNotification)
    (final final' : Database)
    → IsValid db
    → deserialize_template template ≡ ok template
    → deserialize_template template' ≡ ok template'
    → trim key ≡ trim key'
    → enqueue_notification db clock key proposal mapping kind recipient template available_at
      ≡ ok (stored, final)
    → enqueue_notification final later key' proposal' mapping' kind' recipient' template'
        available_at'
      ≡ ok (stored', final')
    → (stored' ≡ stored)
      × (final' ≡ final)
      × (kind' ≡ kind)
      × (recipient' ≡ recipient)
      × (template' ≡ template)
      × (available_at'.instant ≡ available_at.instant)
      × (to_id proposal' ≡ to_id proposal)
      × (to_id mapping' ≡ to_id mapping)
unfolding new_row
enqueue_notification_once db clock later key key' proposal proposal' mapping mapping' kind kind'
      recipient recipient' template template' available_at available_at' stored stored' final final'
      v built built' equal run run' =
    let (text, (named, (_, done))) =
      enqueue-IsInserted clock key proposal mapping kind recipient template available_at db stored
        final v built run in
    let (text', (named', (_, inserted))) =
      enqueue-parts later key' proposal' mapping' kind' recipient' template' available_at' final
        (stored', final') run' in
    let next =
      row_for later key' proposal' mapping' kind' recipient' template' available_at' final text' in
    let texts : text ≡ text' =
      non_blank-trim key text (codes "idempotency_key") named
      ∙ (equal ∙ sym (non_blank-trim key' text' (codes "idempotency_key") named')) in
    let held = subst (λ (k : Text). find (has_key k) final.rows ≡ some stored) texts done.found in
    elim (insert_or_retry-cases final next stored' final' done.valid
      (IsRequest-row_for later key' proposal' mapping' kind' recipient' template' available_at'
        final text' named' built')
      refl inserted) [
        | inl (absent, _) ↦ cc (sym absent ∙ held)
        | inr (found, (kept, exact)) ↦
            let same : stored' ≡ stored = some-injective (sym found ∙ held) in
            let r = done.request in
            let r' = is_exact_retry-SameRequest stored' next exact in
            (
              same,
              kept,
              sym r'.kind ∙ (ap (λ (s : StoredNotification). s.kind) same ∙ r.kind),
              sym r'.recipient ∙ (ap (λ (s : StoredNotification). s.recipient) same ∙ r.recipient),
              sym r'.template
                  ∙ (ap (λ (s : StoredNotification). s.template_data) same ∙ r.template),
              sym r'.available
                  ∙ (ap (λ (s : StoredNotification). s.available_at) same ∙ r.available),
              sym r'.proposal ∙ (ap (λ (s : StoredNotification). s.proposal_id) same ∙ r.proposal),
              sym r'.mapping
                  ∙ (ap (λ (s : StoredNotification). s.event_mapping_id) same ∙ r.mapping),
            )
      ]
