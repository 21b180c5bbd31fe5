-- ===== src/Store/Outbox/Readable.antt =====
-- src/pa/store.rs: a change of a row's delivery state keeps it readable.
use agent_voice.Common.{ℕ, ◌≡◌, refl, ap, ◌∙◌, true, not, leb, Option, codes}
use agent_voice.Common.Results.{ok, guard, bind_ok, guard_ok, ok-injective}
use mathlib.Core.Path.{subst}
use agent_voice.Common.Text.{Text}
use agent_voice.Domain.Kinds.{non_blank}
use agent_voice.Domain.Email.{ConfirmedEmail, confirm}
use agent_voice.Store.Names.{NotificationStatus}
use agent_voice.Store.Outbox.{
  StoredNotification, Database, record_invalid, or_invalid, decode_notification_row, state_matches,
  references_kind, is_positive_reference, validate_stored_notification_references, read_row,
}
use agent_voice.Store.Templates.{deserialize_template}
use agent_voice.Store.Texts.{traverse, validate_notification_error_code}

abbrev with_state :
    StoredNotification
    → NotificationStatus
    → ℕ
    → Option ℕ
    → Option ℕ
    → Option Text
    → ℕ
    → ℕ
    → StoredNotification
with_state row status available_at lease_until sent_at code attempts updated_at = record row {
  status = status;
  available_at = available_at;
  lease_until = lease_until;
  sent_at = sent_at;
  last_error_code = code;
  attempts = attempts;
  updated_at = updated_at;
}

-- What the reader asks of a row that it gives back unchanged.
pub record IsReadable (row : StoredNotification) : Type 0 where
  pub has_id : not (leb row.id 0) ≡ true
  pub has_key :
      or_invalid (non_blank row.idempotency_key (codes "idempotency_key")) ≡ ok row.idempotency_key
  pub has_proposal : is_positive_reference row.proposal_id ≡ true
  pub has_mapping : is_positive_reference row.event_mapping_id ≡ true
  pub fits_kind : references_kind row.kind row.proposal_id row.event_mapping_id ≡ true
  pub email : ConfirmedEmail
  pub has_email : or_invalid (confirm row.recipient) ≡ ok email
  pub is_email : email.value ≡ row.recipient
  pub has_template : or_invalid (deserialize_template row.template_data) ≡ ok row.template_data
  pub has_code :
      or_invalid (traverse validate_notification_error_code row.last_error_code)
      ≡ ok row.last_error_code
  pub has_state :
      state_matches row.status row.attempts row.lease_until row.sent_at row.last_error_code ≡ true

decode-IsReadable :
    (row : StoredNotification) → decode_notification_row row ≡ ok row → IsReadable row
unfolding decode_notification_row
decode-IsReadable row run =
    let (_, (has_id, run)) = bind_ok (guard (not (leb row.id 0)) record_invalid) _ run in
    let (key, (has_key, run)) = bind_ok (or_invalid (non_blank row.idempotency_key _)) _ run in
    let (_, (proposal, run)) = bind_ok (guard (is_positive_reference row.proposal_id) _) _ run in
    let (_, (mapping, run)) =
      bind_ok (guard (is_positive_reference row.event_mapping_id) _) _ run in
    let (_, (kind, run)) =
      bind_ok (guard (references_kind row.kind row.proposal_id row.event_mapping_id) _) _ run in
    let (email, (has_email, run)) = bind_ok (or_invalid (confirm row.recipient)) _ run in
    let (template, (has_template, run)) =
      bind_ok (or_invalid (deserialize_template row.template_data)) _ run in
    let (code, (has_code, run)) =
      bind_ok (or_invalid (traverse validate_notification_error_code row.last_error_code)) _ run in
    let (_, (state, run)) =
      bind_ok
        (guard
          (state_matches row.status row.attempts row.lease_until row.sent_at row.last_error_code) _)
        _ run in
    let whole = ok-injective run in
    record {
      has_id = guard_ok _ _ has_id;
      has_key = has_key ∙ ap (λ (r : StoredNotification). ok r.idempotency_key) whole;
      has_proposal = guard_ok _ _ proposal;
      has_mapping = guard_ok _ _ mapping;
      fits_kind = guard_ok _ _ kind;
      email = email;
      has_email = has_email;
      is_email = ap (λ (r : StoredNotification). r.recipient) whole;
      has_template = has_template ∙ ap (λ (r : StoredNotification). ok r.template_data) whole;
      has_code = has_code ∙ ap (λ (r : StoredNotification). ok r.last_error_code) whole;
      has_state = guard_ok _ _ state;
    }

IsReadable-decode :
    (row : StoredNotification) → IsReadable row → decode_notification_row row ≡ ok row
unfolding decode_notification_row
IsReadable-decode row p =
    rw
      (
        p.has_id, p.has_key, p.has_proposal, p.has_mapping, p.fits_kind, p.has_email,
        p.has_template, p.has_code, p.has_state, p.is_email,
      )
      refl

read_row-parts :
    (db : Database) (row : StoredNotification)
    → read_row db row ≡ ok row
    → (decode_notification_row row ≡ ok row)
      × (validate_stored_notification_references db row ≡ ok tt)
unfolding read_row
read_row-parts db row run =
    let (stored, (decoded, run)) = bind_ok (decode_notification_row row) _ run in
    let (u, (references, run)) =
      bind_ok (validate_stored_notification_references db stored) _ run in
    let same = ok-injective run in
    (
      decoded ∙ ap ok same,
      subst (λ (r : StoredNotification). validate_stored_notification_references db r ≡ ok tt) same
          references,
    )

-- A state that the reader accepts can take the place of the row's state.
pub read_row-with_state :
    (db : Database) (row : StoredNotification) (status : NotificationStatus) (available_at : ℕ)
    (lease_until sent_at : Option ℕ) (code : Option Text) (attempts updated_at : ℕ)
    → or_invalid (traverse validate_notification_error_code code) ≡ ok code
    → state_matches status attempts lease_until sent_at code ≡ true
    → read_row db row ≡ ok row
    → read_row db (with_state row status available_at lease_until sent_at code attempts updated_at)
      ≡ ok (with_state row status available_at lease_until sent_at code attempts updated_at)
unfolding read_row validate_stored_notification_references
read_row-with_state db row status available_at lease_until sent_at code attempts updated_at code_ok
      matches run =
    let (decoded, references) = read_row-parts db row run in
    let p : IsReadable row = decode-IsReadable row decoded in
    let next = with_state row status available_at lease_until sent_at code attempts updated_at in
    let q : IsReadable next = record {
      has_id = p.has_id;
      has_key = p.has_key;
      has_proposal = p.has_proposal;
      has_mapping = p.has_mapping;
      fits_kind = p.fits_kind;
      email = p.email;
      has_email = p.has_email;
      is_email = p.is_email;
      has_template = p.has_template;
      has_code = code_ok;
      has_state = matches;
    } in
    rw (IsReadable-decode next q, references) refl
