-- ===== src/Store/Outbox/Requests.antt =====
-- src/pa/store.rs: what a call of `enqueue_notification` that succeeds leaves.
use agent_voice.Store.Table.{find, find-All}
use agent_voice.Common.{
  ℕ, ◌≡◌, refl, sym, ap, ◌∙◌, inl, inr, Bool-cases, Option, some, List, bytes_eq_refl, codes, Bytes,
}
use mathlib.Core.Path.{subst}
use agent_voice.Common.Int.{ℤ}
use agent_voice.Common.Results.{Result, ok, err, bind_ok, ok-injective}
use agent_voice.Common.Text.{Text, trim, is_empty}
use agent_voice.Common.Text.Trim.{trim_idempotent}
use agent_voice.Domain.Kinds.{non_blank}
use agent_voice.Store.Instants.{OffsetDateTime, normalize_notification_time}
use agent_voice.Store.Names.{NotificationKind}
use agent_voice.Store.Templates.{TemplateData, deserialize_template}
use agent_voice.Store.Outbox.{StoredNotification, Database, read_row, or_key}
use agent_voice.Store.Outbox.Enqueue.{
  has_key, insert_or_retry, next_id, new_row, to_id, enqueue_notification,
  validate_notification_references,
}
use agent_voice.Store.Outbox.Valid.{IsValid, with_rows}
use agent_voice.Store.Outbox.Insert.{
  IsRequest, SameRequest, insert_or_retry-cases, find-appended, is_exact_retry-SameRequest,
  SameRequest-is_exact_retry,
}

-- The row is in the table under its key, with nothing but the rows changed.
pub record IsInserted (db : Database) (row stored : StoredNotification) (final : Database)
    : Type 0 where
  pub valid : IsValid final
  pub found : find (has_key row.idempotency_key) final.rows ≡ some stored
  pub request : SameRequest stored row
  pub frame : final ≡ with_rows db final.rows

same_request : (row : StoredNotification) → SameRequest row row
same_request row = record {
  proposal = refl;
  mapping = refl;
  kind = refl;
  recipient = refl;
  template = refl;
  available = refl;
}

insert_or_retry-IsInserted :
    (db : Database) (row stored : StoredNotification) (final : Database)
    → IsValid db
    → IsRequest row
    → row.id ≡ next_id db.rows
    → insert_or_retry db row ≡ ok (stored, final)
    → IsInserted db row stored final
insert_or_retry-IsInserted db row stored final v q e run =
    elim (insert_or_retry-cases db row stored final v q e run) [
      | inl (absent, (own, (same, valid))) ↦ record {
        valid = valid;
        found =
            subst (λ (d : Database). find (has_key row.idempotency_key) d.rows ≡ some stored)
              (sym same)
              (find-appended (has_key row.idempotency_key) db.rows row absent
                  (bytes_eq_refl row.idempotency_key)
                ∙ ap some (sym own));
        request =
            subst (λ (r : StoredNotification). SameRequest r row) (sym own) (same_request row);
        frame = same ∙ sym (ap (λ (d : Database). with_rows db d.rows) same);
      }
      | inr (found, (same, exact)) ↦ record {
        valid = subst IsValid (sym same) v;
        found =
            subst (λ (d : Database). find (has_key row.idempotency_key) d.rows ≡ some stored)
              (sym same) found;
        request = is_exact_retry-SameRequest stored row exact;
        frame = same ∙ sym (ap (λ (d : Database). with_rows db d.rows) same);
      }
    ]

-- A row under the key answers an insertion.
pub insert_or_retry-found :
    (db : Database) (row stored : StoredNotification)
    → IsValid db
    → find (has_key row.idempotency_key) db.rows ≡ some stored
    → SameRequest stored row
    → insert_or_retry db row ≡ ok (stored, db)
unfolding insert_or_retry
insert_or_retry-found db row stored v found h =
    rw
      (
        found,
        insert_or_retry,
        find-All (λ r. read_row db r ≡ ok r) (has_key row.idempotency_key) stored db.rows v.readable
            found,
        SameRequest-is_exact_retry stored row h,
      )
      refl

non_blank-again :
    (value text : Text) (field : Bytes)
    → non_blank value field ≡ ok text
    → non_blank text field ≡ ok text
unfolding non_blank
non_blank-again value text field h = elim (Bool-cases (is_empty (trim value))) [
  | inl e ↦ cc (rw e at h)
  | inr e ↦
      let same : trim value ≡ text = ok-injective (rw e at h) in
      subst (λ (t : Text). non_blank t field ≡ ok t) same (rw (trim_idempotent value, e) refl)
]

or_key_ok : {E : Type 0} {A : Type 0} (m : Result E A) (a : A) → or_key m ≡ ok a → m ≡ ok a
or_key_ok (ok b) a h = cc
or_key_ok (err e) a h = cc

references-with_rows :
    (db : Database) (rows : List StoredNotification) (proposal mapping : Option ℤ)
    (kind : NotificationKind)
    → validate_notification_references (with_rows db rows) proposal mapping kind
      ≡ validate_notification_references db proposal mapping kind
unfolding validate_notification_references
references-with_rows db rows proposal mapping kind = refl

pub references_again :
    (db final : Database) (proposal mapping : Option ℤ) (kind : NotificationKind)
    → final ≡ with_rows db final.rows
    → validate_notification_references db proposal mapping kind ≡ ok tt
    → validate_notification_references final proposal mapping kind ≡ ok tt
references_again db final proposal mapping kind frame h =
    ap (λ (d : Database). validate_notification_references d proposal mapping kind) frame
    ∙ (references-with_rows db final.rows proposal mapping kind ∙ h)

module _ (clock : ℕ) (key : Text) (proposal mapping : Option ℤ) (kind : NotificationKind)
    (recipient : Text) (template : TemplateData) (available_at : OffsetDateTime) where
  abbrev pub row_for : Database → Text → StoredNotification
  row_for db text =
      new_row (next_id db.rows) clock text (to_id proposal) (to_id mapping) kind recipient template
        available_at.instant

  -- What an enqueueing that succeeds comes from.
  pub enqueue-parts :
      (db : Database) (result : StoredNotification × Database)
      → enqueue_notification db clock key proposal mapping kind recipient template available_at
        ≡ ok result
      → (text : Text) × ((non_blank key (codes "idempotency_key") ≡ ok text)
          × ((validate_notification_references db proposal mapping kind ≡ ok tt)
              × (insert_or_retry db (row_for db text) ≡ ok result)))
  unfolding enqueue_notification normalize_notification_time
  enqueue-parts db result run =
      let (text, (named, run)) = bind_ok (or_key (non_blank key (codes "idempotency_key"))) _ run in
      let (u, (references, run)) =
        bind_ok (validate_notification_references db proposal mapping kind) _ run in
      (text, (or_key_ok _ text named, (references, run)))

  pub IsRequest-row_for :
      (db : Database) (text : Text)
      → non_blank key (codes "idempotency_key") ≡ ok text
      → deserialize_template template ≡ ok template
      → IsRequest (row_for db text)
  unfolding new_row
  IsRequest-row_for db text named stored = record {
    key = non_blank-again key text (codes "idempotency_key") named;
    template = stored;
    code = refl;
  }

  pub enqueue-IsInserted :
      (db : Database) (stored : StoredNotification) (final : Database)
      → IsValid db
      → deserialize_template template ≡ ok template
      → enqueue_notification db clock key proposal mapping kind recipient template available_at
        ≡ ok (stored, final)
      → (text : Text) × ((non_blank key (codes "idempotency_key") ≡ ok text)
          × ((validate_notification_references db proposal mapping kind ≡ ok tt)
              × IsInserted db (row_for db text) stored final))
  unfolding new_row
  enqueue-IsInserted db stored final v built run =
      let (text, (named, (references, run))) = enqueue-parts db (stored, final) run in
      (
        text,
        (
          named,
          (
            references,
            insert_or_retry-IsInserted db (row_for db text) stored final v
                (IsRequest-row_for db text named built) refl run,
          ),
        ),
      )

-- The request does not depend on the clock, nor on the id.
pub SameRequest-row_for :
    (clock later : ℕ) (key : Text) (proposal mapping : Option ℤ) (kind : NotificationKind)
    (recipient : Text) (template : TemplateData) (available_at : OffsetDateTime) (db db' : Database)
    (text : Text) (stored : StoredNotification)
    → SameRequest stored
        (row_for clock key proposal mapping kind recipient template available_at db text)
    → SameRequest stored
        (row_for later key proposal mapping kind recipient template available_at db' text)
unfolding new_row
SameRequest-row_for clock later key proposal mapping kind recipient template available_at db db'
      text stored h =
    record {
      proposal = h.proposal;
      mapping = h.mapping;
      kind = h.kind;
      recipient = h.recipient;
      template = h.template;
      available = h.available;
    }

pub non_blank-trim :
    (value text : Text) (field : Bytes) → non_blank value field ≡ ok text → text ≡ trim value
unfolding non_blank
non_blank-trim value text field h = elim (Bool-cases (is_empty (trim value))) [
  | inl e ↦ cc (rw e at h)
  | inr e ↦ sym (ok-injective (rw e at h))
]
