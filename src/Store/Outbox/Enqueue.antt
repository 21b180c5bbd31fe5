-- ===== src/Store/Outbox/Enqueue.antt =====
-- src/pa/store.rs: `enqueue_notification` and `delete_notification_by_id`.
use agent_voice.Store.Table.{find, count}
use agent_voice.Common.{
  ℕ, suc, ltb, leb, ◌==◌, if◌then◌else◌, Bool, true, false, not, ◌&&◌, Option, none, some, List, [],
  ◌∷◌, ◌++◌, retain, bytes_eq, codes,
}
use agent_voice.Common.Equal.{eqb}
use agent_voice.Common.Int.{ℤ, pos, negsuc, pos_part}
use agent_voice.Common.Results.{ok, guard, ok_or, ◌>>=◌, ◌>>◌}
use agent_voice.Common.Text.{Text}
use agent_voice.Domain.Kinds.{non_blank}
use agent_voice.Store.Errors.{StoreResult, invalid_input, not_found, conflict}
use agent_voice.Store.Instants.{OffsetDateTime, normalize_notification_time}
use agent_voice.Store.Names.{NotificationKind, waiting, requires_proposal}
use agent_voice.Store.Outbox.{
  StoredNotification, Database, is_id, notification, or_key, option_ℕ_discrete, find_mapping,
  proposal_exists, read_row,
}
use agent_voice.Store.Templates.{TemplateData, is_some}
use mathlib.Core.Option
use native.Mathlib.Decide.{ℕ_discrete}

pub NotificationKind-discrete : Discrete NotificationKind
NotificationKind-discrete = hlevel

pub TemplateData-discrete : Discrete TemplateData
TemplateData-discrete = hlevel ℕ_discrete

abbrev is_positive : Option ℤ → Bool
is_positive none = true
is_positive (some (pos n)) = not (leb n 0)
is_positive (some (negsuc n)) = false

abbrev pub to_id : Option ℤ → Option ℕ
to_id = Option.map pos_part

mapping_of_proposal : Database → Option ℕ → Option ℕ → StoreResult (Unit {0})
mapping_of_proposal db none proposal_id = ok tt
mapping_of_proposal db (some id) proposal_id = do
  proposal ← ok_or (find_mapping id db.event_mappings) (not_found (codes "event mapping"))
  guard (eqb option_ℕ_discrete (some proposal) proposal_id) (conflict notification)

unfoldable pub validate_notification_references :
    Database → Option ℤ → Option ℤ → NotificationKind → StoreResult (Unit {0})
unfolding mapping_of_proposal
validate_notification_references db proposal_id event_mapping_id kind = do
  guard (is_positive proposal_id) (invalid_input (codes "proposal_id"))
  guard (is_positive event_mapping_id) (invalid_input (codes "event_mapping_id"))
  guard (not (requires_proposal kind && not (is_some proposal_id)))
      (invalid_input (codes "proposal_id"))
  guard (not (not (requires_proposal kind) && is_some proposal_id))
      (invalid_input (codes "proposal_id"))
  guard (not (not (requires_proposal kind) && is_some event_mapping_id))
      (invalid_input (codes "event_mapping_id"))
  guard (proposal_exists db (to_id proposal_id)) (not_found (codes "proposal"))
  mapping_of_proposal db (to_id event_mapping_id) (to_id proposal_id)

-- The rowid of a new row: one more than the greatest.
unfoldable pub next_id : List StoredNotification → ℕ
next_id [] = 1
next_id (row ∷ rows) = let rest = next_id rows in if ltb row.id rest then rest else suc row.id

unfoldable pub new_row :
    ℕ
    → ℕ
    → Text
    → Option ℕ
    → Option ℕ
    → NotificationKind
    → Text
    → TemplateData
    → ℕ
    → StoredNotification
new_row id clock key proposal_id event_mapping_id kind recipient template_data available_at =
    record {
      id = id;
      idempotency_key = key;
      proposal_id = proposal_id;
      event_mapping_id = event_mapping_id;
      kind = kind;
      recipient = recipient;
      template_data = template_data;
      status = waiting;
      available_at = available_at;
      lease_until = none;
      sent_at = none;
      last_error_code = none;
      attempts = 0;
      created_at = clock;
      updated_at = clock;
    }

-- The immutable fields of the stored row are those of the request.
unfoldable pub is_exact_retry : StoredNotification → StoredNotification → Bool
is_exact_retry stored request =
    eqb option_ℕ_discrete stored.proposal_id request.proposal_id
    && (eqb option_ℕ_discrete stored.event_mapping_id request.event_mapping_id
        && (eqb NotificationKind-discrete stored.kind request.kind
            && (bytes_eq stored.recipient request.recipient
                && (eqb TemplateData-discrete stored.template_data request.template_data
                    && (stored.available_at == request.available_at)))))

abbrev pub has_key : Text → StoredNotification → Bool
has_key key row = bytes_eq row.idempotency_key key

-- What the transaction does with the row that it would insert: `INSERT … ON CONFLICT DO NOTHING`.
unfoldable pub insert_or_retry :
    Database → StoredNotification → StoreResult (StoredNotification × Database)
insert_or_retry db row = elim (find (has_key row.idempotency_key) db.rows) [
  | none ↦ do
    let db' = record db { rows = db.rows ++ (row ∷ []) }
    stored ← read_row db' row
    ok (stored, db')
  | some existing ↦ do
    stored ← read_row db existing
    guard (is_exact_retry stored row) (conflict notification)
    ok (stored, db)
]

unfoldable pub enqueue_notification :
    Database
    → ℕ
    → Text
    → Option ℤ
    → Option ℤ
    → NotificationKind
    → Text
    → TemplateData
    → OffsetDateTime
    → StoreResult (StoredNotification × Database)
enqueue_notification db clock key proposal_id event_mapping_id kind recipient template_data
      available_at =
    do
      key ← or_key (non_blank key (codes "idempotency_key"))
      validate_notification_references db proposal_id event_mapping_id kind
      insert_or_retry db (
          new_row (next_id db.rows) clock key (to_id proposal_id) (to_id event_mapping_id) kind
            recipient template_data (normalize_notification_time available_at))

unfoldable pub delete_notification_by_id : Database → ℤ → StoreResult Database
delete_notification_by_id db id = do
  guard (not (count (λ row. is_id id row.id) db.rows == 0)) (not_found notification)
  ok (record db { rows = retain (λ row. not (is_id id row.id)) db.rows })
