-- ===== src/Store/Outbox.antt =====
-- src/pa/store.rs: the rows of the notification outbox, their reader, and the SQL statements on them. The rows of a table are kept by id, as in its b-tree;
-- each SQL statement is a function on them. An operation runs in one transaction: an error gives
-- no new state, since the transaction is rolled back. Ids and attempts are read as `i64` and are
-- not negative in a row. `clock` is `OffsetDateTime::now_utc()`.
pub mod Enqueue
pub mod Deliver
pub mod Expected
pub mod Rows
pub mod Readable
pub mod Valid
pub mod Candidates
pub mod Claim
pub mod Leased
pub mod Lease
pub mod Fair
pub mod Finish
pub mod Retry
pub mod Insert
pub mod Requests
pub mod Once
pub mod Machine
pub mod Moves
pub mod Finished
pub mod Deleted
pub mod Refines
use agent_voice.Store.Table.{find, update, count, find-All}
use agent_voice.Common.{
  ℕ, zero, suc, ◌+◌, ltb, leb, ◌==◌, if◌then◌else◌, Bool, true, false, not, ◌&&◌, ◌||◌, Option,
  none, some, List, [], ◌∷◌, ◌++◌, map, take, retain, any, Bytes, bytes_eq, codes,
}
use agent_voice.Common.Equal.{eqb}
use agent_voice.Common.Int.{ℤ, pos, negsuc}
use agent_voice.Common.Results.{Result, ok, err, guard, ok_or, ◌>>=◌, ◌>>◌}
use agent_voice.Common.Sort.{sort_by_key}
use agent_voice.Common.Text.{Text, trim, is_empty}
use agent_voice.Domain.Kinds.{AppointmentKind, ProposalState, non_blank}
use agent_voice.Domain.Email.{ConfirmedEmail, confirm}
use agent_voice.Store.Errors.{
  StoreError, StoreResult, invalid_input, not_found, stored_record_invalid,
}
use agent_voice.Store.Instants.{OffsetDateTime, is_utc, normalize_notification_time}
use agent_voice.Store.Names.{
  NotificationKind, NotificationStatus, waiting, delivering, sent, requires_proposal,
}
use agent_voice.Store.Templates.{TemplateData, deserialize_template, is_some, same}
use agent_voice.Store.Texts.{traverse, validate_notification_error_code}
use mathlib.Core.Option
use native.Mathlib.Decide.{ℕ_discrete}

pub record StoredNotification : Type 0 where
  pub id : ℕ
  pub idempotency_key : Text
  pub proposal_id : Option ℕ
  pub event_mapping_id : Option ℕ
  pub kind : NotificationKind
  pub recipient : Text
  pub template_data : TemplateData
  pub status : NotificationStatus
  pub available_at : ℕ
  pub lease_until : Option ℕ
  pub sent_at : Option ℕ
  pub last_error_code : Option Text
  pub attempts : ℕ
  pub created_at : ℕ
  pub updated_at : ℕ

-- The tables that the outbox reads: its rows, the ids of the proposals, and the id of each event
-- mapping with the proposal that it belongs to.
pub record Database : Type 0 where
  pub rows : List StoredNotification
  pub proposals : List ℕ
  pub event_mappings : List (ℕ × ℕ)

-- A column of positive ids against an `i64`.
abbrev is_id : ℤ → ℕ → Bool
is_id (pos n) m = n == m
is_id (negsuc n) m = false

abbrev pub notification : Bytes
notification = codes "notification"

abbrev record_invalid : StoreError
record_invalid = stored_record_invalid notification

-- `map_err` to the error of a row that cannot be reconstructed.
abbrev or_invalid {ε} : {E : Type ε} {A : Type 0} → Result E A → StoreResult A
or_invalid (ok a) = ok a
or_invalid (err e) = err record_invalid

abbrev or_key {ε} : {E : Type ε} {A : Type 0} → Result E A → StoreResult A
or_key (ok a) = ok a
or_key (err e) = err (invalid_input (codes "idempotency_key"))

pub option_ℕ_discrete : Discrete (Option ℕ)
option_ℕ_discrete = hlevel ℕ_discrete

abbrev is_positive_reference : Option ℕ → Bool
is_positive_reference none = true
is_positive_reference (some id) = not (leb id 0)

-- The `match` on the status in `decode_notification_row`.
unfoldable pub state_matches : NotificationStatus → ℕ → Option ℕ → Option ℕ → Option Text → Bool
state_matches waiting attempts lease_until sent_at code =
    not (is_some lease_until) && not (is_some sent_at)
state_matches delivering attempts lease_until sent_at code =
    ltb 0 attempts && (is_some lease_until && (not (is_some sent_at) && not (is_some code)))
state_matches sent attempts lease_until sent_at code =
    ltb 0 attempts && (not (is_some lease_until) && (is_some sent_at && not (is_some code)))

unfoldable pub references_kind : NotificationKind → Option ℕ → Option ℕ → Bool
references_kind kind proposal_id event_mapping_id =
    same (requires_proposal kind) (is_some proposal_id)
    && (requires_proposal kind || not (is_some event_mapping_id))

unfoldable pub decode_notification_row : StoredNotification → StoreResult StoredNotification
decode_notification_row row = do
  guard (not (leb row.id 0)) record_invalid
  key ← or_invalid (non_blank row.idempotency_key (codes "idempotency_key"))
  guard (is_positive_reference row.proposal_id) record_invalid
  guard (is_positive_reference row.event_mapping_id) record_invalid
  guard (references_kind row.kind row.proposal_id row.event_mapping_id) record_invalid
  recipient ← or_invalid (confirm row.recipient)
  template ← or_invalid (deserialize_template row.template_data)
  code ← or_invalid (traverse validate_notification_error_code row.last_error_code)
  guard (state_matches row.status row.attempts row.lease_until row.sent_at row.last_error_code)
      record_invalid
  ok (record row {
    idempotency_key = key;
    recipient = recipient.value;
    template_data = template;
    last_error_code = code;
  })

unfoldable pub find_mapping : ℕ → List (ℕ × ℕ) → Option ℕ
find_mapping id [] = none
find_mapping id ((mapping, proposal) ∷ mappings) =
    let rest = find_mapping id mappings in if mapping == id then some proposal else rest

abbrev mapping_matches : Database → StoredNotification → Option ℕ → Bool
mapping_matches db row none = true
mapping_matches db row (some id) = elim (find_mapping id db.event_mappings) [
  | none ↦ false
  | some proposal ↦ eqb option_ℕ_discrete (some proposal) row.proposal_id
]

abbrev proposal_exists : Database → Option ℕ → Bool
proposal_exists db none = true
proposal_exists db (some id) = any (λ proposal. proposal == id) db.proposals

unfoldable pub validate_stored_notification_references :
    Database → StoredNotification → StoreResult (Unit {0})
validate_stored_notification_references db row = do
  guard (proposal_exists db row.proposal_id) record_invalid
  guard (mapping_matches db row row.event_mapping_id) record_invalid

-- A row as it is returned: reconstructed, with its references checked.
unfoldable pub read_row : Database → StoredNotification → StoreResult StoredNotification
read_row db row = do
  stored ← decode_notification_row row
  validate_stored_notification_references db stored
  ok stored

-- `load_notification_by_id` and `load_notification_from_connection`
pub load_notification : Database → ℤ → StoreResult StoredNotification
load_notification db id = do
  row ← ok_or (find (λ row. is_id id row.id) db.rows) (not_found notification)
  read_row db row

unfoldable pub load_notification_by_idempotency_key :
    Database → Text → StoreResult StoredNotification
load_notification_by_idempotency_key db key = do
  key ← or_key (non_blank key (codes "idempotency_key"))
  row ← ok_or (find (λ row. bytes_eq row.idempotency_key key) db.rows) (not_found notification)
  read_row db row
