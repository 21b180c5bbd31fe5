-- ===== src/Store/Audit.antt =====
-- src/pa/store.rs: the audit log. Its rows are kept by id. `clock` is the time that SQLite writes
-- for a new row; a stored time is a canonical UTC text of whole seconds.
pub mod Appended
pub mod Log
pub mod Loads
pub mod Pages
mod Examples
use agent_voice.Common.{
  ℕ, suc, ltb, leb, ◌==◌, if◌then◌else◌, Bool, true, false, not, ◌&&◌, ◌||◌, Option, none, some,
  List, [], ◌∷◌, ◌++◌, Bytes, bytes_eq, codes,
}
use agent_voice.Common.Equal.{eqb}
use agent_voice.Common.Int.{ℤ}
use agent_voice.Common.Results.{Result, ok, err, guard, ok_or, ◌>>=◌, ◌>>◌}
use agent_voice.Common.Text.{Text}
use agent_voice.Store.Errors.{StoreError, StoreResult, conflict, not_found, stored_record_invalid}
use agent_voice.Store.Instants.{OffsetDateTime, format_audit_timestamp}
use agent_voice.Store.Names.{AuditEventType, AuditEntityType}
use agent_voice.Store.Paging.{validate_page, page, decode_each}
use agent_voice.Store.Table.{find}
use agent_voice.Store.Texts.{validate_audit_machine_identifier}

pub record AuditEventStoredRow : Type 0 where
  pub id : ℕ
  pub idempotency_key : Text
  pub event_type : AuditEventType
  pub entity_type : AuditEntityType
  pub entity_id : Text
  pub details : Option Text
  pub occurred_at : ℕ
  pub created_at : ℕ

pub record StoredAuditEvent : Type 0 where
  pub id : ℕ
  pub idempotency_key : Text
  pub event_type : AuditEventType
  pub entity_type : AuditEntityType
  pub entity_id : Text
  pub occurred_at : ℕ
  pub created_at : ℕ

AuditEventType-discrete : Discrete AuditEventType
AuditEventType-discrete = hlevel

pub AuditEntityType-discrete : Discrete AuditEntityType
AuditEntityType-discrete = hlevel

abbrev audit_event : Bytes
audit_event = codes "audit event"

abbrev audit_invalid : StoreError
audit_invalid = stored_record_invalid audit_event

abbrev max_audit_list_limit : ℕ
max_audit_list_limit = 100

pub validate_audit_entity_id : Text → StoreResult Text
validate_audit_entity_id value = validate_audit_machine_identifier value (codes "entity_id") 256

pub validate_audit_idempotency_key : Text → StoreResult Text
validate_audit_idempotency_key value =
    validate_audit_machine_identifier value (codes "idempotency_key") 256

abbrev audit_field : {A : Type 0} → StoreResult A → StoreResult A
audit_field (ok a) = ok a
audit_field (err e) = err audit_invalid

abbrev pub is_none : Option Text → Bool
is_none none = true
is_none (some details) = false

pub decode_audit_event_row : AuditEventStoredRow → StoreResult StoredAuditEvent
decode_audit_event_row row = do
  guard (not (leb row.id 0 || not (is_none row.details))) audit_invalid
  key ← audit_field (validate_audit_idempotency_key row.idempotency_key)
  entity_id ← audit_field (validate_audit_entity_id row.entity_id)
  ok (record {
    id = row.id;
    idempotency_key = key;
    event_type = row.event_type;
    entity_type = row.entity_type;
    entity_id = entity_id;
    occurred_at = row.occurred_at;
    created_at = row.created_at;
  })

abbrev pub by_key : Text → AuditEventStoredRow → Bool
by_key key row = bytes_eq row.idempotency_key key

unfoldable pub next_id : List AuditEventStoredRow → ℕ
next_id [] = 1
next_id (row ∷ rows) = let rest = next_id rows in if ltb row.id rest then rest else suc row.id

abbrev is_absent : Option AuditEventStoredRow → Bool
is_absent none = true
is_absent (some row) = false

-- `INSERT … ON CONFLICT(idempotency_key) DO NOTHING`
abbrev pub inserted : List AuditEventStoredRow → AuditEventStoredRow → List AuditEventStoredRow
inserted rows new =
    if is_absent (find (by_key new.idempotency_key) rows) then rows ++ (new ∷ []) else rows

pub is_same_event : StoredAuditEvent → AuditEventStoredRow → Bool
is_same_event stored new =
    eqb AuditEventType-discrete stored.event_type new.event_type
    && (eqb AuditEntityType-discrete stored.entity_type new.entity_type
        && (bytes_eq stored.entity_id new.entity_id && (stored.occurred_at == new.occurred_at)))

-- The transaction of `append_audit_event`.
pub insert_audit_event :
    List AuditEventStoredRow
    → AuditEventStoredRow
    → StoreResult (StoredAuditEvent × List AuditEventStoredRow)
insert_audit_event rows new = do
  row ← ok_or (find (by_key new.idempotency_key) (inserted rows new)) audit_invalid
  stored ← decode_audit_event_row row
  guard (is_absent (find (by_key new.idempotency_key) rows) || is_same_event stored new)
      (conflict audit_event)
  ok (stored, inserted rows new)

pub append_audit_event :
    List AuditEventStoredRow
    → ℕ
    → Text
    → AuditEventType
    → AuditEntityType
    → Text
    → OffsetDateTime
    → StoreResult (StoredAuditEvent × List AuditEventStoredRow)
append_audit_event rows clock idempotency_key event_type entity_type entity_id occurred_at = do
  key ← validate_audit_idempotency_key idempotency_key
  entity ← validate_audit_entity_id entity_id
  at ← format_audit_timestamp occurred_at (codes "occurred_at")
  insert_audit_event rows (record {
    id = next_id rows;
    idempotency_key = key;
    event_type = event_type;
    entity_type = entity_type;
    entity_id = entity;
    details = none;
    occurred_at = at;
    created_at = clock;
  })

pub load_audit_event_by_idempotency_key :
    List AuditEventStoredRow → Text → StoreResult StoredAuditEvent
load_audit_event_by_idempotency_key rows idempotency_key = do
  key ← validate_audit_idempotency_key idempotency_key
  row ← ok_or (find (by_key key) rows) (not_found audit_event)
  decode_audit_event_row row

pub list_audit_events :
    List AuditEventStoredRow → Option ℤ → ℕ → StoreResult (List StoredAuditEvent)
list_audit_events rows after_id limit = do
  validate_page after_id limit max_audit_list_limit
  decode_each decode_audit_event_row (page (λ row. row.id) after_id limit rows)
