-- ===== src/Store/Audit/Examples.antt =====
-- Runs of the audit log of pa/store.rs.
use agent_voice.Common.{◌≡◌, ◌≢◌, refl, none, List, [], ◌∷◌, map, codes, bytes_eq, arith}
use agent_voice.Common.Int.{pos}
use agent_voice.Common.Results.{ok, err}
use agent_voice.Store.Errors.{conflict}
use agent_voice.Store.Instants.{OffsetDateTime, format_audit_timestamp}
use agent_voice.Store.Names.{message_recorded, request_submitted, message}
use agent_voice.Store.Paging.{read_pages}
use agent_voice.Store.Table.{find}
use agent_voice.Store.Texts.{len, validate_audit_machine_identifier}
use agent_voice.Store.Audit.{
  AuditEventStoredRow, audit_event, validate_audit_entity_id, validate_audit_idempotency_key,
  decode_audit_event_row, next_id, insert_audit_event, append_audit_event, list_audit_events,
}
use agent_voice.Store.Audit.Appended.{event_of, IsValid}
use agent_voice.Store.Audit.Log.{IsKept, append_audit_event-IsKept, append_audit_event_twice}
use agent_voice.Store.Audit.Pages.{list_audit_events_all}

abbrev first : AuditEventStoredRow
first = record {
  id = 4;
  idempotency_key = codes "quote:1";
  event_type = message_recorded;
  entity_type = message;
  entity_id = codes "1";
  details = none;
  occurred_at = 0;
  created_at = 0;
}

abbrev second : AuditEventStoredRow
second = record first {
  id = 5;
  idempotency_key = codes "quote:2";
  entity_id = codes "2";
  created_at = 9;
}

abbrev log : List AuditEventStoredRow
log = first ∷ []

abbrev epoch : OffsetDateTime
epoch = record { instant = 0; offset = pos 0 }

log-IsValid : IsValid log
unfolding decode_audit_event_row validate_audit_entity_id validate_audit_idempotency_key
    validate_audit_machine_identifier len
log-IsValid = record { ordered = (omega arith, tt); readable = (refl, tt) }

append_run :
    append_audit_event log 9 (codes "quote:2") message_recorded message (codes "2") epoch
    ≡ ok (event_of second, first ∷ second ∷ [])
unfolding append_audit_event insert_audit_event next_id format_audit_timestamp
    decode_audit_event_row validate_audit_entity_id validate_audit_idempotency_key
    validate_audit_machine_identifier len find bytes_eq
append_run = refl

append_audit_event-IsKept_example :
    IsKept log
      (codes "quote:2")
      message_recorded
      message
      (codes "2")
      0
      (event_of second)
      (first ∷ second ∷ [])
append_audit_event-IsKept_example =
    append_audit_event-IsKept log 9 (codes "quote:2") message_recorded message (codes "2") epoch
      (event_of second) (first ∷ second ∷ []) log-IsValid append_run

differs : request_submitted ≢ message_recorded
differs = λ h. cc

append_audit_event_twice_example :
    (append_audit_event
        (first ∷ second ∷ [])
        30
        (codes "quote:2")
        message_recorded
        message
        (codes "2")
        epoch
      ≡ ok (event_of second, first ∷ second ∷ []))
    × (append_audit_event
          (first ∷ second ∷ [])
          30
          (codes "quote:2")
          request_submitted
          message
          (codes "2")
          epoch
        ≡ err (conflict audit_event))
append_audit_event_twice_example =
    append_audit_event_twice log 9 30 (codes "quote:2") message_recorded message (codes "2") epoch
      (event_of second) (first ∷ second ∷ []) request_submitted append_run differs

list_audit_events_all_example :
    read_pages (λ event. event.id) (λ c. list_audit_events log c 1) 2 none ≡ ok (map event_of log)
list_audit_events_all_example = list_audit_events_all log 0 log-IsValid (omega arith)
