-- ===== src/Store/Audit/Pages.antt =====
-- src/pa/store.rs: the audit log read page by page.
use agent_voice.Common.{ℕ, suc, ◌+◌, ◌<◌, ◌≡◌, refl, none, List, length, map, arith}
use agent_voice.Common.Results.{ok}
use agent_voice.Store.Paging.{read_pages}
use agent_voice.Store.Paging.Complete.{read_pages-decoded, validate_page_ok}
use agent_voice.Store.Audit.{
  AuditEventStoredRow, max_audit_list_limit, decode_audit_event_row, list_audit_events,
}
use agent_voice.Store.Audit.Appended.{event_of, IsValid}

-- A client that lists a valid log with any limit `suc limit` from 1 to 100, each time after the last id it has
-- seen and until it gets no event, is given every event once, in the order of the ids; one call more
-- than there are events is enough.
pub list_audit_events_all :
    (rows : List AuditEventStoredRow) (limit : ℕ)
    → IsValid rows
    → limit < max_audit_list_limit
    → read_pages
        (λ event. event.id)
        (λ c. list_audit_events rows c (suc limit))
        (length rows + 1)
        none
      ≡ ok (map event_of rows)
unfolding list_audit_events
list_audit_events_all rows limit v fits =
    read_pages-decoded (λ event. event.id) event_of decode_audit_event_row
      (λ c. list_audit_events rows c (suc limit)) rows limit v.readable v.ordered
      (λ c cursor. rw (validate_page_ok c limit max_audit_list_limit cursor (omega arith)) refl)
