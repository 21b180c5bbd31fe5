-- ===== src/Store/Messages/Queries.antt =====
-- src/pa/store.rs: the lists of messages. The condition on an unknown stored state has no row here:
-- a row's state is one of the six, as it is written.
pub mod Pages
use agent_voice.Common.{ℕ, Option, List, retain}
use agent_voice.Common.Int.{ℤ}
use agent_voice.Common.Results.{Result, ok, err, ◌>>=◌, ◌>>◌}
use agent_voice.Store.Errors.{StoreResult}
use agent_voice.Store.Names.{MessageTriageState}
use agent_voice.Store.Paging.{validate_page, page, decode_each}
use agent_voice.Store.Messages.{StoredMessage, max_message_list_limit, decode_message_row}
use agent_voice.Store.Messages.Update.{in_state}

list_messages : List StoredMessage → Option ℤ → ℕ → StoreResult (List StoredMessage)
list_messages rows after_id limit = do
  validate_page after_id limit max_message_list_limit
  decode_each decode_message_row (page (λ row. row.id) after_id limit rows)

list_messages_by_triage_state :
    List StoredMessage → MessageTriageState → Option ℤ → ℕ → StoreResult (List StoredMessage)
list_messages_by_triage_state rows triage_state after_id limit = do
  validate_page after_id limit max_message_list_limit
  decode_each decode_message_row
      (page (λ row. row.id) after_id limit (retain (in_state triage_state) rows))
