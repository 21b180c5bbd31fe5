-- ===== src/Store/Messages/Queries/Pages.antt =====
-- src/pa/store.rs: the lists of messages read page by page.
use agent_voice.Common.{
  ℕ, suc, ◌+◌, ◌<◌, ◌≡◌, refl, ap, ◌∙◌, none, List, length, retain, All-retain, arith,
}
use agent_voice.Common.Results.{ok}
use agent_voice.Store.Names.{MessageTriageState}
use agent_voice.Store.Paging.{Ascending, read_pages}
use agent_voice.Store.Paging.Complete.{
  read_pages-decoded, validate_page_ok, Ascending-retain, map-same,
}
use agent_voice.Store.Messages.{StoredMessage, max_message_list_limit, decode_message_row}
use agent_voice.Store.Messages.Update.{in_state}
use agent_voice.Store.Messages.Lifecycle.{IsValid}
use agent_voice.Store.Messages.Queries.{list_messages, list_messages_by_triage_state}

-- A client that lists valid messages, kept by id, with any limit `suc limit` from 1 to 100, each
-- time after the last id it has seen and until it gets no message, is given every message once, in
-- the order of the ids; with a triage state it is given those in the state.
list_messages_all :
    (rows : List StoredMessage) (limit : ℕ) (state : MessageTriageState)
    → IsValid rows
    → Ascending (λ row. row.id) 0 rows
    → limit < max_message_list_limit
    → (read_pages (λ row. row.id) (λ c. list_messages rows c (suc limit)) (length rows + 1) none
        ≡ ok rows)
      × (read_pages
            (λ row. row.id)
            (λ c. list_messages_by_triage_state rows state c (suc limit))
            (length (retain (in_state state) rows) + 1)
            none
          ≡ ok (retain (in_state state) rows))
unfolding list_messages list_messages_by_triage_state
list_messages_all rows limit state v s fits =
    let id : StoredMessage → ℕ = λ row. row.id in
    let kept = retain (in_state state) rows in
    (
      read_pages-decoded id (λ row. row) decode_message_row (λ c. list_messages rows c (suc limit))
            rows limit v.readable s
            (λ c cursor.
              rw (validate_page_ok c limit max_message_list_limit cursor (omega arith)) refl)
          ∙ ap ok (map-same rows),
      read_pages-decoded id (λ row. row) decode_message_row
            (λ c. list_messages_by_triage_state rows state c (suc limit)) kept limit
            (All-retain (λ row. decode_message_row row ≡ ok row) (in_state state) rows v.readable)
            (Ascending-retain id (in_state state) 0 rows s)
            (λ c cursor.
              rw (validate_page_ok c limit max_message_list_limit cursor (omega arith)) refl)
          ∙ ap ok (map-same kept),
    )
