-- ===== src/Store/Messages/Update.antt =====
-- src/pa/store.rs: `transition_message`.
use agent_voice.Common.{ℕ, ◌==◌, if◌then◌else◌, Bool, true, false, not, ◌&&◌, List, codes}
use agent_voice.Common.Equal.{eqb}
use agent_voice.Common.Results.{ok, err, guard, ok_or, ◌>>=◌, ◌>>◌}
use agent_voice.Common.Text.{Text}
use agent_voice.Store.Errors.{StoreError, StoreResult, not_found, conflict}
use agent_voice.Store.Instants.{OffsetDateTime, format_message_updated_timestamp}
use agent_voice.Store.Names.{MessageProvider, voice, outlook, gmail, MessageTriageState}
use agent_voice.Store.Table.{find, update, count}
use agent_voice.Store.Texts.{validate_message_identifier}
use agent_voice.Store.Messages.{
  MessageTriageState-discrete, StoredMessage, by_source, decode_message_row, message_invalid,
  message_text, valid_message_transition,
}

abbrev pub is_voice : MessageProvider → Bool
is_voice voice = true
is_voice outlook = false
is_voice gmail = false

abbrev pub in_state : MessageTriageState → StoredMessage → Bool
in_state state row = eqb MessageTriageState-discrete row.triage_state state

-- `provider IN ('outlook', 'gmail') AND triage_state = ?4`
abbrev pub is_triaged_as : MessageTriageState → StoredMessage → Bool
is_triaged_as state row = not (is_voice row.provider) && in_state state row

unfoldable pub with_triage_state : MessageTriageState → ℕ → StoredMessage → StoredMessage
with_triage_state state at row = record row { triage_state = state; updated_at = at }

abbrev pub transition_conflict : StoreError
transition_conflict = conflict (codes "message transition")

unfoldable pub update_message :
    List StoredMessage
    → Text
    → MessageTriageState
    → MessageTriageState
    → ℕ
    → StoreResult (StoredMessage × List StoredMessage)
update_message rows source expected next at = do
  let test = λ (row : StoredMessage). by_source source row && is_triaged_as expected row
  let rows' = update test (with_triage_state next at) rows
  guard (count test rows == 1) transition_conflict
  row ← ok_or (find (by_source source) rows') message_invalid
  stored ← decode_message_row row
  ok (stored, rows')

unfoldable pub transition_message :
    List StoredMessage
    → Text
    → MessageTriageState
    → MessageTriageState
    → OffsetDateTime
    → StoreResult (StoredMessage × List StoredMessage)
transition_message rows source_id expected next updated_at = do
  source ← validate_message_identifier source_id (codes "source_id")
  at ← format_message_updated_timestamp updated_at
  guard (valid_message_transition expected next) transition_conflict
  row ← ok_or (find (by_source source) rows) (not_found message_text)
  current ← decode_message_row row
  guard (not (is_voice current.provider)) transition_conflict
  (if in_state next current && (current.updated_at == at)
      then ok (current, rows)
      else if not (in_state expected current)
      then err transition_conflict
      else update_message rows source expected next at)
