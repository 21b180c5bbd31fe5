-- ===== src/Store/Runs.antt =====
-- Runs of the other tables of pa/store.rs.
use agent_voice.Common.{
  ◌≡◌, ◌≢◌, ◌↔◌, refl, none, some, List, [], ◌∷◌, codes, arith, true, false, bytes_eq,
}
use agent_voice.Common.Assoc.{lookup, put}
use agent_voice.Common.Int.{ℤ, pos, ◌+ℤ◌}
use agent_voice.Store.Replay.{
  check_and_record, consume_replay_nonce, replay_timestamps, insert_nonce,
}
use agent_voice.Common.Results.{ok, err}
use agent_voice.Common.Text.{Text, trim}
use agent_voice.Domain.Kinds.{callback}
use agent_voice.Store.Errors.{cursor_conflict}
use agent_voice.Store.Instants.{OffsetDateTime}
use agent_voice.Store.Names.{
  gmail, triaged, no_slot, message_recorded, message, declined, sent, provider_from_storage,
  provider_name, triage_from_storage, triage_name, task_state_from_storage, task_state_name,
  event_from_storage, event_name, entity_from_storage, entity_name, parse_notification_kind,
  kind_name, parse_notification_status, status_name,
}
use agent_voice.Store.Names.Storage.{stored_names_iff}
use agent_voice.Store.Templates.{TemplateData, new_template_data, deserialize_template}
use agent_voice.Store.Templates.Stored.{deserialize_template-new_template_data}
use agent_voice.Store.Texts.{
  len, validate_replay_nonce, validate_provider_stream_identifier,
  validate_provider_cursor_identifier,
}
use agent_voice.Store.Replay.Agrees.{store_answers, memory_answers, store_answers-eq-memory_answers}
use agent_voice.Auth.Guard
use agent_voice.Store.Cursor.{
  Cursors, provider_cursor, load_provider_cursor, replace_cursor, advance_provider_cursor,
}
use agent_voice.Store.Cursor.Laws.{advance_provider_cursor_exclusive}

abbrev start : OffsetDateTime
start = record { instant = 3_000_000_000; offset = pos 0 }

abbrev end : OffsetDateTime
end = record { instant = 5_000_000_000; offset = pos 0 }

abbrev call_template : TemplateData
call_template = record {
  title = some (codes "Call back");
  starts_at = some 3_000_000_000;
  ends_at = some 5_000_000_000;
  timezone = none;
  appointment_kind = some callback;
  proposal_state = none;
}

new_template_run :
    new_template_data (some (codes " Call back ")) (some start) (some end) none (some callback) none
    ≡ ok call_template
unfolding new_template_data trim
new_template_run = refl

deserialize_template-new_template_data_example :
    deserialize_template call_template ≡ ok call_template
deserialize_template-new_template_data_example =
    deserialize_template-new_template_data (some (codes " Call back ")) (some start) (some end) none
      (some callback) none call_template new_template_run

abbrev nonce : Text
nonce = codes "0123456789abcdef"

abbrev checks : List (Text × ℤ)
checks = (nonce, pos 100) ∷ (nonce, pos 399) ∷ (nonce, pos 400) ∷ []

nonce-valid : validate_replay_nonce nonce ≡ ok tt
unfolding validate_replay_nonce len
nonce-valid = refl

answers_run : store_answers [] checks ≡ true ∷ false ∷ true ∷ []
unfolding store_answers check_and_record consume_replay_nonce validate_replay_nonce len
    replay_timestamps ◌+ℤ◌ insert_nonce bytes_eq
answers_run = refl

store_answers-eq-memory_answers_example :
    store_answers [] checks ≡ memory_answers (Guard.new 8) checks
unfolding ◌+ℤ◌
store_answers-eq-memory_answers_example =
    store_answers-eq-memory_answers 8 checks (omega arith)
      ((nonce-valid, refl), ((nonce-valid, refl), ((nonce-valid, refl), tt)))

abbrev gmail_stream : Text
gmail_stream = codes "gmail:inbox"

abbrev outlook_stream : Text
outlook_stream = codes "outlook:inbox"

abbrev streams : Cursors
streams = (gmail_stream, some (codes "10")) ∷ []

abbrev moved_streams : Cursors
moved_streams = put outlook_stream (some (codes "11")) streams

advance_run : advance_provider_cursor streams outlook_stream none (codes "11") ≡ ok moved_streams
unfolding advance_provider_cursor replace_cursor validate_provider_stream_identifier len
    validate_provider_cursor_identifier lookup bytes_eq trim
advance_run = refl

differs : bytes_eq outlook_stream gmail_stream ≡ false
unfolding bytes_eq
differs = refl

apart : none ≢ some (codes "11")
apart = λ h. cc

late-valid : validate_provider_cursor_identifier (codes "12") (codes "next") ≡ ok (codes "12")
unfolding validate_provider_cursor_identifier len trim
late-valid = refl

advance_provider_cursor_exclusive_example :
    (load_provider_cursor moved_streams outlook_stream ≡ ok (some (codes "11")))
    × (advance_provider_cursor moved_streams outlook_stream none (codes "12")
        ≡ err (cursor_conflict provider_cursor))
advance_provider_cursor_exclusive_example =
    advance_provider_cursor_exclusive streams moved_streams outlook_stream none (codes "11")
      (codes "12") advance_run apart late-valid

stored_names_iff_example :
    ((provider_from_storage (codes "gmail") ≡ ok gmail) ↔ (codes "gmail" ≡ provider_name gmail))
    × ((triage_from_storage (codes "gmail") ≡ ok triaged) ↔ (codes "gmail" ≡ triage_name triaged))
    × ((task_state_from_storage (codes "gmail") ≡ ok no_slot)
        ↔ (codes "gmail" ≡ task_state_name no_slot))
    × ((event_from_storage (codes "gmail") ≡ ok message_recorded)
        ↔ (codes "gmail" ≡ event_name message_recorded))
    × ((entity_from_storage (codes "gmail") ≡ ok message) ↔ (codes "gmail" ≡ entity_name message))
    × ((parse_notification_kind (codes "gmail") ≡ ok declined)
        ↔ (codes "gmail" ≡ kind_name declined))
    × ((parse_notification_status (codes "gmail") ≡ ok sent) ↔ (codes "gmail" ≡ status_name sent))
stored_names_iff_example =
    stored_names_iff (codes "gmail") gmail triaged no_slot message_recorded message declined sent
