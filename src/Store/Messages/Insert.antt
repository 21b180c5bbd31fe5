-- ===== src/Store/Messages/Insert.antt =====
-- src/pa/store.rs: `record_message`.
use agent_voice.Common.{
  ℕ, suc, ltb, ◌==◌, if◌then◌else◌, Bool, true, false, ◌&&◌, ◌||◌, Option, none, some, List, [],
  ◌∷◌, ◌++◌, retain, bytes_eq, codes,
}
use agent_voice.Common.Equal.{eqb}
use agent_voice.Common.Results.{ok, guard, ok_or, ◌>>=◌, ◌>>◌}
use agent_voice.Common.Text.{Text}
use agent_voice.Store.Errors.{StoreResult, conflict}
use agent_voice.Store.Instants.{OffsetDateTime, format_message_timestamp}
use agent_voice.Store.Names.{MessageProvider}
use agent_voice.Store.Table.{find}
use agent_voice.Store.Texts.{
  validate_message_identifier, validate_message_summary, validate_message_subject,
  validate_message_sender,
}
use agent_voice.Store.Messages.{
  StoredMessage, by_key, by_provider_message, by_source, decode_message_row, initial_message_state,
  message_invalid, message_text, option_text_discrete, same_provider,
}

-- The rowid of a new row: one more than the greatest.
unfoldable pub next_message_id : List StoredMessage → ℕ
next_message_id [] = 1
next_message_id (row ∷ rows) =
    let rest = next_message_id rows in if ltb row.id rest then rest else suc row.id

-- A row that the constraints of the table or `query_message_rows_by_identity` set against a new one.
abbrev pub has_identity : StoredMessage → StoredMessage → Bool
has_identity new row =
    by_key new.idempotency_key row
    || (by_source new.source_id row || by_provider_message new.provider new.provider_message_id row)

unfoldable pub is_same_message : StoredMessage → StoredMessage → Bool
is_same_message stored new =
    bytes_eq stored.idempotency_key new.idempotency_key
    && (bytes_eq stored.source_id new.source_id
        && (same_provider new.provider stored
            && (bytes_eq stored.provider_message_id new.provider_message_id
                && (bytes_eq stored.summary new.summary
                    && (eqb option_text_discrete stored.subject new.subject
                        && (eqb option_text_discrete stored.sender new.sender
                            && (stored.received_at == new.received_at)))))))

abbrev pub is_none : Option StoredMessage → Bool
is_none none = true
is_none (some row) = false

-- The loop over the rows that share an identity with the new one.
unfoldable pub exact_retry :
    StoredMessage → Option StoredMessage → List StoredMessage → StoreResult (Option StoredMessage)
exact_retry new found [] = ok found
exact_retry new found (candidate ∷ candidates) = do
  stored ← decode_message_row candidate
  guard (is_same_message stored new) (conflict message_text)
  guard (is_none found) message_invalid
  exact_retry new (some stored) candidates

-- `INSERT … ON CONFLICT DO NOTHING`, and the retry when no row was inserted.
unfoldable pub insert_message :
    List StoredMessage → StoredMessage → StoreResult (StoredMessage × List StoredMessage)
insert_message rows new = elim (find (has_identity new) rows) [
  | none ↦ do stored ← decode_message_row new; ok (stored, rows ++ (new ∷ []))
  | some _ ↦ do
    found ← exact_retry new none (retain (has_identity new) rows)
    stored ← ok_or found message_invalid
    ok (stored, rows)
]

unfoldable pub record_message :
    List StoredMessage
    → ℕ
    → Text
    → Text
    → MessageProvider
    → Text
    → Text
    → Option Text
    → Option Text
    → OffsetDateTime
    → StoreResult (StoredMessage × List StoredMessage)
record_message rows clock idempotency_key source_id provider provider_message_id summary subject
      sender received_at =
    do
      key ← validate_message_identifier idempotency_key (codes "idempotency_key")
      source ← validate_message_identifier source_id (codes "source_id")
      message_id ← validate_message_identifier provider_message_id (codes "provider_message_id")
      summary ← validate_message_summary summary
      subject ← validate_message_subject subject
      sender ← validate_message_sender sender
      received ← format_message_timestamp received_at
      insert_message rows (record {
        id = next_message_id rows;
        idempotency_key = key;
        source_id = source;
        provider = provider;
        provider_message_id = message_id;
        summary = summary;
        subject = subject;
        sender = sender;
        received_at = received;
        triage_state = initial_message_state provider;
        created_at = clock;
        updated_at = clock;
      })
