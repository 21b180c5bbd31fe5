-- ===== src/Store/Messages/Recorded.antt =====
-- src/pa/store.rs: the results of `record_message`.
use agent_voice.Common.{
  ℕ, ◌≡◌, refl, sym, ap, ◌∙◌, ◌⊎◌, inl, inr, Bool, true, false, ◌||◌, Bool-cases, Option-cases,
  Option, none, List, [], ◌∷◌, ◌++◌, All-append, retain, codes,
}
use mathlib.Core.Path.{subst}
use agent_voice.Common.Results.{ok, guard, ok_or, bind_ok, ok-injective}
use agent_voice.Common.Text.{Text}
use agent_voice.Store.Instants.{OffsetDateTime, format_message_timestamp}
use agent_voice.Store.Names.{MessageProvider}
use agent_voice.Store.Messages.{
  StoredMessage, message_invalid, message_fields, decode_message_row, valid_message_state,
  by_source, by_key,
}
use agent_voice.Store.Messages.Insert.{has_identity, exact_retry, insert_message, record_message}
use agent_voice.Store.Messages.Lifecycle.{IsValid}
use agent_voice.Store.Table.{find, Unique-append}
use agent_voice.Store.Texts.{
  validate_message_identifier, validate_message_summary, validate_message_subject,
  validate_message_sender,
}

-- The reader gives its row back.
pub decode-same : (row stored : StoredMessage) → decode_message_row row ≡ ok stored → row ≡ stored
unfolding decode_message_row
decode-same row stored run =
    let (_, (_, run)) = bind_ok (message_fields row) _ run in
    let (_, (_, last)) =
      bind_ok (guard (valid_message_state row.provider row.triage_state) message_invalid) _ run in
    ok-injective last

-- No row of the same source stands among those with no identity in common.
source-absent :
    (new : StoredMessage) (rows : List StoredMessage)
    → find (has_identity new) rows ≡ none
    → find (by_source new.source_id) rows ≡ none
unfolding find
source-absent new [] h = refl
source-absent new (x ∷ rows) h = elim (Bool-cases (has_identity new x)) [
  | inl e ↦ cc (rw e at h)
  | inr e ↦
      let apart = neither (by_key new.idempotency_key x) (by_source new.source_id x) _ e in
      rw apart (source-absent new rows (rw e at h))
]
  where
    neither : (a b c : Bool) → (a || (b || c)) ≡ false → b ≡ false
    neither true b c h = cc
    neither false true c h = cc
    neither false false c h = refl

abbrev IsFresh : List StoredMessage → StoredMessage → StoredMessage → List StoredMessage → Type 0
IsFresh rows new stored final =
    (find (has_identity new) rows ≡ none)
    × ((new ≡ stored) × ((decode_message_row new ≡ ok new) × (final ≡ rows ++ (new ∷ []))))

-- The two ways in which an insertion succeeds.
pub insert_message-cases :
    (rows : List StoredMessage) (new stored : StoredMessage) (final : List StoredMessage)
    → insert_message rows new ≡ ok (stored, final)
    → IsFresh rows new stored final ⊎ (final ≡ rows)
unfolding insert_message
insert_message-cases rows new stored final run =
    elim (Option-cases (find (has_identity new) rows)) [
      | inl absent ↦
          let (made, (read, last)) =
            bind_ok (decode_message_row new) _ (rw (absent, insert_message) at run) in
          let pair = ok-injective last in
          let own = decode-same new made read in
          inl
            (absent, (own ∙ ap (λ p. p.0) pair, (read ∙ ap ok (sym own), sym (ap (λ p. p.1) pair))))
      | inr (row, found) ↦
          let (retried, (_, last)) =
            bind_ok (exact_retry new none (retain (has_identity new) rows)) _
              (rw (found, insert_message) at run) in
          let (made, (_, last)) = bind_ok (ok_or retried message_invalid) _ last in
          inr (sym (ap (λ p. p.1) (ok-injective last)))
    ]

pub append-IsValid :
    (rows : List StoredMessage) (new : StoredMessage)
    → IsValid rows
    → find (has_identity new) rows ≡ none
    → decode_message_row new ≡ ok new
    → IsValid (rows ++ (new ∷ []))
append-IsValid rows new v absent run = record {
  readable =
      All-append (λ row. decode_message_row row ≡ ok row) rows (new ∷ []) v.readable (run, tt);
  sources = Unique-append (λ row. row.source_id) rows new (source-absent new rows absent) v.sources;
}

-- What a call that succeeds would insert.
pub record-parts :
    (rows : List StoredMessage) (clock : ℕ) (key source : Text) (provider : MessageProvider)
    (message_id summary : Text) (subject sender : Option Text) (received_at : OffsetDateTime)
    (result : StoredMessage × List StoredMessage)
    → record_message rows clock key source provider message_id summary subject sender received_at
      ≡ ok result
    → (new : StoredMessage) × (insert_message rows new ≡ ok result)
unfolding record_message
record-parts rows clock key source provider message_id summary subject sender received_at result
      run =
    let (_, (_, run)) = bind_ok (validate_message_identifier key (codes "idempotency_key")) _ run in
    let (_, (_, run)) = bind_ok (validate_message_identifier source (codes "source_id")) _ run in
    let (_, (_, run)) =
      bind_ok (validate_message_identifier message_id (codes "provider_message_id")) _ run in
    let (_, (_, run)) = bind_ok (validate_message_summary summary) _ run in
    let (_, (_, run)) = bind_ok (validate_message_subject subject) _ run in
    let (_, (_, run)) = bind_ok (validate_message_sender sender) _ run in
    let (_, (_, run)) = bind_ok (format_message_timestamp received_at) _ run in (_, run)

pub record_message-IsValid :
    (rows : List StoredMessage) (clock : ℕ) (key source : Text) (provider : MessageProvider)
    (message_id summary : Text) (subject sender : Option Text) (received_at : OffsetDateTime)
    (stored : StoredMessage) (final : List StoredMessage)
    → IsValid rows
    → record_message rows clock key source provider message_id summary subject sender received_at
      ≡ ok (stored, final)
    → IsValid final
record_message-IsValid rows clock key source provider message_id summary subject sender received_at
      stored final v run =
    let (new, inserted) =
      record-parts rows clock key source provider message_id summary subject sender received_at
        (stored, final) run in
    elim (insert_message-cases rows new stored final inserted) [
      | inl (absent, (_, (read, made))) ↦
          subst IsValid (sym made) (append-IsValid rows new v absent read)
      | inr same ↦ subst IsValid (sym same) v
    ]
