-- ===== src/Store/Messages/Succeeds.antt =====
-- src/pa/store.rs: where `transition_message` succeeds.
use agent_voice.Common.{
  ℕ, ◌≡◌, refl, sym, ap, ◌∙◌, inl, inr, true, false, Bool-cases, some, List, bytes_eq, codes,
}
use mathlib.Core.Option
use mathlib.Core.Path.{subst}
use agent_voice.Common.Equal.{eqb, eqb→eq, eqb_refl}
use agent_voice.Common.Results.{ok}
use agent_voice.Common.Text.{Text}
use agent_voice.Store.Instants.{OffsetDateTime, format_message_updated_timestamp}
use agent_voice.Store.Names.{
  MessageTriageState, recorded, unprocessed, actionable, ambiguous, ignored, triaged,
}
use agent_voice.Store.Messages.{
  StoredMessage, MessageTriageState-discrete, decode_message_row, valid_message_transition,
  by_source,
}
use agent_voice.Store.Messages.Update.{
  is_voice, in_state, is_triaged_as, with_triage_state, update_message, transition_message,
}
use agent_voice.Store.Messages.Lifecycle.{IsValid, test, update-IsValid, source_kept}
use agent_voice.Store.Table.{find, find_passes, update, updated_row, find-map, find-All, count-one}
use agent_voice.Store.Texts.{validate_message_identifier}

stays_apart : (state : MessageTriageState) → valid_message_transition state state ≡ false
unfolding valid_message_transition
stays_apart recorded = refl
stays_apart unprocessed = refl
stays_apart actionable = refl
stays_apart ambiguous = refl
stays_apart ignored = refl
stays_apart triaged = refl

in_expected :
    (row : StoredMessage) (state : MessageTriageState)
    → row.triage_state ≡ state
    → in_state state row ≡ true
in_expected row state h =
    ap (λ s. eqb MessageTriageState-discrete s state) h ∙ eqb_refl MessageTriageState-discrete state

not_next :
    (row : StoredMessage) (expected next : MessageTriageState)
    → row.triage_state ≡ expected
    → valid_message_transition expected next ≡ true
    → in_state next row ≡ false
not_next row expected next h allowed = elim (Bool-cases (in_state next row)) [
  | inr e ↦ e
  | inl e ↦
      let same : expected ≡ next =
        sym h ∙ eqb→eq MessageTriageState-discrete row.triage_state next e in
      cc (
        sym
          (subst (λ (s : MessageTriageState). valid_message_transition s next ≡ true) same allowed)
        ∙ stays_apart next)
]

changed :
    (source : Text) (expected next : MessageTriageState) (at : ℕ) (row : StoredMessage)
    → test source expected row ≡ true
    → updated_row (test source expected) (with_triage_state next at) row
      ≡ with_triage_state next at row
changed source expected next at row h = rw h refl

-- On valid messages a transition of an email from the expected state, along the triage graph and at
-- a UTC time of whole seconds, succeeds: it returns the row in its new state, which is then the row
-- of its source, and the messages stay valid.
pub transition_message_ok :
    (rows : List StoredMessage) (source : Text) (expected next : MessageTriageState)
    (updated_at : OffsetDateTime) (row : StoredMessage)
    → IsValid rows
    → find (by_source source) rows ≡ some row
    → validate_message_identifier source (codes "source_id") ≡ ok source
    → format_message_updated_timestamp updated_at ≡ ok updated_at.instant
    → valid_message_transition expected next ≡ true
    → is_voice row.provider ≡ false
    → row.triage_state ≡ expected
    → (final : List StoredMessage) × (transition_message rows source expected next updated_at
        ≡ ok (with_triage_state next updated_at.instant row, final))
      × (find (by_source source) final ≡ some (with_triage_state next updated_at.instant row))
      × IsValid final
unfolding transition_message update_message
transition_message_ok rows source expected next updated_at row v found named timed allowed outside
      state =
    let at = updated_at.instant in
    let final = update (test source expected) (with_triage_state next at) rows in
    let valid = update-IsValid source expected next at allowed rows v in
    let read =
      find-All (λ r. decode_message_row r ≡ ok r) (by_source source) row rows v.readable found in
    let expected_state = in_expected row expected state in
    let eligible : is_triaged_as expected row ≡ true = rw (outside, expected_state) refl in
    let one =
      count-one (λ r. r.source_id) source (is_triaged_as expected) rows row v.sources found
        eligible in
    let here : test source expected row ≡ true =
      rw (find_passes (by_source source) row rows found, outside, expected_state) refl in
    let seen = λ (r : StoredMessage).
      ap (λ s. bytes_eq s source) (source_kept source expected next at allowed r) in
    let there : find (by_source source) final ≡ some (with_triage_state next at row) =
      find-map (by_source source) (updated_row (test source expected) (with_triage_state next at))
        rows seen
      ∙ (ap (Option.map (updated_row (test source expected) (with_triage_state next at))) found
          ∙ ap some (changed source expected next at row here)) in
    let reread =
      find-All (λ r. decode_message_row r ≡ ok r) (by_source source) (with_triage_state next at row)
        final valid.readable there in
    (
      final,
      rw
          (
            named,
            timed,
            allowed,
            found,
            read,
            outside,
            not_next row expected next state allowed,
            expected_state,
            one,
            there,
            reread,
          )
          refl,
      there,
      valid,
    )
