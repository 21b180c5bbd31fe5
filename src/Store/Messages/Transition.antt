-- ===== src/Store/Messages/Transition.antt =====
-- src/pa/store.rs: the results of `transition_message`.
use agent_voice.Common.{
  ℕ, ◌≡◌, ◌≢◌, refl, sym, ap, ◌∙◌, ◌⊎◌, inl, inr, true, false, not, ◌&&◌, ◌==◌, if◌then◌else◌,
  Bool-cases, some, List, codes,
}
use mathlib.Core.Option
use mathlib.Core.Path.{subst}
use agent_voice.Common.Results.{ok, err, guard, ok_or, bind_ok, guard_ok, ok-injective}
use agent_voice.Common.Text.{Text}
use agent_voice.Store.Errors.{not_found, invalid_input}
use agent_voice.Store.Instants.{
  OffsetDateTime, is_utc, nanosecond, format_message_updated_timestamp,
}
use agent_voice.Store.Names.{
  MessageProvider, voice, MessageTriageState, recorded, unprocessed, actionable, ambiguous, ignored,
  triaged,
}
use agent_voice.Store.Messages.{
  StoredMessage, message_text, message_invalid, decode_message_row, valid_message_transition,
  by_source, by_id,
}
use agent_voice.Store.Messages.Update.{
  is_voice, in_state, with_triage_state, transition_conflict, update_message, transition_message,
}
use agent_voice.Store.Messages.Lifecycle.{
  IsValid, test, update-IsValid, id_kept, triaged-parts, test-parts,
}
use agent_voice.Store.Table.{find, update, updated_row, count, find-map}
use agent_voice.Store.Texts.{validate_message_identifier}

-- The last lines of `transition_message`, with the row that was read.
branch :
    (rows : List StoredMessage) (source : Text) (expected next : MessageTriageState) (at : ℕ)
    (current : StoredMessage) (result : StoredMessage × List StoredMessage)
    → (if in_state next current && (current.updated_at == at)
        then ok (current, rows)
        else if not (in_state expected current)
        then err transition_conflict
        else update_message rows source expected next at)
      ≡ ok result
    → (result.1 ≡ rows)
      ⊎ (result.1 ≡ update (test source expected) (with_triage_state next at) rows)
unfolding update_message
branch rows source expected next at current result run =
    elim (Bool-cases (in_state next current && (current.updated_at == at))) [
      | inl e ↦ inl (sym (ap (λ p. p.1) (ok-injective (rw e at run))))
      | inr e ↦ elim (Bool-cases (in_state expected current)) [
        | inr f ↦ cc (rw (e, f) at run)
        | inl f ↦
            let rest = rw (e, f) at run in
            let rows' = update (test source expected) (with_triage_state next at) rows in
            let (_, (_, rest)) =
              bind_ok (guard (count (test source expected) rows == 1) transition_conflict) _ rest in
            let (row, (_, rest)) =
              bind_ok (ok_or (find (by_source source) rows') message_invalid) _ rest in
            let (stored, (_, last)) = bind_ok (decode_message_row row) _ rest in
            inr (sym (ap (λ p. p.1) (ok-injective last)))
      ]
    ]

-- The time that is written is the time of the call.
format-instant :
    (at : OffsetDateTime) (instant : ℕ)
    → format_message_updated_timestamp at ≡ ok instant
    → instant ≡ at.instant
unfolding format_message_updated_timestamp
format-instant at instant run =
    let (_, (_, rest)) = bind_ok (guard (is_utc at) (invalid_input (codes "updated_at"))) _ run in
    let (_, (_, last)) =
      bind_ok (guard (nanosecond at.instant == 0) (invalid_input (codes "updated_at"))) _ rest in
    sym (ok-injective last)

-- A transition that succeeds leaves the table as it is or makes an allowed change.
transition_message-cases :
    (rows : List StoredMessage) (source_id : Text) (expected next : MessageTriageState)
    (updated_at : OffsetDateTime) (out : StoredMessage) (final : List StoredMessage)
    → transition_message rows source_id expected next updated_at ≡ ok (out, final)
    → (final ≡ rows)
      ⊎ ((source : Text) × ((valid_message_transition expected next ≡ true)
            × (final
                ≡ update (test source expected) (with_triage_state next updated_at.instant) rows)))
unfolding transition_message
transition_message-cases rows source_id expected next updated_at out final run =
    let (source, (_, run)) =
      bind_ok (validate_message_identifier source_id (codes "source_id")) _ run in
    let (at, (timed, run)) = bind_ok (format_message_updated_timestamp updated_at) _ run in
    let (_, (allowed, run)) =
      bind_ok (guard (valid_message_transition expected next) transition_conflict) _ run in
    let (row, (_, run)) =
      bind_ok (ok_or (find (by_source source) rows) (not_found message_text)) _ run in
    let (current, (_, run)) = bind_ok (decode_message_row row) _ run in
    let (_, (_, run)) =
      bind_ok (guard (not (is_voice current.provider)) transition_conflict) _ run in
    elim (branch rows source expected next at current (out, final) run) [
      | inl same ↦ inl same
      | inr made ↦ inr (
        source,
        (
          guard_ok _ _ allowed,
          made
              ∙ ap (λ t. update (test source expected) (with_triage_state next t) rows)
                  (format-instant updated_at at timed),
        ),
      )
    ]

pub transition_message-IsValid :
    (rows : List StoredMessage) (source_id : Text) (expected next : MessageTriageState)
    (updated_at : OffsetDateTime) (out : StoredMessage) (final : List StoredMessage)
    → IsValid rows
    → transition_message rows source_id expected next updated_at ≡ ok (out, final)
    → IsValid final
transition_message-IsValid rows source_id expected next updated_at out final v run =
    elim (transition_message-cases rows source_id expected next updated_at out final run) [
      | inl same ↦ subst IsValid (sym same) v
      | inr (source, (allowed, made)) ↦
          subst IsValid (sym made)
            (update-IsValid source expected next updated_at.instant allowed rows v)
    ]

-- A row after an allowed change.
updated-moves :
    (source : Text) (expected next : MessageTriageState) (at : ℕ) (row : StoredMessage)
    → valid_message_transition expected next ≡ true
    → (updated_row (test source expected) (with_triage_state next at) row ≡ row)
      ⊎ ((updated_row (test source expected) (with_triage_state next at) row
            ≡ with_triage_state next at row)
          × ((is_voice row.provider ≡ false)
              × (valid_message_transition row.triage_state next ≡ true)))
updated-moves source expected next at row allowed = elim (Bool-cases (test source expected row)) [
  | inr e ↦ inl (rw e refl)
  | inl e ↦
      let (outside, same) =
        triaged-parts expected row (test-parts source expected next at allowed row e) in
      inr (rw e refl, (outside, ap (λ s. valid_message_transition s next) same ∙ allowed))
]

-- The row of an id after a transition that succeeds, by the tests of the code.
pub row-transition_message :
    (rows : List StoredMessage) (source_id : Text) (expected next : MessageTriageState)
    (updated_at : OffsetDateTime) (out : StoredMessage) (final : List StoredMessage) (id : ℕ)
    (row : StoredMessage)
    → transition_message rows source_id expected next updated_at ≡ ok (out, final)
    → find (by_id id) rows ≡ some row
    → (find (by_id id) final ≡ some row)
      ⊎ ((find (by_id id) final ≡ some (with_triage_state next updated_at.instant row))
          × ((is_voice row.provider ≡ false)
              × (valid_message_transition row.triage_state next ≡ true)))
row-transition_message rows source_id expected next updated_at out final id row run found =
    elim (transition_message-cases rows source_id expected next updated_at out final run) [
      | inl same ↦
          inl (subst (λ (d : List StoredMessage). find (by_id id) d ≡ some row) (sym same) found)
      | inr (source, (allowed, made)) ↦
          let at = updated_at.instant in
          let f = updated_row (test source expected) (with_triage_state next at) in
          let seen = λ (r : StoredMessage).
            ap (λ (i : ℕ). i == id) (id_kept source expected next at allowed r) in
          let there : find (by_id id) final ≡ some (f row) =
            ap (find (by_id id)) made
            ∙ (find-map (by_id id) f rows seen ∙ ap (Option.map f) found) in
          elim (updated-moves source expected next at row allowed) [
            | inl same ↦ inl (there ∙ ap some same)
            | inr (same, moved) ↦ inr (there ∙ ap some same, moved)
          ]
    ]

-- The triage graph: an email is found actionable, ambiguous or to be ignored, and an actionable one
-- becomes triaged.
pub data IsTriageMove : MessageTriageState → MessageTriageState → Type 0 where
  work : IsTriageMove unprocessed actionable
  doubt : IsTriageMove unprocessed ambiguous
  noise : IsTriageMove unprocessed ignored
  done : IsTriageMove actionable triaged

move-of_allowed :
    (state next : MessageTriageState)
    → valid_message_transition state next ≡ true
    → IsTriageMove state next
unfolding valid_message_transition
move-of_allowed unprocessed actionable h = work
move-of_allowed unprocessed ambiguous h = doubt
move-of_allowed unprocessed ignored h = noise
move-of_allowed actionable triaged h = done
move-of_allowed unprocessed unprocessed h = cc
move-of_allowed unprocessed recorded h = cc
move-of_allowed unprocessed triaged h = cc
move-of_allowed actionable unprocessed h = cc
move-of_allowed actionable recorded h = cc
move-of_allowed actionable actionable h = cc
move-of_allowed actionable ambiguous h = cc
move-of_allowed actionable ignored h = cc
move-of_allowed recorded next h = cc
move-of_allowed ambiguous next h = cc
move-of_allowed ignored next h = cc
move-of_allowed triaged next h = cc

not_voice : (provider : MessageProvider) → is_voice provider ≡ false → provider ≢ voice
not_voice provider h same = cc (sym (ap is_voice same) ∙ h)

-- The row in another state, updated at a time, and else as it was.
abbrev pub retriaged_row : MessageTriageState → ℕ → StoredMessage → StoredMessage
retriaged_row next at row = record row { triage_state = next; updated_at = at }

-- A transition moves messages along the triage graph only: whatever row has an id, after a
-- transition that succeeds the id has the same row, or that row with the new state and the time of
-- the call, and else as it was, where it is no voice message and an edge of the graph leads from its
-- own state to the new one.
pub transition_message_moves :
    (rows : List StoredMessage) (source_id : Text) (expected next : MessageTriageState)
    (updated_at : OffsetDateTime) (out : StoredMessage) (final : List StoredMessage) (id : ℕ)
    (row : StoredMessage)
    → transition_message rows source_id expected next updated_at ≡ ok (out, final)
    → find (by_id id) rows ≡ some row
    → (find (by_id id) final ≡ some row)
      ⊎ ((find (by_id id) final ≡ some (retriaged_row next updated_at.instant row))
          × ((row.provider ≢ voice) × IsTriageMove row.triage_state next))
unfolding with_triage_state
transition_message_moves rows source_id expected next updated_at out final id row run found =
    elim (row-transition_message rows source_id expected next updated_at out final id row run
      found) [
        | inl same ↦ inl same
        | inr (there, (outside, allowed)) ↦
            inr (
              there,
              (not_voice row.provider outside, move-of_allowed row.triage_state next allowed),
            )
      ]
