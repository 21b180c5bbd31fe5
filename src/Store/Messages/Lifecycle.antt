-- ===== src/Store/Messages/Lifecycle.antt =====
-- src/pa/store.rs: `transition_message`, and what it may change.
use agent_voice.Common.{ℕ, ◌≡◌, refl, inl, inr, Bool, true, false, not, ◌&&◌, Bool-cases, List, All}
use agent_voice.Common.Equal.{eqb→eq}
use agent_voice.Common.Results.{ok, bind_ok}
use agent_voice.Common.Text.{Text}
use agent_voice.Store.Names.{
  MessageProvider, voice, outlook, gmail, MessageTriageState, recorded, unprocessed, actionable,
  ambiguous, ignored, triaged,
}
use agent_voice.Store.Messages.{
  StoredMessage, MessageTriageState-discrete, message_fields, decode_message_row,
  valid_message_state, valid_message_transition, by_source,
}
use agent_voice.Store.Messages.Update.{is_voice, in_state, is_triaged_as, with_triage_state}
use agent_voice.Store.Table.{update, updated_row, All-updated, Unique, Unique-map}

-- The reader gives each row back, and no two rows have the same source.
pub record IsValid (rows : List StoredMessage) : Type 0 where
  pub readable : All (λ row. decode_message_row row ≡ ok row) rows
  pub sources : Unique (λ row. row.source_id) rows

not_recorded :
    (provider : MessageProvider) (expected next : MessageTriageState)
    → is_voice provider ≡ false
    → valid_message_transition expected next ≡ true
    → valid_message_state provider next ≡ true
unfolding valid_message_state valid_message_transition
not_recorded voice expected next h g = cc
not_recorded outlook expected actionable h g = refl
not_recorded outlook expected ambiguous h g = refl
not_recorded outlook expected ignored h g = refl
not_recorded outlook expected triaged h g = refl
not_recorded outlook expected unprocessed h g = refl
not_recorded outlook unprocessed recorded h g = cc
not_recorded outlook actionable recorded h g = cc
not_recorded outlook recorded recorded h g = cc
not_recorded outlook ambiguous recorded h g = cc
not_recorded outlook ignored recorded h g = cc
not_recorded outlook triaged recorded h g = cc
not_recorded gmail expected actionable h g = refl
not_recorded gmail expected ambiguous h g = refl
not_recorded gmail expected ignored h g = refl
not_recorded gmail expected triaged h g = refl
not_recorded gmail expected unprocessed h g = refl
not_recorded gmail unprocessed recorded h g = cc
not_recorded gmail actionable recorded h g = cc
not_recorded gmail recorded recorded h g = cc
not_recorded gmail ambiguous recorded h g = cc
not_recorded gmail ignored recorded h g = cc
not_recorded gmail triaged recorded h g = cc

pub triaged-parts :
    (expected : MessageTriageState) (row : StoredMessage)
    → is_triaged_as expected row ≡ true
    → (is_voice row.provider ≡ false) × (row.triage_state ≡ expected)
triaged-parts expected row h =
    let (a, b) = split_and (not (is_voice row.provider)) (in_state expected row) h in
    (
      not_true (is_voice row.provider) a,
      eqb→eq MessageTriageState-discrete row.triage_state expected b,
    )
  where
    split_and : (a b : Bool) → (a && b) ≡ true → (a ≡ true) × (b ≡ true)
    split_and true b h = (refl, h)
    split_and false b h = cc

    not_true : (a : Bool) → not a ≡ true → a ≡ false
    not_true true h = cc
    not_true false h = refl

decode-with_triage_state :
    (next : MessageTriageState) (at : ℕ) (row : StoredMessage)
    → valid_message_state row.provider next ≡ true
    → decode_message_row row ≡ ok row
    → decode_message_row (with_triage_state next at row) ≡ ok (with_triage_state next at row)
unfolding decode_message_row message_fields with_triage_state
decode-with_triage_state next at row fits run =
    let (_, (fields, _)) = bind_ok (message_fields row) _ run in rw (fields, fits) refl

-- The condition of the update in `transition_message`.
abbrev pub test : Text → MessageTriageState → StoredMessage → Bool
test source expected row = by_source source row && is_triaged_as expected row

module _ (source : Text) (expected next : MessageTriageState) (at : ℕ)
    (allowed : valid_message_transition expected next ≡ true) where
  pub test-parts :
      (row : StoredMessage) → test source expected row ≡ true → is_triaged_as expected row ≡ true
  test-parts row h = elim (Bool-cases (by_source source row)) [
    | inl e ↦ rw e at h
    | inr e ↦ cc (rw e at h)
  ]

  pub source_kept :
      (row : StoredMessage)
      → (updated_row (test source expected) (with_triage_state next at) row).source_id
        ≡ row.source_id
  unfolding with_triage_state
  source_kept row = elim (Bool-cases (test source expected row)) [
    | inl e ↦ rw e refl
    | inr e ↦ rw e refl
  ]

  pub id_kept :
      (row : StoredMessage)
      → (updated_row (test source expected) (with_triage_state next at) row).id ≡ row.id
  unfolding with_triage_state
  id_kept row = elim (Bool-cases (test source expected row)) [
    | inl e ↦ rw e refl
    | inr e ↦ rw e refl
  ]

  -- A transition that is allowed leaves the messages valid.
  pub update-IsValid :
      (rows : List StoredMessage)
      → IsValid rows
      → IsValid (update (test source expected) (with_triage_state next at) rows)
  update-IsValid rows v = record {
    readable =
        All-updated (λ row. decode_message_row row ≡ ok row) (test source expected)
          (with_triage_state next at) rows
          (λ row h run.
            let (outside, _) = triaged-parts expected row (test-parts row h) in
            decode-with_triage_state next at row
              (not_recorded row.provider expected next outside allowed) run)
          v.readable;
    sources =
        Unique-map (λ row. row.source_id)
          (updated_row (test source expected) (with_triage_state next at)) rows source_kept
          v.sources;
  }
