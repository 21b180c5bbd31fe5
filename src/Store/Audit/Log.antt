-- ===== src/Store/Audit/Log.antt =====
-- src/pa/store.rs: the results of `append_audit_event`.
use agent_voice.Common.{
  ℕ, ◌≤◌, ◌≡◌, ◌≢◌, ◌⊎◌, bytes_eq, bytes_eq→eq, Option-cases, refl, sym, ap, ◌∙◌, inl, inr, ◌==◌,
  Bool, true, false, ◌&&◌, Bool-cases, none, some, List, [], ◌∷◌, ◌++◌, codes, length, arith,
}
use mathlib.Core.Path.{subst}
use agent_voice.Common.Equal.{eqb, eqb→eq}
use agent_voice.Common.Results.{ok, err, guard, bind_ok, ok-injective, some-injective}
use agent_voice.Common.Text.{Text}
use agent_voice.Store.Errors.{conflict, not_found, invalid_input}
use agent_voice.Store.Instants.{OffsetDateTime, nanosecond, format_audit_timestamp}
use agent_voice.Store.Names.{AuditEventType, AuditEntityType}
use agent_voice.Store.Table.{find, find-append_found}
use agent_voice.Store.Audit.{
  AuditEventStoredRow, StoredAuditEvent, AuditEventType-discrete, audit_event,
  validate_audit_entity_id, validate_audit_idempotency_key, decode_audit_event_row, by_key, next_id,
  is_same_event, insert_audit_event, append_audit_event, load_audit_event_by_idempotency_key,
}
use agent_voice.Store.Audit.Loads.{content-parts, find-other, load-other}
use agent_voice.Store.Audit.Appended.{
  IsValid, IsInserted, validate_key-same, validate_entity-same, insert_audit_event-IsInserted,
  inserted-IsValid,
}

-- The row that a call with a key and an entity would insert.
abbrev pub row_for :
    List AuditEventStoredRow
    → ℕ
    → Text
    → AuditEventType
    → AuditEntityType
    → Text
    → ℕ
    → AuditEventStoredRow
row_for rows clock key event_type entity_type entity at = record {
  id = next_id rows;
  idempotency_key = key;
  event_type = event_type;
  entity_type = entity_type;
  entity_id = entity;
  details = none;
  occurred_at = at;
  created_at = clock;
}

audit_time-same :
    (value : OffsetDateTime) (at : ℕ)
    → format_audit_timestamp value (codes "occurred_at") ≡ ok at
    → value.instant ≡ at
unfolding format_audit_timestamp
audit_time-same value at run =
    let (_, (_, last)) =
      bind_ok (guard (nanosecond value.instant == 0) (invalid_input (codes "occurred_at")))
        (λ _. ok value.instant) run in
    ok-injective last

append-IsInserted :
    (rows : List AuditEventStoredRow) (clock : ℕ) (key : Text) (event_type : AuditEventType)
    (entity_type : AuditEntityType) (entity : Text) (occurred_at : OffsetDateTime)
    (stored : StoredAuditEvent) (final : List AuditEventStoredRow)
    → append_audit_event rows clock key event_type entity_type entity occurred_at
      ≡ ok (stored, final)
    → (validate_audit_idempotency_key key ≡ ok key)
      × ((validate_audit_entity_id entity ≡ ok entity)
          × ((format_audit_timestamp occurred_at (codes "occurred_at") ≡ ok occurred_at.instant)
              × IsInserted rows
                  (row_for rows clock key event_type entity_type entity occurred_at.instant)
                  stored
                  final))
unfolding append_audit_event
append-IsInserted rows clock key event_type entity_type entity occurred_at stored final run =
    let (key', (named, run)) = bind_ok (validate_audit_idempotency_key key) _ run in
    let (entity', (valid, run)) = bind_ok (validate_audit_entity_id entity) _ run in
    let (at, (timed, run)) =
      bind_ok (format_audit_timestamp occurred_at (codes "occurred_at")) _ run in
    collect key' entity' at named valid timed (validate_key-same key key' named)
      (validate_entity-same entity entity' valid) (audit_time-same occurred_at at timed)
      (insert_audit_event-IsInserted rows
        (row_for rows clock key' event_type entity_type entity' at) stored final run)
  where
    collect :
        (key' entity' : Text) (at : ℕ)
        → validate_audit_idempotency_key key ≡ ok key'
        → validate_audit_entity_id entity ≡ ok entity'
        → format_audit_timestamp occurred_at (codes "occurred_at") ≡ ok at
        → key ≡ key'
        → entity ≡ entity'
        → occurred_at.instant ≡ at
        → IsInserted rows (row_for rows clock key' event_type entity_type entity' at) stored final
        → (validate_audit_idempotency_key key ≡ ok key)
          × ((validate_audit_entity_id entity ≡ ok entity)
              × ((format_audit_timestamp occurred_at (codes "occurred_at") ≡ ok occurred_at.instant)
                  × IsInserted rows
                      (row_for rows clock key event_type entity_type entity occurred_at.instant)
                      stored
                      final))
    collect key' entity' at named valid timed hk he ha done = (
      named ∙ ap ok (sym hk),
      (
        valid ∙ ap ok (sym he),
        (
          timed ∙ ap ok (sym ha),
          subst
              (λ (t : Text).
                IsInserted rows
                  (row_for rows clock t event_type entity_type entity occurred_at.instant) stored
                  final)
              (sym hk)
              (subst
                (λ (t : Text).
                  IsInserted rows
                    (row_for rows clock key' event_type entity_type t occurred_at.instant) stored
                    final)
                (sym he)
                (subst
                  (λ (t : ℕ).
                    IsInserted rows (row_for rows clock key' event_type entity_type entity' t)
                      stored final)
                  (sym ha) done)),
        ),
      ),
    )

-- The log after a call that succeeds: valid, as it was or one event longer at its end. The key of the
-- call loads the event that was returned, which is the one it loaded before or has a new key, and has
-- the content of the call; every other key loads what it loaded before, errors included.
pub record IsKept (rows : List AuditEventStoredRow) (key : Text) (event_type : AuditEventType)
    (entity_type : AuditEntityType) (entity : Text) (at : ℕ) (stored : StoredAuditEvent)
    (final : List AuditEventStoredRow) : Type 0 where
  pub valid : IsValid final
  pub grown : (new : List AuditEventStoredRow) × (final ≡ rows ++ new) × (length new ≤ 1)
  pub stored_now : load_audit_event_by_idempotency_key final key ≡ ok stored
  pub stored_before :
      (load_audit_event_by_idempotency_key rows key ≡ ok stored)
      ⊎ (load_audit_event_by_idempotency_key rows key ≡ err (not_found audit_event))
  pub others :
      (other : Text)
      → key ≢ other
      → load_audit_event_by_idempotency_key final other
        ≡ load_audit_event_by_idempotency_key rows other
  pub content :
      (stored.event_type ≡ event_type)
      × (stored.entity_type ≡ entity_type)
      × (stored.entity_id ≡ entity)
      × (stored.occurred_at ≡ at)

-- The events of a log are for good: on a valid log a call that succeeds leaves the log valid, as it
-- was or one event longer at its end; the key of the call loads the event that was returned, with the
-- content of the call, and loaded this event before or none; every other key loads what it loaded.
pub append_audit_event-IsKept :
    (rows : List AuditEventStoredRow) (clock : ℕ) (key : Text) (event_type : AuditEventType)
    (entity_type : AuditEntityType) (entity : Text) (occurred_at : OffsetDateTime)
    (stored : StoredAuditEvent) (final : List AuditEventStoredRow)
    → IsValid rows
    → append_audit_event rows clock key event_type entity_type entity occurred_at
      ≡ ok (stored, final)
    → IsKept rows key event_type entity_type entity occurred_at.instant stored final
unfolding load_audit_event_by_idempotency_key
append_audit_event-IsKept rows clock key event_type entity_type entity occurred_at stored final v
      run =
    let new = row_for rows clock key event_type entity_type entity occurred_at.instant in
    let (named, (_, (_, done))) =
      append-IsInserted rows clock key event_type entity_type entity occurred_at stored final run in
    let now : load_audit_event_by_idempotency_key final key ≡ ok stored =
      rw (named, done.found) done.read in
    record {
      valid = inserted-IsValid rows new stored final v refl done;
      grown = elim done.log [
        | inl same ↦ ([], same ∙ sym (append-nil rows), omega arith)
        | inr (grown, _) ↦ (new ∷ [], grown, omega arith)
      ];
      stored_now = now;
      stored_before = elim (Option-cases (find (by_key key) rows)) [
        | inl absent ↦ inr (rw (named, absent) refl)
        | inr (row, there) ↦ inl (rw (named, there) (same_row row there done))
      ];
      others = λ other apart. elim done.log [
        | inl same ↦ load-other rows final other (ap (find (by_key other)) same)
        | inr (grown, _) ↦
            load-other rows final other
              (ap (find (by_key other)) grown ∙ find-other rows new other (apart_keys other apart))
      ];
      content = content-parts stored new done.content;
    }
  where
    append-nil : (xs : List AuditEventStoredRow) → xs ++ [] ≡ xs
    append-nil [] = refl
    append-nil (x ∷ xs) = ap (λ rest. x ∷ rest) (append-nil xs)

    apart_keys : (other : Text) → key ≢ other → bytes_eq key other ≡ false
    apart_keys other apart = elim (Bool-cases (bytes_eq key other)) [
      | inl e ↦ absurd (apart (bytes_eq→eq key other e))
      | inr e ↦ e
    ]

    -- The row that the key finds before is the row that it finds after.
    same_row :
        (row : AuditEventStoredRow)
        → find (by_key key) rows ≡ some row
        → IsInserted rows
            (row_for rows clock key event_type entity_type entity occurred_at.instant)
            stored
            final
        → decode_audit_event_row row ≡ ok stored
    same_row row there done =
        let after : find (by_key key) final ≡ some row = elim done.log [
          | inl same ↦ ap (find (by_key key)) same ∙ there
          | inr (grown, _) ↦
              ap (find (by_key key)) grown ∙ find-append_found (by_key key) rows _ row there
        ] in
        let same : done.row ≡ row = some-injective (sym done.found ∙ after) in
        ap decode_audit_event_row (sym same) ∙ done.read

-- An exact retry, at any clock, gives the event that was appended first and changes nothing; a call
-- under its key with another type of event is a conflict and changes nothing.
pub append_audit_event_twice :
    (rows : List AuditEventStoredRow) (clock later : ℕ) (key : Text) (event_type : AuditEventType)
    (entity_type : AuditEntityType) (entity : Text) (occurred_at : OffsetDateTime)
    (stored : StoredAuditEvent) (final : List AuditEventStoredRow) (differing : AuditEventType)
    → append_audit_event rows clock key event_type entity_type entity occurred_at
      ≡ ok (stored, final)
    → differing ≢ event_type
    → (append_audit_event final later key event_type entity_type entity occurred_at
        ≡ ok (stored, final))
      × (append_audit_event final later key differing entity_type entity occurred_at
          ≡ err (conflict audit_event))
unfolding append_audit_event insert_audit_event is_same_event
append_audit_event_twice rows clock later key event_type entity_type entity occurred_at stored final
      differing run differs =
    let (named, (valid, (timed, done))) =
      append-IsInserted rows clock key event_type entity_type entity occurred_at stored final run in
    let same : stored.event_type ≡ event_type =
      eqb→eq AuditEventType-discrete stored.event_type event_type (first _ _ done.content) in
    let apart : eqb AuditEventType-discrete stored.event_type differing ≡ false =
      elim (Bool-cases (eqb AuditEventType-discrete stored.event_type differing)) [
        | inl e ↦
            absurd
              (differs (sym (eqb→eq AuditEventType-discrete stored.event_type differing e) ∙ same))
        | inr e ↦ e
      ] in
    (
      rw (named, valid, timed, done.found, done.found, done.read, done.content) refl,
      rw (named, valid, timed, done.found, done.found, done.read, apart) refl,
    )
  where
    first : (a b : Bool) → (a && b) ≡ true → a ≡ true
    first true b h = refl
    first false b h = cc
