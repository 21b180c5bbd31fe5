-- ===== src/Store/Audit/Appended.antt =====
-- src/pa/store.rs: what `append_audit_event` leaves in the log.
use agent_voice.Common.{
  ℕ, ◌<◌, ◌≤◌, ◌≡◌, refl, sym, ap, ◌∙◌, ◌⊎◌, inl, inr, leb, ==_iff, true, not, ◌||◌, Option-cases,
  Option, none, some, List, [], ◌∷◌, ◌++◌, All, All-append, bytes_eq_refl, arith,
}
use mathlib.Core.Path.{subst}
use agent_voice.Common.Equal.{eqb_refl}
use agent_voice.Common.Results.{
  ok, err, guard, ok_or, bind_ok, guard_ok, ok_or_ok, ok-injective, if_err-ok,
}
use agent_voice.Common.Text.{Text}
use agent_voice.Store.Errors.{StoreResult, conflict}
use agent_voice.Store.Paging.{Ascending}
use agent_voice.Store.Table.{find, find-append}
use agent_voice.Store.Texts.{validate_audit_machine_identifier}
use agent_voice.Store.Audit.{
  AuditEventStoredRow, StoredAuditEvent, AuditEventType-discrete, AuditEntityType-discrete,
  audit_event, audit_invalid, validate_audit_entity_id, validate_audit_idempotency_key, audit_field,
  is_none, decode_audit_event_row, by_key, next_id, is_absent, inserted, is_same_event,
  insert_audit_event,
}

abbrev pub event_of : AuditEventStoredRow → StoredAuditEvent
event_of row = record {
  id = row.id;
  idempotency_key = row.idempotency_key;
  event_type = row.event_type;
  entity_type = row.entity_type;
  entity_id = row.entity_id;
  occurred_at = row.occurred_at;
  created_at = row.created_at;
}

-- The ids rise, and the reader gives the fields of each row.
pub record IsValid (rows : List AuditEventStoredRow) : Type 0 where
  pub ordered : Ascending (λ row. row.id) 0 rows
  pub readable : All (λ row. decode_audit_event_row row ≡ ok (event_of row)) rows

pub validate_key-same :
    (value key : Text) → validate_audit_idempotency_key value ≡ ok key → value ≡ key
unfolding validate_audit_idempotency_key validate_audit_machine_identifier
validate_key-same value key run = if_err-ok _ _ _ _ run

pub validate_entity-same :
    (value entity : Text) → validate_audit_entity_id value ≡ ok entity → value ≡ entity
unfolding validate_audit_entity_id validate_audit_machine_identifier
validate_entity-same value entity run = if_err-ok _ _ _ _ run

audit_field-ok : {A : Type 0} (m : StoreResult A) (a : A) → audit_field m ≡ ok a → m ≡ ok a
audit_field-ok (ok b) a h = h
audit_field-ok (err e) a h = cc

decode-event_of :
    (row : AuditEventStoredRow) (event : StoredAuditEvent)
    → decode_audit_event_row row ≡ ok event
    → event ≡ event_of row
unfolding decode_audit_event_row
decode-event_of row event run =
    let (_, (_, run)) =
      bind_ok (guard (not (leb row.id 0 || not (is_none row.details))) audit_invalid) _ run in
    let (key, (named, run)) =
      bind_ok (audit_field (validate_audit_idempotency_key row.idempotency_key)) _ run in
    let (entity, (valid, last)) =
      bind_ok (audit_field (validate_audit_entity_id row.entity_id)) _ run in
    fields row event key entity
      (validate_key-same row.idempotency_key key (audit_field-ok _ key named))
      (validate_entity-same row.entity_id entity (audit_field-ok _ entity valid))
      (ok-injective last)
  where
    fields :
        (row : AuditEventStoredRow) (event : StoredAuditEvent) (key entity : Text)
        → row.idempotency_key ≡ key
        → row.entity_id ≡ entity
        → record (event_of row) { idempotency_key = key; entity_id = entity } ≡ event
        → event ≡ event_of row
    fields row event key entity hk he last = sym last ∙ rw (← hk, ← he) refl

is_same_event_refl : (row : AuditEventStoredRow) → is_same_event (event_of row) row ≡ true
unfolding is_same_event
is_same_event_refl row =
    rw
      (
        eqb_refl AuditEventType-discrete row.event_type,
        eqb_refl AuditEntityType-discrete row.entity_type,
        bytes_eq_refl row.entity_id,
        (==_iff row.occurred_at row.occurred_at).1 refl,
      )
      refl

-- What an insertion that succeeds gives: the row of the key is the event that is returned, which
-- has the content of the new row, and the log is as it was or one row longer.
pub record IsInserted (rows : List AuditEventStoredRow) (new : AuditEventStoredRow)
    (stored : StoredAuditEvent) (final : List AuditEventStoredRow) : Type 0 where
  pub row : AuditEventStoredRow
  pub found : find (by_key new.idempotency_key) final ≡ some row
  pub read : decode_audit_event_row row ≡ ok stored
  pub content : is_same_event stored new ≡ true
  pub log :
      (final ≡ rows) ⊎ ((final ≡ rows ++ (new ∷ [])) × (decode_audit_event_row new ≡ ok stored))

abbrev DecodesTo : Option AuditEventStoredRow → StoredAuditEvent → Type 0
DecodesTo none e = Unit
DecodesTo (some r) e = decode_audit_event_row r ≡ ok e

inserted-parts :
    (rows : List AuditEventStoredRow) (new : AuditEventStoredRow) (stored : StoredAuditEvent)
    (final : List AuditEventStoredRow) (row : AuditEventStoredRow) (event : StoredAuditEvent)
    → find (by_key new.idempotency_key) (inserted rows new) ≡ some row
    → decode_audit_event_row row ≡ ok event
    → (is_absent (find (by_key new.idempotency_key) rows) || is_same_event event new) ≡ true
    → event ≡ stored
    → inserted rows new ≡ final
    → IsInserted rows new stored final
unfolding find
inserted-parts rows new stored final row event found read same he hf =
    let key = new.idempotency_key in
    let there = subst (λ (f : List AuditEventStoredRow). find (by_key key) f ≡ some row) hf found in
    let read' = read ∙ ap ok he in
    elim (Option-cases (find (by_key key) rows)) [
      | inl absent ↦
          let grown : final ≡ rows ++ (new ∷ []) = sym hf ∙ rw absent refl in
          let own : find (by_key key) (new ∷ []) ≡ some new = rw (bytes_eq_refl key) refl in
          let at : some new ≡ some row =
            sym (find-append (by_key key) rows (new ∷ []) absent ∙ own)
            ∙ (sym (ap (find (by_key key)) grown) ∙ there) in
          let made : decode_audit_event_row new ≡ ok stored =
            subst (λ (o : Option AuditEventStoredRow). DecodesTo o stored) (sym at) read' in
          record {
            row = row;
            found = there;
            read = read';
            content =
                subst (λ (e : StoredAuditEvent). is_same_event e new ≡ true)
                  (sym (decode-event_of new stored made)) (is_same_event_refl new);
            log = inr (grown, made);
          }
      | inr (old, present) ↦ record {
        row = row;
        found = there;
        read = read';
        content =
            subst (λ (e : StoredAuditEvent). is_same_event e new ≡ true) he (rw present at same);
        log = inl (sym hf ∙ rw present refl);
      }
    ]

pub insert_audit_event-IsInserted :
    (rows : List AuditEventStoredRow) (new : AuditEventStoredRow) (stored : StoredAuditEvent)
    (final : List AuditEventStoredRow)
    → insert_audit_event rows new ≡ ok (stored, final)
    → IsInserted rows new stored final
unfolding insert_audit_event
insert_audit_event-IsInserted rows new stored final run =
    let key = new.idempotency_key in
    let (row, (found, run)) =
      bind_ok (ok_or (find (by_key key) (inserted rows new)) audit_invalid) _ run in
    let (event, (read, run)) = bind_ok (decode_audit_event_row row) _ run in
    let (_, (same, last)) =
      bind_ok
        (guard (is_absent (find (by_key key) rows) || is_same_event event new)
          (conflict audit_event))
        _ run in
    inserted-parts rows new stored final row event (ok_or_ok _ _ found) read (guard_ok _ _ same)
      (ap (λ p. p.0) (ok-injective last)) (ap (λ p. p.1) (ok-injective last))

Ascending-next :
    (b : ℕ) (rows : List AuditEventStoredRow) (new : AuditEventStoredRow)
    → Ascending (λ row. row.id) b rows
    → b < new.id
    → next_id rows ≤ new.id
    → Ascending (λ row. row.id) b (rows ++ (new ∷ []))
unfolding next_id
Ascending-next b [] new s first next = (first, tt)
Ascending-next b (row ∷ rows) new (hr, s) first next =
    (hr, Ascending-next row.id rows new s (ground arith) (ground arith))

next_id-above : (rows : List AuditEventStoredRow) → 0 < next_id rows
unfolding next_id
next_id-above [] = omega arith
next_id-above (row ∷ rows) = ground (arith, next_id-above rows)

pub inserted-IsValid :
    (rows : List AuditEventStoredRow) (new : AuditEventStoredRow) (stored : StoredAuditEvent)
    (final : List AuditEventStoredRow)
    → IsValid rows
    → new.id ≡ next_id rows
    → IsInserted rows new stored final
    → IsValid final
inserted-IsValid rows new stored final v numbered done = elim done.log [
  | inl same ↦ subst IsValid (sym same) v
  | inr (grown, made) ↦ subst IsValid (sym grown) (record {
    ordered = Ascending-next 0 rows new v.ordered (omega (arith, next_id-above rows)) (omega arith);
    readable =
        All-append (λ row. decode_audit_event_row row ≡ ok (event_of row)) rows (new ∷ [])
          v.readable (made ∙ ap ok (decode-event_of new stored made), tt);
  })
]
