-- ===== src/Store/Audit/Loads.antt =====
-- src/pa/store.rs: the content of an appended event, and `load_audit_event_by_idempotency_key` under
-- other keys.
use agent_voice.Common.{
  ◌≡◌, ==_iff, bytes_eq, bytes_eq→eq, Option-cases, refl, sym, ◌∙◌, inl, inr, Bool, true, false,
  ◌&&◌, List, [], ◌∷◌, ◌++◌,
}
use agent_voice.Common.Equal.{eqb→eq}
use agent_voice.Common.Results.{Result-cases}
use agent_voice.Common.Text.{Text}
use agent_voice.Store.Table.{find, find-append, find-append_found}
use agent_voice.Store.Audit.{
  AuditEventStoredRow, StoredAuditEvent, AuditEventType-discrete, AuditEntityType-discrete,
  validate_audit_idempotency_key, by_key, is_same_event, load_audit_event_by_idempotency_key,
}
use agent_voice.Store.Audit.Appended.{validate_key-same}

pub content-parts :
    (stored : StoredAuditEvent) (new : AuditEventStoredRow)
    → is_same_event stored new ≡ true
    → (stored.event_type ≡ new.event_type)
      × (stored.entity_type ≡ new.entity_type)
      × (stored.entity_id ≡ new.entity_id)
      × (stored.occurred_at ≡ new.occurred_at)
unfolding is_same_event
content-parts stored new h =
    let (a, rest) = and_parts _ _ h in
    let (b, rest) = and_parts _ _ rest in
    let (c, d) = and_parts _ _ rest in
    (
      eqb→eq AuditEventType-discrete stored.event_type new.event_type a,
      eqb→eq AuditEntityType-discrete stored.entity_type new.entity_type b,
      bytes_eq→eq stored.entity_id new.entity_id c,
      (==_iff stored.occurred_at new.occurred_at).0 d,
    )
  where
    and_parts : (a b : Bool) → (a && b) ≡ true → (a ≡ true) × (b ≡ true)
    and_parts true b h = (refl, h)
    and_parts false b h = cc

-- One row under another key at the end changes nothing for a key.
pub find-other :
    (rows : List AuditEventStoredRow) (new : AuditEventStoredRow) (other : Text)
    → bytes_eq new.idempotency_key other ≡ false
    → find (by_key other) (rows ++ (new ∷ [])) ≡ find (by_key other) rows
unfolding find
find-other rows new other apart = elim (Option-cases (find (by_key other) rows)) [
  | inl none_there ↦
      find-append (by_key other) rows (new ∷ []) none_there ∙ rw (apart, none_there) refl
  | inr (row, there) ↦ find-append_found (by_key other) rows (new ∷ []) row there ∙ sym there
]

pub load-other :
    (rows final : List AuditEventStoredRow) (other : Text)
    → find (by_key other) final ≡ find (by_key other) rows
    → load_audit_event_by_idempotency_key final other
      ≡ load_audit_event_by_idempotency_key rows other
unfolding load_audit_event_by_idempotency_key
load-other rows final other same = elim (Result-cases (validate_audit_idempotency_key other)) [
  | inl (key, named) ↦
      let own : other ≡ key = validate_key-same other key named in rw (named, ← own, same) refl
  | inr (e, named) ↦ rw named refl
]
