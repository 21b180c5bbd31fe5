-- ===== src/Store/Outbox/Insert.antt =====
-- src/pa/store.rs: the insertion of `enqueue_notification`, by what the table holds under the key.
use agent_voice.Store.Table.{find, find-All}
use agent_voice.Common.{
  ℕ, ◌≤◌, ◌<◌, ◌≡◌, refl, sym, ap, ◌∙◌, ◌⊎◌, inl, inr, Bool, true, not, ◌&&◌, leb, ==_iff,
  Bool-cases, Option-cases, Option, none, some, List, [], ◌∷◌, ◌++◌, All, All-append, All-map,
  arith, bytes_eq_refl, bytes_eq→eq, codes,
}
use mathlib.Core.Path.{subst}
use agent_voice.Common.Equal.{eqb_refl, eqb→eq}
use agent_voice.Common.Results.{Result, ok, err, guard, bind_ok, guard_ok, ok-injective}
use agent_voice.Common.Text.{Text}
use agent_voice.Domain.Kinds.{non_blank}
use agent_voice.Domain.Email.{ConfirmedEmail, confirm, is_valid_email}
use agent_voice.Store.Errors.{conflict}
use agent_voice.Store.Templates.{TemplateData, deserialize_template}
use agent_voice.Store.Texts.{traverse, validate_notification_error_code}
use agent_voice.Store.Outbox.{
  StoredNotification, Database, notification, option_ℕ_discrete, or_invalid, read_row,
  decode_notification_row, record_invalid, is_positive_reference, references_kind, state_matches,
  validate_stored_notification_references,
}
use agent_voice.Store.Outbox.Enqueue.{
  has_key, insert_or_retry, is_exact_retry, next_id, NotificationKind-discrete,
  TemplateData-discrete,
}
use agent_voice.Store.Outbox.Rows.{Ascending}
use agent_voice.Store.Outbox.Valid.{IsValid, with_rows, read_row-with_rows}

-- The fields that a retry must repeat.
pub record SameRequest (a b : StoredNotification) : Type 0 where
  pub proposal : a.proposal_id ≡ b.proposal_id
  pub mapping : a.event_mapping_id ≡ b.event_mapping_id
  pub kind : a.kind ≡ b.kind
  pub recipient : a.recipient ≡ b.recipient
  pub template : a.template_data ≡ b.template_data
  pub available : a.available_at ≡ b.available_at

exact-parts :
    (p q r s t u : Bool)
    → (p && (q && (r && (s && (t && u))))) ≡ true
    → (p ≡ true) × (q ≡ true) × (r ≡ true) × (s ≡ true) × (t ≡ true) × (u ≡ true)
exact-parts p q r s t u h = ground arith

pub is_exact_retry-SameRequest :
    (a b : StoredNotification) → is_exact_retry a b ≡ true → SameRequest a b
unfolding is_exact_retry
is_exact_retry-SameRequest a b h =
    let (p, q, r, s, t, u) = exact-parts _ _ _ _ _ _ h in
    record {
      proposal = eqb→eq option_ℕ_discrete _ _ p;
      mapping = eqb→eq option_ℕ_discrete _ _ q;
      kind = eqb→eq NotificationKind-discrete _ _ r;
      recipient = bytes_eq→eq _ _ s;
      template = eqb→eq TemplateData-discrete _ _ t;
      available = (==_iff _ _).0 u;
    }

pub SameRequest-is_exact_retry :
    (a b : StoredNotification) → SameRequest a b → is_exact_retry a b ≡ true
unfolding is_exact_retry
SameRequest-is_exact_retry a b h =
    rw
      (
        h.proposal,
        h.mapping,
        h.kind,
        h.recipient,
        h.template,
        h.available,
        eqb_refl option_ℕ_discrete b.proposal_id,
        eqb_refl option_ℕ_discrete b.event_mapping_id,
        eqb_refl NotificationKind-discrete b.kind,
        bytes_eq_refl b.recipient,
        eqb_refl TemplateData-discrete b.template_data,
      )
      ((==_iff b.available_at b.available_at).1 refl)

-- What the types of the arguments give: the key was made by `IdempotencyKey::new`, the recipient
-- was confirmed, and the template was built by its constructor.
pub record IsRequest (row : StoredNotification) : Type 0 where
  pub key : non_blank row.idempotency_key (codes "idempotency_key") ≡ ok row.idempotency_key
  pub template : deserialize_template row.template_data ≡ ok row.template_data
  pub code : row.last_error_code ≡ none

email-value : (text : Text) (email : ConfirmedEmail) → confirm text ≡ ok email → email.value ≡ text
unfolding confirm
email-value text email h = elim (Bool-cases (is_valid_email text)) [
  | inl e ↦ sym (ap (λ (m : ConfirmedEmail). m.value) (ok-injective (rw e at h)))
  | inr e ↦ cc (rw e at h)
]

rebuilt :
    (row : StoredNotification) (key recipient : Text) (template : TemplateData) (code : Option Text)
    → key ≡ row.idempotency_key
    → recipient ≡ row.recipient
    → template ≡ row.template_data
    → code ≡ row.last_error_code
    → record row {
      idempotency_key = key;
      recipient = recipient;
      template_data = template;
      last_error_code = code;
    }
      ≡ row
rebuilt row key recipient template code a b c d = rw (a, b, c, d) refl

no_code :
    (given code : Option Text)
    → given ≡ none
    → or_invalid (traverse validate_notification_error_code given) ≡ ok code
    → code ≡ given
no_code none code e h = sym (ok-injective h)
no_code (some given) code e h = cc

invalid-ok :
    {E : Type 0} {A : Type 0} (m : Result E A) (a : A) (b : A)
    → m ≡ ok a
    → or_invalid m ≡ ok b
    → b ≡ a
invalid-ok (ok c) a b e h = cc
invalid-ok (err c) a b e h = cc

ok_of_invalid : {E : Type 0} {A : Type 0} (m : Result E A) (a : A) → or_invalid m ≡ ok a → m ≡ ok a
ok_of_invalid (ok b) a h = cc
ok_of_invalid (err e) a h = cc

-- The reader gives such a row back as it is, if it gives it back at all.
read_request :
    (db : Database) (row stored : StoredNotification)
    → IsRequest row
    → read_row db row ≡ ok stored
    → stored ≡ row
unfolding read_row decode_notification_row
read_request db row stored q run =
    let (s, (run, rest)) = bind_ok (decode_notification_row row) _ run in
    let (_, (_, last)) = bind_ok (validate_stored_notification_references db s) _ rest in
    let (_, (_, run)) = bind_ok (guard (not (leb row.id 0)) record_invalid) _ run in
    let (key, (has_key, run)) = bind_ok (or_invalid (non_blank row.idempotency_key _)) _ run in
    let (_, (_, run)) = bind_ok (guard (is_positive_reference row.proposal_id) _) _ run in
    let (_, (_, run)) = bind_ok (guard (is_positive_reference row.event_mapping_id) _) _ run in
    let (_, (_, run)) =
      bind_ok (guard (references_kind row.kind row.proposal_id row.event_mapping_id) _) _ run in
    let (email, (has_email, run)) = bind_ok (or_invalid (confirm row.recipient)) _ run in
    let (template, (has_template, run)) =
      bind_ok (or_invalid (deserialize_template row.template_data)) _ run in
    let (code, (has_code, run)) =
      bind_ok (or_invalid (traverse validate_notification_error_code row.last_error_code)) _ run in
    let (_, (_, run)) =
      bind_ok
        (guard
          (state_matches row.status row.attempts row.lease_until row.sent_at row.last_error_code) _)
        _ run in
    let made =
      rebuilt row key email.value template code
        (invalid-ok (non_blank row.idempotency_key (codes "idempotency_key")) row.idempotency_key
          key q.key has_key)
        (email-value row.recipient email (ok_of_invalid (confirm row.recipient) email has_email))
        (invalid-ok (deserialize_template row.template_data) row.template_data template q.template
          has_template)
        (no_code row.last_error_code code q.code has_code) in
    sym (ok-injective last) ∙ (sym (ok-injective run) ∙ made)

Ascending-append :
    (b : ℕ) (rows : List StoredNotification) (row : StoredNotification)
    → b < row.id
    → All (λ r. r.id < row.id) rows
    → Ascending b rows
    → Ascending b (rows ++ (row ∷ []))
Ascending-append b [] row low h s = (low, tt)
Ascending-append b (x ∷ rows) row low (hx, h) (above, s) =
    (above, Ascending-append x.id rows row hx h s)

next_id-cons :
    (row : StoredNotification) (rows : List StoredNotification)
    → (row.id < next_id (row ∷ rows)) × (next_id rows ≤ next_id (row ∷ rows))
unfolding next_id
next_id-cons row rows = ground arith

next_id-pos : (rows : List StoredNotification) → 0 < next_id rows
unfolding next_id
next_id-pos [] = omega arith
next_id-pos (row ∷ rows) = omega (arith, next_id-cons row rows)

-- The id of a new row is above those of all rows.
next_id-above : (rows : List StoredNotification) → All (λ r. r.id < next_id rows) rows
next_id-above [] = tt
next_id-above (x ∷ rows) =
    let (own, others) = next_id-cons x rows in
    (
      own,
      All-map {Q = λ r. r.id < next_id (x ∷ rows)} (λ r k. omega arith) rows (next_id-above rows),
    )

pub find-appended :
    (test : StoredNotification → Bool) (rows : List StoredNotification) (row : StoredNotification)
    → find test rows ≡ none
    → test row ≡ true
    → find test (rows ++ (row ∷ [])) ≡ some row
unfolding find
find-appended test [] row h t = rw t refl
find-appended test (x ∷ rows) row h t = elim (Bool-cases (test x)) [
  | inl e ↦ cc (rw e at h)
  | inr e ↦ rw e (find-appended test rows row (rw e at h) t)
]

-- A new row leaves the outbox valid.
pub append-IsValid :
    (db : Database) (row : StoredNotification)
    → IsValid db
    → row.id ≡ next_id db.rows
    → read_row db row ≡ ok row
    → IsValid (with_rows db (db.rows ++ (row ∷ [])))
append-IsValid db row v e run =
    let final = with_rows db (db.rows ++ (row ∷ [])) in
    let low = next_id-pos db.rows in
    let above = next_id-above db.rows in
    let own = λ (r : StoredNotification) (h : read_row db r ≡ ok r).
      read_row-with_rows db (db.rows ++ (row ∷ [])) r ∙ h in
    record {
      ordered =
          Ascending-append 0 db.rows row (rw e low)
            (subst (λ (n : ℕ). All (λ r. r.id < n) db.rows) (sym e) above) v.ordered;
      readable =
          All-append (λ r. read_row final r ≡ ok r) db.rows (row ∷ [])
            (All-map {Q = λ r. read_row final r ≡ ok r} own db.rows v.readable) (own row run, tt);
    }

-- The two ways in which an insertion succeeds.
pub insert_or_retry-cases :
    (db : Database) (row stored : StoredNotification) (final : Database)
    → IsValid db
    → IsRequest row
    → row.id ≡ next_id db.rows
    → insert_or_retry db row ≡ ok (stored, final)
    → ((find (has_key row.idempotency_key) db.rows ≡ none)
        × ((stored ≡ row) × ((final ≡ with_rows db (db.rows ++ (row ∷ []))) × IsValid final)))
      ⊎ ((find (has_key row.idempotency_key) db.rows ≡ some stored)
          × ((final ≡ db) × (is_exact_retry stored row ≡ true)))
unfolding insert_or_retry
insert_or_retry-cases db row stored final v q e run =
    elim (Option-cases (find (has_key row.idempotency_key) db.rows)) [
      | inl absent ↦
          let (made, (read, last)) =
            bind_ok (read_row (with_rows db (db.rows ++ (row ∷ []))) row) _
              (rw (absent, insert_or_retry) at run) in
          let pair = ok-injective last in
          let own = read_request (with_rows db (db.rows ++ (row ∷ []))) row made q read in
          let readable : read_row db row ≡ ok row =
            sym (read_row-with_rows db (db.rows ++ (row ∷ [])) row) ∙ (read ∙ ap ok own) in
          let same : final ≡ with_rows db (db.rows ++ (row ∷ [])) = sym (ap (λ p. p.1) pair) in
          inl (
            absent,
            (
              sym (ap (λ p. p.0) pair) ∙ own,
              (same, subst IsValid (sym same) (append-IsValid db row v e readable)),
            ),
          )
      | inr (existing, found) ↦
          let (made, (read, last)) =
            bind_ok (read_row db existing) _ (rw (found, insert_or_retry) at run) in
          let (_, (exact, last)) =
            bind_ok (guard (is_exact_retry made row) (conflict notification)) _ last in
          let pair = ok-injective last in
          let own =
            find-All (λ r. read_row db r ≡ ok r) (has_key row.idempotency_key) existing db.rows
              v.readable found in
          let same : existing ≡ stored = ok-injective (sym own ∙ read) ∙ ap (λ p. p.0) pair in
          inr (
            found ∙ ap some same,
            (
              sym (ap (λ p. p.1) pair),
              subst (λ (r : StoredNotification). is_exact_retry r row ≡ true) (ap (λ p. p.0) pair)
                  (guard_ok _ _ exact),
            ),
          )
    ]
