-- ===== src/Store/Outbox/Finished.antt =====
-- src/pa/store.rs: the moves of `mark_notification_sent` and `reschedule_notification`.
use agent_voice.Common.{
  ℕ, ◌<◌, ◌≡◌, refl, sym, ap, ◌∙◌, inl, inr, true, false, not, leb, ◌==◌, ==_iff, if◌then◌else◌,
  Bool-cases, Option-cases, some, arith,
}
use mathlib.Core.Path.{subst}
use mathlib.Core.Option
use agent_voice.Common.Int.{ℤ, pos, negsuc}
use agent_voice.Common.Results.{ok, err, guard, bind_ok, guard_ok, ok-injective, if_err-ok}
use agent_voice.Common.Text.{Text}
use agent_voice.Store.Errors.{cursor_conflict}
use agent_voice.Store.Instants.{OffsetDateTime, normalize_notification_time}
use agent_voice.Store.Names.{waiting, sent}
use agent_voice.Store.Outbox.{StoredNotification, Database, notification, load_notification}
use agent_voice.Store.Outbox.Deliver.{
  owns, is_completed, marked_sent, mark_notification_sent, rescheduled, reschedule_notification,
  update_owned, validate_notification_delivery_cursor,
}
use agent_voice.Store.Outbox.Finish.{
  IsReplaced, owns_parts, marked_sent-readable, rescheduled-readable, keeps_sent, keeps_rescheduled,
  after, after-IsReplaced, update_owned_row,
}
use agent_voice.Store.Outbox.Machine.{view, state_of, Move}
use agent_voice.Store.Outbox.Moves.{IsMoved, IsMoved-same}
use agent_voice.Store.Outbox.Rows.{row_at}
use agent_voice.Store.Outbox.Valid.{IsValid, load_notification_row}
use agent_voice.Store.Texts.{validate_notification_error_code}

-- The cursor of a call that passes names a positive id and a positive attempt.
cursor-parts :
    (id attempt : ℤ)
    → validate_notification_delivery_cursor id attempt ≡ ok tt
    → (n : ℕ) × (m : ℕ) × (id ≡ pos n) × (attempt ≡ pos m) × (0 < m)
unfolding validate_notification_delivery_cursor
cursor-parts (negsuc n) attempt run = cc
cursor-parts (pos n) (negsuc m) run =
    let (u, (_, last)) = bind_ok (guard (not (leb n 0)) _) _ run in cc last
cursor-parts (pos n) (pos m) run =
    let (u, (_, last)) = bind_ok (guard (not (leb n 0)) _) _ run in
    let positive = guard_ok (not (leb m 0)) _ last in (n, m, refl, refl, ground arith)

load-parts :
    (db : Database) (n : ℕ) (row : StoredNotification)
    → IsValid db
    → load_notification db (pos n) ≡ ok row
    → row_at n db.rows ≡ some row
unfolding load_notification
load-parts db n row v run = elim (Option-cases (row_at n db.rows)) [
  | inl absent ↦ cc (rw (absent, load_notification) at run)
  | inr (r, at) ↦ at ∙ ap some (ok-injective (sym (load_notification_row db n r v at) ∙ run))
]

-- A taken row was replaced by one in another state.
replaced-IsMoved :
    (db final : Database) (id : ℕ) (row next : StoredNotification)
    → row_at id db.rows ≡ some row
    → Move false (some (view row)) (some (view next))
    → IsReplaced db id next final
    → IsMoved false db final
replaced-IsMoved db final id row next at move r = record {
  valid = r.valid;
  moves = λ other. elim (Bool-cases (id == other)) [
    | inl e ↦
        let same : id ≡ other = (==_iff id other).0 e in
        subst (λ (i : ℕ). Move false (state_of i db) (state_of i final)) same
          (rw (at, r.replaced) move)
    | inr e ↦
        Move.stay (ap (Option.map view) (r.others other (λ same. cc (e, (==_iff id other).1 same))))
  ];
}

finish-Move :
    (m : ℕ) (row next : StoredNotification)
    → owns (pos m) row ≡ true
    → next.status ≡ sent
    → next.attempts ≡ row.attempts
    → Move false (some (view row)) (some (view next))
finish-Move m row next g status same =
    let (busy, _) = owns_parts m row.attempts row.status g in
    Move.finish row.attempts (rw busy refl) (rw (status, same) refl)

retry-Move :
    (m : ℕ) (row next : StoredNotification)
    → owns (pos m) row ≡ true
    → next.status ≡ waiting
    → next.attempts ≡ row.attempts
    → Move false (some (view row)) (some (view next))
retry-Move m row next g status same =
    let (busy, _) = owns_parts m row.attempts row.status g in
    Move.retry row.attempts (rw busy refl) (rw (status, same) refl)

-- `mark_notification_sent` behind the load of its row.
mark-branch :
    (db : Database) (clock n m at_time : ℕ) (row : StoredNotification)
    (result : StoredNotification × Database)
    → IsValid db
    → 0 < m
    → row_at n db.rows ≡ some row
    → (if is_completed (pos m) at_time row
        then ok (row, db)
        else if not (owns (pos m) row)
        then err (cursor_conflict notification)
        else update_owned db (pos n) (pos m) (marked_sent at_time clock))
      ≡ ok result
    → IsMoved false db result.1
mark-branch db clock n m at_time row result v positive at run =
    elim (Bool-cases (is_completed (pos m) at_time row)) [
      | inl done ↦ IsMoved-same db result.1 (sym (ap (λ p. p.1) (ok-injective (rw done at run)))) v
      | inr open_row ↦ elim (Bool-cases (owns (pos m) row)) [
        | inr g ↦ cc (rw (open_row, g) at run)
        | inl g ↦
            let change = marked_sent at_time clock in
            let keeps = keeps_sent at_time clock in
            let readable = marked_sent-readable db m at_time clock positive in
            let last =
              rw (open_row, g, update_owned_row change keeps db m readable n row v at g) at run in
            let same : after change keeps db m readable n ≡ result.1 =
              ap (λ p. p.1) (ok-injective last) in
            subst (λ (d : Database). IsMoved false db d) same
              (replaced-IsMoved db (after change keeps db m readable n) n row (change row) at
                (finish-Move m row (change row) g (unfold marked_sent in refl)
                  (unfold marked_sent in refl))
                (after-IsReplaced change keeps db m readable n row v at g))
      ]
    ]

pub mark-IsMoved :
    (db : Database) (clock : ℕ) (id attempt : ℤ) (sent_at : OffsetDateTime)
    (result : StoredNotification × Database)
    → IsValid db
    → mark_notification_sent db clock id attempt sent_at ≡ ok result
    → IsMoved false db result.1
unfolding mark_notification_sent normalize_notification_time
mark-IsMoved db clock id attempt sent_at result v run =
    let (_, (cursor, run)) = bind_ok (validate_notification_delivery_cursor id attempt) _ run in
    let (row, (loaded, run)) = bind_ok (load_notification db id) _ run in
    let (n, m, at_id, at_attempt, positive) = cursor-parts id attempt cursor in
    let at =
      load-parts db n row v (subst (λ (i : ℤ). load_notification db i ≡ ok row) at_id loaded) in
    mark-branch db clock n m sent_at.instant row result v positive at (
      subst
        (λ (i : ℤ).
          (if is_completed (pos m) sent_at.instant row
            then ok (row, db)
            else if not (owns (pos m) row)
            then err (cursor_conflict notification)
            else update_owned db i (pos m) (marked_sent sent_at.instant clock))
          ≡ ok result)
        at_id
        (subst
          (λ (a : ℤ).
            (if is_completed a sent_at.instant row
              then ok (row, db)
              else if not (owns a row)
              then err (cursor_conflict notification)
              else update_owned db id a (marked_sent sent_at.instant clock))
            ≡ ok result)
          at_attempt run))

-- `reschedule_notification` behind the load of its row.
reschedule-branch :
    (db : Database) (clock n m available_at : ℕ) (code : Text) (row : StoredNotification)
    (result : StoredNotification × Database)
    → IsValid db
    → validate_notification_error_code code ≡ ok code
    → row_at n db.rows ≡ some row
    → (if not (owns (pos m) row)
        then err (cursor_conflict notification)
        else update_owned db (pos n) (pos m) (rescheduled available_at code clock))
      ≡ ok result
    → IsMoved false db result.1
reschedule-branch db clock n m available_at code row result v safe at run =
    elim (Bool-cases (owns (pos m) row)) [
      | inr g ↦ cc (rw g at run)
      | inl g ↦
          let change = rescheduled available_at code clock in
          let keeps = keeps_rescheduled available_at code clock in
          let readable = rescheduled-readable db m available_at clock code safe in
          let last = rw (g, update_owned_row change keeps db m readable n row v at g) at run in
          let same : after change keeps db m readable n ≡ result.1 =
            ap (λ p. p.1) (ok-injective last) in
          subst (λ (d : Database). IsMoved false db d) same
            (replaced-IsMoved db (after change keeps db m readable n) n row (change row) at
              (retry-Move m row (change row) g (unfold rescheduled in refl)
                (unfold rescheduled in refl))
              (after-IsReplaced change keeps db m readable n row v at g))
    ]

code-same :
    (code safe : Text)
    → validate_notification_error_code code ≡ ok safe
    → validate_notification_error_code safe ≡ ok safe
unfolding validate_notification_error_code
code-same code safe h =
    let same : code ≡ safe = if_err-ok _ _ _ _ h in
    subst (λ (c : Text). validate_notification_error_code c ≡ ok c) same (h ∙ ap ok (sym same))

pub reschedule-IsMoved :
    (db : Database) (clock : ℕ) (id attempt : ℤ) (available_at : OffsetDateTime) (code : Text)
    (result : StoredNotification × Database)
    → IsValid db
    → reschedule_notification db clock id attempt available_at code ≡ ok result
    → IsMoved false db result.1
unfolding reschedule_notification normalize_notification_time
reschedule-IsMoved db clock id attempt available_at code result v run =
    let (_, (cursor, run)) = bind_ok (validate_notification_delivery_cursor id attempt) _ run in
    let (safe, (valid_code, run)) = bind_ok (validate_notification_error_code code) _ run in
    let (row, (loaded, run)) = bind_ok (load_notification db id) _ run in
    let (n, m, at_id, at_attempt, _) = cursor-parts id attempt cursor in
    let at =
      load-parts db n row v (subst (λ (i : ℤ). load_notification db i ≡ ok row) at_id loaded) in
    reschedule-branch db clock n m available_at.instant safe row result v
      (code-same code safe valid_code) at
      (subst
        (λ (i : ℤ).
          (if not (owns (pos m) row)
            then err (cursor_conflict notification)
            else update_owned db i (pos m) (rescheduled available_at.instant safe clock))
          ≡ ok result)
        at_id
        (subst
          (λ (a : ℤ).
            (if not (owns a row)
              then err (cursor_conflict notification)
              else update_owned db id a (rescheduled available_at.instant safe clock))
            ≡ ok result)
          at_attempt run))
