-- ===== src/Store/Outbox/Finish.antt =====
-- src/pa/store.rs: `mark_notification_sent` and `reschedule_notification`, by the state of the row.
use agent_voice.Common.{
  ℕ, ◌<◌, ◌≡◌, ◌≢◌, refl, true, false, not, ◌&&◌, leb, ltb, ◌==◌, ==_iff, none, some, arith,
}
use agent_voice.Common.Int.{pos}
use agent_voice.Common.Results.{ok, err}
use agent_voice.Common.Text.{Text}
use agent_voice.Store.Errors.{cursor_conflict}
use agent_voice.Store.Instants.{OffsetDateTime, normalize_notification_time}
use agent_voice.Store.Names.{NotificationStatus, waiting, delivering, sent}
use agent_voice.Store.Outbox.{StoredNotification, Database, notification, read_row, state_matches}
use agent_voice.Store.Outbox.Expected.{sent_row, retried_row}
use agent_voice.Store.Outbox.Deliver.{
  owns, is_delivering, is_completed, update_owned, marked_sent, mark_notification_sent, rescheduled,
  reschedule_notification, validate_notification_delivery_cursor,
}
use agent_voice.Store.Outbox.Readable.{read_row-with_state}
use agent_voice.Store.Outbox.Rows.{
  row_at, row_at-id, row_at-All, row_at_self, row_at-update, row_at-update_other, count-one,
}
use agent_voice.Store.Outbox.Valid.{IsValid, updated, updated-IsValid, load_notification_row}
use agent_voice.Store.Texts.{validate_notification_error_code}

-- One row was replaced, and the outbox is valid.
pub record IsReplaced (db : Database) (id : ℕ) (row : StoredNotification) (final : Database)
    : Type 0 where
  pub valid : IsValid final
  pub replaced : row_at id final.rows ≡ some row
  pub others : (other : ℕ) → id ≢ other → row_at other final.rows ≡ row_at other db.rows

module _ (change : StoredNotification → StoredNotification)
    (keeps : (row : StoredNotification) → (change row).id ≡ row.id) (db : Database) (attempt : ℕ)
    (readable : (row : StoredNotification)
      → owns (pos attempt) row ≡ true
      → read_row db row ≡ ok row
      → read_row db (change row) ≡ ok (change row)) where
  abbrev pub after : ℕ → Database
  after = updated (owns (pos attempt)) change db

  pub after-IsReplaced :
      (id : ℕ) (row : StoredNotification)
      → IsValid db
      → row_at id db.rows ≡ some row
      → owns (pos attempt) row ≡ true
      → IsReplaced db id (change row) (after id)
  after-IsReplaced id row v at g = record {
    valid = updated-IsValid (owns (pos attempt)) change keeps db readable id v;
    replaced = row_at-update (owns (pos attempt)) change keeps id db.rows row at g;
    others = λ other n. row_at-update_other (owns (pos attempt)) change keeps id other db.rows n;
  }

  pub update_owned_row :
      (id : ℕ) (row : StoredNotification)
      → IsValid db
      → row_at id db.rows ≡ some row
      → owns (pos attempt) row ≡ true
      → update_owned db (pos id) (pos attempt) change ≡ ok (change row, after id)
  unfolding update_owned
  update_owned_row id row v at g =
      let r = after-IsReplaced id row v at g in
      rw
        (
          count-one (owns (pos attempt)) change keeps id 0 db.rows row v.ordered at g,
          load_notification_row (after id) id (change row) r.valid r.replaced,
        )
        refl

pub owns_parts :
    (attempt attempts : ℕ) (status : NotificationStatus)
    → (is_delivering status && (attempt == attempts)) ≡ true
    → (status ≡ delivering) × (attempt ≡ attempts)
owns_parts attempt attempts waiting g = cc
owns_parts attempt attempts delivering g = (refl, (==_iff attempt attempts).0 g)
owns_parts attempt attempts sent g = cc

pub row_at-pos :
    (db : Database) (id : ℕ) (row : StoredNotification)
    → IsValid db
    → row_at id db.rows ≡ some row
    → 0 < id
row_at-pos db id row v at =
    let p =
      row_at-All (λ r. (0 < r.id) × (row_at r.id db.rows ≡ some r)) id row db.rows
        (row_at_self 0 db.rows v.ordered) at in
    rw (← row_at-id id row db.rows at) p.0

pub cursor_ok :
    (id attempt : ℕ)
    → 0 < id
    → 0 < attempt
    → validate_notification_delivery_cursor (pos id) (pos attempt) ≡ ok tt
unfolding validate_notification_delivery_cursor
cursor_ok id attempt h k =
    let a : not (leb id 0) ≡ true = ground arith in
    let b : not (leb attempt 0) ≡ true = ground arith in rw (a, b) refl

pub marked_sent-readable :
    (db : Database) (attempt sent_at clock : ℕ)
    → 0 < attempt
    → (row : StoredNotification) → owns (pos attempt) row ≡ true
    → read_row db row ≡ ok row
    → read_row db (marked_sent sent_at clock row) ≡ ok (marked_sent sent_at clock row)
unfolding marked_sent
marked_sent-readable db attempt sent_at clock some_attempt row g run =
    let (_, same) = owns_parts attempt row.attempts row.status g in
    let busy : ltb 0 row.attempts ≡ true = ground arith in
    read_row-with_state db row sent row.available_at none (some sent_at) none row.attempts clock
      refl (unfold state_matches in rw busy refl) run

pub rescheduled-readable :
    (db : Database) (attempt available_at clock : ℕ) (code : Text)
    → validate_notification_error_code code ≡ ok code
    → (row : StoredNotification) → owns (pos attempt) row ≡ true
    → read_row db row ≡ ok row
    → read_row db (rescheduled available_at code clock row)
      ≡ ok (rescheduled available_at code clock row)
unfolding rescheduled
rescheduled-readable db attempt available_at clock code safe row g run =
    read_row-with_state db row waiting available_at none none (some code) row.attempts clock
      (rw safe refl) (unfold state_matches in refl) run

pub keeps_sent :
    (sent_at clock : ℕ) (row : StoredNotification) → (marked_sent sent_at clock row).id ≡ row.id
unfolding marked_sent
keeps_sent sent_at clock row = refl

pub keeps_rescheduled :
    (at : ℕ) (code : Text) (clock : ℕ) (row : StoredNotification)
    → (rescheduled at code clock row).id ≡ row.id
unfolding rescheduled
keeps_rescheduled at code clock row = refl

owns-true :
    (attempt : ℕ) (row : StoredNotification)
    → row.status ≡ delivering
    → row.attempts ≡ attempt
    → owns (pos attempt) row ≡ true
owns-true attempt row status same =
    let e : (attempt == row.attempts) ≡ true = ground arith in rw (status, e) refl

not_completed :
    (attempt sent_at : ℕ) (row : StoredNotification)
    → row.status ≡ delivering
    → is_completed (pos attempt) sent_at row ≡ false
unfolding is_completed
not_completed attempt sent_at row status = rw status refl

not_owner :
    (attempt : ℕ) (row : StoredNotification)
    → (attempt == row.attempts) ≡ false
    → owns (pos attempt) row ≡ false
not_owner attempt row e = ground arith

not_done :
    (attempt sent_at : ℕ) (row : StoredNotification)
    → (attempt == row.attempts) ≡ false
    → is_completed (pos attempt) sent_at row ≡ false
unfolding is_completed
not_done attempt sent_at row e = ground arith

-- The worker that owns the current attempt of a valid outbox completes it: the row is sent at the
-- time of the call, with no lease and no code of a failure, updated at the clock and else as it was;
-- every other row is as it was, and the outbox stays valid.
pub mark_notification_sent_owned :
    (db : Database) (clock id attempt : ℕ) (sent_at : OffsetDateTime) (row : StoredNotification)
    → IsValid db
    → row_at id db.rows ≡ some row
    → 0 < attempt
    → row.status ≡ delivering
    → row.attempts ≡ attempt
    → (final : Database) × (mark_notification_sent db clock (pos id) (pos attempt) sent_at
        ≡ ok (sent_row sent_at.instant clock row, final))
      × IsReplaced db id (sent_row sent_at.instant clock row) final
unfolding mark_notification_sent marked_sent normalize_notification_time
mark_notification_sent_owned db clock id attempt sent_at row v at some_attempt status same =
    let change = marked_sent sent_at.instant clock in
    let g = owns-true attempt row status same in
    let readable = marked_sent-readable db attempt sent_at.instant clock some_attempt in
    (
      after change (keeps_sent sent_at.instant clock) db attempt readable id,
      rw
          (
            cursor_ok id attempt (row_at-pos db id row v at) some_attempt,
            load_notification_row db id row v at,
            not_completed attempt sent_at.instant row status,
            g,
            update_owned_row change (keeps_sent sent_at.instant clock) db attempt readable id row v
                at g,
          )
          refl,
      after-IsReplaced change (keeps_sent sent_at.instant clock) db attempt readable id row v at g,
    )

-- The worker that owns the current attempt of a valid outbox gives it back for another time under an
-- error code that is accepted: the row waits for that time with that code and no lease, updated at
-- the clock and else as it was, its count of attempts included; every other row is as it was, and the
-- outbox stays valid.
pub reschedule_notification_owned :
    (db : Database) (clock id attempt : ℕ) (available_at : OffsetDateTime) (code : Text)
    (row : StoredNotification)
    → IsValid db
    → row_at id db.rows ≡ some row
    → 0 < attempt
    → row.status ≡ delivering
    → row.attempts ≡ attempt
    → validate_notification_error_code code ≡ ok code
    → (final : Database) × (reschedule_notification db clock
          (pos id)
          (pos attempt)
          available_at
          code
        ≡ ok (retried_row available_at.instant code clock row, final))
      × IsReplaced db id (retried_row available_at.instant code clock row) final
unfolding reschedule_notification rescheduled normalize_notification_time
reschedule_notification_owned db clock id attempt available_at code row v at some_attempt status
      same safe =
    let change = rescheduled available_at.instant code clock in
    let keeps = keeps_rescheduled available_at.instant code clock in
    let g = owns-true attempt row status same in
    let readable = rescheduled-readable db attempt available_at.instant clock code safe in
    (
      after change keeps db attempt readable id,
      rw
          (
            cursor_ok id attempt (row_at-pos db id row v at) some_attempt,
            safe,
            load_notification_row db id row v at,
            g,
            update_owned_row change keeps db attempt readable id row v at g,
          )
          refl,
      after-IsReplaced change keeps db attempt readable id row v at g,
    )

-- On a valid outbox a worker with a positive attempt that is not the row's is refused with a
-- conflict, whether it completes the attempt or gives it back under an error code that is accepted.
pub stale_attempt_refused :
    (db : Database) (clock id attempt : ℕ) (at_time : OffsetDateTime) (code : Text)
    (row : StoredNotification)
    → IsValid db
    → row_at id db.rows ≡ some row
    → 0 < attempt
    → row.attempts ≢ attempt
    → validate_notification_error_code code ≡ ok code
    → (mark_notification_sent db clock (pos id) (pos attempt) at_time
        ≡ err (cursor_conflict notification))
      × (reschedule_notification db clock (pos id) (pos attempt) at_time code
          ≡ err (cursor_conflict notification))
unfolding mark_notification_sent reschedule_notification normalize_notification_time
stale_attempt_refused db clock id attempt at_time code row v at some_attempt differs safe =
    let e : (attempt == row.attempts) ≡ false = ground arith in
    let cursor = cursor_ok id attempt (row_at-pos db id row v at) some_attempt in
    let other = not_owner attempt row e in
    (
      rw
          (
            cursor,
            load_notification_row db id row v at,
            not_done attempt at_time.instant row e,
            other,
          )
          refl,
      rw (cursor, safe, load_notification_row db id row v at, other) refl,
    )
