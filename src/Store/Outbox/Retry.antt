-- ===== src/Store/Outbox/Retry.antt =====
-- src/pa/store.rs: a repeated `mark_notification_sent`.
use agent_voice.Common.{ℕ, ◌<◌, ◌≡◌, refl, true, ◌==◌, some, arith}
use agent_voice.Common.Equal.{eqb_refl}
use agent_voice.Common.Int.{pos}
use agent_voice.Common.Results.{ok}
use agent_voice.Store.Instants.{OffsetDateTime, normalize_notification_time}
use agent_voice.Store.Names.{delivering}
use agent_voice.Store.Outbox.{StoredNotification, Database, option_ℕ_discrete}
use agent_voice.Store.Outbox.Expected.{sent_row}
use agent_voice.Store.Outbox.Deliver.{is_completed, mark_notification_sent}
use agent_voice.Store.Outbox.Finish.{mark_notification_sent_owned, cursor_ok, row_at-pos}
use agent_voice.Store.Outbox.Rows.{row_at}
use agent_voice.Store.Outbox.Valid.{IsValid, load_notification_row}

is_completed-sent_row :
    (attempt sent_at clock : ℕ) (row : StoredNotification)
    → row.attempts ≡ attempt
    → is_completed (pos attempt) sent_at (sent_row sent_at clock row) ≡ true
unfolding is_completed
is_completed-sent_row attempt sent_at clock row same =
    let e : (attempt == row.attempts) ≡ true = ground arith in
    rw (e, eqb_refl option_ℕ_discrete (some sent_at)) refl

again :
    (db : Database) (clock id attempt : ℕ) (sent_at : OffsetDateTime) (row : StoredNotification)
    → IsValid db
    → row_at id db.rows ≡ some row
    → 0 < attempt
    → is_completed (pos attempt) sent_at.instant row ≡ true
    → mark_notification_sent db clock (pos id) (pos attempt) sent_at ≡ ok (row, db)
unfolding mark_notification_sent normalize_notification_time
again db clock id attempt sent_at row v at some_attempt done =
    rw
      (
        cursor_ok id attempt (row_at-pos db id row v at) some_attempt,
        load_notification_row db id row v at,
        done,
      )
      refl

-- Completing an owned attempt and repeating the call, at any clock, both give the row that was
-- sent first: the repetition changes nothing.
mark_notification_sent_twice :
    (db : Database) (clock later id attempt : ℕ) (sent_at : OffsetDateTime)
    (row : StoredNotification)
    → IsValid db
    → row_at id db.rows ≡ some row
    → 0 < attempt
    → row.status ≡ delivering
    → row.attempts ≡ attempt
    → (final : Database) × (mark_notification_sent db clock (pos id) (pos attempt) sent_at
        ≡ ok (sent_row sent_at.instant clock row, final))
      × (mark_notification_sent final later (pos id) (pos attempt) sent_at
          ≡ ok (sent_row sent_at.instant clock row, final))
mark_notification_sent_twice db clock later id attempt sent_at row v at some_attempt status same =
    let (final, run, done) =
      mark_notification_sent_owned db clock id attempt sent_at row v at some_attempt status same in
    (
      final,
      run,
      again final later id attempt sent_at (sent_row sent_at.instant clock row) done.valid
          done.replaced some_attempt (is_completed-sent_row attempt sent_at.instant clock row same),
    )
