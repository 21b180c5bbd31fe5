-- ===== src/Store/Examples.antt =====
-- Runs of the notification outbox of pa/store.rs.
use agent_voice.Store.Table.{find}
use mathlib.Core.List.{Mem}
use agent_voice.Common.{
  ◌≡◌, ◌≢◌, ◌≤◌, refl, ◌⊎◌, inl, none, some, List, [], ◌∷◌, All, length, codes, arith, bytes_eq,
}
use agent_voice.Common.Int.{pos}
use agent_voice.Common.Split.{split}
use agent_voice.Common.Results.{ok, err}
use agent_voice.Common.Text.{trim}
use agent_voice.Domain.Email.{confirm, is_valid_email}
use agent_voice.Domain.Kinds.{non_blank}
use agent_voice.Store.Errors.{cursor_conflict}
use agent_voice.Store.Instants.{normalize_notification_time}
use agent_voice.Store.Names.{call_summary, requires_proposal}
use agent_voice.Store.Templates.{deserialize_template, new_template_data}
use agent_voice.Store.Texts.{len, validate_notification_error_code}
use agent_voice.Store.Outbox.{
  StoredNotification, Database, notification, read_row, decode_notification_row,
  validate_stored_notification_references, state_matches, references_kind,
}
use agent_voice.Store.Outbox.Rows.{row_at}
use agent_voice.Store.Outbox.Valid.{IsValid}
use agent_voice.Store.Outbox.Deliver.{mark_notification_sent, reschedule_notification}
use agent_voice.Store.Outbox.Enqueue.{
  enqueue_notification, insert_or_retry, validate_notification_references, new_row, next_id, to_id,
}
use agent_voice.Store.Outbox.Lease.{
  IsLeased, Call, claim_notifications-IsLeased, claim_calls, leased-claim_calls,
}
use agent_voice.Store.Outbox.Expected.{sent_row, retried_row, leased_row}
use agent_voice.Store.Outbox.Fair.{claimed_or_behind}
use agent_voice.Store.Outbox.Finish.{
  IsReplaced, mark_notification_sent_owned, reschedule_notification_owned, stale_attempt_refused,
}
use agent_voice.Store.Outbox.Once.{enqueue_notification_twice, enqueue_notification_once}
use agent_voice.Store.Outbox.Machine.{
  Op, claims, marks, is_deletion, step, state_of, delivered, taken,
}
use agent_voice.Store.Outbox.Moves.{IsMoved}
use agent_voice.Store.Outbox.Refines.{step-IsMoved, run, run-delivered}
use agent_voice.Store.Samples.{
  template, template-built, waiting_row, taken_row, outbox, empty_outbox, at, outbox-IsValid,
  empty_outbox-IsValid,
}

row_1 : row_at 1 outbox.rows ≡ some waiting_row
unfolding find
row_1 = refl

row_2 : row_at 2 outbox.rows ≡ some taken_row
unfolding find
row_2 = refl

claim_run :
    (out : List StoredNotification) × ((final : Database) × IsLeased 1000 outbox 7
        (at 200)
        10
        (pos 60)
        260
        out
        final)
claim_run =
    claim_notifications-IsLeased 1000 outbox 7 (at 200) 10 60 outbox-IsValid (omega arith)
      (omega arith) (omega arith) (omega arith)

claim_notifications-IsLeased_example :
    (out : List StoredNotification) × ((final : Database) × IsLeased 1000 outbox 7
        (at 200)
        10
        (pos 60)
        260
        out
        final)
claim_notifications-IsLeased_example =
    claim_notifications-IsLeased 1000 outbox 7 (at 200) 10 60 outbox-IsValid (omega arith)
      (omega arith) (omega arith) (omega arith)

abbrev calls : List Call
calls =
    record { clock = 7; now = at 120; limit = 10; duration = pos 60 }
    ∷ record { clock = 8; now = at 159; limit = 1; duration = pos 60 }
    ∷ []

leased-claim_calls_example :
    All (λ r. r.id ≢ 2) (claim_calls 1000 outbox calls).0
    × (row_at 2 (claim_calls 1000 outbox calls).1.rows ≡ some taken_row)
leased-claim_calls_example =
    leased-claim_calls 1000 outbox 160 2 taken_row calls outbox-IsValid row_2 refl refl
      (omega arith, (omega arith, tt))

claimed_or_behind_example :
    (Mem (leased_row 260 7 waiting_row) claim_run.0
      × (row_at 1 claim_run.1.0.rows ≡ some (leased_row 260 7 waiting_row)))
    ⊎ ((length claim_run.0 ≡ 10) × All (λ r. r.available_at ≤ 100) claim_run.0)
claimed_or_behind_example =
    claimed_or_behind 1000 outbox 7 (at 200) 10 (pos 60) claim_run.0 claim_run.1.0 1 waiting_row
      outbox-IsValid claim_run.1.1.runs row_1 (inl (refl, omega arith))

mark_notification_sent_owned_example :
    (final : Database) × (mark_notification_sent outbox 150 (pos 2) (pos 3) (at 149)
      ≡ ok (sent_row 149 150 taken_row, final))
    × IsReplaced outbox 2 (sent_row 149 150 taken_row) final
mark_notification_sent_owned_example =
    mark_notification_sent_owned outbox 150 2 3 (at 149) taken_row outbox-IsValid row_2
      (omega arith) refl refl

code-safe : validate_notification_error_code (codes "timeout") ≡ ok (codes "timeout")
unfolding validate_notification_error_code len
code-safe = refl

reschedule_notification_owned_example :
    (final : Database) × (reschedule_notification outbox 150
        (pos 2)
        (pos 3)
        (at 300)
        (codes "timeout")
      ≡ ok (retried_row 300 (codes "timeout") 150 taken_row, final))
    × IsReplaced outbox 2 (retried_row 300 (codes "timeout") 150 taken_row) final
reschedule_notification_owned_example =
    reschedule_notification_owned outbox 150 2 3 (at 300) (codes "timeout") taken_row outbox-IsValid
      row_2 (omega arith) refl refl code-safe

stale_attempt_refused_example :
    (mark_notification_sent outbox 150 (pos 2) (pos 2) (at 149)
      ≡ err (cursor_conflict notification))
    × (reschedule_notification outbox 150 (pos 2) (pos 2) (at 149) (codes "timeout")
        ≡ err (cursor_conflict notification))
stale_attempt_refused_example =
    stale_attempt_refused outbox 150 2 2 (at 149) (codes "timeout") taken_row outbox-IsValid row_2
      (omega arith) (omega arith) code-safe

abbrev queued_row : StoredNotification
queued_row =
    new_row 1 90 (codes "call-1") none none call_summary (codes "owner@example.com") template 100

abbrev queued_outbox : Database
queued_outbox = record empty_outbox { rows = queued_row ∷ [] }

-- The key is trimmed.
enqueue_run :
    enqueue_notification empty_outbox 90
      (codes " call-1")
      none
      none
      call_summary
      (codes "owner@example.com")
      template
      (at 100)
    ≡ ok (queued_row, queued_outbox)
unfolding enqueue_notification validate_notification_references insert_or_retry find next_id new_row
    normalize_notification_time read_row decode_notification_row
    validate_stored_notification_references state_matches references_kind requires_proposal
    non_blank confirm deserialize_template new_template_data trim is_valid_email bytes_eq split
enqueue_run = refl

enqueued_again :
    IsValid queued_outbox
    × (enqueue_notification queued_outbox 95
          (codes " call-1")
          none
          none
          call_summary
          (codes "owner@example.com")
          template
          (at 100)
        ≡ ok (queued_row, queued_outbox))
enqueued_again =
    enqueue_notification_twice empty_outbox 90 95 (codes " call-1") none none call_summary
      (codes "owner@example.com") template (at 100) queued_row queued_outbox empty_outbox-IsValid
      template-built enqueue_run

enqueue_notification_twice_example :
    IsValid queued_outbox
    × (enqueue_notification queued_outbox 95
          (codes " call-1")
          none
          none
          call_summary
          (codes "owner@example.com")
          template
          (at 100)
        ≡ ok (queued_row, queued_outbox))
enqueue_notification_twice_example =
    enqueue_notification_twice empty_outbox 90 95 (codes " call-1") none none call_summary
      (codes "owner@example.com") template (at 100) queued_row queued_outbox empty_outbox-IsValid
      template-built enqueue_run

enqueue_notification_once_example :
    (queued_row ≡ queued_row)
    × (queued_outbox ≡ queued_outbox)
    × (call_summary ≡ call_summary)
    × (codes "owner@example.com" ≡ codes "owner@example.com")
    × (template ≡ template)
    × ((at 100).instant ≡ (at 100).instant)
    × (to_id none ≡ to_id none)
    × (to_id none ≡ to_id none)
enqueue_notification_once_example =
    enqueue_notification_once empty_outbox 90 95 (codes " call-1") (codes " call-1") none none none
      none call_summary call_summary (codes "owner@example.com") (codes "owner@example.com")
      template template (at 100) (at 100) queued_row queued_row queued_outbox queued_outbox
      empty_outbox-IsValid template-built template-built refl enqueue_run enqueued_again.1

step-IsMoved_example :
    IsMoved
      (is_deletion (claims 7 (at 200) 10 (pos 60)))
      outbox
      (step 1000 outbox (claims 7 (at 200) 10 (pos 60)))
step-IsMoved_example = step-IsMoved 1000 outbox (claims 7 (at 200) 10 (pos 60)) outbox-IsValid tt

abbrev ops : List Op
ops = claims 7 (at 200) 10 (pos 60) ∷ marks 8 (pos 5) (pos 2) (at 210) ∷ []

sent_5 : state_of 5 outbox ≡ some (delivered 2)
unfolding find
sent_5 = refl

taken_2 : state_of 2 outbox ≡ some (taken 3)
unfolding find
taken_2 = refl

run-delivered_example : state_of 5 (run 1000 outbox ops) ≡ some (delivered 2)
run-delivered_example =
    run-delivered 1000 outbox ops 5 2 outbox-IsValid ((tt, refl), ((tt, refl), tt)) sent_5
