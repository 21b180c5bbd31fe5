-- ===== src/Store/Outbox/Machine.antt =====
-- What a notification goes through, as the documentation of `NotificationStatus` and of the outbox
-- operations in src/pa/store.rs says, and the operations of the outbox as calls of one function.
use agent_voice.Common.{ℕ, ◌+◌, ◌≡◌, Bool, true, false, Option, none, some}
use mathlib.Core.Option
use agent_voice.Common.Int.{ℤ}
use agent_voice.Common.Results.{ok, err}
use agent_voice.Common.Text.{Text}
use agent_voice.Store.Errors.{StoreResult}
use agent_voice.Store.Instants.{OffsetDateTime}
use agent_voice.Store.Names.{NotificationKind, NotificationStatus, waiting, delivering, sent}
use agent_voice.Store.Templates.{TemplateData}
use agent_voice.Store.Outbox.{StoredNotification, Database}
use agent_voice.Store.Outbox.Enqueue.{enqueue_notification, delete_notification_by_id}
use agent_voice.Store.Outbox.Deliver.{
  claim_notifications, mark_notification_sent, reschedule_notification,
}
use agent_voice.Store.Outbox.Rows.{row_at}

-- Queued, taken by a worker, or delivered, each with the attempts that were begun.
pub data Delivery : Type 0 where
  queued : ℕ → Delivery
  taken : ℕ → Delivery
  delivered : ℕ → Delivery

abbrev pub delivery : NotificationStatus → ℕ → Delivery
delivery waiting attempts = queued attempts
delivery delivering attempts = taken attempts
delivery sent attempts = delivered attempts

abbrev pub view : StoredNotification → Delivery
view row = delivery row.status row.attempts

-- What the table says of an id.
abbrev pub state_of : ℕ → Database → Option Delivery
state_of id db = Option.map view (row_at id db.rows)

-- The moves of one notification: each attempt is begun by a claim that takes it from the queue or
-- from a worker whose lease has ended, and ends in the delivery or back in the queue. Only a
-- deletion takes it out of the table.
pub data Move (deletion : Bool) : Option Delivery → Option Delivery → Type 0 where
  stay : {d e : Option Delivery} → e ≡ d → Move deletion d e
  enqueue : {d e : Option Delivery} → d ≡ none → e ≡ some (queued 0) → Move deletion d e
  claim :
      {d e : Option Delivery} (n : ℕ)
      → d ≡ some (queued n)
      → e ≡ some (taken (n + 1))
      → Move deletion d e
  reclaim :
      {d e : Option Delivery} (n : ℕ)
      → d ≡ some (taken n)
      → e ≡ some (taken (n + 1))
      → Move deletion d e
  finish :
      {d e : Option Delivery} (n : ℕ)
      → d ≡ some (taken n)
      → e ≡ some (delivered n)
      → Move deletion d e
  retry :
      {d e : Option Delivery} (n : ℕ) → d ≡ some (taken n) → e ≡ some (queued n) → Move deletion d e
  delete : {d e : Option Delivery} → deletion ≡ true → e ≡ none → Move deletion d e

pub data Op : Type 0 where
  enqueues :
      ℕ → Text → Option ℤ → Option ℤ → NotificationKind → Text → TemplateData → OffsetDateTime → Op
  claims : ℕ → OffsetDateTime → ℕ → ℤ → Op
  marks : ℕ → ℤ → ℤ → OffsetDateTime → Op
  reschedules : ℕ → ℤ → ℤ → OffsetDateTime → Text → Op
  deletes : ℤ → Op

abbrev pub is_deletion : Op → Bool
is_deletion (deletes id) = true
is_deletion (enqueues clock key proposal mapping kind recipient template available_at) = false
is_deletion (claims clock now limit duration) = false
is_deletion (marks clock id attempt sent_at) = false
is_deletion (reschedules clock id attempt available_at code) = false

-- A call that fails rolls its transaction back.
abbrev committed : {A : Type 0} → Database → StoreResult (A × Database) → Database
committed db (ok (a, db')) = db'
committed db (err e) = db

abbrev committed_unit : Database → StoreResult Database → Database
committed_unit db (ok db') = db'
committed_unit db (err e) = db

unfoldable pub step : ℕ → Database → Op → Database
step latest db (enqueues clock key proposal mapping kind recipient template available_at) =
    committed db
      (enqueue_notification db clock key proposal mapping kind recipient template available_at)
step latest db (claims clock now limit duration) =
    committed db (claim_notifications latest db clock now limit duration)
step latest db (marks clock id attempt sent_at) =
    committed db (mark_notification_sent db clock id attempt sent_at)
step latest db (reschedules clock id attempt available_at code) =
    committed db (reschedule_notification db clock id attempt available_at code)
step latest db (deletes id) = committed_unit db (delete_notification_by_id db id)
