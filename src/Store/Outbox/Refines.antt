-- ===== src/Store/Outbox/Refines.antt =====
-- src/pa/store.rs: every call of an outbox operation, failing or not, is a move of each
-- notification, and what follows for any sequence of calls.
use agent_voice.Common.{
  ℕ, ◌+◌, ◌≤◌, ◌≡◌, refl, sym, ◌∙◌, inl, inr, Bool, false, Option, some, List, [], ◌∷◌, All, arith,
}
use mathlib.Core.Path.{subst}
use agent_voice.Common.Results.{ok, Result-cases, some-injective}
use agent_voice.Store.Templates.{deserialize_template}
use agent_voice.Store.Outbox.{Database}
use agent_voice.Store.Outbox.Deliver.{
  claim_notifications, mark_notification_sent, reschedule_notification,
}
use agent_voice.Store.Outbox.Enqueue.{enqueue_notification, delete_notification_by_id}
use agent_voice.Store.Outbox.Finished.{mark-IsMoved, reschedule-IsMoved}
use agent_voice.Store.Outbox.Deleted.{delete-IsMoved}
use agent_voice.Store.Outbox.Machine.{
  Delivery, queued, taken, delivered, state_of, Move, Op, enqueues, claims, marks, reschedules,
  deletes, is_deletion, step,
}
use agent_voice.Store.Outbox.Moves.{IsMoved, IsMoved-same, enqueue-IsMoved, claim-IsMoved}
use agent_voice.Store.Outbox.Valid.{IsValid}

-- A template in a call was built by its constructor, as its type ensures.
abbrev IsCall : Op → Type 0
IsCall (enqueues clock key proposal mapping kind recipient template available_at) =
    deserialize_template template ≡ ok template
IsCall (claims clock now limit duration) = Unit
IsCall (marks clock id attempt sent_at) = Unit
IsCall (reschedules clock id attempt available_at code) = Unit
IsCall (deletes id) = Unit

-- Whatever the call, and whether it succeeds or fails, a valid outbox stays valid and the call
-- moves every notification by one move of the delivery machine or leaves it where it is. The template
-- of an enqueued notification is one that its constructor built.
pub step-IsMoved :
    (latest : ℕ) (db : Database) (op : Op)
    → IsValid db
    → IsCall op
    → IsMoved (is_deletion op) db (step latest db op)
unfolding step
step-IsMoved latest db (enqueues clock key proposal mapping kind recipient template available_at) v
      built =
    elim (Result-cases
      (enqueue_notification db clock key proposal mapping kind recipient template available_at)) [
        | inl ((stored, final), run) ↦ rw run (
            enqueue-IsMoved db clock key proposal mapping kind recipient template available_at
              stored final v built run)
        | inr (e, run) ↦ rw run (IsMoved-same db db refl v)
      ]
step-IsMoved latest db (claims clock now limit duration) v _ =
    elim (Result-cases (claim_notifications latest db clock now limit duration)) [
      | inl ((out, final), run) ↦
          rw run (claim-IsMoved latest db clock now limit duration out final v run)
      | inr (e, run) ↦ rw run (IsMoved-same db db refl v)
    ]
step-IsMoved latest db (marks clock id attempt sent_at) v _ =
    elim (Result-cases (mark_notification_sent db clock id attempt sent_at)) [
      | inl ((row, final), run) ↦
          rw run (mark-IsMoved db clock id attempt sent_at (row, final) v run)
      | inr (e, run) ↦ rw run (IsMoved-same db db refl v)
    ]
step-IsMoved latest db (reschedules clock id attempt available_at code) v _ =
    elim (Result-cases (reschedule_notification db clock id attempt available_at code)) [
      | inl ((row, final), run) ↦
          rw run (reschedule-IsMoved db clock id attempt available_at code (row, final) v run)
      | inr (e, run) ↦ rw run (IsMoved-same db db refl v)
    ]
step-IsMoved latest db (deletes id) v _ = elim (Result-cases (delete_notification_by_id db id)) [
  | inl (final, run) ↦ rw run (delete-IsMoved db final id v run)
  | inr (e, run) ↦ rw run (IsMoved-same db db refl v)
]

-- The outbox after calls in turn.
unfoldable pub run : ℕ → Database → List Op → Database
run latest db [] = db
run latest db (op ∷ ops) = run latest (step latest db op) ops

run-IsValid :
    (latest : ℕ) (db : Database) (ops : List Op)
    → IsValid db
    → All IsCall ops
    → IsValid (run latest db ops)
unfolding run
run-IsValid latest db [] v h = v
run-IsValid latest db (op ∷ ops) v (hop, h) =
    run-IsValid latest (step latest db op) ops (step-IsMoved latest db op v hop).valid h

abbrev attempts_of : Delivery → ℕ
attempts_of (queued n) = n
attempts_of (taken n) = n
attempts_of (delivered n) = n

-- What a move that is no deletion makes of a notification in the table.
abbrev Grows : Delivery → Option Delivery → Type 0
Grows d final = (e : Delivery) × ((final ≡ some e) × (attempts_of d ≤ attempts_of e))

Move-Grows :
    (d : Delivery) (before final : Option Delivery)
    → Move false before final
    → before ≡ some d
    → Grows d final
Move-Grows d before final (Move.stay e) h = (d, (e ∙ h, omega arith))
Move-Grows d before final (Move.enqueue e f) h = cc (sym e ∙ h)
Move-Grows d before final (Move.claim n e f) h =
    let same : d ≡ queued n = some-injective (sym h ∙ e) in
    (taken (n + 1), (f, rw same (omega arith)))
Move-Grows d before final (Move.reclaim n e f) h =
    let same : d ≡ taken n = some-injective (sym h ∙ e) in
    (taken (n + 1), (f, rw same (omega arith)))
Move-Grows d before final (Move.finish n e f) h =
    let same : d ≡ taken n = some-injective (sym h ∙ e) in (delivered n, (f, rw same (omega arith)))
Move-Grows d before final (Move.retry n e f) h =
    let same : d ≡ taken n = some-injective (sym h ∙ e) in (queued n, (f, rw same (omega arith)))
Move-Grows d before final (Move.delete e f) h = cc

Move-delivered :
    (n : ℕ) (before final : Option Delivery)
    → Move false before final
    → before ≡ some (delivered n)
    → final ≡ some (delivered n)
Move-delivered n before final (Move.stay e) h = e ∙ h
Move-delivered n before final (Move.enqueue e f) h = cc (sym e ∙ h)
Move-delivered n before final (Move.claim m e f) h = cc (sym e ∙ h)
Move-delivered n before final (Move.reclaim m e f) h = cc (sym e ∙ h)
Move-delivered n before final (Move.finish m e f) h = cc (sym e ∙ h)
Move-delivered n before final (Move.retry m e f) h = cc (sym e ∙ h)
Move-delivered n before final (Move.delete e f) h = cc

-- A call that is no deletion.
abbrev IsKept : Op → Type 0
IsKept op = IsCall op × (is_deletion op ≡ false)

kept-Move :
    (latest : ℕ) (db : Database) (op : Op) (id : ℕ)
    → IsValid db
    → IsKept op
    → Move false (state_of id db) (state_of id (step latest db op))
kept-Move latest db op id v (call, kept) =
    subst (λ (b : Bool). Move b (state_of id db) (state_of id (step latest db op))) kept
      ((step-IsMoved latest db op v call).moves id)

-- A delivered notification of a valid outbox is final: no sequence of calls without a deletion, by any
-- workers and failing or not, changes its state or its attempts. The templates are built by their
-- constructor.
pub run-delivered :
    (latest : ℕ) (db : Database) (ops : List Op) (id n : ℕ)
    → IsValid db
    → All IsKept ops
    → state_of id db ≡ some (delivered n)
    → state_of id (run latest db ops) ≡ some (delivered n)
unfolding run
run-delivered latest db [] id n v h done = done
run-delivered latest db (op ∷ ops) id n v (kept, h) done =
    run-delivered latest (step latest db op) ops id n (step-IsMoved latest db op v kept.0).valid h
      (Move-delivered n _ _ (kept-Move latest db op id v kept) done)

-- Attempts are never taken back: through any sequence of calls without a deletion a notification
-- stays in the table, and the number of its attempts does not fall.
run-attempts :
    (latest : ℕ) (db : Database) (ops : List Op) (id : ℕ) (d : Delivery)
    → IsValid db
    → All IsKept ops
    → state_of id db ≡ some d
    → (e : Delivery) × (state_of id (run latest db ops) ≡ some e) × (attempts_of d ≤ attempts_of e)
unfolding run
run-attempts latest db [] id d v h at = (d, at, omega arith)
run-attempts latest db (op ∷ ops) id d v (kept, h) at =
    let (e, (moved, grew)) = Move-Grows d _ _ (kept-Move latest db op id v kept) at in
    let (last, there, more) =
      run-attempts latest (step latest db op) ops id e (step-IsMoved latest db op v kept.0).valid h
        moved in
    (last, there, omega arith)
