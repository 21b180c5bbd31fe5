-- ===== src/Store/Outbox/Moves.antt =====
-- src/pa/store.rs: each operation of the outbox moves each notification by one move at most.
use agent_voice.Store.Table.{find}
use agent_voice.Common.{
  ℕ, ◌+◌, ◌≡◌, ◌≢◌, refl, sym, ap, ◌∙◌, inl, inr, Bool, true, false, ◌==◌, Bool-cases, Option-cases,
  Option, none, some, List, [], ◌∷◌, ◌++◌, All, All-map, All-zip,
}
use mathlib.Core.Path.{subst}
use mathlib.Core.Option
use agent_voice.Common.Int.{ℤ, pos}
use agent_voice.Common.Results.{ok}
use agent_voice.Common.Text.{Text}
use agent_voice.Store.Instants.{OffsetDateTime}
use agent_voice.Store.Names.{NotificationKind, NotificationStatus, waiting, delivering, sent}
use agent_voice.Store.Templates.{TemplateData, deserialize_template}
use agent_voice.Store.Outbox.{StoredNotification, Database, is_id}
use agent_voice.Store.Outbox.Candidates.{IsCandidate, candidates-IsCandidate}
use agent_voice.Store.Outbox.Deliver.{
  candidates, claim_notifications, claimed, can_claim, is_eligible, duration_of,
}
use agent_voice.Store.Outbox.Enqueue.{enqueue_notification, new_row}
use agent_voice.Store.Outbox.Fair.{has_or_missing}
use agent_voice.Store.Outbox.Insert.{insert_or_retry-cases}
use agent_voice.Store.Outbox.Lease.{claim-run}
use agent_voice.Store.Outbox.Machine.{Delivery, queued, taken, delivery, view, state_of, Move}
use agent_voice.Store.Outbox.Requests.{enqueue-parts, IsRequest-row_for, row_for}
use agent_voice.Store.Outbox.Rows.{row_at, row_at-id}
use agent_voice.Store.Outbox.Valid.{IsValid, with_rows}

-- A valid outbox in which each notification has moved by one move at most.
pub record IsMoved (deletion : Bool) (db final : Database) : Type 0 where
  pub valid : IsValid final
  pub moves : (id : ℕ) → Move deletion (state_of id db) (state_of id final)

pub IsMoved-same :
    {deletion : Bool} (db final : Database) → final ≡ db → IsValid db → IsMoved deletion db final
IsMoved-same {deletion} db final same v =
    subst (λ (d : Database). IsMoved deletion db d) (sym same)
      (record { valid = v; moves = λ id. Move.stay refl })

find-append :
    (test : StoredNotification → Bool) (xs ys : List StoredNotification)
    → find test xs ≡ none
    → find test (xs ++ ys) ≡ find test ys
unfolding find
find-append test [] ys h = refl
find-append test (x ∷ xs) ys h = elim (Bool-cases (test x)) [
  | inl e ↦ cc (rw e at h)
  | inr e ↦ rw e (find-append test xs ys (rw e at h))
]

find-append_found :
    (test : StoredNotification → Bool) (xs ys : List StoredNotification) (row : StoredNotification)
    → find test xs ≡ some row
    → find test (xs ++ ys) ≡ some row
unfolding find
find-append_found test [] ys row h = cc
find-append_found test (x ∷ xs) ys row h = elim (Bool-cases (test x)) [
  | inl e ↦ rw e (rw e at h)
  | inr e ↦ rw e (find-append_found test xs ys row (rw e at h))
]

-- A new row enters the queue.
append-moves :
    (db : Database) (row : StoredNotification) (id : ℕ)
    → view row ≡ queued 0
    → Move false (state_of id db) (state_of id (with_rows db (db.rows ++ (row ∷ []))))
unfolding find
append-moves db row id new = elim (Option-cases (row_at id db.rows)) [
  | inl absent ↦
      let rest = find-append (λ r. is_id (pos id) r.id) db.rows (row ∷ []) absent in
      elim (Bool-cases (id == row.id)) [
        | inl e ↦
            Move.enqueue (ap (Option.map view) absent)
              (ap (Option.map view) rest ∙ rw e (ap some new))
        | inr e ↦ Move.stay (ap (Option.map view) rest ∙ rw e (sym (ap (Option.map view) absent)))
      ]
  | inr (old, found) ↦
      let kept = find-append_found (λ r. is_id (pos id) r.id) db.rows (row ∷ []) old found in
      Move.stay (ap (Option.map view) (kept ∙ sym found))
]

pub enqueue-IsMoved :
    (db : Database) (clock : ℕ) (key : Text) (proposal mapping : Option ℤ) (kind : NotificationKind)
    (recipient : Text) (template : TemplateData) (available_at : OffsetDateTime)
    (stored : StoredNotification) (final : Database)
    → IsValid db
    → deserialize_template template ≡ ok template
    → enqueue_notification db clock key proposal mapping kind recipient template available_at
      ≡ ok (stored, final)
    → IsMoved false db final
unfolding new_row
enqueue-IsMoved db clock key proposal mapping kind recipient template available_at stored final v
      built run =
    let (text, (named, (_, inserted))) =
      enqueue-parts clock key proposal mapping kind recipient template available_at db
        (stored, final) run in
    let row = row_for clock key proposal mapping kind recipient template available_at db text in
    elim (insert_or_retry-cases db row stored final v
      (IsRequest-row_for clock key proposal mapping kind recipient template available_at db text
        named built)
      refl inserted) [
        | inl (absent, (own, (same, valid))) ↦ record {
          valid = valid;
          moves = λ id.
              subst (λ (d : Database). Move false (state_of id db) (state_of id d)) (sym same)
                (append-moves db row id refl);
        }
        | inr (found, (same, exact)) ↦ IsMoved-same db final same v
      ]

-- An eligible row is queued or taken.
claimed-Move :
    (now available attempts : ℕ) (lease : Option ℕ) (status : NotificationStatus)
    (d e : Option Delivery)
    → is_eligible now status available lease ≡ true
    → d ≡ some (delivery status attempts)
    → e ≡ some (taken (attempts + 1))
    → Move false d e
unfolding is_eligible
claimed-Move now available attempts lease waiting d e g before after =
    Move.claim attempts before after
claimed-Move now available attempts lease delivering d e g before after =
    Move.reclaim attempts before after
claimed-Move now available attempts lease sent d e g before after = cc

pub claim-IsMoved :
    (latest : ℕ) (db : Database) (clock : ℕ) (now : OffsetDateTime) (limit : ℕ) (duration : ℤ)
    (out : List StoredNotification) (final : Database)
    → IsValid db
    → claim_notifications latest db clock now limit duration ≡ ok (out, final)
    → IsMoved false db final
unfolding claimed
claim-IsMoved latest db clock now limit duration out final v run =
    let (c, _, same) = claim-run latest db clock now limit duration out final v run in
    let chosen = candidates now.instant limit db.rows in
    let until = now.instant + duration_of duration in
    let are = candidates-IsCandidate now.instant db limit v in
    let own = All-map {Q = λ r. row_at r.id db.rows ≡ some r} (λ r h. h.0) chosen are in
    let took : All
        (λ r.
          (row_at r.id c.final.rows ≡ some (claimed until clock r))
          × (can_claim now.instant r ≡ true))
        chosen =
      All-zip
        (λ (r : StoredNotification) (t : row_at r.id c.final.rows ≡ some (claimed until clock r))
            (h : IsCandidate now.instant db r).
          (t, h.1))
        chosen c.taken are in
    subst (λ (d : Database). IsMoved false db d) (sym same)
      (record {
        valid = c.valid;
        moves = λ id. elim (Option-cases (row_at id db.rows)) [
          | inl absent ↦
              let apart : All (λ r. r.id ≢ id) chosen =
                All-map {Q = λ r. r.id ≢ id}
                  (λ r h e. cc (sym absent ∙ subst (λ (i : ℕ). row_at i db.rows ≡ some r) e h))
                  chosen own in
              Move.stay (ap (Option.map view) (c.others id apart))
          | inr (row, at) ↦ elim (has_or_missing db.rows id row at chosen _ own took) [
            | inl apart ↦ Move.stay (ap (Option.map view) (c.others id apart))
            | inr (taken_row, eligible) ↦
                let there =
                  subst (λ (i : ℕ). row_at i c.final.rows ≡ some (claimed until clock row))
                    (row_at-id id row db.rows at) taken_row in
                claimed-Move now.instant row.available_at row.attempts row.lease_until row.status _
                  _ eligible (ap (Option.map view) at) (ap (Option.map view) there)
          ]
        ];
      })
