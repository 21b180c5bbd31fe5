-- ===== src/Store/Outbox/Deleted.antt =====
-- src/pa/store.rs: the moves of `delete_notification_by_id`.
use agent_voice.Store.Table.{find, count}
use agent_voice.Common.{
  ℕ, ◌≡◌, refl, ap, ◌∙◌, inl, inr, Bool, true, false, not, ◌==◌, ==_iff, Bool-cases, none, List, [],
  ◌∷◌, All-map, All-retain, retain, arith,
}
use mathlib.Core.Path.{subst}
use mathlib.Core.Option
use agent_voice.Common.Int.{ℤ}
use agent_voice.Common.Results.{ok, guard, bind_ok, ok-injective}
use agent_voice.Store.Errors.{not_found}
use agent_voice.Store.Outbox.{StoredNotification, Database, is_id, notification, read_row}
use agent_voice.Store.Outbox.Enqueue.{delete_notification_by_id}
use agent_voice.Store.Outbox.Machine.{view, Move}
use agent_voice.Store.Outbox.Moves.{IsMoved}
use agent_voice.Store.Outbox.Rows.{row_at, Ascending, Ascending-weaken}
use agent_voice.Store.Outbox.Valid.{IsValid, with_rows, read_row-with_rows}

Ascending-retain :
    (keep : StoredNotification → Bool) (b : ℕ) (rows : List StoredNotification)
    → Ascending b rows
    → Ascending b (retain keep rows)
Ascending-retain keep b [] s = tt
Ascending-retain keep b (x ∷ rows) (hx, s) = elim (Bool-cases (keep x)) [
  | inl e ↦ rw e (hx, Ascending-retain keep x.id rows s)
  | inr e ↦
      rw e (
        Ascending-weaken b x.id (retain keep rows) (omega arith)
          (Ascending-retain keep x.id rows s))
]

row_at-delete :
    (id : ℤ) (other : ℕ) (rows : List StoredNotification)
    → is_id id other ≡ false
    → row_at other (retain (λ r. not (is_id id r.id)) rows) ≡ row_at other rows
unfolding find
row_at-delete id other [] h = refl
row_at-delete id other (x ∷ rows) h = elim (Bool-cases (other == x.id)) [
  | inl e ↦
      let kept : is_id id x.id ≡ false =
        subst (λ (i : ℕ). is_id id i ≡ false) ((==_iff other x.id).0 e) h in
      rw (kept, e) refl
  | inr e ↦ elim (Bool-cases (is_id id x.id)) [
    | inl d ↦ rw (d, e) (row_at-delete id other rows h)
    | inr d ↦ rw (d, e) (row_at-delete id other rows h)
  ]
]

row_at-deleted :
    (id : ℤ) (other : ℕ) (rows : List StoredNotification)
    → is_id id other ≡ true
    → row_at other (retain (λ r. not (is_id id r.id)) rows) ≡ none
unfolding find
row_at-deleted id other [] h = refl
row_at-deleted id other (x ∷ rows) h = elim (Bool-cases (is_id id x.id)) [
  | inl d ↦ rw d (row_at-deleted id other rows h)
  | inr d ↦
      let differs : (other == x.id) ≡ false = elim (Bool-cases (other == x.id)) [
        | inl e ↦ cc (d, subst (λ (i : ℕ). is_id id i ≡ true) ((==_iff other x.id).0 e) h)
        | inr e ↦ e
      ] in
      rw (d, differs) (row_at-deleted id other rows h)
]

pub delete-IsMoved :
    (db final : Database) (id : ℤ)
    → IsValid db
    → delete_notification_by_id db id ≡ ok final
    → IsMoved true db final
unfolding delete_notification_by_id
delete-IsMoved db final id v run =
    let (_, (_, last)) =
      bind_ok (guard (not (count (λ row. is_id id row.id) db.rows == 0)) (not_found notification)) _
        run in
    let keep = λ (r : StoredNotification). not (is_id id r.id) in
    let kept = retain keep db.rows in
    subst (λ (d : Database). IsMoved true db d) (ok-injective last)
      (record {
        valid = record {
          ordered = Ascending-retain keep 0 db.rows v.ordered;
          readable =
              All-map {Q = λ r. read_row (with_rows db kept) r ≡ ok r}
                (λ r h. read_row-with_rows db kept r ∙ h) kept
                (All-retain (λ r. read_row db r ≡ ok r) keep db.rows v.readable);
        };
        moves = λ other. elim (Bool-cases (is_id id other)) [
          | inl e ↦ Move.delete refl (ap (Option.map view) (row_at-deleted id other db.rows e))
          | inr e ↦ Move.stay (ap (Option.map view) (row_at-delete id other db.rows e))
        ];
      })
