-- ===== src/Store/Outbox/Valid.antt =====
-- src/pa/store.rs: the invariant of the outbox, and what the reader gives in it.
use agent_voice.Store.Table.{update}
use agent_voice.Common.{ℕ, ◌≡◌, refl, Bool, true, some, List, All}
use agent_voice.Common.Int.{pos}
use agent_voice.Common.Results.{ok}
use agent_voice.Store.Outbox.{
  StoredNotification, Database, read_row, load_notification,
  validate_stored_notification_references,
}
use agent_voice.Store.Outbox.Rows.{
  row_at, row_at-All, Ascending, Ascending-update, All-update, test,
}

-- The ids rise from 1 on, so that each row has its own, and the reader gives each row back.
pub record IsValid (db : Database) : Type 0 where
  pub ordered : Ascending 0 db.rows
  pub readable : All (λ row. read_row db row ≡ ok row) db.rows

abbrev pub with_rows : Database → List StoredNotification → Database
with_rows db rows = record db { rows = rows }

-- The database after a guarded update of one row.
abbrev pub updated :
    (StoredNotification → Bool)
    → (StoredNotification → StoredNotification)
    → Database
    → ℕ
    → Database
updated guarded change db id = with_rows db (update (test guarded id) change db.rows)

pub read_row-with_rows :
    (db : Database) (rows : List StoredNotification) (row : StoredNotification)
    → read_row (with_rows db rows) row ≡ read_row db row
unfolding read_row validate_stored_notification_references
read_row-with_rows db rows row = refl

pub load_notification_row :
    (db : Database) (id : ℕ) (row : StoredNotification)
    → IsValid db
    → row_at id db.rows ≡ some row
    → load_notification db (pos id) ≡ ok row
unfolding load_notification
load_notification_row db id row v at =
    rw at (row_at-All (λ r. read_row db r ≡ ok r) id row db.rows v.readable at)

module _ (guarded : StoredNotification → Bool) (change : StoredNotification → StoredNotification)
    (keeps : (row : StoredNotification) → (change row).id ≡ row.id) (db : Database)
    (readable : (row : StoredNotification)
      → guarded row ≡ true
      → read_row db row ≡ ok row
      → read_row db (change row) ≡ ok (change row))
    (id : ℕ) where
  pub updated-IsValid : IsValid db → IsValid (updated guarded change db id)
  unfolding read_row validate_stored_notification_references
  updated-IsValid v = record {
    ordered = Ascending-update guarded change keeps id 0 db.rows v.ordered;
    readable =
        All-update guarded change keeps id (λ row. read_row db row ≡ ok row) readable db.rows
          v.readable;
  }
