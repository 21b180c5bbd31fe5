-- ===== src/Store/Outbox/Claim.antt =====
-- src/pa/store.rs: a run of `claim_notifications`.
use agent_voice.Common.{
  ℕ, ◌+◌, ◌≡◌, ◌≢◌, refl, sym, ◌∙◌, true, none, some, List, [], ◌∷◌, map, All, All-zip, All-map,
  arith,
}
use agent_voice.Common.Distinct.{Distinct}
use agent_voice.Common.Results.{ok}
use agent_voice.Store.Names.{delivering}
use agent_voice.Store.Outbox.{StoredNotification, Database, read_row, state_matches}
use agent_voice.Store.Outbox.Deliver.{can_claim, claimed, claim_one, claim_each}
use agent_voice.Store.Outbox.Readable.{read_row-with_state}
use agent_voice.Store.Outbox.Candidates.{IsCandidate}
use agent_voice.Store.Outbox.Rows.{row_at, row_at-update, row_at-update_other, count-one}
use agent_voice.Store.Outbox.Valid.{IsValid, updated, updated-IsValid, load_notification_row}

module _ (now lease_until clock : ℕ) where
  abbrev take_row : StoredNotification → StoredNotification
  take_row = claimed lease_until clock

  keeps_id : (row : StoredNotification) → (take_row row).id ≡ row.id
  unfolding claimed
  keeps_id row = refl

  claimed-readable :
      (db : Database) (row : StoredNotification)
      → can_claim now row ≡ true
      → read_row db row ≡ ok row
      → read_row db (take_row row) ≡ ok (take_row row)
  unfolding claimed
  claimed-readable db row g run =
      read_row-with_state db row delivering row.available_at (some lease_until) none none
        (row.attempts + 1) clock refl (unfold state_matches in ground arith) run

  abbrev pub after_one : Database → ℕ → Database
  after_one = updated (can_claim now) take_row

  after_one-IsValid : (db : Database) (id : ℕ) → IsValid db → IsValid (after_one db id)
  after_one-IsValid db id =
      updated-IsValid (can_claim now) take_row keeps_id db (claimed-readable db) id

  -- One round takes the row of its candidate.
  claim_one_row :
      (db : Database) (row : StoredNotification)
      → IsValid db
      → row_at row.id db.rows ≡ some row
      → can_claim now row ≡ true
      → claim_one now lease_until clock db row.id ≡ ok (take_row row, after_one db row.id)
  unfolding claim_one
  claim_one_row db row v at g =
      rw
        (
          count-one (can_claim now) take_row keeps_id row.id 0 db.rows row v.ordered at g,
          load_notification_row (after_one db row.id) row.id (take_row row)
              (after_one-IsValid db row.id v)
              (row_at-update (can_claim now) take_row keeps_id row.id db.rows row at g),
        )
        refl

  -- What the rounds over the candidates come to.
  pub record IsClaimed (db : Database) (rows : List StoredNotification) : Type 0 where
    pub final : Database
    pub runs :
        claim_each now lease_until clock db (map (λ row. row.id) rows)
        ≡ ok (map take_row rows, final)
    pub valid : IsValid final
    pub taken : All (λ row. row_at row.id final.rows ≡ some (take_row row)) rows
    pub others : (id : ℕ) → All (λ row. row.id ≢ id) rows → row_at id final.rows ≡ row_at id db.rows

  pub claim_each-IsClaimed :
      (db : Database) (rows : List StoredNotification)
      → IsValid db
      → Distinct (λ row. row.id) rows
      → All (IsCandidate now db) rows
      → IsClaimed db rows
  unfolding claim_each
  claim_each-IsClaimed db [] v d h = record {
    final = db;
    runs = refl;
    valid = v;
    taken = tt;
    others = λ id _. refl;
  }
  claim_each-IsClaimed db (row ∷ rows) v (differ, d) ((at, g), h) =
      let next = after_one db row.id in
      let kept = λ (id : ℕ) (other : row.id ≢ id).
        row_at-update_other (can_claim now) take_row keeps_id row.id id db.rows other in
      let later : All (IsCandidate now next) rows =
        All-zip
          (λ (r : StoredNotification) (n : row.id ≢ r.id) (c : IsCandidate now db r).
            (kept r.id n ∙ c.0, c.1))
          rows differ h in
      let rest = claim_each-IsClaimed next rows (after_one-IsValid db row.id v) d later in
      record {
        final = rest.final;
        runs = rw (claim_one_row db row v at g, rest.runs) refl;
        valid = rest.valid;
        taken = (
          rest.others row.id (All-map {Q = λ r. r.id ≢ row.id} (λ r n e. n (sym e)) rows differ)
              ∙ row_at-update (can_claim now) take_row keeps_id row.id db.rows row at g,
          rest.taken,
        );
        others = λ id (n, ns). rest.others id ns ∙ kept id n;
      }
