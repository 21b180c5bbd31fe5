-- ===== src/Store/Outbox/Leased.antt =====
-- src/pa/store.rs: the rows that `claim_notifications` returns.
use agent_voice.Common.{
  ℕ, ◌≤◌, ◌≡◌, ◌≢◌, refl, some, List, map, All, All-mapped, All-map, All-of_map, retain, length,
  length-map, length-take-le, arith,
}
use agent_voice.Store.Outbox.{StoredNotification, Database}
use agent_voice.Store.Outbox.Deliver.{can_claim, claimed, candidates, in_order}
use agent_voice.Store.Outbox.Rows.{row_at}
use agent_voice.Store.Outbox.Expected.{IsDue, leased_row, can_claim-IsDue}
use agent_voice.Common.Sort.{
  sort_by_key, SortedFrom, SortedFrom-sort_by_key, SortedFrom-take, SortedFrom-map,
}
use agent_voice.Store.Outbox.Valid.{IsValid}
use agent_voice.Store.Outbox.Candidates.{IsCandidate, candidates-IsCandidate}

module _ (now until clock limit : ℕ) (db : Database) where
  abbrev pub claimed_rows : List StoredNotification
  claimed_rows = map (claimed until clock) (candidates now limit db.rows)

  pub claimed_rows-bounded : length claimed_rows ≤ limit
  unfolding candidates
  claimed_rows-bounded = omega (
    arith,
    length-map (claimed until clock) (candidates now limit db.rows),
    length-take-le limit (in_order (retain (can_claim now) db.rows)),
  )

  pub claimed_rows-sorted : SortedFrom (λ r. r.available_at) 0 claimed_rows
  unfolding candidates in_order claimed
  claimed_rows-sorted =
      SortedFrom-map (λ r. r.available_at) (claimed until clock) (λ r. refl) 0 _
        (SortedFrom-take (λ r. r.available_at) limit 0 _
          (SortedFrom-sort_by_key (λ r. r.available_at)
            (sort_by_key (λ r. r.id) (retain (can_claim now) db.rows))))

  pub claimed_rows-leased :
      IsValid db
      → All
          (λ r.
            (row : StoredNotification) × ((row_at r.id db.rows ≡ some row)
              × (IsDue now row × (r ≡ leased_row until clock row))))
          claimed_rows
  unfolding claimed
  claimed_rows-leased v =
      All-mapped
        (λ r.
          (row : StoredNotification) × ((row_at r.id db.rows ≡ some row)
            × (IsDue now row × (r ≡ leased_row until clock row))))
        (claimed until clock) (candidates now limit db.rows)
        (All-map
          {Q = λ row.
            (old : StoredNotification) × ((row_at row.id db.rows ≡ some old)
              × (IsDue now old × (claimed until clock row ≡ leased_row until clock old)))}
          (λ row (c : IsCandidate now db row). (row, (c.0, (can_claim-IsDue now row c.1, refl))))
          (candidates now limit db.rows) (candidates-IsCandidate now db limit v))

  -- The returned rows have the ids of the candidates.
  pub claimed_rows-apart :
      (id : ℕ)
      → All (λ r. r.id ≢ id) claimed_rows
      → All (λ r. r.id ≢ id) (candidates now limit db.rows)
  unfolding claimed
  claimed_rows-apart id =
      All-of_map (λ r. r.id ≢ id) (claimed until clock) (candidates now limit db.rows)

  pub claimed_rows-taken :
      (final : Database)
      → All
          (λ row. row_at row.id final.rows ≡ some (claimed until clock row))
          (candidates now limit db.rows)
      → All (λ r. row_at r.id final.rows ≡ some r) claimed_rows
  unfolding claimed
  claimed_rows-taken final =
      All-mapped (λ r. row_at r.id final.rows ≡ some r) (claimed until clock)
        (candidates now limit db.rows)
