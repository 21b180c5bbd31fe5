-- ===== src/Store/Outbox/Candidates.antt =====
-- src/pa/store.rs: the candidates that `claim_notifications` selects.
use agent_voice.Common.{
  ℕ, ◌<◌, ◌≡◌, ◌≢◌, true, some, List, [], ◌∷◌, All, All-zip, All-map, All-take, All-retain,
  All-retained, retain, arith,
}
use agent_voice.Common.Distinct.{Distinct, Distinct-retain, Distinct-sort_by_key, Distinct-take}
use agent_voice.Common.Sort.{All-sort_by_key}
use agent_voice.Store.Outbox.{StoredNotification, Database}
use agent_voice.Store.Outbox.Deliver.{can_claim, candidates, in_order}
use agent_voice.Store.Outbox.Rows.{row_at, row_at_self, Ascending}
use agent_voice.Store.Outbox.Valid.{IsValid}

abbrev pub IsCandidate : ℕ → Database → StoredNotification → Type 0
IsCandidate now db row = (row_at row.id db.rows ≡ some row) × (can_claim now row ≡ true)

module _ (now : ℕ) where
  pub candidates-All {κ} :
      (P : StoredNotification → Type κ) (limit : ℕ) (rows : List StoredNotification)
      → All P rows
      → All (λ row. P row × (can_claim now row ≡ true)) (candidates now limit rows)
  unfolding candidates in_order
  candidates-All P limit rows h =
      let Q = λ (row : StoredNotification). P row × (can_claim now row ≡ true) in
      let eligible : All Q (retain (can_claim now) rows) =
        All-zip (λ r p g. (p, g)) (retain (can_claim now) rows)
          (All-retain P (can_claim now) rows h) (All-retained (can_claim now) rows) in
      All-take Q limit _ (
        All-sort_by_key (λ row. row.available_at) Q _
          (All-sort_by_key (λ row. row.id) Q _ eligible))

  Distinct-Ascending :
      (b : ℕ) (rows : List StoredNotification)
      → Ascending b rows
      → All (λ row. b < row.id) rows × Distinct (λ row. row.id) rows
  Distinct-Ascending b [] s = (tt, tt)
  Distinct-Ascending b (row ∷ rows) (h, s) =
      let (above, d) = Distinct-Ascending row.id rows s in
      (
        (h, All-map {Q = λ r. b < r.id} (λ r above. omega arith) rows above),
        (All-map {Q = λ r. row.id ≢ r.id} (λ r above e. omega arith) rows above, d),
      )

  -- The candidates of a valid outbox are rows of their own ids, each once.
  pub candidates-IsCandidate :
      (db : Database) (limit : ℕ)
      → IsValid db
      → All (IsCandidate now db) (candidates now limit db.rows)
  candidates-IsCandidate db limit v =
      candidates-All (λ row. row_at row.id db.rows ≡ some row) limit db.rows
        (All-map {Q = λ row. row_at row.id db.rows ≡ some row} (λ row h. h.1) db.rows
          (row_at_self 0 db.rows v.ordered))

  pub candidates-Distinct :
      (db : Database) (limit : ℕ)
      → IsValid db
      → Distinct (λ row. row.id) (candidates now limit db.rows)
  unfolding candidates in_order
  candidates-Distinct db limit v =
      let distinct = (Distinct-Ascending 0 db.rows v.ordered).1 in
      Distinct-take (λ row. row.id) limit _
        (Distinct-sort_by_key (λ row. row.id) (λ row. row.available_at) _
          (Distinct-sort_by_key (λ row. row.id) (λ row. row.id) _
            (Distinct-retain (λ row. row.id) (can_claim now) db.rows distinct)))
