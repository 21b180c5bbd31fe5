-- ===== src/Store/Outbox/Rows.antt =====
-- src/pa/store.rs: what a guarded update of one row of the outbox does to the rows.
use agent_voice.Store.Table.{find, update, count, find-All}
use agent_voice.Common.{
  ℕ, ◌≤◌, ◌<◌, ◌≡◌, ◌≢◌, refl, sym, ap, inl, inr, Bool, true, false, ◌&&◌, ◌==◌, ==_iff, Bool-cases,
  Option, none, some, List, [], ◌∷◌, All, arith,
}
use agent_voice.Common.Int.{pos}
use agent_voice.Common.Results.{some-injective}
use agent_voice.Store.Outbox.{StoredNotification, is_id}

abbrev pub row_at : ℕ → List StoredNotification → Option StoredNotification
row_at id rows = find (λ row. is_id (pos id) row.id) rows

-- The ids rise from row to row.
abbrev pub Ascending : ℕ → List StoredNotification → Type 0
Ascending b [] = Unit
Ascending b (row ∷ rows) = (b < row.id) × Ascending row.id rows

pub Ascending-weaken :
    (b c : ℕ) (rows : List StoredNotification) → b ≤ c → Ascending c rows → Ascending b rows
Ascending-weaken b c [] h s = tt
Ascending-weaken b c (row ∷ rows) h (hr, s) = (omega arith, s)

pub row_at-id :
    (id : ℕ) (row : StoredNotification) (rows : List StoredNotification)
    → row_at id rows ≡ some row
    → row.id ≡ id
unfolding find
row_at-id id row [] h = cc
row_at-id id row (x ∷ rows) h = elim (Bool-cases (id == x.id)) [
  | inl e ↦
      let same : x ≡ row = some-injective (rw e at h) in rw (← same) (sym ((==_iff id x.id).0 e))
  | inr e ↦ row_at-id id row rows (rw e at h)
]

pub row_at-All {κ} :
    (P : StoredNotification → Type κ) (id : ℕ) (row : StoredNotification)
    (rows : List StoredNotification)
    → All P rows
    → row_at id rows ≡ some row
    → P row
row_at-All P id = find-All P (λ row. is_id (pos id) row.id)

-- No row of a table that starts above the id has it.
row_at-low :
    (id b : ℕ) (rows : List StoredNotification) → id ≤ b → Ascending b rows → row_at id rows ≡ none
unfolding find
row_at-low id b [] h s = refl
row_at-low id b (x ∷ rows) h (hx, s) = elim (Bool-cases (id == x.id)) [
  | inl e ↦ absurd (ground arith)
  | inr e ↦ rw e (row_at-low id x.id rows (omega arith) s)
]

-- Each row is found by its id.
pub row_at_self :
    (b : ℕ) (rows : List StoredNotification)
    → Ascending b rows
    → All (λ row. (b < row.id) × (row_at row.id rows ≡ some row)) rows
unfolding find
row_at_self b [] s = tt
row_at_self b (x ∷ rows) (hx, s) =
    ((hx, rw ((==_iff x.id x.id).1 refl) refl), later rows (row_at_self x.id rows s))
  where
    later :
        (ys : List StoredNotification)
        → All (λ row. (x.id < row.id) × (row_at row.id rows ≡ some row)) ys
        → All (λ row. (b < row.id) × (row_at row.id (x ∷ rows) ≡ some row)) ys
    later [] h = tt
    later (y ∷ ys) ((hy, at), h) =
        let differs : (y.id == x.id) ≡ false = ground arith in
        ((omega arith, rw differs at), later ys h)

-- The condition of a guarded update of one row.
abbrev pub test : (StoredNotification → Bool) → ℕ → StoredNotification → Bool
test guarded id row = is_id (pos id) row.id && guarded row

module _ (guarded : StoredNotification → Bool) (change : StoredNotification → StoredNotification)
    (keeps : (row : StoredNotification) → (change row).id ≡ row.id) (id : ℕ) where
  count-low :
      (b : ℕ) (rows : List StoredNotification)
      → id ≤ b
      → Ascending b rows
      → count (test guarded id) rows ≡ 0
  unfolding count
  count-low b [] h s = refl
  count-low b (x ∷ rows) h (hx, s) =
      let differs : (id == x.id) ≡ false = ground arith in
      rw differs (omega (arith, count-low x.id rows (omega arith) s))

  -- The row is the only one that the update changes.
  pub count-one :
      (b : ℕ) (rows : List StoredNotification) (row : StoredNotification)
      → Ascending b rows
      → row_at id rows ≡ some row
      → guarded row ≡ true
      → count (test guarded id) rows ≡ 1
  unfolding count find
  count-one b [] row s at g = cc
  count-one b (x ∷ rows) row (hx, s) at g = elim (Bool-cases (id == x.id)) [
    | inl e ↦
        let same : x ≡ row = some-injective (rw e at at) in
        let holds : guarded x ≡ true = rw same g in
        rw (e, holds) (omega (arith, count-low x.id rows (ground arith) s))
    | inr e ↦ rw e (omega (arith, count-one x.id rows row s (rw e at at) g))
  ]

  pub row_at-update :
      (rows : List StoredNotification) (row : StoredNotification)
      → row_at id rows ≡ some row
      → guarded row ≡ true
      → row_at id (update (test guarded id) change rows) ≡ some (change row)
  unfolding find
  row_at-update [] row at g = cc
  row_at-update (x ∷ rows) row at g = elim (Bool-cases (id == x.id)) [
    | inl e ↦
        let same : x ≡ row = some-injective (rw e at at) in
        let holds : guarded x ≡ true = rw same g in
        let found : (id == (change x).id) ≡ true = rw (keeps x) e in
        rw (e, holds, found) (ap (λ y. some (change y)) same)
    | inr e ↦ rw (e, e) (row_at-update rows row (rw e at at) g)
  ]

  pub row_at-update_other :
      (other : ℕ) (rows : List StoredNotification)
      → id ≢ other
      → row_at other (update (test guarded id) change rows) ≡ row_at other rows
  unfolding find
  row_at-update_other other [] h = refl
  row_at-update_other other (x ∷ rows) h = elim (Bool-cases (id == x.id)) [
    | inl e ↦
        let differs : (other == x.id) ≡ false = ground arith in
        elim (Bool-cases (guarded x)) [
          | inl g ↦ rw (e, g, keeps x, differs) (row_at-update_other other rows h)
          | inr g ↦ rw (e, g, differs) (row_at-update_other other rows h)
        ]
    | inr e ↦ elim (Bool-cases (other == x.id)) [
      | inl f ↦ rw (e, f) refl
      | inr f ↦ rw (e, f) (row_at-update_other other rows h)
    ]
  ]

  pub Ascending-update :
      (b : ℕ) (rows : List StoredNotification)
      → Ascending b rows
      → Ascending b (update (test guarded id) change rows)
  Ascending-update b [] s = tt
  Ascending-update b (x ∷ rows) (hx, s) = elim (Bool-cases (test guarded id x)) [
    | inl e ↦ rw (e, keeps x) (hx, Ascending-update x.id rows s)
    | inr e ↦ rw e (hx, Ascending-update x.id rows s)
  ]

  pub All-update {κ} :
      (P : StoredNotification → Type κ)
      → ((row : StoredNotification) → guarded row ≡ true → P row → P (change row))
      → (rows : List StoredNotification) → All P rows
      → All P (update (test guarded id) change rows)
  All-update P step [] h = tt
  All-update P step (x ∷ rows) (hx, hs) = elim (Bool-cases (id == x.id)) [
    | inl e ↦ elim (Bool-cases (guarded x)) [
      | inl g ↦ rw (e, g) (step x g hx, All-update P step rows hs)
      | inr g ↦ rw (e, g) (hx, All-update P step rows hs)
    ]
    | inr e ↦ rw e (hx, All-update P step rows hs)
  ]
