-- ===== src/Store/Table.antt =====
-- The rows of a table of src/pa/store.rs under its SQL statements: selection of one row, guarded
-- update with the number of rows changed, and a column that is UNIQUE.
use agent_voice.Common.{
  ℕ, ◌+◌, ◌≡◌, refl, sym, ap, ◌∙◌, inl, inr, Bool, true, false, ◌&&◌, if◌then◌else◌, Bool-cases,
  Option, none, some, List, [], ◌∷◌, ◌++◌, map, All, bytes_eq, bytes_eq_refl, bytes_eq→eq, arith,
}
use mathlib.Core.Option
use mathlib.Core.Path.{subst}
use agent_voice.Common.Results.{some-injective}
use agent_voice.Common.Text.{Text}

module _ {A : Type 0} where
  -- `SELECT … WHERE test` for one row.
  unfoldable pub find : (A → Bool) → List A → Option A
  find test [] = none
  find test (row ∷ rows) = let rest = find test rows in if test row then some row else rest

  abbrev pub updated_row : (A → Bool) → (A → A) → A → A
  updated_row test change row = if test row then change row else row

  -- `UPDATE … SET … WHERE test`, and the number of rows that it changes.
  abbrev pub update : (A → Bool) → (A → A) → List A → List A
  update test change = map (updated_row test change)

  unfoldable pub count : (A → Bool) → List A → ℕ
  count test [] = 0
  count test (row ∷ rows) = (if test row then 1 else 0) + count test rows

  pub find-All {κ} :
      (P : A → Type κ) (test : A → Bool) (row : A) (rows : List A)
      → All P rows
      → find test rows ≡ some row
      → P row
  unfolding find
  find-All P test row [] hs h = cc
  find-All P test row (x ∷ rows) (hx, hs) h = elim (Bool-cases (test x)) [
    | inl e ↦ let same : x ≡ row = some-injective (rw e at h) in subst P same hx
    | inr e ↦ find-All P test row rows hs (rw e at h)
  ]

  pub find_passes :
      (test : A → Bool) (row : A) (rows : List A) → find test rows ≡ some row → test row ≡ true
  unfolding find
  find_passes test row [] h = cc
  find_passes test row (x ∷ rows) h = elim (Bool-cases (test x)) [
    | inl e ↦ let same : x ≡ row = some-injective (rw e at h) in rw (← same) e
    | inr e ↦ find_passes test row rows (rw e at h)
  ]

  -- A change that the selection does not see changes what is selected.
  pub find-map :
      (test : A → Bool) (f : A → A) (rows : List A)
      → ((row : A) → test (f row) ≡ test row)
      → find test (map f rows) ≡ Option.map f (find test rows)
  unfolding find
  find-map test f [] h = refl
  find-map test f (x ∷ rows) h = elim (Bool-cases (test x)) [
    | inl e ↦ rw (h x, e) refl
    | inr e ↦ rw (h x, e) (find-map test f rows h)
  ]

  pub find-append_found :
      (test : A → Bool) (xs ys : List A) (row : A)
      → find test xs ≡ some row
      → find test (xs ++ ys) ≡ some row
  unfolding find
  find-append_found test [] ys row h = cc
  find-append_found test (x ∷ xs) ys row h = elim (Bool-cases (test x)) [
    | inl e ↦ rw e (rw e at h)
    | inr e ↦ rw e (find-append_found test xs ys row (rw e at h))
  ]

  pub find-append :
      (test : A → Bool) (xs ys : List A) → find test xs ≡ none → find test (xs ++ ys) ≡ find test ys
  unfolding find
  find-append test [] ys h = refl
  find-append test (x ∷ xs) ys h = elim (Bool-cases (test x)) [
    | inl e ↦ cc (rw e at h)
    | inr e ↦ rw e (find-append test xs ys (rw e at h))
  ]

  pub All-updated {κ} :
      (P : A → Type κ) (test : A → Bool) (change : A → A) (rows : List A)
      → ((row : A) → test row ≡ true → P row → P (change row))
      → All P rows
      → All P (update test change rows)
  All-updated P test change [] step h = tt
  All-updated P test change (x ∷ rows) step (hx, h) = elim (Bool-cases (test x)) [
    | inl e ↦ rw e (step x e hx, All-updated P test change rows step h)
    | inr e ↦ rw e (hx, All-updated P test change rows step h)
  ]

  module _ (key : A → Text) where
    abbrev pub has : Text → A → Bool
    has text row = bytes_eq (key row) text

    -- No two rows have the same text in the column.
    abbrev pub Unique : List A → Type 0
    Unique [] = Unit
    Unique (row ∷ rows) = (find (has (key row)) rows ≡ none) × Unique rows

    count-absent :
        (text : Text) (guarded : A → Bool) (rows : List A)
        → find (has text) rows ≡ none
        → count (λ row. has text row && guarded row) rows ≡ 0
    unfolding find count
    count-absent text guarded [] h = refl
    count-absent text guarded (x ∷ rows) h = elim (Bool-cases (has text x)) [
      | inl e ↦ cc (rw e at h)
      | inr e ↦ rw e (omega (arith, count-absent text guarded rows (rw e at h)))
    ]

    -- The guarded update of a selected row changes it alone.
    pub count-one :
        (text : Text) (guarded : A → Bool) (rows : List A) (row : A)
        → Unique rows
        → find (has text) rows ≡ some row
        → guarded row ≡ true
        → count (λ r. has text r && guarded r) rows ≡ 1
    unfolding find count
    count-one text guarded [] row u h g = cc
    count-one text guarded (x ∷ rows) row (ux, u) h g = elim (Bool-cases (has text x)) [
      | inl e ↦
          let same : x ≡ row = some-injective (rw e at h) in
          let passes : guarded x ≡ true = rw same g in
          let absent : find (has text) rows ≡ none =
            subst (λ (t : Text). find (has t) rows ≡ none) (bytes_eq→eq (key x) text e) ux in
          rw (e, passes) (omega (arith, count-absent text guarded rows absent))
      | inr e ↦ rw e (omega (arith, count-one text guarded rows row u (rw e at h) g))
    ]

    pub Unique-map :
        (f : A → A) (rows : List A)
        → ((row : A) → key (f row) ≡ key row)
        → Unique rows
        → Unique (map f rows)
    Unique-map f [] same u = tt
    Unique-map f (x ∷ rows) same (ux, u) =
        let absent : find (has (key x)) (map f rows) ≡ none =
          find-map (has (key x)) f rows (λ r. ap (λ t. bytes_eq t (key x)) (same r))
          ∙ ap (Option.map f) ux in
        (
          subst (λ (t : Text). find (has t) (map f rows) ≡ none) (sym (same x)) absent,
          Unique-map f rows same u,
        )

    pub Unique-append :
        (rows : List A) (row : A)
        → find (has (key row)) rows ≡ none
        → Unique rows
        → Unique (rows ++ (row ∷ []))
    unfolding find
    Unique-append [] row h u = (refl, tt)
    Unique-append (x ∷ rows) row h (ux, u) = elim (Bool-cases (has (key row) x)) [
      | inl e ↦ cc (rw e at h)
      | inr e ↦
          let differs : bytes_eq (key row) (key x) ≡ false =
            elim (Bool-cases (bytes_eq (key row) (key x))) [
              | inl f ↦ cc (
                e,
                subst (λ (t : Text). bytes_eq t (key row) ≡ true) (bytes_eq→eq (key row) (key x) f)
                    (bytes_eq_refl (key row)),
              )
              | inr f ↦ f
            ] in
          (
            find-append (has (key x)) rows (row ∷ []) ux ∙ rw differs refl,
            Unique-append rows row (rw e at h) u,
          )
    ]
