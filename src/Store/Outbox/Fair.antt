-- ===== src/Store/Outbox/Fair.antt =====
-- src/pa/store.rs: which eligible notifications a claim leaves, in the order of `claim_notifications`.
use agent_voice.Store.Table.{find, count}
use agent_voice.Common.{
  ℕ, zero, suc, ◌≤◌, ◌≡◌, ◌≢◌, refl, sym, ap, ◌∙◌, ◌⊎◌, inl, inr, Bool, true, ◌==◌, ==_iff,
  Bool-cases, some, List, [], ◌∷◌, All, All-map, All-retain, All-take, take, retain, length,
  length-map, All-mapped, All-zip, map, ◌+◌, arith,
}
use mathlib.Core.Path.{subst}
use mathlib.Core.List.{Mem, mem-cons_self, mem-cons_of_mem}
use agent_voice.Common.Int.{ℤ}
use agent_voice.Common.Results.{some-injective, ok}
use agent_voice.Common.Sort.{
  SortedFrom, SortedFrom-sort_by_key, All-sort_by_key, All-of_sort_by_key, sort_by_key,
}
use agent_voice.Store.Instants.{OffsetDateTime}
use agent_voice.Store.Outbox.{StoredNotification, Database}
use agent_voice.Store.Outbox.Deliver.{
  can_claim, claimed, candidates, in_order, duration_of, claim_notifications,
}
use agent_voice.Store.Outbox.Rows.{row_at, row_at_self, row_at-id}
use agent_voice.Store.Outbox.Valid.{IsValid}
use agent_voice.Store.Outbox.Lease.{claim-run}
use agent_voice.Store.Outbox.Expected.{IsDue, leased_row, IsDue-can_claim}

-- An image is in the list of the images.
All-mem_map :
    (f : StoredNotification → StoredNotification) (xs : List StoredNotification)
    → All (λ x. Mem (f x) (map f xs)) xs
All-mem_map f [] = tt
All-mem_map f (x ∷ xs) = (
  mem-cons_self,
  All-map {Q = λ y. Mem (f y) (f x ∷ map f xs)} (λ y m. mem-cons_of_mem (f x) m) xs
      (All-mem_map f xs),
)

-- A row that passes the test is kept.
row_at-retain :
    (P : StoredNotification → Type 0) (p : StoredNotification → Bool) (id : ℕ)
    (row : StoredNotification) (rows : List StoredNotification)
    → row_at id rows ≡ some row
    → p row ≡ true
    → All P (retain p rows)
    → P row
unfolding find
row_at-retain P p id row [] at g h = cc
row_at-retain P p id row (x ∷ rows) at g h = elim (Bool-cases (id == x.id)) [
  | inl e ↦
      let same : x ≡ row = some-injective (rw e at at) in
      let passes : p x ≡ true = rw same g in
      let (px, _) : P x × All P (retain p rows) = rw passes at h in subst P same px
  | inr e ↦ elim (Bool-cases (p x)) [
    | inl f ↦
        let (_, later) : P x × All P (retain p rows) = rw f at h in
        row_at-retain P p id row rows (rw e at at) g later
    | inr f ↦ row_at-retain P p id row rows (rw e at at) g (rw f at h)
  ]
]

abbrev when : StoredNotification → ℕ
when row = row.available_at

module _ (rows : List StoredNotification) (id : ℕ) (row : StoredNotification)
    (at : row_at id rows ≡ some row) where
  abbrev pub IsRow : StoredNotification → Type 0
  IsRow r = row_at r.id rows ≡ some r

  abbrev pub Absent : List StoredNotification → Type 0
  Absent xs = All (λ r. r.id ≢ id) xs

  is_row : (r : StoredNotification) → IsRow r → r.id ≡ id → r ≡ row
  is_row r found same =
      some-injective (sym (subst (λ (i : ℕ). row_at i rows ≡ some r) same found) ∙ at)

  -- In a sorted list the row is absent or no earlier than the list's bound.
  missing_or_late :
      (b : ℕ) (xs : List StoredNotification)
      → SortedFrom when b xs
      → All IsRow xs
      → Absent xs ⊎ (b ≤ row.available_at)
  missing_or_late b [] s h = inl tt
  missing_or_late b (x ∷ xs) (le, s) (hx, h) = elim (Bool-cases (x.id == id)) [
    | inl e ↦
        let same = is_row x hx ((==_iff x.id id).0 e) in
        inr (subst (λ (r : StoredNotification). b ≤ r.available_at) same le)
    | inr e ↦ elim (missing_or_late x.available_at xs s h) [
      | inl a ↦ inl ((λ eq. cc (e, (==_iff x.id id).1 eq)), a)
      | inr later ↦ inr (omega arith)
    ]
  ]

  -- A row that the first `n` do not hold is absent, or they are `n` and none of them is later.
  missing_or_behind :
      (n b : ℕ) (xs : List StoredNotification)
      → SortedFrom when b xs
      → All IsRow xs
      → Absent (take n xs)
      → Absent xs
        ⊎ ((length (take n xs) ≡ n) × All (λ r. r.available_at ≤ row.available_at) (take n xs))
  missing_or_behind zero b xs s h a = inr (refl, tt)
  missing_or_behind (suc n) b [] s h a = inl tt
  missing_or_behind (suc n) b (x ∷ xs) (le, s) (hx, h) (ax, a) =
      elim (missing_or_behind n x.available_at xs s h a) [
        | inl absent ↦ inl (ax, absent)
        | inr (count, early) ↦ elim (missing_or_late x.available_at xs s h) [
          | inl absent ↦ inl (ax, absent)
          | inr later ↦ inr (ap suc count, (later, early))
        ]
      ]

  pub has_or_missing :
      (xs : List StoredNotification) (P : StoredNotification → Type 0)
      → All IsRow xs
      → All P xs
      → Absent xs ⊎ P row
  has_or_missing [] P h p = inl tt
  has_or_missing (x ∷ xs) P (hx, h) (px, p) = elim (Bool-cases (x.id == id)) [
    | inl e ↦ inr (subst P (is_row x hx ((==_iff x.id id).0 e)) px)
    | inr e ↦ elim (has_or_missing xs P h p) [
      | inl a ↦ inl ((λ eq. cc (e, (==_iff x.id id).1 eq)), a)
      | inr found ↦ inr found
    ]
  ]

-- A claim of a valid outbox that succeeds passes no notification over that is due: it returns the
-- row with one attempt more and delivering until the end of the lease, which is then the row of its
-- id, or it returns as many notifications as the limit, which were all available no later.
pub claimed_or_behind :
    (latest : ℕ) (db : Database) (clock : ℕ) (now : OffsetDateTime) (limit : ℕ) (duration : ℤ)
    (out : List StoredNotification) (final : Database) (id : ℕ) (row : StoredNotification)
    → IsValid db
    → claim_notifications latest db clock now limit duration ≡ ok (out, final)
    → row_at id db.rows ≡ some row
    → IsDue now.instant row
    → (Mem (leased_row (now.instant + duration_of duration) clock row) out
        × (row_at id final.rows ≡ some (leased_row (now.instant + duration_of duration) clock row)))
      ⊎ ((length out ≡ limit) × All (λ r. r.available_at ≤ row.available_at) out)
unfolding candidates in_order claimed
claimed_or_behind latest db clock now limit duration out final id row v run at due =
    let until = now.instant + duration_of duration in
    let (c, outs, same) = claim-run latest db clock now limit duration out final v run in
    let eligible = IsDue-can_claim now.instant row due in
    let eligibles = retain (can_claim now.instant) db.rows in
    let by_id = sort_by_key (λ (r : StoredNotification). r.id) eligibles in
    let sorted = sort_by_key when by_id in
    let Is = IsRow db.rows id row at in
    let own : All Is db.rows = All-map (λ r h. h.1) db.rows (row_at_self 0 db.rows v.ordered) in
    let found : All Is sorted = All-sort_by_key when Is by_id (
      All-sort_by_key (λ r. r.id) Is eligibles
        (All-retain Is (can_claim now.instant) db.rows own)) in
    let some_chosen : All Is (take limit sorted) = All-take Is limit sorted found in
    let given = All-mem_map (claimed until clock) (take limit sorted) in
    let chosen =
      All-zip
        {R = λ r.
          Mem (claimed until clock r) (map (claimed until clock) (take limit sorted))
          × (row_at r.id c.final.rows ≡ some (claimed until clock r))}
        (λ r m t. (m, t)) (take limit sorted) given c.taken in
    elim (has_or_missing db.rows id row at (take limit sorted)
      (λ r.
        Mem (claimed until clock r) (map (claimed until clock) (take limit sorted))
        × (row_at r.id c.final.rows ≡ some (claimed until clock r)))
      some_chosen chosen) [
        | inr (mem, taken) ↦ inl (
          subst (λ (xs : List StoredNotification). Mem (leased_row until clock row) xs) (sym outs)
              mem,
          subst (λ (d : Database). row_at id d.rows ≡ some (leased_row until clock row)) (sym same)
              (subst (λ (i : ℕ). row_at i c.final.rows ≡ some (leased_row until clock row))
                (row_at-id id row db.rows at) taken),
        )
        | inl absent ↦
            elim (missing_or_behind db.rows id row at limit 0 sorted
              (SortedFrom-sort_by_key when by_id) found absent) [
                | inr (count, early) ↦ inr (
                  rw outs (length-map (claimed until clock) (take limit sorted) ∙ count),
                  rw outs (
                      All-mapped (λ r. r.available_at ≤ row.available_at) (claimed until clock)
                        (take limit sorted) early),
                )
                | inl nowhere ↦
                    let gone =
                      All-of_sort_by_key (λ r. r.id) (λ r. r.id ≢ id) eligibles
                        (All-of_sort_by_key when (λ r. r.id ≢ id) by_id nowhere) in
                    absurd (
                      row_at-retain (λ r. r.id ≢ id) (can_claim now.instant) id row db.rows at
                        eligible gone (row_at-id id row db.rows at))
              ]
      ]
