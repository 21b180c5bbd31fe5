-- ===== src/Store/Paging/Complete.antt =====
-- src/pa/store.rs: reading a list page by page gives each row once, in the order of the ids.
use agent_voice.Common.{
  ℕ, zero, suc, ◌+◌, ◌<◌, ◌≤◌, ◌≡◌, refl, sym, ap, ◌∙◌, inl, inr, ltb, leb, Bool, true, false,
  Bool-cases, Option, none, some, List, [], ◌∷◌, ◌++◌, retain, take, drop, length, length-map, All,
  All-retained, All-retain, All-take, map, arith,
}
use mathlib.Core.Path.{subst}
use agent_voice.Common.Int.{ℤ, pos, negsuc}
use agent_voice.Common.Results.{ok}
use agent_voice.Store.Errors.{StoreResult}
use agent_voice.Store.Paging.{
  is_after, is_cursor, decode_each, page, Ascending, last_of, read_pages, validate_page,
}

ltb-true : (m n : ℕ) → m < n → ltb m n ≡ true
ltb-true m n h = ground arith

ltb-false : (m n : ℕ) → n ≤ m → ltb m n ≡ false
ltb-false m n h = ground arith

ltb_less : (m n : ℕ) → ltb m n ≡ true → m < n
ltb_less m n h = ground arith

module _ {A : Type 0} (id : A → ℕ) where
  take-drop : (n : ℕ) (rows : List A) → take n rows ++ drop n rows ≡ rows
  take-drop zero rows = refl
  take-drop (suc n) [] = refl
  take-drop (suc n) (row ∷ rows) = ap (λ rest. row ∷ rest) (take-drop n rows)

  length-drop : (n : ℕ) (rows : List A) → length (drop n rows) ≤ length rows
  length-drop zero rows = omega arith
  length-drop (suc n) [] = omega arith
  length-drop (suc n) (row ∷ rows) = omega (arith, length-drop n rows)

  Ascending-weaken : (b c : ℕ) (rows : List A) → b ≤ c → Ascending id c rows → Ascending id b rows
  Ascending-weaken b c [] h s = tt
  Ascending-weaken b c (row ∷ rows) h (hr, s) = (omega arith, s)

  Ascending-drop : (n b : ℕ) (rows : List A) → Ascending id b rows → Ascending id b (drop n rows)
  Ascending-drop zero b rows s = s
  Ascending-drop (suc n) b [] s = tt
  Ascending-drop (suc n) b (row ∷ rows) (hr, s) =
      Ascending-drop n b rows (Ascending-weaken b (id row) rows (omega arith) s)

  retain-above :
      (b : ℕ) (rows : List A) → Ascending id b rows → retain (λ r. ltb b (id r)) rows ≡ rows
  retain-above b [] s = refl
  retain-above b (row ∷ rows) (hr, s) = rw (ltb-true b (id row) hr) (
      ap (λ rest. row ∷ rest)
        (retain-above b rows (Ascending-weaken b (id row) rows (omega arith) s)))

  last_of-above :
      (row : A) (n : ℕ) (rows : List A)
      → Ascending id (id row) rows
      → id row ≤ id (last_of id row (take n rows))
  unfolding last_of
  last_of-above row zero rows s = omega arith
  last_of-above row (suc n) [] s = omega arith
  last_of-above row (suc n) (next ∷ rows) (hn, s) = omega (arith, last_of-above next n rows s)

  -- The rows after the last one of a page are those that the page left.
  retain-last :
      (row : A) (n : ℕ) (rows : List A)
      → Ascending id (id row) rows
      → retain (λ r. ltb (id (last_of id row (take n rows))) (id r)) (row ∷ rows) ≡ drop n rows
  unfolding last_of
  retain-last row zero rows s =
      rw (ltb-false (id row) (id row) (omega arith)) (retain-above (id row) rows s)
  retain-last row (suc n) [] s = rw (ltb-false (id row) (id row) (omega arith)) refl
  retain-last row (suc n) (next ∷ rows) (hn, s) =
      let above = last_of-above next n rows s in
      rw (ltb-false (id (last_of id next (take n rows))) (id row) (omega arith))
        (retain-last next n rows s)

  retain-twice :
      (p q : A → Bool) (rows : List A)
      → ((r : A) → p r ≡ true → q r ≡ true)
      → retain p (retain q rows) ≡ retain p rows
  retain-twice p q [] h = refl
  retain-twice p q (row ∷ rows) h = elim (Bool-cases (q row)) [
    | inl e ↦ elim (Bool-cases (p row)) [
      | inl f ↦ rw (e, f) (ap (λ rest. row ∷ rest) (retain-twice p q rows h))
      | inr f ↦ rw (e, f) (retain-twice p q rows h)
    ]
    | inr e ↦
        let out : p row ≡ false = elim (Bool-cases (p row)) [
          | inl f ↦ cc (sym e ∙ h row f)
          | inr f ↦ f
        ] in
        rw (e, out) (retain-twice p q rows h)
  ]

  after_last :
      (c : Option ℤ) (z m n : ℕ) → is_after c m ≡ true → m ≤ z → z < n → is_after c n ≡ true
  after_last none z m n h below above = refl
  after_last (some (pos k)) z m n h below above = ground arith
  after_last (some (negsuc k)) z m n h below above = refl

  first_after :
      (c : Option ℤ) (rows : List A) (row : A) (rest : List A)
      → retain (λ r. is_after c (id r)) rows ≡ row ∷ rest
      → is_after c (id row) ≡ true
  first_after c rows row rest h =
      (subst (All (λ r. is_after c (id r) ≡ true)) h (All-retained (λ r. is_after c (id r)) rows)).0

  -- A client that fetches pages of a list, one after another from the last row it has seen, gets
  -- the rows after its cursor.
  pub read_pages-rest :
      (fetch : Option ℤ → StoreResult (List A)) (rows : List A) (limit : ℕ)
      → ((c : Option ℤ) → is_cursor c ≡ true → fetch c ≡ ok (page id c (suc limit) rows))
      → (fuel b : ℕ) (c : Option ℤ) (rest : List A) → is_cursor c ≡ true
      → retain (λ r. is_after c (id r)) rows ≡ rest
      → Ascending id b rest
      → length rest < fuel
      → read_pages id fetch fuel c ≡ ok rest
  unfolding read_pages
  read_pages-rest fetch rows limit gives zero b c rest cursor left s enough = absurd (omega arith)
  read_pages-rest fetch rows limit gives (suc fuel) b c [] cursor left s enough =
      rw (gives c cursor, left) refl
  read_pages-rest fetch rows limit gives (suc fuel) b c (row ∷ rest) cursor left (hr, s) enough =
      let z = id (last_of id row (take limit rest)) in
      let above = last_of-above row limit rest s in
      let next : retain (λ r. is_after (some (pos z)) (id r)) rows ≡ drop limit rest =
        sym (
          retain-twice (λ r. ltb z (id r)) (λ r. is_after c (id r)) rows
            (λ r h.
              after_last c z (id row) (id r) (first_after c rows row rest left) above
                (ltb_less z (id r) h)))
        ∙ (ap (retain (λ r. ltb z (id r))) left ∙ retain-last row limit rest s) in
      let shorter = length-drop limit rest in
      let more =
        read_pages-rest fetch rows limit gives fuel (id row) (some (pos z)) (drop limit rest)
          (ground arith) next (Ascending-drop limit (id row) rest s) (omega arith) in
      rw (gives c cursor, left, more) (ap (λ xs. ok (row ∷ xs)) (take-drop limit rest))

  pub read_pages-all :
      (fetch : Option ℤ → StoreResult (List A)) (rows : List A) (limit : ℕ)
      → Ascending id 0 rows
      → ((c : Option ℤ) → is_cursor c ≡ true → fetch c ≡ ok (page id c (suc limit) rows))
      → read_pages id fetch (length rows + 1) none ≡ ok rows
  read_pages-all fetch rows limit s gives =
      read_pages-rest fetch rows limit gives (length rows + 1) 0 none rows refl (retain-none rows) s
        (omega arith)
    where
      retain-none : (xs : List A) → retain (λ r. true) xs ≡ xs
      retain-none [] = refl
      retain-none (x ∷ xs) = ap (λ rest. x ∷ rest) (retain-none xs)

retain-map :
    {A B : Type 0} (f : A → B) (p : B → Bool) (rows : List A)
    → retain p (map f rows) ≡ map f (retain (λ r. p (f r)) rows)
retain-map f p [] = refl
retain-map f p (row ∷ rows) = elim (Bool-cases (p (f row))) [
  | inl e ↦ rw e (ap (λ rest. f row ∷ rest) (retain-map f p rows))
  | inr e ↦ rw e (retain-map f p rows)
]

take-map :
    {A B : Type 0} (f : A → B) (n : ℕ) (rows : List A) → take n (map f rows) ≡ map f (take n rows)
take-map f zero rows = refl
take-map f (suc n) [] = refl
take-map f (suc n) (row ∷ rows) = ap (λ rest. f row ∷ rest) (take-map f n rows)

pub decode_each-map :
    {A B : Type 0} (decode : A → StoreResult B) (f : A → B) (rows : List A)
    → All (λ row. decode row ≡ ok (f row)) rows
    → decode_each decode rows ≡ ok (map f rows)
unfolding decode_each
decode_each-map decode f [] h = refl
decode_each-map decode f (row ∷ rows) (hr, h) = rw (hr, decode_each-map decode f rows h) refl

Ascending-map :
    {A B : Type 0} (f : A → B) (id : B → ℕ) (b : ℕ) (rows : List A)
    → Ascending (λ r. id (f r)) b rows
    → Ascending id b (map f rows)
Ascending-map f id b [] s = tt
Ascending-map f id b (row ∷ rows) (hr, s) = (hr, Ascending-map f id (id (f row)) rows s)

pub Ascending-retain :
    {A : Type 0} (id : A → ℕ) (p : A → Bool) (b : ℕ) (rows : List A)
    → Ascending id b rows
    → Ascending id b (retain p rows)
Ascending-retain id p b [] s = tt
Ascending-retain id p b (row ∷ rows) (hr, s) = elim (Bool-cases (p row)) [
  | inl e ↦ rw e (hr, Ascending-retain id p (id row) rows s)
  | inr e ↦ rw e (
      Ascending-weaken id b (id row) (retain p rows) (omega arith)
        (Ascending-retain id p (id row) rows s))
]

-- The same of a list whose rows are decoded one by one, each to its image.
pub read_pages-decoded :
    {A B : Type 0} (id : B → ℕ) (f : A → B) (decode : A → StoreResult B)
    (fetch : Option ℤ → StoreResult (List B)) (rows : List A) (limit : ℕ)
    → All (λ row. decode row ≡ ok (f row)) rows
    → Ascending (λ r. id (f r)) 0 rows
    → ((c : Option ℤ)
        → is_cursor c ≡ true
        → fetch c ≡ decode_each decode (page (λ r. id (f r)) c (suc limit) rows))
    → read_pages id fetch (length rows + 1) none ≡ ok (map f rows)
read_pages-decoded id f decode fetch rows limit readable s gives =
    let paged = λ (c : Option ℤ) (h : is_cursor c ≡ true).
      let kept = retain (λ r. is_after c (id (f r))) rows in
      gives c h
      ∙ (decode_each-map decode f (take (suc limit) kept) (
            All-take (λ row. decode row ≡ ok (f row)) (suc limit) kept
              (All-retain (λ row. decode row ≡ ok (f row)) (λ r. is_after c (id (f r))) rows
                readable))
          ∙ ap ok (
              sym (
                ap (take (suc limit)) (retain-map f (λ r. is_after c (id r)) rows)
                ∙ take-map f (suc limit) kept))) in
    ap (λ n. read_pages id fetch (n + 1) none) (sym (length-map f rows))
    ∙ read_pages-all id fetch (map f rows) limit (Ascending-map f id 0 rows s) paged

-- A positive limit of at most the maximum is accepted with any cursor.
pub validate_page_ok :
    (c : Option ℤ) (limit maximum : ℕ)
    → is_cursor c ≡ true
    → suc limit ≤ maximum
    → validate_page c (suc limit) maximum ≡ ok tt
unfolding validate_page
validate_page_ok c limit maximum cursor fits =
    let small : ltb maximum (suc limit) ≡ false = ground arith in
    let some_limit : leb (suc limit) 0 ≡ false = ground arith in rw (cursor, small, some_limit) refl

pub map-same : {A : Type 0} (rows : List A) → map (λ row. row) rows ≡ rows
map-same [] = refl
map-same (row ∷ rows) = ap (λ rest. row ∷ rest) (map-same rows)
