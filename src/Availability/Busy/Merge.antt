-- ===== src/Availability/Busy/Merge.antt =====
-- src/pa/availability.rs: the results of `merge_busy_intervals`.
use agent_voice.Common.{
  ℕ, ◌<◌, ◌≤◌, ◌↔◌, ◌⊎◌, inl, inr, List, [], ◌∷◌, ◌++◌, leb, leb→le, All, All-append, All-of_append,
  Bool-cases, arith,
}
use agent_voice.Common.Sort.{
  sort_by_key, Sorted, SortedFrom, sort_by_key-Sorted, All-sort_by_key, All-of_sort_by_key,
  SortedFrom-weaken,
}
use agent_voice.Availability.Busy.{
  BusyInterval, starts_at_key, extend, merge_into, merge_sorted, merge_busy_intervals,
}

-- A `BusyInterval` that `new` made.
abbrev IsInterval : BusyInterval → Type 0
IsInterval i = i.starts_at < i.ends_at

-- No instant of `[start, end)` is in the interval.
abbrev pub FreeOf : ℕ → ℕ → BusyInterval → Type 0
FreeOf start end i = (end ≤ i.starts_at) ⊎ (i.ends_at ≤ start)

module _ (start end : ℕ) (proper : start < end) where
  FreeOf-extend :
      (p i : BusyInterval)
      → p.starts_at ≤ i.starts_at
      → FreeOf start end p
      → FreeOf start end i
      → i.starts_at ≤ p.ends_at
      → FreeOf start end (extend p i)
  FreeOf-extend p i o h hi touch = ground arith

  FreeOf-of_extend :
      (p i : BusyInterval)
      → p.starts_at ≤ i.starts_at
      → FreeOf start end (extend p i)
      → FreeOf start end p × FreeOf start end i
  FreeOf-of_extend p i o h = (ground arith, ground arith)

  FreeOf-merge_into :
      (p : BusyInterval) (is : List BusyInterval)
      → SortedFrom starts_at_key p.starts_at is
      → FreeOf start end p
      → All (FreeOf start end) is
      → All (FreeOf start end) (merge_into p is)
  unfolding merge_into
  FreeOf-merge_into p [] s h hs = (h, tt)
  FreeOf-merge_into p (i ∷ is) (o, s) h (hi, hs) = elim (Bool-cases (leb i.starts_at p.ends_at)) [
    | inl e ↦ rw e (
        FreeOf-merge_into (extend p i) is (SortedFrom-weaken starts_at_key _ _ is o s)
          (FreeOf-extend p i o h hi (leb→le _ _ e)) hs)
    | inr e ↦ rw e (h, FreeOf-merge_into i is s hi hs)
  ]

  FreeOf-of_merge_into :
      (p : BusyInterval) (is : List BusyInterval)
      → SortedFrom starts_at_key p.starts_at is
      → All (FreeOf start end) (merge_into p is)
      → FreeOf start end p × All (FreeOf start end) is
  unfolding merge_into
  FreeOf-of_merge_into p [] s (h, _) = (h, tt)
  FreeOf-of_merge_into p (i ∷ is) (o, s) h = elim (Bool-cases (leb i.starts_at p.ends_at)) [
    | inl e ↦
        let (hx, hs) =
          FreeOf-of_merge_into (extend p i) is (SortedFrom-weaken starts_at_key _ _ is o s)
            (rw e at h) in
        let (hp, hi) = FreeOf-of_extend p i o hx in (hp, (hi, hs))
    | inr e ↦
        let (hp, later) = rw e at h in
        let (hi, hs) = FreeOf-of_merge_into i is s later in (hp, (hi, hs))
  ]

  FreeOf-merge_sorted :
      (is : List BusyInterval)
      → Sorted starts_at_key is
      → All (FreeOf start end) (merge_sorted is) ↔ All (FreeOf start end) is
  unfolding merge_sorted
  FreeOf-merge_sorted [] s = (λ h. h, λ h. h)
  FreeOf-merge_sorted (i ∷ is) s =
      (λ h. FreeOf-of_merge_into i is s h, λ h. FreeOf-merge_into i is s h.0 h.1)

  -- A period of positive length is free of the merged intervals exactly when it is free of every
  -- interval of both calendars.
  pub FreeOf-merge_busy_intervals :
      (outlook google : List BusyInterval)
      → All (FreeOf start end) (merge_busy_intervals outlook google)
        ↔ (All (FreeOf start end) outlook × All (FreeOf start end) google)
  unfolding merge_busy_intervals
  FreeOf-merge_busy_intervals outlook google =
      let sorted = sort_by_key starts_at_key (outlook ++ google) in
      let same =
        FreeOf-merge_sorted sorted (sort_by_key-Sorted starts_at_key (outlook ++ google)) in
      (
        λ h. All-of_append _ outlook google (All-of_sort_by_key starts_at_key _ _ (same.0 h)),
        λ h. same.1 (All-sort_by_key starts_at_key _ _ (All-append _ outlook google h.0 h.1)),
      )

-- Proper intervals in order, each beginning strictly after the one before it has ended.
abbrev SeparatedFrom : ℕ → List BusyInterval → Type 0
SeparatedFrom bound [] = Unit
SeparatedFrom bound (i ∷ is) = (bound < i.starts_at) × IsInterval i × SeparatedFrom i.ends_at is

abbrev Separated : List BusyInterval → Type 0
Separated [] = Unit
Separated (i ∷ is) = IsInterval i × SeparatedFrom i.ends_at is

IsInterval-extend : (p i : BusyInterval) → IsInterval p → IsInterval (extend p i)
IsInterval-extend p i h = ground arith

SeparatedFrom-merge_into :
    (bound : ℕ) (p : BusyInterval) (is : List BusyInterval)
    → bound < p.starts_at
    → IsInterval p
    → All IsInterval is
    → SeparatedFrom bound (merge_into p is)
unfolding merge_into
SeparatedFrom-merge_into bound p [] b h _ = (b, h, tt)
SeparatedFrom-merge_into bound p (i ∷ is) b h (hi, hs) =
    elim (Bool-cases (leb i.starts_at p.ends_at)) [
      | inl e ↦ rw e (SeparatedFrom-merge_into bound (extend p i) is b (IsInterval-extend p i h) hs)
      | inr e ↦ rw e (b, h, SeparatedFrom-merge_into p.ends_at i is (ground arith) hi hs)
    ]

Separated-merge_into :
    (p : BusyInterval) (is : List BusyInterval)
    → IsInterval p
    → All IsInterval is
    → Separated (merge_into p is)
unfolding merge_into
Separated-merge_into p [] h _ = (h, tt)
Separated-merge_into p (i ∷ is) h (hi, hs) = elim (Bool-cases (leb i.starts_at p.ends_at)) [
  | inl e ↦ rw e (Separated-merge_into (extend p i) is (IsInterval-extend p i h) hs)
  | inr e ↦ rw e (h, SeparatedFrom-merge_into p.ends_at i is (ground arith) hi hs)
]

Separated-merge_sorted : (is : List BusyInterval) → All IsInterval is → Separated (merge_sorted is)
unfolding merge_sorted
Separated-merge_sorted [] _ = tt
Separated-merge_sorted (i ∷ is) (hi, hs) = Separated-merge_into i is hi hs

-- The merged intervals are proper, in order, and neither overlap nor touch, for calendars of proper
-- intervals.
Separated-merge_busy_intervals :
    (outlook google : List BusyInterval)
    → All IsInterval outlook
    → All IsInterval google
    → Separated (merge_busy_intervals outlook google)
unfolding merge_busy_intervals
Separated-merge_busy_intervals outlook google ho hg =
    Separated-merge_sorted (sort_by_key starts_at_key (outlook ++ google))
      (All-sort_by_key starts_at_key IsInterval _ (All-append IsInterval outlook google ho hg))
