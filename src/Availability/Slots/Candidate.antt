-- ===== src/Availability/Slots/Candidate.antt =====
-- src/pa/availability.rs: the body of the innermost loop of `available_slots`.
use agent_voice.Common.{
  ℕ, ◌/◌, ◌%◌, ◌≤◌, ◌≡◌, refl, sym, ◌∙◌, true, false, not, ◌&&◌, ◌||◌, some, leb, ltb, ◌==◌, leb→le,
  All, All-all, arith, Bool-cases, Option-cases, inl, inr,
}
use mathlib.Core.Option.{some-injective}
use mathlib.Core.Path.{subst}
use agent_voice.Common.Results.{ok, ok-injective, Result-cases}
use agent_voice.Availability.Dates.{
  Dates, DatesLaws, LocalResult, nonexistent, single, ambiguous, day_ns,
}
use agent_voice.Availability.Busy.{BusyInterval}
use agent_voice.Availability.Busy.Merge.{FreeOf}
use agent_voice.Availability.Slots.{
  local_to_utc, earliest, candidate_ends_within_working_window, is_free, buffered_is_free, take,
  Search, judge, judge_from, consider,
}

take-injective : {s t : ℕ} → take s ≡ take t → s ≡ t
take-injective h = cc

is_free-FreeOf :
    (start end : ℕ) (i : BusyInterval) → is_free start end i ≡ true → FreeOf start end i
unfolding is_free
is_free-FreeOf start end i h = ground arith

module _ {Tz : Type 0} (d : Dates Tz) where
  -- The end of a candidate is on the date of its window, at the window's end at the latest.
  abbrev pub EndsWithin : Tz → ℕ → ℕ → ℕ → Type 0
  EndsWithin tz date window_end end =
      (d.to_local tz end / day_ns ≡ date) × (d.to_local tz end % day_ns ≤ window_end)

module _ {Tz : Type 0} (d : Dates Tz) (q : Search Tz) where
  -- With the buffer on both sides the candidate is free of the busy intervals.
  abbrev pub FreeAround : ℕ → ℕ → Type 0
  FreeAround start end =
      (buffered_start : ℕ) × (buffered_end : ℕ) × (d.checked_sub start q.buffer
        ≡ some buffered_start)
      × (d.checked_add end q.buffer ≡ some buffered_end)
      × All (FreeOf buffered_start buffered_end) q.busy

  -- What a pushed slot satisfies.
  pub record IsChosen (date window_end start : ℕ) : Type 0 where
    pub end : ℕ
    pub ends : d.checked_add start q.duration ≡ some end
    pub lead : q.lead_time ≤ start
    pub horizon : end ≤ q.horizon_end
    pub within : EndsWithin d q.timezone date window_end end
    pub free : FreeAround start end

module _ {Tz : Type 0} (d : Dates Tz) (laws : DatesLaws d) where
  earliest-local :
      (tz : Tz) (local t : ℕ) (r : LocalResult)
      → d.from_local tz local ≡ r
      → earliest r ≡ some t
      → d.to_local tz t ≡ local
  unfolding earliest
  earliest-local tz local t nonexistent e h = cc
  earliest-local tz local t (single u) e h =
      rw (← some-injective _ _ h) (laws.single_local tz local u e)
  earliest-local tz local t (ambiguous u v) e h =
      let (lu, lv) = laws.ambiguous_local tz local u v e in
      elim (Bool-cases (leb u v)) [
        | inl f ↦ rw (← some-injective _ _ (rw f at h)) lu
        | inr f ↦ rw (← some-injective _ _ (rw f at h)) lv
      ]

  -- The instant that `local_to_utc` chooses has the local time it was chosen for.
  pub to_local-local_to_utc :
      (tz : Tz) (local t : ℕ) → local_to_utc d tz local ≡ some t → d.to_local tz t ≡ local
  unfolding local_to_utc
  to_local-local_to_utc tz local t h = earliest-local tz local t (d.from_local tz local) refl h

  ends_within_sound :
      (tz : Tz) (date window_end end : ℕ)
      → candidate_ends_within_working_window d tz date window_end end ≡ ok true
      → EndsWithin d tz date window_end end
  unfolding candidate_ends_within_working_window
  ends_within_sound tz date window_end end h = elim (Option-cases (d.chrono_utc end)) [
    | inl e ↦ cc (rw e at h)
    | inr (u, e) ↦
        let same = laws.chrono_utc_same end u e in
        let local = d.to_local tz u in
        elim (Bool-cases (not (local / day_ns == date) || ltb window_end (local % day_ns))) [
          | inl f ↦ cc (rw (e, f) at h)
          | inr f ↦ rw (← same) (ground arith, ground arith)
        ]
  ]

module _ {Tz : Type 0} (d : Dates Tz) (laws : DatesLaws d) (q : Search Tz) where
  free_sound :
      (start end : ℕ)
      → buffered_is_free d start end q.buffer q.busy ≡ ok true
      → FreeAround d q start end
  unfolding buffered_is_free
  free_sound start end h = elim (Option-cases (d.checked_sub start q.buffer)) [
    | inl e ↦ cc (rw e at h)
    | inr (s, e) ↦ elim (Option-cases (d.checked_add end q.buffer)) [
      | inl f ↦ cc (rw (e, f) at h)
      | inr (t, f) ↦ (
        s,
        t,
        e,
        f,
        All-all (FreeOf s t) (is_free s t) (is_free-FreeOf s t) q.busy
            (ok-injective (rw (e, f) at h)),
      )
    ]
  ]

  judge_sound :
      (date window_end start end s : ℕ)
      → d.checked_add start q.duration ≡ some end
      → judge d q date window_end start end ≡ ok (take s)
      → IsChosen d q date window_end s × (start ≡ s)
  unfolding judge
  judge_sound date window_end start end s added h =
      elim (Bool-cases (leb q.lead_time start && leb end q.horizon_end)) [
        | inr e ↦ cc (rw e at h)
        | inl e ↦
            elim (Result-cases
              (candidate_ends_within_working_window d q.timezone date window_end end)) [
                | inr (x, f) ↦ cc (rw (e, f) at h)
                | inl (false, f) ↦ cc (rw (e, f) at h)
                | inl (true, f) ↦
                    elim (Result-cases (buffered_is_free d start end q.buffer q.busy)) [
                      | inr (x, g) ↦ cc (rw (e, f, g) at h)
                      | inl (false, g) ↦ cc (rw (e, f, g) at h)
                      | inl (true, g) ↦
                          let same : start ≡ s =
                            take-injective (ok-injective (rw (e, f, g) at h)) in
                          (
                            subst (IsChosen d q date window_end) same (record {
                              end = end;
                              ends = added;
                              lead = ground arith;
                              horizon = ground arith;
                              within = ends_within_sound d laws q.timezone date window_end end f;
                              free = free_sound start end g;
                            }),
                            same,
                          )
                    ]
              ]
      ]

  judge_from_sound :
      (date window_end candidate s : ℕ)
      → judge_from d q date window_end candidate ≡ ok (take s)
      → IsChosen d q date window_end s × (candidate ≡ s)
  unfolding judge_from
  judge_from_sound date window_end candidate s h =
      elim (Option-cases (d.offset_date_time candidate)) [
        | inl e ↦ cc (rw e at h)
        | inr (start, e) ↦ elim (Option-cases (d.checked_add start q.duration)) [
          | inl f ↦ cc (rw (e, f) at h)
          | inr (end, f) ↦
              let (chosen, same) = judge_sound date window_end start end s f (rw (e, f) at h) in
              (chosen, sym (laws.offset_same candidate start e) ∙ same)
        ]
      ]

  -- A slot that a round of the loop pushes has the local start of the round, which is not before
  -- the rounded lead time, and satisfies the policy.
  pub consider_sound :
      (date window_end local_start s : ℕ)
      → consider d q date window_end local_start ≡ ok (take s)
      → IsChosen d q date window_end s
        × (q.rounded_lead_local ≤ local_start)
        × (d.to_local q.timezone s ≡ local_start)
  unfolding consider
  consider_sound date window_end local_start s h =
      elim (Bool-cases (leb q.rounded_lead_local local_start)) [
        | inr e ↦ cc (rw e at h)
        | inl e ↦ elim (Option-cases (local_to_utc d q.timezone local_start)) [
          | inl f ↦ cc (rw (e, f) at h)
          | inr (candidate, f) ↦
              let (chosen, same) = judge_from_sound date window_end candidate s (rw (e, f) at h) in
              (
                chosen,
                leb→le _ _ e,
                rw (← same) (to_local-local_to_utc d laws q.timezone local_start candidate f),
              )
        ]
      ]
