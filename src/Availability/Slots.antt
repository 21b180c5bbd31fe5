-- ===== src/Availability/Slots.antt =====
-- src/pa/availability.rs: `available_slots` and the functions that judge one candidate.
-- The loops run on fuel. A day has 96 quarter hours, so 97 rounds end the loop over a window; the
-- loop over dates ends after one round more than there are dates to the horizon.
pub mod Candidate
pub mod Safety
pub mod Fuel
pub mod Correct
use agent_voice.Common.{
  ℕ, zero, suc, ◌+◌, ◌-◌, ◌*◌, ◌/◌, ◌%◌, Bool, true, false, not, ◌&&◌, ◌||◌, Option, none, some,
  List, [], ◌∷◌, ◌++◌, leb, ltb, ◌==◌, if◌then◌else◌, length, all, codes,
}
use agent_voice.Common.Results.{Result, ok, err, ◌>>=◌, ◌>>◌, guard, ok_or}
use agent_voice.Common.Int.{ℤ}
use agent_voice.Availability.Errors.{AvailabilityResult, invalid_duration, date_time_overflow}
use agent_voice.Availability.Dates.{
  Dates, LocalResult, nonexistent, single, ambiguous, grid_ns, day_ns,
}
use agent_voice.Availability.Busy.{BusyInterval, merge_busy_intervals}
use agent_voice.Availability.Grid.{ceil_window_grid, ceil_local_grid}
use agent_voice.Availability.Policy.{
  WorkingWindow, AvailabilityPolicy, is_not_positive, working_windows,
}

earliest : LocalResult → Option ℕ
earliest nonexistent = none
earliest (single t) = some t
earliest (ambiguous t u) = some (if leb t u then t else u)

unfoldable pub local_to_utc : {Tz : Type 0} → Dates Tz → Tz → ℕ → Option ℕ
unfolding earliest
local_to_utc d tz local = earliest (d.from_local tz local)

unfoldable pub candidate_ends_within_working_window :
    {Tz : Type 0} → Dates Tz → Tz → ℕ → ℕ → ℕ → AvailabilityResult Bool
candidate_ends_within_working_window d tz date window_end candidate_end = do
  end_utc ← ok_or (d.chrono_utc candidate_end) date_time_overflow
  let end_local = d.to_local tz end_utc
  if not (end_local / day_ns == date) || ltb window_end (end_local % day_ns)
      then ok false
      else elim (local_to_utc d tz (date * day_ns + window_end)) [
        | some window_end_utc ↦ ok (leb end_utc window_end_utc)
        | none ↦ ok true
      ]

is_free : ℕ → ℕ → BusyInterval → Bool
is_free start end interval = leb end interval.starts_at || leb interval.ends_at start

unfoldable pub buffered_is_free :
    {Tz : Type 0} → Dates Tz → ℕ → ℕ → ℤ → List BusyInterval → AvailabilityResult Bool
unfolding is_free
buffered_is_free d candidate_start candidate_end buffer busy = do
  buffered_start ← ok_or (d.checked_sub candidate_start buffer) date_time_overflow
  buffered_end ← ok_or (d.checked_add candidate_end buffer) date_time_overflow
  ok (all (is_free buffered_start buffered_end) busy)

-- What the body of the loop does with a local start: goes on, pushes a slot, or breaks.
pub data Verdict : Type 0 where
  skip : Verdict
  take : ℕ → Verdict
  stop : Verdict

-- What `available_slots` computes before its loops.
pub record Search (Tz : Type 0) : Type 0 where
  pub timezone : Tz
  pub duration : ℤ
  pub buffer : ℤ
  pub lead_time : ℕ
  pub horizon_end : ℕ
  pub rounded_lead_local : ℕ
  pub busy : List BusyInterval
  pub limit : ℕ

module _ {Tz : Type 0} (d : Dates Tz) (q : Search Tz) where
  judge : ℕ → ℕ → ℕ → ℕ → AvailabilityResult Verdict
  judge date window_end start end =
      if leb q.lead_time start && leb end q.horizon_end
      then (do
        within ← candidate_ends_within_working_window d q.timezone date window_end end
        if within
            then (do
              free ← buffered_is_free d start end q.buffer q.busy
              ok (if free then take start else skip))
            else ok skip)
      else ok skip

  judge_from : ℕ → ℕ → ℕ → AvailabilityResult Verdict
  unfolding judge
  judge_from date window_end candidate = do
    start ← ok_or (d.offset_date_time candidate) date_time_overflow
    elim (d.checked_add start q.duration) [
      | none ↦ ok stop
      | some end ↦ judge date window_end start end
    ]

  unfoldable pub consider : ℕ → ℕ → ℕ → AvailabilityResult Verdict
  unfolding judge_from
  consider date window_end local_start =
      if leb q.rounded_lead_local local_start
      then (elim (local_to_utc d q.timezone local_start) [
        | none ↦ ok skip
        | some candidate ↦ judge_from date window_end candidate
      ])
      else ok skip

-- A loop ends with slots to go on with, with the slots to return, or without fuel.
pub data Flow : Type 0 where
  more : List ℕ → Flow
  full : List ℕ → Flow
  unfinished : Flow

pub data Step : Type 0 where
  halt : Flow → Step
  go_on : List ℕ → Step

unfoldable pub collect : ℕ → Verdict → List ℕ → Step
collect limit skip slots = go_on slots
collect limit stop slots = halt (more slots)
collect limit (take start) slots =
    if length (slots ++ start ∷ []) == limit
    then halt (full (slots ++ start ∷ []))
    else go_on (slots ++ start ∷ [])

-- An outer loop goes on after an inner one, unless that had the slots to return.
unfoldable pub resume : (List ℕ → AvailabilityResult Flow) → Flow → AvailabilityResult Flow
resume next (more slots) = next slots
resume next (full slots) = ok (full slots)
resume next unfinished = ok unfinished

abbrev window_rounds : ℕ
window_rounds = 97

module _ {Tz : Type 0} (d : Dates Tz) (q : Search Tz) where
  -- `while local_start < NaiveDateTime::new(date, window_end)`
  unfoldable pub window_loop : ℕ → ℕ → ℕ → ℕ → List ℕ → AvailabilityResult Flow
  window_loop zero date window_end local_start slots = ok unfinished
  window_loop (suc fuel) date window_end local_start slots =
      elim (ltb local_start (date * day_ns + window_end)) [
        | false ↦ ok (more slots)
        | true ↦ consider d q date window_end local_start >>= λ verdict.
            elim (collect q.limit verdict slots) [
              | halt flow ↦ ok flow
              | go_on slots' ↦ elim (d.checked_add_signed local_start grid_ns) [
                | none ↦ ok (more slots')
                | some next ↦ window_loop fuel date window_end next slots'
              ]
            ]
      ]

  -- `for window in self.working_windows(weekday)`
  unfoldable pub windows_loop : ℕ → List WorkingWindow → List ℕ → AvailabilityResult Flow
  windows_loop date [] slots = ok (more slots)
  windows_loop date (window ∷ windows) slots = elim (ceil_window_grid date window.starts_at) [
    | none ↦ windows_loop date windows slots
    | some first ↦
        window_loop window_rounds date window.ends_at first slots
        >>= resume (λ slots'. windows_loop date windows slots')
  ]

  module _ (windows_of : ℕ → List WorkingWindow) (final_date : ℕ) where
    -- `while date <= final_date`
    unfoldable pub date_loop : ℕ → ℕ → List ℕ → AvailabilityResult Flow
    date_loop zero date slots = ok unfinished
    date_loop (suc fuel) date slots = elim (leb date final_date) [
      | false ↦ ok (more slots)
      | true ↦
          windows_loop date (windows_of (d.weekday date)) slots
          >>= resume (λ slots'. elim (d.succ_opt date) [
            | none ↦ ok (more slots')
            | some next ↦ date_loop fuel next slots'
          ])
    ]

-- `none` stands for a loop without fuel; `available_slots_fuel` shows that it does not occur.
slots_of : Flow → Option (List ℕ)
slots_of (more slots) = some slots
slots_of (full slots) = some slots
slots_of unfinished = none

module _ {Tz : Type 0} (d : Dates Tz) (p : AvailabilityPolicy Tz) where
  search_of : ℕ → ℕ → ℕ → ℤ → List BusyInterval → List BusyInterval → ℕ → Search Tz
  search_of lead_time horizon_end rounded_lead_local duration outlook_busy google_busy limit =
      record {
        timezone = p.timezone;
        duration = duration;
        buffer = p.meeting_buffer;
        lead_time = lead_time;
        horizon_end = horizon_end;
        rounded_lead_local = rounded_lead_local;
        busy = merge_busy_intervals outlook_busy google_busy;
        limit = limit;
      }

  -- `none` is the panic of `ceil_local_grid`, or a loop without fuel.
  pub run_search :
      ℕ
      → ℕ
      → ℕ
      → ℕ
      → ℕ
      → ℤ
      → List BusyInterval
      → List BusyInterval
      → ℕ
      → AvailabilityResult (Option (List ℕ))
  unfolding search_of slots_of
  run_search now_utc horizon_utc lead_utc lead_time horizon_end duration outlook google limit =
      elim (ceil_local_grid d (d.to_local p.timezone lead_utc)) [
        | none ↦ ok none
        | some rounded ↦
            let date = d.to_local p.timezone now_utc / day_ns in
            let final_date = d.to_local p.timezone horizon_utc / day_ns in
            date_loop d (search_of lead_time horizon_end rounded duration outlook google limit)
              (working_windows p) final_date (suc (final_date + 1 - date)) date []
            >>= λ flow. ok (slots_of flow)
      ]

  unfoldable pub available_slots :
      ℕ → ℤ → List BusyInterval → List BusyInterval → ℕ → AvailabilityResult (Option (List ℕ))
  unfolding run_search
  available_slots now duration outlook google limit =
      if is_not_positive duration
      then err (invalid_duration (codes "requested_duration"))
      else if limit == 0
      then ok (some [])
      else (do
        horizon_end ← ok_or (d.checked_add now p.booking_horizon) date_time_overflow
        lead_time ← ok_or (d.checked_add now p.minimum_notice) date_time_overflow
        now_utc ← ok_or (d.chrono_utc now) date_time_overflow
        horizon_utc ← ok_or (d.chrono_utc horizon_end) date_time_overflow
        lead_utc ← ok_or (d.chrono_utc lead_time) date_time_overflow
        run_search now_utc horizon_utc lead_utc lead_time horizon_end duration outlook google limit)
