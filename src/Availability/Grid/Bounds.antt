-- ===== src/Availability/Grid/Bounds.antt =====
-- src/pa/availability.rs: the quarter hours that `ceil_window_grid` and `ceil_local_grid` give.
use agent_voice.Common.{
  ℕ, ◌+◌, ◌*◌, ◌/◌, ◌%◌, ◌≤◌, ◌<◌, ◌≡◌, ◌↔◌, none, some, arith, Option-cases, inl, inr,
}
use agent_voice.Availability.Dates.{Dates, DatesLaws, minute_ns, grid_ns, day_ns}
use agent_voice.Availability.Grid.{grid_minute, ceil_window_grid, ceil_local_grid}

grid_minute_bounds :
    (time : ℕ)
    → (time ≤ grid_minute time * minute_ns)
      × (grid_minute time * minute_ns < time + grid_ns)
      × (grid_minute time % 15 ≡ 0)
unfolding grid_minute
grid_minute_bounds time = ground arith

-- A working window that begins at `time` of a date has its first candidate at the first quarter
-- hour not before it.
pub ceil_window_grid_bounds :
    (date time start : ℕ)
    → ceil_window_grid date time ≡ some start
    → (date * day_ns + time ≤ start)
      × (start < date * day_ns + time + grid_ns)
      × (start % grid_ns ≡ 0)
      × (start < (date + 1) * day_ns)
unfolding ceil_window_grid
ceil_window_grid_bounds date time start h = ground (arith, grid_minute_bounds time)

-- There is none exactly when that quarter hour is the next midnight or later.
pub ceil_window_grid-none :
    (date time : ℕ) → (ceil_window_grid date time ≡ none) ↔ (day_ns < time + grid_ns)
unfolding ceil_window_grid
ceil_window_grid-none date time =
    (λ h. ground (arith, grid_minute_bounds time), λ h. ground (arith, grid_minute_bounds time))

-- Rounding a local time gives the first quarter hour not before it, of the next day if need be.
ceil_local_grid_bounds :
    {Tz : Type 0} (d : Dates Tz) (laws : DatesLaws d) (local grid : ℕ)
    → ceil_local_grid d local ≡ some grid
    → (local ≤ grid) × (grid < local + grid_ns) × (grid % grid_ns ≡ 0)
unfolding ceil_local_grid
ceil_local_grid_bounds d laws local grid h =
    let date = local / day_ns in
    let time = local % day_ns in
    elim (Option-cases (ceil_window_grid date time)) [
      | inr (start, e) ↦
          let same : start ≡ grid = ground arith in
          let bounds = ceil_window_grid_bounds date time start e in
          (omega arith, omega arith, rw (← same) bounds.2)
      | inl e ↦
          let late : day_ns < time + grid_ns = (ceil_window_grid-none date time).0 e in
          elim (Option-cases (d.succ_opt date)) [
            | inl f ↦ absurd (ground arith)
            | inr (next, f) ↦
                let after = laws.succ_opt_next date next f in
                let same : next * day_ns ≡ grid = ground arith in
                (omega arith, omega arith, rw (← same) (omega arith))
          ]
    ]

-- Rounding a local time fails only where there is no next date.
pub ceil_local_grid-none :
    {Tz : Type 0} (d : Dates Tz) (local : ℕ)
    → ceil_local_grid d local ≡ none
    → d.succ_opt (local / day_ns) ≡ none
unfolding ceil_local_grid
ceil_local_grid-none d local h =
    elim (Option-cases (ceil_window_grid (local / day_ns) (local % day_ns))) [
      | inr (start, e) ↦ cc (rw (e, ceil_local_grid) at h)
      | inl e ↦ elim (Option-cases (d.succ_opt (local / day_ns))) [
        | inl f ↦ f
        | inr (next, f) ↦ cc (rw (e, f, ceil_local_grid) at h)
      ]
    ]
