-- ===== src/Availability/Grid.antt =====
-- src/pa/availability.rs: `ceil_window_grid` and `ceil_local_grid`. A time of day is its nanoseconds
-- since midnight, so that its hour and minute together are its whole minutes.
pub mod Bounds
use agent_voice.Common.{ℕ, ◌+◌, ◌*◌, ◌/◌, ◌%◌, Option, none, some, leb, ◌==◌, not, if◌then◌else◌}
use mathlib.Core.Option
use agent_voice.Availability.Dates.{Dates, minute_ns, day_ns}

-- The minute of the day, rounded up to a quarter of an hour.
grid_minute : ℕ → ℕ
grid_minute time =
    let minute = time / minute_ns in
    let minute' = if not (time % minute_ns == 0) then minute + 1 else minute in
    (minute' + 14) / 15 * 15

unfoldable pub ceil_window_grid : ℕ → ℕ → Option ℕ
unfolding grid_minute
ceil_window_grid date time =
    let minute = grid_minute time in
    if leb (24 * 60) minute then none else some (date * day_ns + minute * minute_ns)

-- `none` is the panic of `expect`, when there is no next date.
unfoldable pub ceil_local_grid : {Tz : Type 0} → Dates Tz → ℕ → Option ℕ
unfolding ceil_window_grid
ceil_local_grid d local =
    let date = local / day_ns in
    elim (ceil_window_grid date (local % day_ns)) [
      | some grid ↦ some grid
      | none ↦ Option.map (λ next. next * day_ns) (d.succ_opt date)
    ]
