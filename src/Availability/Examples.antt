-- ===== src/Availability/Examples.antt =====
-- Runs of pa/availability.rs, with a stand-in for the date crates: one timezone, UTC, in which every
-- local time is its own instant.
use agent_voice.Common.{
  ℕ, ◌+◌, ◌-◌, ◌*◌, ◌/◌, ◌%◌, ◌≤◌, ◌<◌, ◌≡◌, ◌≢◌, ◌↔◌, refl, Option, none, some, [], ◌∷◌, leb,
  if◌then◌else◌, All, codes, arith,
}
use agent_voice.Common.Results.{ok}
use agent_voice.Common.Int.{ℤ, pos, negsuc}
use agent_voice.Common.Sort.{sort_by_key}
use agent_voice.Common.Text.{trim}
use agent_voice.Availability.Dates.{Dates, DatesLaws, single, minute_ns, grid_ns, day_ns}
use agent_voice.Availability.Busy.{BusyInterval, merge_busy_intervals, merge_into}
use agent_voice.Availability.Busy.Merge.{FreeOf, FreeOf-merge_busy_intervals}
use agent_voice.Availability.Grid.{ceil_window_grid, ceil_local_grid}
use agent_voice.Availability.Grid.Bounds.{ceil_window_grid_bounds, ceil_window_grid-none}
use agent_voice.Availability.Policy.{
  WorkingWindow, AvailabilityPolicy, new, working_windows, validate_durations, index_windows,
  check_days, has_overlap,
}
use agent_voice.Availability.Policy.Windows.{IsPolicy, new-IsPolicy}
use agent_voice.Availability.Slots.{
  available_slots, consider, local_to_utc, candidate_ends_within_working_window, buffered_is_free,
  window_loop, windows_loop, date_loop, resume, collect,
}
use agent_voice.Availability.Slots.Correct.{IsAvailable, available_slots_sound}
use agent_voice.Availability.Slots.Fuel.{available_slots_fuel}

abbrev add_duration : ℕ → ℤ → Option ℕ
add_duration t (pos n) = some (t + n)
add_duration t (negsuc n) = none

abbrev sub_duration : ℕ → ℤ → Option ℕ
sub_duration t (pos n) = if leb n t then some (t - n) else none
sub_duration t (negsuc n) = none

abbrev utc : Dates (Unit {0})
utc = record {
  parse_timezone = λ name. some tt;
  checked_add = add_duration;
  checked_sub = sub_duration;
  chrono_utc = λ t. some t;
  offset_date_time = λ t. some t;
  to_local = λ tz t. t;
  from_local = λ tz local. single local;
  succ_opt = λ date. some (date + 1);
  weekday = λ date. date % 7;
  checked_add_signed = λ local ns. some (local + ns);
}

some_eq : {a b : ℕ} → some a ≡ some b → b ≡ a
some_eq h = cc

single_eq : {a b : ℕ} → single a ≡ single b → b ≡ a
single_eq h = cc

sub_duration_lem : (t n u : ℕ) → sub_duration t (pos n) ≡ some u → u + n ≡ t
sub_duration_lem t n u h = ground arith

utc_laws : DatesLaws utc
utc_laws = record {
  add_pos = λ t n u h. some_eq h;
  sub_pos = sub_duration_lem;
  chrono_utc_same = λ t u h. some_eq h;
  offset_same = λ t u h. some_eq h;
  succ_opt_next = λ date next h. some_eq h;
  succ_opt_local = λ tz t. (t / day_ns + 1, refl);
  weekday_lt = λ date. omega arith;
  add_signed_next = λ local ns next h. some_eq h;
  single_local = λ tz local t h. single_eq h;
  ambiguous_local = λ tz local t u h. cc;
}

-- Mondays from 09:00 to 10:00.
abbrev morning : WorkingWindow
morning = record { starts_at = 9 * 60 * minute_ns; ends_at = 10 * 60 * minute_ns }

abbrev mondays : AvailabilityPolicy (Unit {0})
mondays = record {
  timezone_name = codes "UTC";
  timezone = tt;
  windows = (morning ∷ []) ∷ [] ∷ [] ∷ [] ∷ [] ∷ [] ∷ [] ∷ [];
  minimum_notice = pos (60 * minute_ns);
  booking_horizon = pos day_ns;
  meeting_buffer = pos 0;
}

mondays-new :
    new utc (codes " UTC") ((0, morning ∷ []) ∷ []) (pos (60 * minute_ns)) (pos day_ns) (pos 0)
    ≡ ok mondays
unfolding new trim validate_durations index_windows check_days has_overlap sort_by_key
mondays-new = refl

mondays-IsPolicy : IsPolicy mondays
mondays-IsPolicy =
    (new-IsPolicy utc (codes " UTC") ((0, morning ∷ []) ∷ []) (pos (60 * minute_ns)) (pos day_ns)
      (pos 0) mondays (omega arith) mondays-new).0

abbrev coffee : BusyInterval
coffee = record { starts_at = (9 * 60 + 15) * minute_ns; ends_at = (9 * 60 + 30) * minute_ns }

abbrev standup : BusyInterval
standup = record { starts_at = (8 * 60 + 45) * minute_ns; ends_at = (9 * 60 + 15) * minute_ns }

abbrev half_hour : ℤ
half_hour = pos (30 * minute_ns)

abbrev half_past_nine : ℕ
half_past_nine = (9 * 60 + 30) * minute_ns

one_slot :
    available_slots utc mondays 0 half_hour (standup ∷ []) (coffee ∷ []) 5
    ≡ ok (some (half_past_nine ∷ []))
unfolding available_slots ceil_local_grid merge_busy_intervals merge_into sort_by_key
    working_windows consider local_to_utc candidate_ends_within_working_window buffered_is_free
    window_loop windows_loop date_loop resume collect
one_slot = refl

available_slots_sound_example :
    All
      (IsAvailable utc mondays 0 (30 * minute_ns) (standup ∷ []) (coffee ∷ []))
      (half_past_nine ∷ [])
    × (1 ≤ 5)
available_slots_sound_example =
    available_slots_sound utc utc_laws mondays mondays-IsPolicy 0 half_hour (standup ∷ [])
      (coffee ∷ []) 5 (half_past_nine ∷ []) one_slot

available_slots_fuel_example :
    available_slots utc mondays 0 half_hour (standup ∷ []) (coffee ∷ []) 5 ≢ ok none
available_slots_fuel_example =
    available_slots_fuel utc utc_laws mondays mondays-IsPolicy 0 half_hour (standup ∷ [])
      (coffee ∷ []) 5

FreeOf-merge_busy_intervals_example :
    All (FreeOf 0 (8 * 60 * minute_ns)) (merge_busy_intervals (standup ∷ []) (coffee ∷ [])) ↔ (
      All (FreeOf 0 (8 * 60 * minute_ns)) (standup ∷ [])
      × All (FreeOf 0 (8 * 60 * minute_ns)) (coffee ∷ []))
FreeOf-merge_busy_intervals_example =
    FreeOf-merge_busy_intervals 0 (8 * 60 * minute_ns) (omega arith) (standup ∷ []) (coffee ∷ [])

nine : ceil_window_grid 2 (9 * 60 * minute_ns - 1) ≡ some (2 * day_ns + 9 * 60 * minute_ns)
unfolding ceil_window_grid
nine = refl

ceil_window_grid_bounds_example :
    (2 * day_ns + (9 * 60 * minute_ns - 1) ≤ 2 * day_ns + 9 * 60 * minute_ns)
    × (2 * day_ns + 9 * 60 * minute_ns < 2 * day_ns + (9 * 60 * minute_ns - 1) + grid_ns)
    × ((2 * day_ns + 9 * 60 * minute_ns) % grid_ns ≡ 0)
    × (2 * day_ns + 9 * 60 * minute_ns < (2 + 1) * day_ns)
ceil_window_grid_bounds_example =
    ceil_window_grid_bounds 2 (9 * 60 * minute_ns - 1) (2 * day_ns + 9 * 60 * minute_ns) nine

ceil_window_grid-none_example :
    (ceil_window_grid 0 (day_ns - 1) ≡ none) ↔ (day_ns < day_ns - 1 + grid_ns)
ceil_window_grid-none_example = ceil_window_grid-none 0 (day_ns - 1)

midnight : ceil_local_grid utc (day_ns - 1) ≡ some day_ns
unfolding ceil_local_grid
midnight = refl
