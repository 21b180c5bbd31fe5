-- ===== src/Availability/Policy.antt =====
-- src/pa/availability.rs: `WorkingWindow` and `AvailabilityPolicy`. A weekday is its days from Monday.
pub mod Windows
use agent_voice.Common.{
  ℕ, zero, suc, ◌*◌, Bool, true, false, ◌||◌, Option, none, some, List, [], ◌∷◌, ◌++◌, leb, ltb,
  if◌then◌else◌, get_or, any, Bytes, codes,
}
use agent_voice.Common.Results.{Result, ok, err, ◌>>=◌, ◌>>◌, guard, ok_or}
use agent_voice.Common.Int.{ℤ, pos, negsuc, ltb_ℤ}
use agent_voice.Common.Sort.{sort_by_key}
use agent_voice.Common.Text.{trim}
use agent_voice.Availability.Errors.{
  AvailabilityError, AvailabilityResult, invalid_working_window, invalid_timezone, invalid_duration,
}
use agent_voice.Availability.Dates.{Dates, minute_ns, day_ns}

-- A local time of day is its nanoseconds since midnight.
pub record WorkingWindow : Type 0 where
  pub starts_at : ℕ
  pub ends_at : ℕ

unfoldable pub new_window : ℕ → ℕ → AvailabilityResult WorkingWindow
new_window starts_at ends_at =
    if leb ends_at starts_at
    then err (invalid_working_window starts_at ends_at)
    else ok (record { starts_at = starts_at; ends_at = ends_at })

abbrev window_key : WorkingWindow → ℕ
window_key w = w.starts_at

pub record AvailabilityPolicy (Tz : Type 0) : Type 0 where
  pub timezone_name : Bytes
  pub timezone : Tz
  pub windows : List (List WorkingWindow)
  pub minimum_notice : ℤ
  pub booking_horizon : ℤ
  pub meeting_buffer : ℤ

abbrev is_negative : ℤ → Bool
is_negative d = ltb_ℤ d (pos 0)

-- `d <= Duration::ZERO`
abbrev pub is_not_positive : ℤ → Bool
is_not_positive (pos zero) = true
is_not_positive (pos (suc n)) = false
is_not_positive (negsuc n) = true

unfoldable pub validate_durations : ℤ → ℤ → ℤ → AvailabilityResult (Unit {0})
validate_durations minimum_notice booking_horizon meeting_buffer =
    if is_negative minimum_notice || (is_not_positive booking_horizon || is_negative meeting_buffer)
    then err (
        invalid_duration (
          if is_negative minimum_notice
          then codes "minimum_notice"
          else if is_not_positive booking_horizon
          then codes "booking_horizon"
          else codes "meeting_buffer"))
    else ok tt

-- `indexed[i].extend(day_windows)` for the entry at `i`.
extend_at : ℕ → List WorkingWindow → List (List WorkingWindow) → List (List WorkingWindow)
extend_at i ws [] = []
extend_at zero ws (day ∷ days) = (day ++ ws) ∷ days
extend_at (suc i) ws (day ∷ days) = day ∷ extend_at i ws days

unfoldable pub index_windows :
    List (ℕ × List WorkingWindow) → List (List WorkingWindow) → List (List WorkingWindow)
unfolding extend_at
index_windows [] indexed = indexed
index_windows ((weekday, day_windows) ∷ windows) indexed =
    index_windows windows (extend_at weekday (sort_by_key window_key day_windows) indexed)

-- `day_windows.windows(2).any(|pair| pair[1].starts_at() < pair[0].ends_at())`
unfoldable pub has_overlap : List WorkingWindow → Bool
has_overlap [] = false
has_overlap (w ∷ []) = false
has_overlap (v ∷ w ∷ ws) = ltb w.starts_at v.ends_at || has_overlap (w ∷ ws)

unfoldable pub check_days :
    List (List WorkingWindow) → AvailabilityResult (List (List WorkingWindow))
check_days [] = ok []
check_days (day ∷ days) =
    let sorted = sort_by_key window_key day in
    let rest = check_days days in
    if has_overlap sorted
    then err (invalid_working_window 0 0)
    else rest >>= λ checked. ok (sorted ∷ checked)

abbrev no_windows : List (List WorkingWindow)
no_windows = [] ∷ [] ∷ [] ∷ [] ∷ [] ∷ [] ∷ [] ∷ []

unfoldable pub new :
    {Tz : Type 0}
    → Dates Tz
    → Bytes
    → List (ℕ × List WorkingWindow)
    → ℤ
    → ℤ
    → ℤ
    → AvailabilityResult (AvailabilityPolicy Tz)
new d timezone windows minimum_notice booking_horizon meeting_buffer = do
  let timezone_name = trim timezone
  timezone ← ok_or (d.parse_timezone timezone_name) (invalid_timezone timezone_name)
  validate_durations minimum_notice booking_horizon meeting_buffer
  indexed ← check_days (index_windows windows no_windows)
  ok (record {
    timezone_name = timezone_name;
    timezone = timezone;
    windows = indexed;
    minimum_notice = minimum_notice;
    booking_horizon = booking_horizon;
    meeting_buffer = meeting_buffer;
  })

-- `self.windows[weekday_index(weekday)]`; a weekday is below the seven entries.
unfoldable pub working_windows : {Tz : Type 0} → AvailabilityPolicy Tz → ℕ → List WorkingWindow
working_windows p weekday = get_or p.windows weekday []
