-- ===== src/Availability/Busy.antt =====
-- src/pa/availability.rs: `BusyInterval` and `merge_busy_intervals`.
pub mod Merge
use agent_voice.Common.{ℕ, ◌<◌, List, [], ◌∷◌, ◌++◌, leb, ltb, if◌then◌else◌}
use agent_voice.Common.Results.{ok, err}
use agent_voice.Common.Sort.{sort_by_key}
use agent_voice.Availability.Errors.{AvailabilityResult, invalid_busy_interval}

-- Half open: the end is excluded.
pub record BusyInterval : Type 0 where
  pub starts_at : ℕ
  pub ends_at : ℕ

unfoldable pub new : ℕ → ℕ → AvailabilityResult BusyInterval
new starts_at ends_at =
    if leb ends_at starts_at
    then err (invalid_busy_interval starts_at ends_at)
    else ok (record { starts_at = starts_at; ends_at = ends_at })

abbrev starts_at_key : BusyInterval → ℕ
starts_at_key i = i.starts_at

-- `previous.ends_at` grows to the end of an interval that reaches further.
abbrev extend : BusyInterval → BusyInterval → BusyInterval
extend previous interval = record previous {
  ends_at = if ltb previous.ends_at interval.ends_at then interval.ends_at else previous.ends_at;
}

-- The loop with the last element of `merged` apart: what was pushed before it is not touched again.
unfoldable pub merge_into : BusyInterval → List BusyInterval → List BusyInterval
merge_into previous [] = previous ∷ []
merge_into previous (interval ∷ intervals) =
    let joined = merge_into (extend previous interval) intervals in
    let pushed = previous ∷ merge_into interval intervals in
    if leb interval.starts_at previous.ends_at then joined else pushed

merge_sorted : List BusyInterval → List BusyInterval
unfolding merge_into
merge_sorted [] = []
merge_sorted (interval ∷ intervals) = merge_into interval intervals

unfoldable pub merge_busy_intervals : List BusyInterval → List BusyInterval → List BusyInterval
unfolding merge_sorted
merge_busy_intervals outlook_busy google_busy =
    merge_sorted (sort_by_key starts_at_key (outlook_busy ++ google_busy))
