-- ===== src/Availability/Errors.antt =====
-- src/pa/availability.rs: `AvailabilityError`.
use agent_voice.Common.{ℕ, Bytes}
use agent_voice.Common.Results.{Result}

pub data AvailabilityError : Type 0 where
  invalid_busy_interval : ℕ → ℕ → AvailabilityError
  invalid_working_window : ℕ → ℕ → AvailabilityError
  invalid_timezone : Bytes → AvailabilityError
  invalid_duration : Bytes → AvailabilityError
  date_time_overflow : AvailabilityError

abbrev pub AvailabilityResult {ℓ} : Type ℓ → Type ℓ
AvailabilityResult A = Result AvailabilityError A
