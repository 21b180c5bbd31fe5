-- ===== src/Availability/Dates.antt =====
-- What pa/availability.rs uses of the crates `time`, `chrono` and `chrono_tz`.
-- An instant (`OffsetDateTime`, `DateTime<Utc>`) is its nanoseconds since the earliest one; a local
-- date and time (`NaiveDateTime`) is its nanoseconds since midnight of the earliest date, so that
-- its date is the quotient by a day and its time of day the remainder. A `Duration` is a signed
-- number of nanoseconds.
use agent_voice.Common.{ℕ, ◌+◌, ◌*◌, ◌/◌, ◌<◌, ◌≡◌, Option, some, Bytes}
use agent_voice.Common.Int.{ℤ, pos}

abbrev pub minute_ns : ℕ
minute_ns = 60 * 1_000_000_000

abbrev pub grid_ns : ℕ
grid_ns = 15 * minute_ns

abbrev pub day_ns : ℕ
day_ns = 24 * 60 * minute_ns

-- `chrono::LocalResult`
pub data LocalResult : Type 0 where
  nonexistent : LocalResult
  single : ℕ → LocalResult
  ambiguous : ℕ → ℕ → LocalResult

pub record Dates (Tz : Type 0) : Type 0 where
  -- `str::parse::<Tz>`
  pub parse_timezone : Bytes → Option Tz
  -- `OffsetDateTime::checked_add` and `checked_sub`
  pub checked_add : ℕ → ℤ → Option ℕ
  pub checked_sub : ℕ → ℤ → Option ℕ
  -- `DateTime::<Utc>::from_timestamp`, and `OffsetDateTime::from_unix_timestamp` with the
  -- nanoseconds replaced
  pub chrono_utc : ℕ → Option ℕ
  pub offset_date_time : ℕ → Option ℕ
  -- `with_timezone(timezone).naive_local()` and `timezone.from_local_datetime`
  pub to_local : Tz → ℕ → ℕ
  pub from_local : Tz → ℕ → LocalResult
  -- `NaiveDate::succ_opt`, `NaiveDate::weekday` as days from Monday, and
  -- `NaiveDateTime::checked_add_signed`
  pub succ_opt : ℕ → Option ℕ
  pub weekday : ℕ → ℕ
  pub checked_add_signed : ℕ → ℕ → Option ℕ

-- What the crates document of them.
pub record DatesLaws {Tz : Type 0} (d : Dates Tz) : Type 0 where
  pub add_pos : (t n u : ℕ) → d.checked_add t (pos n) ≡ some u → u ≡ t + n
  pub sub_pos : (t n u : ℕ) → d.checked_sub t (pos n) ≡ some u → u + n ≡ t
  pub chrono_utc_same : (t u : ℕ) → d.chrono_utc t ≡ some u → u ≡ t
  pub offset_same : (t u : ℕ) → d.offset_date_time t ≡ some u → u ≡ t
  pub succ_opt_next : (date next : ℕ) → d.succ_opt date ≡ some next → next ≡ date + 1
  -- The dates of `chrono` reach beyond the local date of any instant of `time`.
  pub succ_opt_local :
      (tz : Tz) (t : ℕ) → (next : ℕ) × (d.succ_opt (d.to_local tz t / day_ns) ≡ some next)
  pub weekday_lt : (date : ℕ) → d.weekday date < 7
  pub add_signed_next :
      (local ns next : ℕ) → d.checked_add_signed local ns ≡ some next → next ≡ local + ns
  -- An instant that a timezone gives for a local time has that local time there.
  pub single_local :
      (tz : Tz) (local t : ℕ) → d.from_local tz local ≡ single t → d.to_local tz t ≡ local
  pub ambiguous_local :
      (tz : Tz) (local t u : ℕ)
      → d.from_local tz local ≡ ambiguous t u
      → (d.to_local tz t ≡ local) × (d.to_local tz u ≡ local)
