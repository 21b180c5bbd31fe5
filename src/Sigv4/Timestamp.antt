-- ===== src/Sigv4/Timestamp.antt =====
-- src/pa/sigv4.rs: `validate_timestamp`, `validate_scope_date` and what they compute with.
pub mod Format
pub mod Calendar
use agent_voice.Common.{
  ℕ, ◌+◌, ◌-◌, ◌*◌, ◌%◌, Bool, true, false, not, ◌&&◌, ◌||◌, leb, ltb, ◌==◌, if◌then◌else◌, length,
  get_or, take, drop, all, Bytes, is_digit,
}
use agent_voice.Common.Results.{Result, ok, err, ◌>>=◌, ◌>>◌, guard}
use agent_voice.Sigv4.Kinds.{SigResult, invalid_timestamp}

-- The bytes are digits, so neither computation leaves its `u16` or `u8`.
unfoldable pub four_digits : Bytes → ℕ
four_digits bytes =
    (get_or bytes 0 0 - b'0') * 1000
    + (get_or bytes 1 0 - b'0') * 100
    + (get_or bytes 2 0 - b'0') * 10
    + (get_or bytes 3 0 - b'0')

unfoldable pub two_digits : Bytes → ℕ
two_digits bytes = (get_or bytes 0 0 - b'0') * 10 + get_or bytes 1 0 - b'0'

unfoldable pub days_in_month : ℕ → ℕ → ℕ
days_in_month year month =
    if month == 2
    then (if year % 400 == 0 || (year % 4 == 0 && not (year % 100 == 0)) then 29 else 28)
    else if (month == 4 || month == 6) || (month == 9 || month == 11)
    then 30
    else 31

unfoldable pub validate_scope_date : Bytes → SigResult (Unit {0})
validate_scope_date date = do
  guard (length date == 8 && all is_digit date) invalid_timestamp
  let year = four_digits (take 4 date)
  let month = two_digits (take 2 (drop 4 date))
  let day = two_digits (take 2 (drop 6 date))
  guard (not ((month == 0 || ltb 12 month) || (day == 0 || ltb (days_in_month year month) day)))
      invalid_timestamp

-- Gives the date part.
unfoldable pub validate_timestamp : Bytes → SigResult Bytes
validate_timestamp timestamp = do
  guard
      ((length timestamp == 16 && (get_or timestamp 8 0 == b'T' && get_or timestamp 15 0 == b'Z'))
        && (all is_digit (take 8 timestamp) && all is_digit (take 6 (drop 9 timestamp))))
      invalid_timestamp
  let hour = two_digits (take 2 (drop 9 timestamp))
  let minute = two_digits (take 2 (drop 11 timestamp))
  let second = two_digits (take 2 (drop 13 timestamp))
  guard (not (ltb 23 hour || (ltb 59 minute || ltb 59 second))) invalid_timestamp
  validate_scope_date (take 8 timestamp)
  ok (take 8 timestamp)
