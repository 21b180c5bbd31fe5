-- ===== src/Sigv4/Timestamp/Format.antt =====
-- src/pa/sigv4.rs: validate_timestamp on the prints of real dates and times.
use agent_voice.Common.{
  ℕ, ◌+◌, ◌/◌, ◌%◌, ◌≤◌, ◌<◌, ◌≡◌, sym, refl, not, ◌↔◌, Bool, ◌∙◌, true, false, ◌||◌, [], ◌∷◌, ltb,
  ◌==◌, all, Bytes, is_digit, arith,
}
use agent_voice.Common.Results.{ok, guard, guard_ok, bind_ok, ◌>>◌}
use agent_voice.Sigv4.Kinds.{invalid_timestamp}
use agent_voice.Sigv4.Timestamp.Calendar.{IsDate, Reaches-bound, Reaches-of}
use agent_voice.Sigv4.Timestamp.{
  four_digits, two_digits, days_in_month, validate_scope_date, validate_timestamp,
}

abbrev pub digit : ℕ → ℕ
digit n = b'0' + n

abbrev print_two : ℕ → Bytes → Bytes
print_two n rest = digit (n / 10) ∷ digit (n % 10) ∷ rest

-- `YYYYMMDD`
abbrev pub print_date : ℕ → ℕ → ℕ → Bytes → Bytes
print_date year month day rest =
    print_two (year / 100) (print_two (year % 100) (print_two month (print_two day rest)))

-- `YYYYMMDDTHHMMSSZ`
abbrev pub print_timestamp : ℕ → ℕ → ℕ → ℕ → ℕ → ℕ → Bytes
print_timestamp year month day hour minute second =
    print_date year month day
      (b'T' ∷ print_two hour (print_two minute (print_two second (b'Z' ∷ []))))

two_digits-print_two : (n : ℕ) (rest : Bytes) → n < 100 → two_digits (print_two n rest) ≡ n
unfolding two_digits
two_digits-print_two n rest h = omega arith

four_digits-print :
    (n : ℕ) (rest : Bytes)
    → n < 10000
    → four_digits (print_two (n / 100) (print_two (n % 100) rest)) ≡ n
unfolding four_digits
four_digits-print n rest h = omega arith

is_digit-digit : (n : ℕ) → n < 10 → is_digit (digit n) ≡ true
is_digit-digit n h = ground arith

digits_print_two :
    (n : ℕ) (rest : Bytes) → n < 100 → all is_digit (print_two n rest) ≡ all is_digit rest
digits_print_two n rest h =
    rw (is_digit-digit (n / 10) (omega arith), is_digit-digit (n % 10) (omega arith))

digits_print_date :
    (year month day : ℕ)
    → year < 10000
    → month < 100
    → day < 100
    → all is_digit (print_date year month day []) ≡ true
digits_print_date year month day y m d =
    digits_print_two (year / 100) (print_two (year % 100) (print_two month (print_two day [])))
      (omega arith)
    ∙ digits_print_two (year % 100) (print_two month (print_two day [])) (omega arith)
    ∙ digits_print_two month (print_two day []) (omega arith)
    ∙ digits_print_two day [] (omega arith)

-- The date is no date, by the test of the code.
abbrev is_off : ℕ → ℕ → ℕ → Bool
is_off year month day =
    (month == 0 || ltb 12 month) || (day == 0 || ltb (days_in_month year month) day)

in_range : (year month day : ℕ) → IsDate year month day → is_off year month day ≡ false
in_range year month day v = let bound = Reaches-bound year month day v.day_to in ground arith

IsDate-of :
    (year month day : ℕ) → year < 10000 → is_off year month day ≡ false → IsDate year month day
IsDate-of year month day y h =
    let from : 1 ≤ month = ground arith in
    let to : month ≤ 12 = ground arith in
    let bound : day ≤ days_in_month year month = ground arith in
    record {
      year_lt = y;
      month_from = from;
      month_to = to;
      day_from = ground arith;
      day_to = Reaches-of year month day from to bound;
    }

scope_date-print_date :
    (year month day : ℕ)
    → year < 10000
    → month < 100
    → day < 100
    → validate_scope_date (print_date year month day [])
      ≡ guard (not (is_off year month day)) invalid_timestamp
unfolding validate_scope_date
scope_date-print_date year month day y m d =
    rw
      (
        digits_print_date year month day y m d,
        four_digits-print year [] y,
        two_digits-print_two month [] m,
        two_digits-print_two day [] d,
      )
      refl

-- The time of day is none, by the test of the code.
abbrev is_late : ℕ → ℕ → ℕ → Bool
is_late hour minute second = ltb 23 hour || (ltb 59 minute || ltb 59 second)

module _ (year month day hour minute second : ℕ) (y : year < 10000) (mo : month < 100)
    (d : day < 100) (h : hour < 100) (mi : minute < 100) (s : second < 100) where
  timestamp-print : validate_timestamp (print_timestamp year month day hour minute second) ≡ (do
    guard (not (is_late hour minute second)) invalid_timestamp
    guard (not (is_off year month day)) invalid_timestamp
    ok (print_date year month day []))
  unfolding validate_timestamp
  timestamp-print =
      let time : all is_digit (print_two hour (print_two minute (print_two second []))) ≡ true =
        digits_print_two hour (print_two minute (print_two second [])) h
        ∙ digits_print_two minute (print_two second []) mi
        ∙ digits_print_two second [] s in
      rw
        (
          digits_print_date year month day y mo d,
          time,
          two_digits-print_two hour [] h,
          two_digits-print_two minute [] mi,
          two_digits-print_two second [] s,
          scope_date-print_date year month day y mo d,
        )
        refl

  -- A year of four digits and a month, a day, an hour, a minute and a second of two digits, printed in
  -- the AWS format, are accepted and give their date exactly when they are a date of the Gregorian
  -- calendar and a time of day.
  pub validate_timestamp-print_timestamp :
      (validate_timestamp (print_timestamp year month day hour minute second)
        ≡ ok (print_date year month day []))
      ↔ (IsDate year month day × ((hour < 24) × ((minute < 60) × (second < 60))))
  validate_timestamp-print_timestamp = (
    λ run.
        let run = sym timestamp-print ∙ run in
        let (_, (early, run)) =
          bind_ok (guard (not (is_late hour minute second)) invalid_timestamp) _ run in
        let (_, (real, _)) =
          bind_ok (guard (not (is_off year month day)) invalid_timestamp) _ run in
        let early = guard_ok _ _ early in
        let real = guard_ok _ _ real in
        let on : is_off year month day ≡ false = off_not _ real in
        (IsDate-of year month day y on, (ground arith, (ground arith, ground arith))),
    λ (v, (h', (m', s'))).
        let late : is_late hour minute second ≡ false = ground arith in
        timestamp-print ∙ rw (late, in_range year month day v) refl,
  )
    where
      off_not : (b : Bool) → not b ≡ true → b ≡ false
      off_not true h = cc
      off_not false h = refl
