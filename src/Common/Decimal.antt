-- ===== src/Common/Decimal.antt =====
-- `i64` in decimal: `str::parse::<i64>` and `Display` of the standard library.
use Prim.Native.Nat.{ℕ, zero, suc, ◌+◌, ◌-◌, ◌*◌, ◌/◌, ◌%◌, ◌^◌}
use mathlib.Core.Bool.{◌&&◌}
use mathlib.Core.List.{[], ◌∷◌}
use mathlib.Core.Option
use mathlib.Core.Option.{Option, none, some}
use agent_voice.Common.Tests.{leb, ltb, ◌==◌, if◌then◌else◌}
use agent_voice.Common.Ascii.{Bytes, is_digit}
use agent_voice.Common.Int.{ℤ, pos, negsuc}

-- One or more digits whose value is at most `limit`.
parse_digits : ℕ → ℕ → Bytes → Option ℕ
parse_digits limit value [] = some value
parse_digits limit value (c ∷ rest) =
    let next = value * 10 + (c - b'0') in
    if is_digit c && leb next limit then parse_digits limit next rest else none

parse_number : ℕ → Bytes → Option ℕ
unfolding parse_digits
parse_number limit [] = none
parse_number limit (c ∷ rest) = parse_digits limit 0 (c ∷ rest)

-- `-n`
negate : ℕ → ℤ
negate zero = pos 0
negate (suc n) = negsuc n

-- An optional sign, then digits; too large a value is refused.
unfoldable pub parse_i64 : Bytes → Option ℤ
unfolding parse_number negate
parse_i64 [] = none
parse_i64 (c ∷ rest) =
    if c == b'-'
    then Option.map negate (parse_number (2 ^ 63) rest)
    else if c == b'+'
    then Option.map pos (parse_number (2 ^ 63 - 1) rest)
    else Option.map pos (parse_number (2 ^ 63 - 1) (c ∷ rest))

-- The digits of `n` before `out`; a round for each digit, at most twenty for 64 bits.
print_digits : ℕ → ℕ → Bytes → Bytes
print_digits zero n out = out
print_digits (suc fuel) n out =
    let more = print_digits fuel (n / 10) ((b'0' + n % 10) ∷ out) in
    if ltb n 10 then (b'0' + n) ∷ out else more

unfoldable pub print_u64 : ℕ → Bytes
unfolding print_digits
print_u64 n = print_digits 20 n []

unfoldable pub print_i64 : ℤ → Bytes
unfolding print_u64
print_i64 (pos n) = print_u64 n
print_i64 (negsuc n) = b'-' ∷ print_u64 (suc n)
