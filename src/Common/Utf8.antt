-- ===== src/Common/Utf8.antt =====
-- `std::str::from_utf8`: whether bytes are well-formed UTF-8 (RFC 3629), read one byte at a time.
use Prim.Native.Nat.{ℕ, zero, suc, ◌<◌}
use mathlib.Core.Path.{◌≡◌, refl}
use mathlib.Core.Bool.{Bool, true, false, ◌&&◌}
use mathlib.Core.List.{[], ◌∷◌}
use mathlib.Core.Option.{Option, none, some}
use agent_voice.Common.Tests.{leb, ltb, lt→ltb, ◌==◌, if◌then◌else◌}
use native.Mathlib.Omega.{arith}
use agent_voice.Common.Lists.{All}
use agent_voice.Common.Ascii.{Bytes}

-- What may follow: how many continuation bytes, and the range of the next one.
record Pending : Type 0 where
  left : ℕ
  low : ℕ
  high : ℕ

abbrev within : ℕ → ℕ → ℕ → Bool
within low high byte = leb low byte && leb byte high

first_byte : ℕ → Option Pending
first_byte byte =
    if ltb byte 0x80
    then some (record { left = 0; low = 0x80; high = 0xbf })
    else if within 0xc2 0xdf byte
    then some (record { left = 1; low = 0x80; high = 0xbf })
    else if byte == 0xe0
    then some (record { left = 2; low = 0xa0; high = 0xbf })
    else if byte == 0xed
    then some (record { left = 2; low = 0x80; high = 0x9f })
    else if within 0xe1 0xef byte
    then some (record { left = 2; low = 0x80; high = 0xbf })
    else if byte == 0xf0
    then some (record { left = 3; low = 0x90; high = 0xbf })
    else if within 0xf1 0xf3 byte
    then some (record { left = 3; low = 0x80; high = 0xbf })
    else if byte == 0xf4
    then some (record { left = 3; low = 0x80; high = 0x8f })
    else none

next_byte : Pending → ℕ → ℕ → Option Pending
unfolding first_byte
next_byte p zero byte = first_byte byte
next_byte p (suc n) byte =
    if within p.low p.high byte then some (record { left = n; low = 0x80; high = 0xbf }) else none

scan : Option Pending → Bytes → Bool
unfolding next_byte
scan none bytes = false
scan (some p) [] = p.left == 0
scan (some p) (byte ∷ bytes) = scan (next_byte p p.left byte) bytes

unfoldable pub is_utf8 : Bytes → Bool
unfolding scan
is_utf8 bytes = scan (some (record { left = 0; low = 0x80; high = 0xbf })) bytes

scan_ascii :
    (bytes : Bytes)
    → All (λ b. b < 128) bytes
    → scan (some (record { left = 0; low = 0x80; high = 0xbf })) bytes ≡ true
unfolding scan
scan_ascii [] h = refl
scan_ascii (b ∷ bytes) (h, hs) =
    let l : ltb b 0x80 ≡ true = lt→ltb b 128 h in ground (arith, scan_ascii bytes hs)

-- ASCII text is well-formed.
pub is_utf8_ascii : (bytes : Bytes) → All (λ b. b < 128) bytes → is_utf8 bytes ≡ true
unfolding is_utf8
is_utf8_ascii bytes h = scan_ascii bytes h
