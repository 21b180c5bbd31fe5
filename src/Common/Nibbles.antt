-- ===== src/Common/Nibbles.antt =====
-- `(high << 4) | low` on `u8`, and that it is the byte with these halves.
use Prim.Native.Nat.{ℕ, ◌+◌, ◌*◌, ◌/◌, ◌%◌, ◌<◌, bit_or}
use mathlib.Core.Path.{◌≡◌, refl}
use mathlib.Core.Bool.{true}
use native.Mathlib.Omega.{arith}
use agent_voice.Common.Tests.{◌==◌, ==_iff}
use agent_voice.Common.Tables.{table_holds, table_entry}

unfoldable pub join_nibbles : ℕ → ℕ → ℕ
join_nibbles high low = bit_or (high * 16 % 256) low

join_table : table_holds (λ n. join_nibbles (n / 16) (n % 16) == n) 256 ≡ true
unfolding table_holds join_nibbles
join_table = refl

pub join_nibbles_lem : (n : ℕ) → n < 256 → join_nibbles (n / 16) (n % 16) ≡ n
join_nibbles_lem n h = (==_iff _ n).0 (table_entry _ 256 join_table n h)

pub join_nibbles_split :
    (h l : ℕ) → h < 16 → l < 16 → (join_nibbles h l ≡ h * 16 + l) × (h * 16 + l < 256)
join_nibbles_split h l p q =
    let e : (h * 16 + l) / 16 ≡ h = omega arith in
    let f : (h * 16 + l) % 16 ≡ l = omega arith in
    let g : join_nibbles ((h * 16 + l) / 16) ((h * 16 + l) % 16) ≡ h * 16 + l =
      join_nibbles_lem (h * 16 + l) (omega arith) in
    (rw (e, f) at g, omega arith)
