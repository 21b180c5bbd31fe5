-- ===== src/Auth/Hex.antt =====
-- src/pa/auth.rs: `lower_hex`, `decode_hex` and `hex_digit`.
use agent_voice.Common.{
  ℕ, ◌+◌, ◌-◌, ◌*◌, ◌/◌, ◌%◌, ◌<◌, ◌≡◌, refl, ap, true, ◌&&◌, Option, none, some, [], ◌∷◌, arith,
  leb, ◌==◌, ==_iff, if◌then◌else◌, length, get_or, All, Bytes, IsByte, codes, Bool, false, ltb,
  Option-cases, inl, inr, Bool-cases,
}
use mathlib.Core.Path.{subst}
use mathlib.Core.Option.{some-injective}
use agent_voice.Common.Nibbles.{join_nibbles, join_nibbles_lem, join_nibbles_split}
use agent_voice.Common.Tables.{table_holds, table_entry}

abbrev hex_table : Bytes
hex_table = codes "0123456789abcdef"

-- One round of the loop pushes two digits.
unfoldable pub lower_hex : Bytes → Bytes
lower_hex [] = []
lower_hex (byte ∷ bytes) =
    get_or hex_table (byte / 16) 0 ∷ get_or hex_table (byte % 16) 0 ∷ lower_hex bytes

pub hex_digit : ℕ → Option ℕ
hex_digit value =
    if leb b'0' value && leb value b'9'
    then some (value - b'0')
    else if leb b'a' value && leb value b'f'
    then some (value - b'a' + 10)
    else none

infixl 5 ◌>>=◌
abbrev ◌>>=◌ : {A B : Type 0} → Option A → (A → Option B) → Option B
none >>= f = none
some a >>= f = f a

-- The odd length is refused first in the source; here the odd tail ends the walk over the pairs,
-- and `decode_hex` makes the test on the length before it.
decode_pairs : Bytes → Option Bytes
unfolding hex_digit join_nibbles
decode_pairs (first ∷ second ∷ bytes) = do
  high ← hex_digit first
  low ← hex_digit second
  decoded ← decode_pairs bytes
  some (join_nibbles high low ∷ decoded)
decode_pairs _ = some []

unfoldable pub decode_hex : Bytes → Option Bytes
unfolding decode_pairs lower_hex
decode_hex bytes = if length bytes % 2 == 0 then decode_pairs bytes else none

-- A digit of the table is read back as its index, and a digit that is read stands in the table.
abbrev reads_back : ℕ → Bool
reads_back n = elim (hex_digit (get_or hex_table n 0)) [ none ↦ false | some m ↦ m == n ]

abbrev stands_in_table : ℕ → Bool
stands_in_table c = elim (hex_digit c) [
  | none ↦ true
  | some d ↦ (get_or hex_table d 0 == c) && ltb d 16
]

reads_back_table : table_holds reads_back 16 ≡ true
unfolding table_holds hex_digit
reads_back_table = refl

stands_in_table_table : table_holds stands_in_table 103 ≡ true
unfolding table_holds hex_digit
stands_in_table_table = refl

hex_digit-get_or : (n : ℕ) → n < 16 → hex_digit (get_or hex_table n 0) ≡ some n
hex_digit-get_or n h = ground (arith, table_entry reads_back 16 reads_back_table n h)

hex_digit_bound : (c : ℕ) {d : ℕ} → hex_digit c ≡ some d → c < 103
unfolding hex_digit
hex_digit_bound c h = ground arith

get_or-hex_digit : (c : ℕ) {d : ℕ} → hex_digit c ≡ some d → (get_or hex_table d 0 ≡ c) × (d < 16)
get_or-hex_digit c h =
    ground (arith, table_entry stands_in_table 103 stands_in_table_table c (hex_digit_bound c h))

decode_pairs-lower_hex :
    (bytes : Bytes) → All IsByte bytes → decode_pairs (lower_hex bytes) ≡ some bytes
unfolding decode_pairs lower_hex
decode_pairs-lower_hex [] _ = refl
decode_pairs-lower_hex (b ∷ bs) (h, hs) =
    rw (hex_digit-get_or (b / 16) (omega arith), hex_digit-get_or (b % 16) (omega arith))
      (rw (decode_pairs-lower_hex bs hs) (ap (λ (x : ℕ). some (x ∷ bs)) (join_nibbles_lem b h)))

length-lower_hex : (bytes : Bytes) → length (lower_hex bytes) ≡ 2 * length bytes
unfolding lower_hex
length-lower_hex [] = omega arith
length-lower_hex (b ∷ bs) = omega (arith, length-lower_hex bs)

-- Decoding the lowercase hexadecimal of any bytes gives the bytes back.
pub decode_hex-lower_hex :
    (bytes : Bytes) → All IsByte bytes → decode_hex (lower_hex bytes) ≡ some bytes
unfolding decode_hex
decode_hex-lower_hex bytes h =
    let even : length (lower_hex bytes) % 2 ≡ 0 = omega (arith, length-lower_hex bytes) in
    rw even (decode_pairs-lower_hex bytes h)

abbrev Decodes : Bytes → Bytes → Type 0
Decodes text bytes = (lower_hex bytes ≡ text) × All IsByte bytes

pair_sound :
    (x y hi lo : ℕ) (text rest : Bytes)
    → hex_digit x ≡ some hi
    → hex_digit y ≡ some lo
    → Decodes text rest
    → Decodes (x ∷ y ∷ text) (join_nibbles hi lo ∷ rest)
unfolding lower_hex
pair_sound x y hi lo text rest p q d =
    let (ex, hx) = get_or-hex_digit x p in
    let (ey, hy) = get_or-hex_digit y q in
    let (j, b) = join_nibbles_split hi lo hx hy in
    let u : (hi * 16 + lo) / 16 ≡ hi = omega arith in
    let v : (hi * 16 + lo) % 16 ≡ lo = omega arith in (rw (j, u, v, ex, ey, d.0), (rw j b, d.1))

decode_pairs_sound :
    (text bytes : Bytes) → length text % 2 ≡ 0 → decode_pairs text ≡ some bytes → Decodes text bytes
unfolding decode_pairs lower_hex
decode_pairs_sound [] bytes e h = subst (Decodes []) (some-injective _ _ h) (refl, tt)
decode_pairs_sound (x ∷ []) bytes e h = absurd (omega arith)
decode_pairs_sound (x ∷ y ∷ text) bytes e h = elim (Option-cases (hex_digit x)) [
  | inl p ↦ cc (rw (p, ◌>>=◌) at h)
  | inr (hi, p) ↦ elim (Option-cases (hex_digit y)) [
    | inl q ↦ cc (rw (p, q, ◌>>=◌) at h)
    | inr (lo, q) ↦ elim (Option-cases (decode_pairs text)) [
      | inl r ↦ cc (rw (p, q, r, ◌>>=◌) at h)
      | inr (rest, r) ↦
          subst (Decodes (x ∷ y ∷ text)) (some-injective _ _ (rw (p, q, r, ◌>>=◌) at h))
            (pair_sound x y hi lo text rest p q (decode_pairs_sound text rest (omega arith) r))
    ]
  ]
]

-- An accepted text is exactly the lowercase hexadecimal of the bytes it decodes to.
pub decode_hex_sound :
    (text bytes : Bytes)
    → decode_hex text ≡ some bytes
    → (lower_hex bytes ≡ text) × All IsByte bytes
unfolding decode_hex
decode_hex_sound text bytes h = elim (Bool-cases (length text % 2 == 0)) [
  | inl e ↦ decode_pairs_sound text bytes ((==_iff _ 0).0 e) (rw e at h)
  | inr e ↦ cc (rw e at h)
]

get_or_table_ascii : (n : ℕ) → n < 16 → get_or hex_table n 0 < 128
get_or_table_ascii n h =
    omega (arith, hex_digit_bound (get_or hex_table n 0) (hex_digit-get_or n h))

pub lower_hex_ascii : (bytes : Bytes) → All IsByte bytes → All (λ b. b < 128) (lower_hex bytes)
unfolding lower_hex
lower_hex_ascii [] h = tt
lower_hex_ascii (b ∷ bs) (h, hs) = (
  get_or_table_ascii (b / 16) (omega arith),
  (get_or_table_ascii (b % 16) (omega arith), lower_hex_ascii bs hs),
)
