-- ===== src/Sigv4/Percent/Alphabet.antt =====
-- src/pa/sigv4.rs: the bytes that `percent_encode` writes.
use agent_voice.Common.{
  ℕ, ◌/◌, ◌%◌, ◌<◌, ◌≡◌, ◌≢◌, leb, All-map, refl, Bool, true, ◌&&◌, ◌||◌, [], ◌∷◌, ◌==◌, get_or,
  All, All-append, Bytes, IsByte, arith, Bool-cases, inl, inr,
}
use agent_voice.Common.Nibbles.{join_nibbles}
use agent_voice.Sigv4.Percent.Canonical.{decoded-lt}
use agent_voice.Common.Tables.{table_holds, table_entry}
use agent_voice.Sigv4.Percent.{
  upper_hex_table, is_hex_byte, hex_value, is_uri_unreserved, escape, canonical_escape, encode_byte,
  percent_encode,
}

-- Digits, letters, '-', '.', '_' and '~', the percent sign, and the slash where it is preserved.
abbrev is_safe : Bool → ℕ → Bool
is_safe slash c =
    (leb b'0' c && leb c b'9')
    || ((leb b'A' c && leb c b'Z')
        || ((leb b'a' c && leb c b'z')
            || ((c == b'-' || c == b'.')
                || ((c == b'_' || c == b'~') || (c == b'%' || (slash && c == b'/'))))))

-- Neither a separator of a URI or of its query nor a space nor a line break.
abbrev pub IsPlain : ℕ → Type 0
IsPlain c =
    (c ≢ b'&')
    × ((c ≢ b'=') × ((c ≢ b'?') × ((c ≢ b'#') × ((c ≢ b'+') × ((c ≢ b' ') × (c ≢ b'\n'))))))

abbrev digit_test : ℕ → Bool
digit_test n = is_uri_unreserved (get_or upper_hex_table n 0)

digit_table : table_holds digit_test 16 ≡ true
unfolding table_holds is_uri_unreserved
digit_table = refl

digit_unreserved : (n : ℕ) → n < 16 → is_uri_unreserved (get_or upper_hex_table n 0) ≡ true
digit_unreserved = table_entry digit_test 16 digit_table

module _ (slash : Bool) where
  abbrev pub IsSafe : ℕ → Type 0
  IsSafe c = is_safe slash c ≡ true

  unreserved-IsSafe : (c : ℕ) → is_uri_unreserved c ≡ true → IsSafe c
  unfolding is_uri_unreserved
  unreserved-IsSafe c h = ground arith

  IsSafe-IsPlain : (c : ℕ) → IsSafe c → IsPlain c
  IsSafe-IsPlain c h = (
    ground arith,
    (ground arith, (ground arith, (ground arith, (ground arith, (ground arith, ground arith))))),
  )

  escape-IsSafe : (byte : ℕ) → IsByte byte → All IsSafe (escape byte)
  unfolding escape
  escape-IsSafe byte h =
      let high = digit_unreserved (byte / 16) (omega arith) in
      let low = digit_unreserved (byte % 16) (omega arith) in
      (refl, (unreserved-IsSafe _ high, (unreserved-IsSafe _ low, tt)))

  kept : (c : ℕ) → (is_uri_unreserved c || (slash && c == b'/')) ≡ true → IsSafe c
  kept c h = elim (Bool-cases (is_uri_unreserved c)) [
    | inl e ↦ unreserved-IsSafe c e
    | inr e ↦ let rest = rw e at h in ground arith
  ]

  encode_byte-IsSafe : (byte : ℕ) → IsByte byte → All IsSafe (encode_byte slash byte)
  unfolding encode_byte
  encode_byte-IsSafe byte h =
      elim (Bool-cases (is_uri_unreserved byte || (slash && byte == b'/'))) [
        | inl e ↦ rw e (kept byte e, tt)
        | inr e ↦ rw e (escape-IsSafe byte h)
      ]

  canonical_escape-IsSafe :
      (high low : ℕ)
      → is_hex_byte high ≡ true
      → is_hex_byte low ≡ true
      → All IsSafe (canonical_escape high low)
  unfolding canonical_escape
  canonical_escape-IsSafe high low h l =
      let byte = join_nibbles (hex_value high) (hex_value low) in
      let bound : IsByte byte = decoded-lt slash high low h l in
      elim (Bool-cases (is_uri_unreserved byte)) [
        | inl e ↦ rw e (unreserved-IsSafe byte e, tt)
        | inr e ↦ rw e (escape-IsSafe byte bound)
      ]

  encoded-IsSafe : (s : Bytes) → All IsByte s → All IsSafe (percent_encode slash true s)
  unfolding percent_encode
  encoded-IsSafe [] _ = tt
  encoded-IsSafe (byte ∷ []) (h, _) = encode_byte-IsSafe byte h
  encoded-IsSafe (byte ∷ next ∷ []) (h, (h', _)) =
      All-append IsSafe (encode_byte slash byte) (encode_byte slash next)
        (encode_byte-IsSafe byte h) (encode_byte-IsSafe next h')
  encoded-IsSafe (byte ∷ high ∷ low ∷ rest) (h, (hh, (hl, hs))) =
      elim (Bool-cases (byte == b'%' && (is_hex_byte high && is_hex_byte low))) [
        | inl e ↦ rw e (
            All-append IsSafe (canonical_escape high low) (percent_encode slash true rest)
              (canonical_escape-IsSafe high low (ground arith) (ground arith))
              (encoded-IsSafe rest hs))
        | inr e ↦ rw e (
            All-append IsSafe (encode_byte slash byte)
              (percent_encode slash true (high ∷ low ∷ rest)) (encode_byte-IsSafe byte h)
              (encoded-IsSafe (high ∷ low ∷ rest) (hh, (hl, hs))))
      ]

  -- Encoding a text of bytes leaves digits, letters, '-', '.', '_', '~' and '%', and in a path the
  -- slash; so no byte of the result is '&', '=', '?', '#', '+', a space or a line feed.
  pub percent_encode-IsSafe :
      (s : Bytes)
      → All IsByte s
      → All IsSafe (percent_encode slash true s) × All IsPlain (percent_encode slash true s)
  percent_encode-IsSafe s h =
      let safe = encoded-IsSafe s h in
      (safe, All-map {Q = IsPlain} IsSafe-IsPlain (percent_encode slash true s) safe)
