-- ===== src/Sigv4/Percent/Canonical.antt =====
-- src/pa/sigv4.rs: `percent_encode` on what it wrote.
use agent_voice.Common.{
  ℕ, ◌/◌, ◌%◌, ◌<◌, ◌≡◌, refl, ap, ◌∙◌, Bool, true, false, ◌&&◌, ◌||◌, [], ◌∷◌, ◌++◌, ◌==◌,
  if◌then◌else◌, get_or, All, Bytes, IsByte, arith, Bool-cases, inl, inr,
}
use mathlib.Core.List.{append-nil}
use agent_voice.Common.Nibbles.{join_nibbles, join_nibbles_lem, join_nibbles_split}
use agent_voice.Common.Tables.{table_holds, table_entry}
use agent_voice.Sigv4.Percent.{
  upper_hex_table, is_hex_byte, hex_value, is_uri_unreserved, escape, canonical_escape, encode_byte,
  percent_encode,
}

-- The digits of the table are hexadecimal and have their index as value.
abbrev digit_test : ℕ → Bool
digit_test n =
    is_hex_byte (get_or upper_hex_table n 0) && (hex_value (get_or upper_hex_table n 0) == n)

digit_table : table_holds digit_test 16 ≡ true
unfolding table_holds is_hex_byte hex_value
digit_table = refl

digit_lem :
    (n : ℕ)
    → n < 16
    → (is_hex_byte (get_or upper_hex_table n 0) ≡ true)
      × (hex_value (get_or upper_hex_table n 0) ≡ n)
digit_lem n h = let e = table_entry digit_test 16 digit_table n h in (ground arith, ground arith)

hex_value-lt : (byte : ℕ) → is_hex_byte byte ≡ true → hex_value byte < 16
unfolding is_hex_byte hex_value
hex_value-lt byte h = ground arith

unreserved_ne_percent : (c : ℕ) → is_uri_unreserved c ≡ true → (c == b'%') ≡ false
unfolding is_uri_unreserved
unreserved_ne_percent c h = ground arith

module _ (slash : Bool) where
  abbrev is_plain : ℕ → Bool
  is_plain c = is_uri_unreserved c || (slash && c == b'/')

  -- Encoding a text that begins with the part gives the part and goes on behind it.
  abbrev IsStable : Bytes → Type 0
  IsStable part =
      (rest : Bytes)
      → percent_encode slash true (part ++ rest) ≡ part ++ percent_encode slash true rest

  is_plain_ne_percent : (c : ℕ) → is_plain c ≡ true → (c == b'%') ≡ false
  is_plain_ne_percent c h = elim (Bool-cases (is_uri_unreserved c)) [
    | inl u ↦ unreserved_ne_percent c u
    | inr u ↦ ground arith
  ]

  plain-IsStable : (c : ℕ) → is_plain c ≡ true → IsStable (c ∷ [])
  unfolding percent_encode
  plain-IsStable c h [] = rw h
  plain-IsStable c h (x ∷ []) = rw h
  plain-IsStable c h (x ∷ y ∷ rest) = rw (is_plain_ne_percent c h, h)

  canonical_escape_lem :
      (d : ℕ)
      → d < 256
      → canonical_escape (get_or upper_hex_table (d / 16) 0) (get_or upper_hex_table (d % 16) 0)
        ≡ (if is_uri_unreserved d then d ∷ [] else escape d)
  unfolding canonical_escape
  canonical_escape_lem d h = rw (
    (digit_lem (d / 16) (omega arith)).1,
    (digit_lem (d % 16) (omega arith)).1,
    join_nibbles_lem d h,
  )

  escape-IsStable : (d : ℕ) → d < 256 → is_uri_unreserved d ≡ false → IsStable (escape d)
  unfolding percent_encode
  escape-IsStable d h u rest = rw (
    (digit_lem (d / 16) (omega arith)).0,
    (digit_lem (d % 16) (omega arith)).0,
    canonical_escape_lem d h,
    u,
  )

  encode_plain : (b : ℕ) → is_plain b ≡ true → encode_byte slash b ≡ b ∷ []
  unfolding encode_byte
  encode_plain b p = rw p

  encode_escape : (b : ℕ) → is_plain b ≡ false → encode_byte slash b ≡ escape b
  unfolding encode_byte
  encode_escape b p = rw p

  encode_byte-IsStable : (b : ℕ) → b < 256 → IsStable (encode_byte slash b)
  encode_byte-IsStable b h rest = elim (Bool-cases (is_plain b)) [
    | inl p ↦ rw (encode_plain b p) (plain-IsStable b p rest)
    | inr p ↦ rw (encode_escape b p) (escape-IsStable b h (ground arith) rest)
  ]

  decoded_unreserved :
      (high low : ℕ)
      → is_uri_unreserved (join_nibbles (hex_value high) (hex_value low)) ≡ true
      → canonical_escape high low ≡ join_nibbles (hex_value high) (hex_value low) ∷ []
  unfolding canonical_escape
  decoded_unreserved high low u = rw u

  decoded_reserved :
      (high low : ℕ)
      → is_uri_unreserved (join_nibbles (hex_value high) (hex_value low)) ≡ false
      → canonical_escape high low ≡ escape (join_nibbles (hex_value high) (hex_value low))
  unfolding canonical_escape
  decoded_reserved high low u = rw u

  pub decoded-lt :
      (high low : ℕ)
      → is_hex_byte high ≡ true
      → is_hex_byte low ≡ true
      → join_nibbles (hex_value high) (hex_value low) < 256
  decoded-lt high low h l =
      let (e, b) =
        join_nibbles_split (hex_value high) (hex_value low) (hex_value-lt high h)
          (hex_value-lt low l) in
      rw e b

  canonical_escape-IsStable :
      (high low : ℕ)
      → is_hex_byte high ≡ true
      → is_hex_byte low ≡ true
      → IsStable (canonical_escape high low)
  canonical_escape-IsStable high low h l rest =
      let decoded = join_nibbles (hex_value high) (hex_value low) in
      elim (Bool-cases (is_uri_unreserved decoded)) [
        | inl u ↦ rw (decoded_unreserved high low u) (plain-IsStable decoded (ground arith) rest)
        | inr u ↦
            rw (decoded_reserved high low u)
              (escape-IsStable decoded (decoded-lt high low h l) u rest)
      ]

  stable_end : (part : Bytes) → IsStable part → percent_encode slash true part ≡ part
  unfolding percent_encode
  stable_end part st = rw append-nil at (st [])

  encode_escaped :
      (b high low : ℕ) (rest : Bytes)
      → ((b == b'%') && (is_hex_byte high && is_hex_byte low)) ≡ true
      → percent_encode slash true (b ∷ high ∷ low ∷ rest)
        ≡ canonical_escape high low ++ percent_encode slash true rest
  unfolding percent_encode
  encode_escaped b high low rest e = rw e

  encode_other :
      (b high low : ℕ) (rest : Bytes)
      → ((b == b'%') && (is_hex_byte high && is_hex_byte low)) ≡ false
      → percent_encode slash true (b ∷ high ∷ low ∷ rest)
        ≡ encode_byte slash b ++ percent_encode slash true (high ∷ low ∷ rest)
  unfolding percent_encode
  encode_other b high low rest e = rw e

  stable_part :
      (part s : Bytes)
      → IsStable part
      → percent_encode slash true (percent_encode slash true s) ≡ percent_encode slash true s
      → percent_encode slash true (part ++ percent_encode slash true s)
        ≡ part ++ percent_encode slash true s
  stable_part part s st e = st (percent_encode slash true s) ∙ ap (λ t. part ++ t) e

  -- Percent encoding that keeps valid escapes is idempotent.
  pub percent_encode_idempotent :
      (s : Bytes)
      → All IsByte s
      → percent_encode slash true (percent_encode slash true s) ≡ percent_encode slash true s
  unfolding percent_encode
  percent_encode_idempotent [] _ = refl
  percent_encode_idempotent (b ∷ []) (hb, _) =
      stable_end (encode_byte slash b) (encode_byte-IsStable b hb)
  percent_encode_idempotent (b ∷ c ∷ []) (hb, (hc, _)) =
      encode_byte-IsStable b hb (encode_byte slash c)
      ∙ ap (λ t. encode_byte slash b ++ t)
          (stable_end (encode_byte slash c) (encode_byte-IsStable c hc))
  percent_encode_idempotent (b ∷ high ∷ low ∷ rest) (hb, (hh, (hl, hr))) =
      elim (Bool-cases ((b == b'%') && (is_hex_byte high && is_hex_byte low))) [
        | inl e ↦ rw (encode_escaped b high low rest e) (
            stable_part (canonical_escape high low) rest
              (canonical_escape-IsStable high low (ground arith) (ground arith))
              (percent_encode_idempotent rest hr))
        | inr e ↦ rw (encode_other b high low rest e) (
            stable_part (encode_byte slash b) (high ∷ low ∷ rest) (encode_byte-IsStable b hb)
              (percent_encode_idempotent (high ∷ low ∷ rest) (hh, (hl, hr))))
      ]
