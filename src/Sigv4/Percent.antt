-- ===== src/Sigv4/Percent.antt =====
-- src/pa/sigv4.rs: `percent_encode` and the bytes it tells apart.
pub mod Canonical
pub mod Alphabet
use agent_voice.Common.Nibbles.{join_nibbles}
use agent_voice.Common.{
  ℕ, ◌+◌, ◌-◌, ◌*◌, ◌/◌, ◌%◌, Bool, ◌&&◌, ◌||◌, [], ◌∷◌, ◌++◌, leb, ◌==◌, if◌then◌else◌, get_or,
  Bytes, codes, is_digit, is_alphanumeric,
}

abbrev upper_hex_table : Bytes
upper_hex_table = codes "0123456789ABCDEF"

unfoldable pub is_hex_byte : ℕ → Bool
is_hex_byte byte =
    is_digit byte || ((leb b'a' byte && leb byte b'f') || (leb b'A' byte && leb byte b'F'))

-- `unreachable!` on any other byte: the loop asks for hexadecimal bytes alone.
unfoldable pub hex_value : ℕ → ℕ
hex_value byte =
    if is_digit byte
    then byte - b'0'
    else if leb b'a' byte && leb byte b'f'
    then byte - b'a' + 10
    else byte - b'A' + 10

unfoldable pub is_uri_unreserved : ℕ → Bool
is_uri_unreserved byte =
    is_alphanumeric byte || (byte == b'-' || (byte == b'.' || (byte == b'_' || byte == b'~')))

-- `%` and the two digits of the byte.
unfoldable pub escape : ℕ → Bytes
escape byte =
    b'%' ∷ get_or upper_hex_table (byte / 16) 0 ∷ get_or upper_hex_table (byte % 16) 0 ∷ []

-- What the round for a valid escape pushes.
unfoldable pub canonical_escape : ℕ → ℕ → Bytes
unfolding is_uri_unreserved escape hex_value join_nibbles
canonical_escape high low =
    let decoded = join_nibbles (hex_value high) (hex_value low) in
    if is_uri_unreserved decoded then decoded ∷ [] else escape decoded

-- What the round for any other byte pushes.
unfoldable pub encode_byte : Bool → ℕ → Bytes
unfolding is_uri_unreserved escape
encode_byte preserve_slash byte =
    if is_uri_unreserved byte || (preserve_slash && byte == b'/') then byte ∷ [] else escape byte

-- The index of the loop is the rest of the bytes; an escape takes three of them.
unfoldable pub percent_encode : Bool → Bool → Bytes → Bytes
unfolding is_hex_byte canonical_escape encode_byte
percent_encode preserve_slash preserve_valid_escapes [] = []
percent_encode preserve_slash preserve_valid_escapes (byte ∷ []) = encode_byte preserve_slash byte
percent_encode preserve_slash preserve_valid_escapes (byte ∷ next ∷ []) =
    encode_byte preserve_slash byte ++ encode_byte preserve_slash next
percent_encode preserve_slash preserve_valid_escapes (byte ∷ high ∷ low ∷ rest) =
    let escaped =
      canonical_escape high low ++ percent_encode preserve_slash preserve_valid_escapes rest in
    let plain =
      encode_byte preserve_slash byte
      ++ percent_encode preserve_slash preserve_valid_escapes (high ∷ low ∷ rest) in
    if (preserve_valid_escapes && byte == b'%') && (is_hex_byte high && is_hex_byte low)
    then escaped
    else plain
