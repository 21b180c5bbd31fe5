-- ===== src/Sigv4/Headers.antt =====
-- src/pa/sigv4.rs: the canonical method and headers, and the other validations of a request.
pub mod Values
pub mod Canonical
use mathlib.Core.Option
use agent_voice.Common.{
  ℕ, Bool, true, false, not, ◌&&◌, ◌||◌, Option, none, some, List, [], ◌∷◌, ◌++◌, map, leb, ltb,
  ◌==◌, if◌then◌else◌, length, all, retain, Bytes, bytes_eq, codes, is_digit, is_lower,
  is_alphanumeric, to_lower,
}
use agent_voice.Common.Results.{Result, ok, err, ◌>>=◌, ◌>>◌, guard, ok_or}
use agent_voice.Common.Order.{bytes_leb, sort}
use agent_voice.Sigv4.Kinds.{
  Credentials, SigV4ErrorKind, SigResult, invalid_method, invalid_region, invalid_credential,
  invalid_header, duplicate_header, missing_required_header, payload_hash_mismatch,
  unsupported_header, max_region_len, min_access_key_len, max_access_key_len, max_secret_len,
  max_session_token_len,
}
use agent_voice.Sigv4.Timestamp.{validate_timestamp}

abbrev pub is_empty : Bytes → Bool
is_empty [] = true
is_empty (c ∷ s) = false

-- `is_method_byte` and `is_header_name_byte` are the same test in the source.
unfoldable pub is_token_byte : ℕ → Bool
is_token_byte byte =
    is_alphanumeric byte
    || ((byte == b'!' || (byte == b'#' || (byte == b'$' || (byte == b'%' || byte == b'&'))))
        || ((byte == b'\'' || (byte == b'*' || (byte == b'+' || (byte == b'-' || byte == b'.'))))
            || (byte == b'^'
                || (byte == b'_' || (byte == b'`' || (byte == b'|' || byte == b'~'))))))

abbrev is_ascii : Bytes → Bool
is_ascii = all (λ byte. ltb byte 128)

unfoldable pub canonical_method : Bytes → SigResult Bytes
unfolding is_token_byte
canonical_method method =
    if (is_empty method || ltb 64 (length method))
      || (not (is_ascii method) || not (all is_token_byte method))
    then err invalid_method
    else ok method

unfoldable pub normalize_header_name : Bytes → SigResult Bytes
unfolding is_token_byte
normalize_header_name name =
    if is_empty name || (not (is_ascii name) || not (all is_token_byte name))
    then err invalid_header
    else if bytes_eq (map to_lower name) (codes "authorization")
    then err unsupported_header
    else ok (map to_lower name)

abbrev is_blank : ℕ → Bool
is_blank c = c == b' ' || c == b'\t'

-- A control character other than a tab, in UTF-8.
unfoldable pub has_bad_control : Bytes → Bool
has_bad_control [] = false
has_bad_control (c ∷ []) = (ltb c 0x20 && not (is_blank c)) || c == 0x7f
has_bad_control (c ∷ next ∷ rest) =
    ((ltb c 0x20 && not (is_blank c))
      || (c == 0x7f || (c == 0xc2 && (leb 0x80 next && leb next 0x9f))))
    || has_bad_control (next ∷ rest)

-- The loop over the characters with `normalized` and `pending_space`.
unfoldable pub collapse : Bytes → Bytes → Bool → Bytes
collapse [] normalized pending_space = normalized
collapse (c ∷ rest) normalized pending_space =
    collapse rest
      (if is_blank c
        then normalized
        else normalized ++ (if pending_space then b' ' ∷ c ∷ [] else c ∷ []))
      (if is_blank c then (if is_empty normalized then pending_space else true) else false)

unfoldable pub normalize_header_value : Bytes → SigResult Bytes
unfolding has_bad_control collapse
normalize_header_value value =
    if has_bad_control value then err invalid_header else ok (collapse value [] false)

pub record CanonicalHeader : Type 0 where
  pub name : Bytes
  pub value : Bytes

unfoldable pub normalize_headers : List (Bytes × Bytes) → SigResult (List CanonicalHeader)
normalize_headers [] = ok []
normalize_headers ((name, value) ∷ headers) =
    let rest = normalize_headers headers in
    (do
      name' ← normalize_header_name name
      value' ← normalize_header_value value
      headers' ← rest
      ok (record { name = name'; value = value' } ∷ headers'))

abbrev name_leb : CanonicalHeader → CanonicalHeader → Bool
name_leb left right = bytes_leb left.name right.name

unfoldable pub has_duplicate : List CanonicalHeader → Bool
has_duplicate [] = false
has_duplicate (h ∷ []) = false
has_duplicate (h ∷ next ∷ rest) = bytes_eq h.name next.name || has_duplicate (next ∷ rest)

-- `normalized.iter().find(|header| header.name == name)`
unfoldable pub find_header : Bytes → List CanonicalHeader → Option CanonicalHeader
find_header name [] = none
find_header name (h ∷ headers) = if bytes_eq h.name name then some h else find_header name headers

-- The lines of `canonical_headers` behind the sort.
unfoldable pub check_headers : List CanonicalHeader → Bytes → SigResult (Unit {0})
check_headers normalized payload_sha256 = do
  guard (not (has_duplicate normalized)) duplicate_header
  host ← ok_or (find_header (codes "host") normalized) missing_required_header
  guard (not (is_empty host.value)) invalid_header
  payload_header ←
      ok_or (find_header (codes "x-amz-content-sha256") normalized) missing_required_header
  guard (bytes_eq payload_header.value payload_sha256) payload_hash_mismatch
  date_header ← ok_or (find_header (codes "x-amz-date") normalized) missing_required_header
  date ← validate_timestamp date_header.value
  ok tt

unfoldable pub canonical_headers : List (Bytes × Bytes) → Bytes → SigResult (List CanonicalHeader)
canonical_headers headers payload_sha256 = do
  unsorted ← normalize_headers headers
  let normalized = sort name_leb unsorted
  check_headers normalized payload_sha256
  ok normalized

abbrev is_lower_hex : ℕ → Bool
is_lower_hex byte = is_digit byte || (leb b'a' byte && leb byte b'f')

unfoldable pub validate_payload_hash : Bytes → SigResult (Unit {0})
validate_payload_hash payload_sha256 =
    guard (length payload_sha256 == 64 && all is_lower_hex payload_sha256) payload_hash_mismatch

abbrev is_region_byte : ℕ → Bool
is_region_byte byte = is_lower byte || (is_digit byte || byte == b'-')

unfoldable pub validate_region : Bytes → SigResult (Unit {0})
validate_region region =
    guard
      ((not (is_empty region) && leb (length region) max_region_len) && all is_region_byte region)
      invalid_region

unfoldable pub is_access_key_id : Bytes → Bool
is_access_key_id value =
    (not (is_empty value) && leb min_access_key_len (length value))
    && (leb (length value) max_access_key_len && all is_alphanumeric value)

unfoldable pub is_bounded_ascii_identifier : Bytes → ℕ → Bool
is_bounded_ascii_identifier value max_len =
    (not (is_empty value) && leb (length value) max_len)
    && all (λ byte. ltb byte 128 && (leb 0x21 byte && leb byte 0x7e)) value

unfoldable pub validate_credentials : Credentials → SigResult (Unit {0})
unfolding is_access_key_id is_bounded_ascii_identifier
validate_credentials credentials = do
  guard
      (is_access_key_id credentials.access_key_id
        && (not (is_empty credentials.secret_access_key)
            && leb (length credentials.secret_access_key) max_secret_len))
      invalid_credential
  guard
      (elim credentials.session_token [
        | none ↦ true
        | some token ↦ is_bounded_ascii_identifier token max_session_token_len
      ])
      invalid_credential

-- `name.eq_ignore_ascii_case(...)` against a lowercase name.
abbrev pub is_named : Bytes → Bytes × Bytes → Bool
is_named expected (name, value) = bytes_eq (map to_lower name) expected

check_token_header : List (Bytes × Bytes) → Option Bytes → SigResult (Unit {0})
check_token_header [] none = ok tt
check_token_header (header ∷ matching) none = err invalid_credential
check_token_header [] (some expected) = err missing_required_header
check_token_header ((name, value) ∷ []) (some expected) = do
  normalized ← normalize_header_value value
  guard (bytes_eq normalized expected) invalid_credential
check_token_header (header ∷ next ∷ matching) (some expected) = err duplicate_header

unfoldable pub validate_session_token_header :
    List (Bytes × Bytes) → Option Bytes → SigResult (Unit {0})
unfolding check_token_header
validate_session_token_header headers expected =
    check_token_header (retain (is_named (codes "x-amz-security-token")) headers) expected
