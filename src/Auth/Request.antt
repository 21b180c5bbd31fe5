-- ===== src/Auth/Request.antt =====
-- src/pa/auth.rs: `canonical_request`, `sign_request` and `verify_request`.
pub mod Laws
use agent_voice.Common.{
  ℕ, ◌+◌, ◌≤◌, ◌<◌, ◌≡◌, ◌↔◌, Bool, true, false, not, ◌&&◌, ◌||◌, Option, none, some, List, [], ◌∷◌,
  ◌++◌, leb, ltb, ◌==◌, map, if◌then◌else◌, length, all, All, Bytes, IsByte, codes, is_alphanumeric,
  to_upper,
}
use agent_voice.Common.Results.{Result, ok, err, ◌>>=◌, ◌>>◌, guard, ok_or}
use agent_voice.Common.Int.{ℤ, abs_diff}
use agent_voice.Common.Utf8.{is_utf8}
use agent_voice.Common.Decimal.{parse_i64, print_i64}
use agent_voice.Auth.Hex.{lower_hex, decode_hex}
use agent_voice.Auth.Guard.{InMemoryReplayGuard}
use agent_voice.Auth.Guard

abbrev x_av_timestamp : Bytes
x_av_timestamp = codes "X-AV-Timestamp"

abbrev x_av_nonce : Bytes
x_av_nonce = codes "X-AV-Nonce"

abbrev x_av_signature : Bytes
x_av_signature = codes "X-AV-Signature"

abbrev max_clock_skew_seconds : ℕ
max_clock_skew_seconds = 60

-- The length of a SHA-256 digest.
abbrev sha256_output_len : ℕ
sha256_output_len = 32

pub data AuthError : Type 0 where
  empty_secret : AuthError
  non_utf8_header : Bytes → AuthError
  invalid_timestamp : AuthError
  timestamp_outside_allowed_skew : AuthError
  invalid_nonce : AuthError
  invalid_signature_encoding : AuthError
  invalid_signature : AuthError
  nonce_replay : AuthError

abbrev pub AuthResult {ℓ} : Type ℓ → Type ℓ
AuthResult A = Result AuthError A

-- The functions of the `ring` crate that the module calls: SHA-256, HMAC-SHA-256 under a key, and
-- the comparison of a tag with the one that the key gives.
pub record Ring : Type 0 where
  pub sha256 : Bytes → Bytes
  pub hmac_sign : Bytes → Bytes → Bytes
  pub hmac_verify : Bytes → Bytes → Bytes → Bool

-- What `ring` documents of them.
pub record RingLaws (r : Ring) : Type 0 where
  pub tag_length : (key message : Bytes) → length (r.hmac_sign key message) ≡ sha256_output_len
  pub tag_bytes : (key message : Bytes) → All IsByte (r.hmac_sign key message)
  pub verify_iff :
      (key message tag : Bytes)
      → (r.hmac_verify key message tag ≡ true) ↔ (tag ≡ r.hmac_sign key message)

-- The trait `ReplayGuard` for guards of type `G`.
pub record ReplayGuard (G : Type 0) : Type 0 where
  pub check_and_record : G → Bytes → ℤ → Bool × G

-- `impl ReplayGuard for InMemoryReplayGuard`
instance abbrev pub in_memory_guard : ReplayGuard InMemoryReplayGuard
in_memory_guard = record { check_and_record = Guard.check_and_record }

-- The five parts with a line break between them.
unfoldable pub canonical_request : Ring → Bytes → Bytes → ℤ → Bytes → Bytes → Bytes
canonical_request r method path_and_query timestamp nonce body =
    map to_upper method
    ++ (b'\n'
        ∷ (path_and_query
            ++ (b'\n'
                ∷ (print_i64 timestamp
                    ++ (b'\n' ∷ (nonce ++ (b'\n' ∷ lower_hex (r.sha256 body))))))))

unfoldable pub hmac_key : Bytes → AuthResult Bytes
hmac_key [] = err empty_secret
hmac_key (byte ∷ secret) = ok (byte ∷ secret)

is_nonce_byte : ℕ → Bool
is_nonce_byte byte = is_alphanumeric byte || (byte == b'_' || byte == b'-')

unfoldable pub validate_nonce : Bytes → AuthResult (Unit {0})
unfolding is_nonce_byte
validate_nonce nonce =
    guard ((leb 16 (length nonce) && leb (length nonce) 128) && all is_nonce_byte nonce)
      invalid_nonce

unfoldable pub sign_request : Ring → Bytes → Bytes → Bytes → ℤ → Bytes → Bytes → AuthResult Bytes
sign_request r secret method path_and_query timestamp nonce body = do
  key ← hmac_key secret
  validate_nonce nonce
  ok (lower_hex (r.hmac_sign key (canonical_request r method path_and_query timestamp nonce body)))

-- The lines of `verify_request` before the guard is asked; they give the nonce.
unfoldable pub authenticate :
    Ring → Bytes → Bytes → Bytes → Bytes → Bytes → Bytes → Bytes → ℤ → AuthResult Bytes
authenticate r secret method path_and_query timestamp_header nonce signature_text body now = do
  key ← hmac_key secret
  guard (is_utf8 timestamp_header) (non_utf8_header x_av_timestamp)
  guard (is_utf8 nonce) (non_utf8_header x_av_nonce)
  guard (is_utf8 signature_text) (non_utf8_header x_av_signature)
  timestamp ← ok_or (parse_i64 timestamp_header) invalid_timestamp
  guard (leb (abs_diff timestamp now) max_clock_skew_seconds) timestamp_outside_allowed_skew
  validate_nonce nonce
  signature ← ok_or (decode_hex signature_text) invalid_signature_encoding
  guard (length signature == sha256_output_len) invalid_signature_encoding
  guard
      (r.hmac_verify key (canonical_request r method path_and_query timestamp nonce body) signature)
      invalid_signature
  ok nonce

-- The guard is asked last, and its answer decides.
abbrev consume :
    {G : Type 0} ⦃replay : ReplayGuard G⦄ → ℤ → G → AuthResult Bytes → AuthResult (Unit {0}) × G
consume now g (err e) = (err e, g)
consume ⦃replay⦄ now g (ok nonce) =
    let (fresh, g') = replay.check_and_record g nonce now in (guard fresh nonce_replay, g')

unfoldable pub verify_request :
    {G : Type 0} ⦃replay : ReplayGuard G⦄
    → Ring
    → Bytes
    → Bytes
    → Bytes
    → Bytes
    → Bytes
    → Bytes
    → Bytes
    → ℤ
    → G
    → AuthResult (Unit {0}) × G
verify_request r secret method path_and_query timestamp_header nonce signature_text body now g =
    consume now g
      (authenticate r secret method path_and_query timestamp_header nonce signature_text body now)
