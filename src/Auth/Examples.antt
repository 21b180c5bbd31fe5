-- ===== src/Auth/Examples.antt =====
-- Runs of pa/auth.rs, with a stand-in for the crate `ring`: a tag of 32 bytes that depends on the
-- lengths of key and message.
use agent_voice.Common.{
  ℕ, zero, suc, ◌+◌, ◌%◌, ◌≡◌, ◌≢◌, ◌↔◌, refl, true, false, some, [], ◌∷◌, All, length, Bytes,
  IsByte, codes, bytes_eq, bytes_eq_refl, bytes_eq→eq, arith,
}
use agent_voice.Common.Results.{ok, err, guard}
use agent_voice.Common.Int.{ℤ, pos, negsuc, ◌+ℤ◌, ◌<ℤ◌}
use agent_voice.Common.Utf8.{is_utf8}
use agent_voice.Common.Decimal.{parse_i64, print_i64}
use agent_voice.Auth.Hex.{lower_hex, decode_hex}
use agent_voice.Auth.Guard.{
  InMemoryReplayGuard, contains_key, check_and_record, saturating_add, is_live,
}
use agent_voice.Auth.Guard.Laws.{IsValid, check_and_record-IsValid}
use agent_voice.Auth.Request.{
  Ring, RingLaws, canonical_request, hmac_key, validate_nonce, authenticate, in_memory_guard,
  sign_request, verify_request, nonce_replay, invalid_signature_encoding,
}
use agent_voice.Auth.Request.Laws.{Signed, verify_request-sign_request, verify_request_sound}
use agent_voice.Auth.Once.{Incoming, verify, serve, verified_once}

abbrev zeros : ℕ → Bytes
zeros n = elim n [ zero ↦ [] | suc (m → rest) ↦ 0 ∷ rest ]

abbrev tag : Bytes → Bytes → Bytes
tag key message = (length key + length message) % 256 ∷ zeros 31

abbrev ring : Ring
ring = record {
  sha256 = λ body. zeros 32;
  hmac_sign = tag;
  hmac_verify = λ key message t. bytes_eq t (tag key message);
}

zeros_bytes : (n : ℕ) → All IsByte (zeros n)
zeros_bytes = elim [ zero ↦ tt | suc (m → h) ↦ (omega arith, h) ]

ring_verify_iff :
    (key message t : Bytes) → (bytes_eq t (tag key message) ≡ true) ↔ (t ≡ tag key message)
ring_verify_iff key message t = (bytes_eq→eq t (tag key message), λ e. rw e (bytes_eq_refl _))

ring_laws : RingLaws ring
ring_laws = record {
  tag_length = λ key message. refl;
  tag_bytes = λ key message. (omega arith, zeros_bytes 31);
  verify_iff = ring_verify_iff;
}

abbrev secret : Bytes
secret = codes "secret"

abbrev nonce : Bytes
nonce = codes "abcdefghijklmnop"

abbrev signature : Bytes
signature = codes "6500000000000000000000000000000000000000000000000000000000000000"

signed : sign_request ring secret (codes "post") (codes "/pa") (pos 1000) nonce [] ≡ ok signature
unfolding sign_request canonical_request hmac_key validate_nonce lower_hex print_i64
signed = refl

abbrev fresh : InMemoryReplayGuard
fresh = record { accepted = []; capacity = 4096 }

abbrev post : Bytes
post = codes "post"

abbrev path : Bytes
path = codes "/pa"

header_timestamp : parse_i64 (codes "1000") ≡ some (pos 1000)
unfolding parse_i64
header_timestamp = refl

header_utf8 : is_utf8 (codes "1000") ≡ true
unfolding is_utf8
header_utf8 = refl

signed_verified :
    verify_request ring secret post path (codes "1000") nonce signature [] (pos 1060) fresh ≡ (
      guard (check_and_record fresh nonce (pos 1060)).0 nonce_replay,
      (check_and_record fresh nonce (pos 1060)).1,
    )
signed_verified =
    verify_request-sign_request ring ring_laws post path [] secret (codes "1000") nonce signature
      (pos 1060) fresh (pos 1000) header_timestamp header_utf8 (omega arith) signed

verify_request-sign_request_example :
    verify_request ring secret post path (codes "1000") nonce signature [] (pos 1060) fresh ≡ (
      guard (check_and_record fresh nonce (pos 1060)).0 nonce_replay,
      (check_and_record fresh nonce (pos 1060)).1,
    )
verify_request-sign_request_example =
    verify_request-sign_request ring ring_laws post path [] secret (codes "1000") nonce signature
      (pos 1060) fresh (pos 1000) header_timestamp header_utf8 (omega arith) signed

accepted_first : (check_and_record fresh nonce (pos 1060)).0 ≡ true
unfolding check_and_record contains_key
accepted_first = refl

verified :
    (verify_request ring secret post path (codes "1000") nonce signature [] (pos 1060) fresh).0
    ≡ ok tt
verified = rw (signed_verified, accepted_first) refl

verify_request_sound_example :
    Signed ring post path [] secret (codes "1000") nonce signature (pos 1060)
    × ((check_and_record fresh nonce (pos 1060)).0 ≡ true)
    × ((verify_request ring secret post path (codes "1000") nonce signature [] (pos 1060) fresh).1
        ≡ (check_and_record fresh nonce (pos 1060)).1)
verify_request_sound_example =
    verify_request_sound ring ring_laws post path [] secret (codes "1000") nonce signature
      (pos 1060) fresh verified

refused :
    (verify_request ring secret post path (codes "1000") nonce (codes "65") [] (pos 1060) fresh).0
    ≡ err invalid_signature_encoding
unfolding verify_request authenticate hmac_key is_utf8 parse_i64 validate_nonce decode_hex
refused = refl

abbrev request_at : ℤ → Incoming
request_at now = record {
  method = post;
  path_and_query = path;
  timestamp_header = codes "1000";
  nonce = nonce;
  signature = signature;
  body = [];
  now = now;
}

verified_at : (verify ring secret (request_at (pos 1060)) fresh).0 ≡ ok tt
unfolding verify
verified_at = verified

unexpired : pos 1061 <ℤ saturating_add (pos 1060) (pos 300)
unfolding saturating_add ◌+ℤ◌
unexpired = omega arith

verified_once_example :
    (verify ring secret (request_at (pos 1061)) (
      serve ring secret
        (verify ring secret (request_at (pos 1060)) fresh).1
        (request_at (pos 1061) ∷ []))).0
    ≢ ok tt
verified_once_example =
    verified_once ring ring_laws secret fresh (request_at (pos 1060)) (request_at (pos 1061) ∷ [])
      (request_at (pos 1061)) verified_at (unexpired, tt) unexpired refl

fresh-IsValid : IsValid fresh
fresh-IsValid = record { positive = omega arith; bounded = omega arith; distinct = tt }

check_and_record-IsValid_example : IsValid (check_and_record fresh nonce (negsuc 4)).1
check_and_record-IsValid_example = check_and_record-IsValid fresh nonce (negsuc 4) fresh-IsValid

abbrev aged : InMemoryReplayGuard
aged = record { accepted = (nonce, pos 10) ∷ []; capacity = 1 }

expired : is_live (pos 310) (nonce, pos 10) ≡ false
unfolding saturating_add ◌+ℤ◌
expired = refl

decoded : decode_hex (codes "00ff") ≡ some (0 ∷ 255 ∷ [])
unfolding decode_hex
decoded = refl
