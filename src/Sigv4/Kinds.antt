-- ===== src/Sigv4/Kinds.antt =====
-- src/pa/sigv4.rs: the constants, the request, the credentials and the error kinds. `SigV4Error`
-- holds its kind alone and is modelled by it.
use agent_voice.Common.{ℕ, Option, List, Bytes, codes}
use agent_voice.Common.Results.{Result}

abbrev pub service : Bytes
service = codes "s3"

abbrev pub algorithm : Bytes
algorithm = codes "AWS4-HMAC-SHA256"

abbrev pub terminator : Bytes
terminator = codes "aws4_request"

abbrev pub max_region_len : ℕ
max_region_len = 64

abbrev pub min_access_key_len : ℕ
min_access_key_len = 16

abbrev pub max_access_key_len : ℕ
max_access_key_len = 128

abbrev pub max_secret_len : ℕ
max_secret_len = 4096

abbrev pub max_session_token_len : ℕ
max_session_token_len = 4096

pub record Request : Type 0 where
  pub method : Bytes
  pub uri : Bytes
  pub headers : List (Bytes × Bytes)
  pub payload_sha256 : Bytes
  pub region : Bytes

pub record Credentials : Type 0 where
  pub access_key_id : Bytes
  pub secret_access_key : Bytes
  pub session_token : Option Bytes

pub record SignedRequest : Type 0 where
  pub authorization : Bytes
  pub signed_headers : Bytes
  pub amz_date : Bytes

pub data SigV4ErrorKind : Type 0 where
  invalid_method : SigV4ErrorKind
  invalid_uri : SigV4ErrorKind
  invalid_timestamp : SigV4ErrorKind
  invalid_region : SigV4ErrorKind
  invalid_credential : SigV4ErrorKind
  invalid_header : SigV4ErrorKind
  duplicate_header : SigV4ErrorKind
  missing_required_header : SigV4ErrorKind
  payload_hash_mismatch : SigV4ErrorKind
  unsupported_header : SigV4ErrorKind
  crypto : SigV4ErrorKind

abbrev pub SigResult {ℓ} : Type ℓ → Type ℓ
SigResult A = Result SigV4ErrorKind A
