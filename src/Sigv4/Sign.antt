-- ===== src/Sigv4/Sign.antt =====
-- src/pa/sigv4.rs: `canonicalize`, `SigningKey::derive` and `sign_request`.
pub mod Dated
pub mod Laws
use agent_voice.Common.{
  Bool, true, false, not, Option, none, some, List, [], ◌∷◌, ◌++◌, ◌&&◌, leb, if◌then◌else◌, length,
  Bytes, bytes_eq, codes,
}
use agent_voice.Common.Results.{Result, ok, err, ◌>>=◌, ◌>>◌, guard}
use agent_voice.Auth.Request.{Ring}
use agent_voice.Auth.Hex.{lower_hex}
use agent_voice.Sigv4.Kinds.{
  Request, Credentials, SignedRequest, SigResult, invalid_timestamp, invalid_region,
  invalid_credential, duplicate_header, service, algorithm, terminator, max_secret_len,
}
use agent_voice.Sigv4.Query.{canonical_uri_and_query}
use agent_voice.Sigv4.Timestamp.{validate_timestamp, validate_scope_date}
use agent_voice.Sigv4.Headers.{
  CanonicalHeader, canonical_method, canonical_headers, normalize_header_value, is_named,
  validate_payload_hash, validate_region, validate_credentials, validate_session_token_header,
}

pub record CanonicalizedRequest : Type 0 where
  pub canonical : Bytes
  pub signed_headers : Bytes

-- `name:value` and a line break for each header.
unfoldable pub header_lines : List CanonicalHeader → Bytes
header_lines [] = []
header_lines (h ∷ headers) = h.name ++ (b':' ∷ (h.value ++ (b'\n' ∷ header_lines headers)))

-- The names with `;` between them.
unfoldable pub signed_names : List CanonicalHeader → Bytes
signed_names [] = []
signed_names (h ∷ []) = h.name
signed_names (h ∷ next ∷ headers) = h.name ++ (b';' ∷ signed_names (next ∷ headers))

unfoldable pub canonicalize :
    Bytes → Bytes → List (Bytes × Bytes) → Bytes → SigResult CanonicalizedRequest
unfolding header_lines signed_names
canonicalize method uri headers payload_sha256 = do
  validate_payload_hash payload_sha256
  method' ← canonical_method method
  uri_and_query ← canonical_uri_and_query uri
  headers' ← canonical_headers headers payload_sha256
  ok (record {
    canonical =
        method'
        ++ (b'\n'
            ∷ (uri_and_query.0
                ++ (b'\n'
                    ∷ (uri_and_query.1
                        ++ (b'\n'
                            ∷ (header_lines headers'
                                ++ (b'\n'
                                    ∷ (signed_names headers' ++ (b'\n' ∷ payload_sha256)))))))));
    signed_headers = signed_names headers';
  })

-- `canonical_request`
unfoldable pub canonical_request : Bytes → Bytes → List (Bytes × Bytes) → Bytes → SigResult Bytes
canonical_request method uri headers payload_sha256 = do
  canonicalized ← canonicalize method uri headers payload_sha256
  ok canonicalized.canonical

-- `SigningKey::derive`; the key is its bytes.
unfoldable pub derive : Ring → Bytes → Bytes → Bytes → Bytes → SigResult Bytes
derive r secret date region service_name = do
  guard (leb 1 (length secret) && leb (length secret) max_secret_len) invalid_credential
  validate_scope_date date
  validate_region region
  guard (bytes_eq service_name service) invalid_region
  let date_key = r.hmac_sign (codes "AWS4" ++ secret) date
  let region_key = r.hmac_sign date_key region
  let service_key = r.hmac_sign region_key service_name
  ok (r.hmac_sign service_key terminator)

-- The loop over the headers that looks for `x-amz-date`.
unfoldable pub find_date : List (Bytes × Bytes) → Option Bytes → SigResult (Option Bytes)
find_date [] existing = ok existing
find_date ((name, value) ∷ headers) existing =
    let rest = λ (found : Option Bytes). find_date headers found in
    if is_named (codes "x-amz-date") (name, value)
    then (do
      normalized ← normalize_header_value value
      elim existing [ some date ↦ err duplicate_header | none ↦ rest (some normalized) ])
    else rest existing

-- The headers with the date: as they are if they have it, or with the timestamp at the end.
unfoldable pub with_date :
    List (Bytes × Bytes) → Bytes → Option Bytes → SigResult (List (Bytes × Bytes))
with_date headers timestamp none = ok (headers ++ (codes "x-amz-date", timestamp) ∷ [])
with_date headers timestamp (some existing) =
    if bytes_eq existing timestamp then ok headers else err invalid_timestamp

abbrev scope : Bytes → Bytes → Bytes
scope date region = date ++ (b'/' ∷ (region ++ (b'/' ∷ (service ++ (b'/' ∷ terminator)))))

abbrev string_to_sign : Bytes → Bytes → Bytes → Bytes → Bytes
string_to_sign timestamp date region canonical_hash =
    algorithm ++ (b'\n' ∷ (timestamp ++ (b'\n' ∷ (scope date region ++ (b'\n' ∷ canonical_hash)))))

abbrev authorization_of : Bytes → Bytes → Bytes → Bytes → Bytes → Bytes
authorization_of access_key_id date region signed_headers signature =
    algorithm
    ++ (codes " Credential="
        ++ (access_key_id
            ++ (b'/'
                ∷ (scope date region
                    ++ (codes ",SignedHeaders="
                        ++ (signed_headers ++ (codes ",Signature=" ++ signature)))))))

-- The lines of `sign_request` once the headers hold the date.
unfoldable pub sign_headers :
    Ring → Request → Credentials → Bytes → Bytes → List (Bytes × Bytes) → SigResult SignedRequest
sign_headers r request credentials timestamp scope_date headers = do
  validate_session_token_header headers credentials.session_token
  canonicalized ← canonicalize request.method request.uri headers request.payload_sha256
  let canonical_hash = lower_hex (r.sha256 canonicalized.canonical)
  signing_key ← derive r credentials.secret_access_key scope_date request.region service
  let message = string_to_sign timestamp scope_date request.region canonical_hash
  let signature = lower_hex (r.hmac_sign signing_key message)
  ok (record {
    authorization =
        authorization_of credentials.access_key_id scope_date request.region
          canonicalized.signed_headers signature;
    signed_headers = canonicalized.signed_headers;
    amz_date = timestamp;
  })

unfoldable pub sign_request : Ring → Request → Credentials → Bytes → SigResult SignedRequest
sign_request r request credentials timestamp = do
  scope_date ← validate_timestamp timestamp
  validate_region request.region
  validate_credentials credentials
  existing_date ← find_date request.headers none
  headers ← with_date request.headers timestamp existing_date
  sign_headers r request credentials timestamp scope_date headers
