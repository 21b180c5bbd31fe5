-- ===== src/Sigv4/Sign/Dated.antt =====
-- src/pa/sigv4.rs: `sign_request` with and without the header `x-amz-date`.
use agent_voice.Common.{
  ◌≡◌, refl, false, ◌||◌, Option, none, some, List, [], ◌∷◌, ◌++◌, any, Bytes, bytes_eq,
  bytes_eq_refl, codes, Bool-cases, inl, inr,
}
use agent_voice.Common.Results.{ok, Result-cases}
use agent_voice.Auth.Request.{Ring}
use agent_voice.Sigv4.Kinds.{Request, Credentials}
use agent_voice.Sigv4.Timestamp.{validate_timestamp}
use agent_voice.Sigv4.Headers.{is_named, normalize_header_value}
use agent_voice.Sigv4.Headers.Values.{normalize_visible, timestamp_visible}
use agent_voice.Sigv4.Sign.{find_date, with_date, sign_headers, sign_request}

abbrev pub date_name : Bytes
date_name = codes "x-amz-date"

abbrev pub with_headers : Request → List (Bytes × Bytes) → Request
with_headers request headers = record {
  method = request.method;
  uri = request.uri;
  headers = headers;
  payload_sha256 = request.payload_sha256;
  region = request.region;
}

pub find_date_none :
    (headers : List (Bytes × Bytes)) (e : Option Bytes)
    → any (is_named date_name) headers ≡ false
    → find_date headers e ≡ ok e
unfolding find_date
find_date_none [] e h = refl
find_date_none ((name, value) ∷ headers) e h =
    elim (Bool-cases (is_named date_name (name, value))) [
      | inl d ↦ cc (rw (d, ◌||◌) at h)
      | inr d ↦ rw d (find_date_none headers e (rw (d, ◌||◌) at h))
    ]

find_date-append :
    (headers : List (Bytes × Bytes)) (timestamp : Bytes)
    → any (is_named date_name) headers ≡ false
    → normalize_header_value timestamp ≡ ok timestamp
    → find_date (headers ++ (date_name, timestamp) ∷ []) none ≡ ok (some timestamp)
unfolding find_date bytes_eq
find_date-append [] timestamp h n = rw n refl
find_date-append ((name, value) ∷ headers) timestamp h n =
    elim (Bool-cases (is_named date_name (name, value))) [
      | inl d ↦ cc (rw (d, ◌||◌) at h)
      | inr d ↦ rw d (find_date-append headers timestamp (rw (d, ◌||◌) at h) n)
    ]

-- A request that has no `x-amz-date`, in whatever case, is signed as the request that has the
-- timestamp as this header, and fails as it.
pub sign_request-with_headers :
    (r : Ring) (request : Request) (credentials : Credentials) (timestamp : Bytes)
    → any (is_named date_name) request.headers ≡ false
    → sign_request r request credentials timestamp
      ≡ sign_request r
          (with_headers request (request.headers ++ (date_name, timestamp) ∷ []))
          credentials
          timestamp
unfolding sign_request with_date sign_headers
sign_request-with_headers r request credentials timestamp h =
    elim (Result-cases (validate_timestamp timestamp)) [
      | inl (date, e) ↦
          let n = normalize_visible timestamp (timestamp_visible timestamp date e) in
          rw
            (
              find_date_none request.headers none h,
              find_date-append request.headers timestamp h n,
              bytes_eq_refl timestamp,
            )
            refl
      | inr (kind, e) ↦ rw e refl
    ]
