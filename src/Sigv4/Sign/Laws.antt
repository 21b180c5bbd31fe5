-- ===== src/Sigv4/Sign/Laws.antt =====
-- src/pa/sigv4.rs: the results of `sign_request`.
use mathlib.Core.Path.{subst}
use agent_voice.Common.{
  any, true, if◌then◌else◌, ◌≡◌, refl, sym, ap, ◌∙◌, ◌⊎◌, inl, inr, false, Bool-cases, Option, none,
  some, List, [], ◌∷◌, ◌++◌, All, All-map, All-append, Bytes, bytes_eq, bytes_eq→eq, codes,
}
use agent_voice.Common.Results.{ok, err, ok-injective, some-injective, bind_ok}
use agent_voice.Sigv4.Headers.Values.{normalize_visible, timestamp_visible}
use agent_voice.Auth.Hex.{lower_hex}
use agent_voice.Auth.Request.{Ring}
use agent_voice.Sigv4.Kinds.{duplicate_header, Request, Credentials, SignedRequest, service}
use agent_voice.Sigv4.Query.{canonical_uri_and_query}
use agent_voice.Sigv4.Timestamp.{validate_timestamp}
use agent_voice.Sigv4.Headers.{
  CanonicalHeader, is_named, normalize_header_value, canonical_method, canonical_headers,
  validate_payload_hash, validate_region, validate_credentials, validate_session_token_header,
}
use agent_voice.Sigv4.Headers.Canonical.{IsCanonical, canonical_headers-IsCanonical}
use agent_voice.Sigv4.Sign.Dated.{find_date_none}
use agent_voice.Sigv4.Sign.{
  signed_names, canonicalize, CanonicalizedRequest, canonical_request, derive, find_date, with_date,
  string_to_sign, authorization_of, sign_headers, sign_request,
}

-- A header is no `x-amz-date`, in whatever case, or has the timestamp as its value.
abbrev pub IsDated : Bytes → Bytes × Bytes → Type 0
IsDated timestamp header =
    (is_named (codes "x-amz-date") header ≡ false)
    ⊎ (normalize_header_value header.1 ≡ ok timestamp)

-- The headers with the date: as they are if they have one, or with it at the end.
abbrev pub dated_headers : List (Bytes × Bytes) → Bytes → List (Bytes × Bytes)
dated_headers headers timestamp =
    if any (is_named (codes "x-amz-date")) headers
    then headers
    else headers ++ (codes "x-amz-date", timestamp) ∷ []

-- The headers that are signed are the request's with the date, and every date among them is the timestamp; they are canonical, and the signature is the keyed hash of the string
-- to sign, which holds the hash of the canonical request.
pub record IsSigned (r : Ring) (request : Request) (credentials : Credentials) (timestamp : Bytes)
    (signed : SignedRequest) : Type 0 where
  pub date : Bytes
  pub timestamp_valid : validate_timestamp timestamp ≡ ok date
  pub region_valid : validate_region request.region ≡ ok tt
  pub credentials_valid : validate_credentials credentials ≡ ok tt
  pub headers : List (Bytes × Bytes)
  pub from_request : headers ≡ dated_headers request.headers timestamp
  pub date_headers : All (IsDated timestamp) headers
  pub session_token_valid : validate_session_token_header headers credentials.session_token ≡ ok tt
  pub canonical_header_list : List CanonicalHeader
  pub headers_valid : canonical_headers headers request.payload_sha256 ≡ ok canonical_header_list
  pub headers_canonical : IsCanonical canonical_header_list request.payload_sha256
  pub names : signed.signed_headers ≡ signed_names canonical_header_list
  pub dated : signed.amz_date ≡ timestamp
  pub canonical : Bytes
  pub canonical_valid :
      canonical_request request.method request.uri headers request.payload_sha256 ≡ ok canonical
  pub key : Bytes
  pub key_valid : derive r credentials.secret_access_key date request.region service ≡ ok key
  pub authorized :
      signed.authorization
      ≡ authorization_of credentials.access_key_id date request.region signed.signed_headers (
          lower_hex (
            r.hmac_sign key
              (string_to_sign timestamp date request.region (lower_hex (r.sha256 canonical)))))

-- A date that was found is kept to the end of the headers.
find_date_kept :
    (headers : List (Bytes × Bytes)) (date : Bytes) (found : Option Bytes)
    → find_date headers (some date) ≡ ok found
    → some date ≡ found
unfolding find_date
find_date_kept [] date found run = ok-injective run
find_date_kept ((name, value) ∷ headers) date found run =
    elim (Bool-cases (is_named (codes "x-amz-date") (name, value))) [
      | inl d ↦ let (_, (_, last)) = bind_ok (normalize_header_value value) _ (rw d at run) in cc
      | inr d ↦ find_date_kept headers date found (rw d at run)
    ]

-- A header is no date, or the date that was found is its value.
abbrev IsFound : Option Bytes → Bytes × Bytes → Type 0
IsFound found header =
    (is_named (codes "x-amz-date") header ≡ false)
    ⊎ ((date : Bytes) × ((found ≡ some date) × (normalize_header_value header.1 ≡ ok date)))

IsFound-first :
    (name value : Bytes) (headers : List (Bytes × Bytes)) (date : Bytes)
    (existing found : Option Bytes)
    → normalize_header_value value ≡ ok date
    → (find_date headers (some date) ≡ ok found → All (IsFound found) headers)
    → elim existing [ some other ↦ err duplicate_header | none ↦ find_date headers (some date) ]
      ≡ ok found
    → IsFound found (name, value) × All (IsFound found) headers
IsFound-first name value headers date none found normal later run =
    (inr (date, (sym (find_date_kept headers date found run), normal)), later run)
IsFound-first name value headers date (some other) found normal later run = cc

find_date-IsFound :
    (headers : List (Bytes × Bytes)) (existing found : Option Bytes)
    → find_date headers existing ≡ ok found
    → All (IsFound found) headers
unfolding find_date
find_date-IsFound [] existing found run = tt
find_date-IsFound ((name, value) ∷ headers) existing found run =
    elim (Bool-cases (is_named (codes "x-amz-date") (name, value))) [
      | inr d ↦ (inl d, find_date-IsFound headers existing found (rw d at run))
      | inl d ↦
          let (date, (normal, last)) = bind_ok (normalize_header_value value) _ (rw d at run) in
          IsFound-first name value headers date existing found normal
            (λ h. find_date-IsFound headers (some date) found h) last
    ]

-- No header is a date if none was found.
not_named :
    (headers : List (Bytes × Bytes))
    → All (IsFound none) headers
    → any (is_named (codes "x-amz-date")) headers ≡ false
not_named [] dates = refl
not_named (h ∷ headers) (inl outside, dates) = rw outside (not_named headers dates)
not_named (h ∷ headers) (inr (date, (absent, _)), dates) = cc

-- Some header is a date if one was found.
named :
    (headers : List (Bytes × Bytes)) (date : Bytes)
    → find_date headers none ≡ ok (some date)
    → any (is_named (codes "x-amz-date")) headers ≡ true
named headers date run = elim (Bool-cases (any (is_named (codes "x-amz-date")) headers)) [
  | inl h ↦ h
  | inr h ↦ cc (sym (find_date_none headers none h) ∙ run)
]

with_date-IsDated :
    (headers : List (Bytes × Bytes)) (timestamp : Bytes) (found : Option Bytes)
    (signed : List (Bytes × Bytes))
    → find_date headers none ≡ ok found
    → normalize_header_value timestamp ≡ ok timestamp
    → with_date headers timestamp found ≡ ok signed
    → (signed ≡ dated_headers headers timestamp) × All (IsDated timestamp) signed
unfolding with_date
with_date-IsDated headers timestamp none signed looked normal run =
    let dates = find_date-IsFound headers none _ looked in
    let undated : All (IsDated timestamp) headers =
      All-map {Q = IsDated timestamp} (λ h found. no_date h found) headers dates in
    let same = ok-injective run in
    (
      rw (not_named headers dates) (sym same),
      subst (All (IsDated timestamp)) same (
          All-append (IsDated timestamp) headers ((codes "x-amz-date", timestamp) ∷ []) undated
            (inr normal, tt)),
    )
  where
    no_date : (h : Bytes × Bytes) → IsFound none h → IsDated timestamp h
    no_date h (inl outside) = inl outside
    no_date h (inr (date, (absent, _))) = cc
with_date-IsDated headers timestamp (some existing) signed looked normal run =
    let dates = find_date-IsFound headers none _ looked in
    elim (Bool-cases (bytes_eq existing timestamp)) [
      | inr e ↦ cc (rw e at run)
      | inl e ↦
          let same : headers ≡ signed = ok-injective (rw e at run) in
          let date = bytes_eq→eq existing timestamp e in
          (
            rw (named headers existing looked) (sym same),
            subst (All (IsDated timestamp)) same
                (All-map {Q = IsDated timestamp} (λ h found. own_date date h found) headers dates),
          )
    ]
  where
    own_date :
        existing ≡ timestamp → (h : Bytes × Bytes) → IsFound (some existing) h → IsDated timestamp h
    own_date date h (inl outside) = inl outside
    own_date date h (inr (other, (found, value))) =
        inr (value ∙ ap ok (sym (some-injective found) ∙ date))

canonicalize-names :
    (method uri : Bytes) (headers : List (Bytes × Bytes)) (payload_sha256 : Bytes)
    (c : CanonicalizedRequest)
    → canonicalize method uri headers payload_sha256 ≡ ok c
    → (canonical : List CanonicalHeader) × ((canonical_headers headers payload_sha256
          ≡ ok canonical)
        × (c.signed_headers ≡ signed_names canonical))
unfolding canonicalize
canonicalize-names method uri headers payload_sha256 c run =
    let (_, (_, run)) = bind_ok (validate_payload_hash payload_sha256) _ run in
    let (_, (_, run)) = bind_ok (canonical_method method) _ run in
    let (_, (_, run)) = bind_ok (canonical_uri_and_query uri) _ run in
    let (canonical, (valid, run)) = bind_ok (canonical_headers headers payload_sha256) _ run in
    (
      canonical,
      (valid, subst (λ x. x.signed_headers ≡ signed_names canonical) (ok-injective run) refl),
    )

-- A request that `sign_request` signs has a valid date, region and credentials. What is signed are its
-- headers, with the timestamp as `x-amz-date` at the end if they have none; every `x-amz-date` among them
-- is the timestamp, they are canonical and fit the session token, and the authorization is their
-- signature.
pub sign_request-IsSigned :
    (r : Ring) (request : Request) (credentials : Credentials) (timestamp : Bytes)
    (signed : SignedRequest)
    → sign_request r request credentials timestamp ≡ ok signed
    → IsSigned r request credentials timestamp signed
unfolding sign_request sign_headers canonical_request
sign_request-IsSigned r request credentials timestamp signed run =
    let (date, (timestamp_valid, run)) = bind_ok (validate_timestamp timestamp) _ run in
    let (_, (region_valid, run)) = bind_ok (validate_region request.region) _ run in
    let (_, (credentials_valid, run)) = bind_ok (validate_credentials credentials) _ run in
    let (existing, (found, run)) = bind_ok (find_date request.headers none) _ run in
    let (headers, (dated, run)) = bind_ok (with_date request.headers timestamp existing) _ run in
    let (_, (token_valid, run)) =
      bind_ok (validate_session_token_header headers credentials.session_token) _ run in
    let (c, (c_valid, run)) =
      bind_ok (canonicalize request.method request.uri headers request.payload_sha256) _ run in
    let (key, (key_valid, run)) =
      bind_ok (derive r credentials.secret_access_key date request.region service) _ run in
    let (origin, dates) =
      with_date-IsDated request.headers timestamp existing headers found
        (normalize_visible timestamp (timestamp_visible timestamp date timestamp_valid)) dated in
    let (canonical, (headers_valid, names)) =
      canonicalize-names request.method request.uri headers request.payload_sha256 c c_valid in
    subst (IsSigned r request credentials timestamp) (ok-injective run) (record {
      date = date;
      timestamp_valid = timestamp_valid;
      region_valid = region_valid;
      credentials_valid = credentials_valid;
      headers = headers;
      from_request = origin;
      date_headers = dates;
      session_token_valid = token_valid;
      canonical_header_list = canonical;
      headers_valid = headers_valid;
      headers_canonical =
          canonical_headers-IsCanonical headers request.payload_sha256 canonical headers_valid;
      names = names;
      dated = refl;
      canonical = c.canonical;
      canonical_valid = rw c_valid refl;
      key = key;
      key_valid = key_valid;
      authorized = refl;
    })
