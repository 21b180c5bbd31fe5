-- ===== src/Auth/Request/Laws.antt =====
-- src/pa/auth.rs: `sign_request` and `verify_request` together.
use agent_voice.Common.{
  ℕ, ◌≤◌, ◌<◌, ◌≡◌, ◌≢◌, refl, sym, ap, ◌∙◌, true, some, [], ◌∷◌, All, All-all, le→leb, Bytes,
  IsByte, arith, inl, inr, ◌⊎◌, Bool-cases, Option-cases,
}
use mathlib.Core.Path.{subst}
use agent_voice.Common.Results.{ok, err, guard, ok-injective, err-injective, Result-cases}
use agent_voice.Common.Int.{ℤ, abs_diff}
use agent_voice.Common.Utf8.{is_utf8, is_utf8_ascii}
use agent_voice.Common.Decimal.{parse_i64}
use agent_voice.Auth.Hex.{
  lower_hex, decode_hex, decode_hex-lower_hex, decode_hex_sound, lower_hex_ascii,
}
use agent_voice.Auth.Request.{
  AuthError, AuthResult, Ring, RingLaws, ReplayGuard, canonical_request, hmac_key, is_nonce_byte,
  validate_nonce, sign_request, authenticate, consume, verify_request, nonce_replay,
  max_clock_skew_seconds,
}

is_nonce_byte_ascii : (byte : ℕ) → is_nonce_byte byte ≡ true → byte < 128
unfolding is_nonce_byte
is_nonce_byte_ascii byte h = ground arith

validate_nonce_ascii : (nonce : Bytes) → validate_nonce nonce ≡ ok tt → is_utf8 nonce ≡ true
unfolding validate_nonce
validate_nonce_ascii nonce h =
    is_utf8_ascii nonce
      (All-all (λ b. b < 128) is_nonce_byte is_nonce_byte_ascii nonce (ground arith))

module _ {G : Type 0} ⦃replay : ReplayGuard G⦄ (now : ℤ) (g : G) where
  consume_sound :
      (m : AuthResult Bytes)
      → (consume now g m).0 ≡ ok tt
      → (nonce : Bytes) × (m ≡ ok nonce)
        × ((replay.check_and_record g nonce now).0 ≡ true)
        × ((consume now g m).1 ≡ (replay.check_and_record g nonce now).1)
  consume_sound (err e) h = cc
  consume_sound (ok nonce) h = (nonce, refl, ground arith, refl)

  consume_refused :
      (m : AuthResult Bytes) (e : AuthError)
      → (consume now g m).0 ≡ err e
      → e ≢ nonce_replay
      → (consume now g m).1 ≡ g
  consume_refused (err e') e h n = refl
  consume_refused (ok nonce) e h n = elim (Bool-cases (replay.check_and_record g nonce now).0) [
    | inl fresh ↦ cc (rw fresh at h)
    | inr stale ↦ absurd (n (sym (err-injective (rw stale at h))))
  ]

module _ (r : Ring) (method path_and_query body : Bytes) where
  -- The timestamp of an accepted request, and that it is signed with it.
  abbrev pub Signed : Bytes → Bytes → Bytes → Bytes → ℤ → Type 0
  Signed secret timestamp_header nonce signature now =
      (timestamp : ℤ) × (parse_i64 timestamp_header ≡ some timestamp)
      × (abs_diff timestamp now ≤ max_clock_skew_seconds)
      × (sign_request r secret method path_and_query timestamp nonce body ≡ ok signature)

module _ (r : Ring) (laws : RingLaws r) (method path_and_query body : Bytes) where
  abbrev message : ℤ → Bytes → Bytes
  message timestamp nonce = canonical_request r method path_and_query timestamp nonce body

  authenticate-tag :
      (key : ℕ) (secret timestamp_header nonce : Bytes) (timestamp now : ℤ)
      → parse_i64 timestamp_header ≡ some timestamp
      → is_utf8 timestamp_header ≡ true
      → abs_diff timestamp now ≤ max_clock_skew_seconds
      → validate_nonce nonce ≡ ok tt
      → authenticate r
          (key ∷ secret)
          method
          path_and_query
          timestamp_header
          nonce
          (lower_hex (r.hmac_sign (key ∷ secret) (message timestamp nonce)))
          body
          now
        ≡ ok nonce
  unfolding authenticate hmac_key
  authenticate-tag k ey th nonce t now p u s v =
      let tag = r.hmac_sign (k ∷ ey) (message t nonce) in
      let bytes : All IsByte tag = laws.tag_bytes (k ∷ ey) (message t nonce) in
      rw (
        u,
        validate_nonce_ascii nonce v,
        is_utf8_ascii (lower_hex tag) (lower_hex_ascii tag bytes),
        p,
        le→leb _ _ s,
        v,
        decode_hex-lower_hex tag bytes,
        laws.tag_length (k ∷ ey) (message t nonce),
        (laws.verify_iff (k ∷ ey) (message t nonce) tag).1 refl,
      )

  authenticate-sign_request :
      (secret timestamp_header nonce signature : Bytes) (timestamp now : ℤ)
      → parse_i64 timestamp_header ≡ some timestamp
      → is_utf8 timestamp_header ≡ true
      → abs_diff timestamp now ≤ max_clock_skew_seconds
      → sign_request r secret method path_and_query timestamp nonce body ≡ ok signature
      → authenticate r secret method path_and_query timestamp_header nonce signature body now
        ≡ ok nonce
  unfolding sign_request hmac_key
  authenticate-sign_request [] th nonce sig t now p u s h = cc
  authenticate-sign_request (k ∷ ey) th nonce sig t now p u s h =
      elim (Result-cases (validate_nonce nonce)) [
        | inl (_, v) ↦
            subst
              (λ x. authenticate r (k ∷ ey) method path_and_query th nonce x body now ≡ ok nonce)
              (ok-injective (rw v at h)) (authenticate-tag k ey th nonce t now p u s v)
        | inr (e, v) ↦ cc (rw v at h)
      ]

  authenticate_tail_sound :
      (key : ℕ) (secret nonce signature_text signature : Bytes) (timestamp now : ℤ)
      → validate_nonce nonce ≡ ok tt
      → decode_hex signature_text ≡ some signature
      → r.hmac_verify (key ∷ secret) (message timestamp nonce) signature ≡ true
      → sign_request r (key ∷ secret) method path_and_query timestamp nonce body ≡ ok signature_text
  unfolding sign_request hmac_key
  authenticate_tail_sound k ey nonce text sig t now v d verified =
      let tag : sig ≡ r.hmac_sign (k ∷ ey) (message t nonce) =
        (laws.verify_iff (k ∷ ey) (message t nonce) sig).0 verified in
      rw (v, ← tag, (decode_hex_sound text sig d).0)

  authenticate_sound :
      (secret timestamp_header nonce signature : Bytes) (now : ℤ) {n : Bytes}
      → authenticate r secret method path_and_query timestamp_header nonce signature body now ≡ ok n
      → (nonce ≡ n)
        × Signed r method path_and_query body secret timestamp_header nonce signature now
  unfolding authenticate hmac_key
  authenticate_sound [] th nonce text now h = cc
  authenticate_sound (k ∷ ey) th nonce text now h = elim (Option-cases (parse_i64 th)) [
    | inl p ↦ absurd (ground arith)
    | inr (t, p) ↦ elim (Option-cases (decode_hex text)) [
      | inl d ↦ absurd (ground arith)
      | inr (sig, d) ↦ (
        ground arith,
        (
          t,
          p,
          ground arith,
          authenticate_tail_sound k ey nonce text sig t now (ground arith) d (ground arith),
        ),
      )
    ]
  ]

  module _ {G : Type 0} ⦃replay : ReplayGuard G⦄ (secret timestamp_header nonce signature : Bytes)
      (now : ℤ) (g : G) where
    -- A request whose signature is the one `sign_request` gives at the timestamp in its header, at
    -- most 60 seconds from the current time, is accepted exactly when the guard accepts its nonce,
    -- is refused as a replay otherwise, and leaves the guard as its check leaves it.
    pub verify_request-sign_request :
        (timestamp : ℤ)
        → parse_i64 timestamp_header ≡ some timestamp
        → is_utf8 timestamp_header ≡ true
        → abs_diff timestamp now ≤ max_clock_skew_seconds
        → sign_request r secret method path_and_query timestamp nonce body ≡ ok signature
        → verify_request r secret method path_and_query timestamp_header nonce signature body now g
          ≡ (
            guard (replay.check_and_record g nonce now).0 nonce_replay,
            (replay.check_and_record g nonce now).1,
          )
    unfolding verify_request
    verify_request-sign_request t p u s h =
        rw (authenticate-sign_request secret timestamp_header nonce signature t now p u s h)

    -- An accepted request has a timestamp that is a number at most 60 seconds from the current time,
    -- its signature is the one that `sign_request` gives for it, and the guard accepted its nonce.
    pub verify_request_sound :
        (verify_request r secret method path_and_query timestamp_header nonce signature body now
            g).0
          ≡ ok tt
        → Signed r method path_and_query body secret timestamp_header nonce signature now
          × ((replay.check_and_record g nonce now).0 ≡ true)
          × ((verify_request r secret method path_and_query timestamp_header nonce signature body
                now g).1
              ≡ (replay.check_and_record g nonce now).1)
    unfolding verify_request
    verify_request_sound h =
        let checked =
          authenticate r secret method path_and_query timestamp_header nonce signature body now in
        let (n, accepted, fresh, after) = consume_sound now g checked h in
        let (same, signed) =
          authenticate_sound secret timestamp_header nonce signature now accepted in
        (
          signed,
          rw same fresh,
          after ∙ ap (λ (x : Bytes). (replay.check_and_record g x now).1) (sym same),
        )

    -- A request that is refused for any reason but a replay leaves the guard as it was.
    pub verify_request_refused :
        (e : AuthError)
        → (verify_request r secret method path_and_query timestamp_header nonce signature body now
            g).0
          ≡ err e
        → e ≢ nonce_replay
        → (verify_request r secret method path_and_query timestamp_header nonce signature body now
            g).1
          ≡ g
    unfolding verify_request
    verify_request_refused e h n =
        consume_refused now g
          (authenticate r secret method path_and_query timestamp_header nonce signature body now) e
          h n

    -- A verification asks the guard once, about the nonce in the header, or not at all.
    pub guard-verify_request :
        ((verify_request r secret method path_and_query timestamp_header nonce signature body now
            g).1
          ≡ g)
        ⊎ ((verify_request r secret method path_and_query timestamp_header nonce signature body now
              g).1
            ≡ (replay.check_and_record g nonce now).1)
    unfolding verify_request
    guard-verify_request =
        elim (Result-cases
          (authenticate r secret method path_and_query timestamp_header nonce signature body now)) [
            | inl (n, e) ↦
                let (same, _) = authenticate_sound secret timestamp_header nonce signature now e in
                inr (rw e (ap (λ (x : Bytes). (replay.check_and_record g x now).1) (sym same)))
            | inr (e, h) ↦ inl (rw h)
          ]
