-- ===== src/Auth/Once.antt =====
-- src/pa/auth.rs: requests verified one after another against one `InMemoryReplayGuard`.
use agent_voice.Common.{◌≡◌, ◌≢◌, refl, ap, ◌∙◌, List, [], ◌∷◌, All, Bytes, ◌⊎◌, inl, inr}
use agent_voice.Common.Results.{ok}
use agent_voice.Common.Int.{ℤ}
use agent_voice.Auth.Guard.{InMemoryReplayGuard, check_and_record}
use agent_voice.Auth.Guard.Laws.{Within, run, replay_rejected}
use agent_voice.Auth.Request.{AuthResult, Ring, RingLaws, in_memory_guard, verify_request}
use agent_voice.Auth.Request.Laws.{verify_request_sound, guard-verify_request}

-- One request with the time at which it is verified.
pub record Incoming : Type 0 where
  pub method : Bytes
  pub path_and_query : Bytes
  pub timestamp_header : Bytes
  pub nonce : Bytes
  pub signature : Bytes
  pub body : Bytes
  pub now : ℤ

module _ (r : Ring) (secret : Bytes) where
  unfoldable pub verify :
      Incoming → InMemoryReplayGuard → AuthResult (Unit {0}) × InMemoryReplayGuard
  verify q g =
      verify_request r secret q.method q.path_and_query q.timestamp_header q.nonce q.signature
        q.body q.now g

  -- The guard after requests in turn.
  unfoldable pub serve : InMemoryReplayGuard → List Incoming → InMemoryReplayGuard
  serve g [] = g
  serve g (q ∷ requests) = serve (verify q g).1 requests

abbrev BeforeExpiry : ℤ → Incoming → Type 0
BeforeExpiry at q = Within at (q.nonce, q.now)

module _ (r : Ring) (laws : RingLaws r) (secret : Bytes) where
  guard-verify :
      (q : Incoming) (g : InMemoryReplayGuard)
      → ((verify r secret q g).1 ≡ g)
        ⊎ ((verify r secret q g).1 ≡ (check_and_record g q.nonce q.now).1)
  unfolding verify
  guard-verify q g =
      guard-verify_request r laws q.method q.path_and_query q.body secret q.timestamp_header q.nonce
        q.signature q.now g

  -- Serving requests is a run of checks of the guard, each at the time of its request.
  serve-run :
      (at : ℤ) (g : InMemoryReplayGuard) (requests : List Incoming)
      → All (BeforeExpiry at) requests
      → (calls : List (Bytes × ℤ)) × All (Within at) calls
        × (serve r secret g requests ≡ run g calls)
  unfolding serve run
  serve-run at g [] h = ([], tt, refl)
  serve-run at g (q ∷ requests) (w, h) =
      let (calls, hc, e) = serve-run at (verify r secret q g).1 requests h in
      elim (guard-verify q g) [
        | inl same ↦ (calls, hc, e ∙ ap (λ x. run x calls) same)
        | inr asked ↦ ((q.nonce, q.now) ∷ calls, (w, hc), e ∙ ap (λ x. run x calls) asked)
      ]

  -- After a request is accepted, no request with the same nonce is accepted before the acceptance
  -- expires, whatever requests are verified in between within that time.
  pub verified_once :
      (g : InMemoryReplayGuard) (first : Incoming) (between : List Incoming) (again : Incoming)
      → (verify r secret first g).0 ≡ ok tt
      → All (BeforeExpiry first.now) between
      → BeforeExpiry first.now again
      → again.nonce ≡ first.nonce
      → (verify r secret again (serve r secret (verify r secret first g).1 between)).0 ≢ ok tt
  unfolding verify
  verified_once g first between again h w live same accepted =
      let (_, fresh, after) =
        verify_request_sound r laws first.method first.path_and_query first.body secret
          first.timestamp_header first.nonce first.signature first.now g h in
      let (calls, hc, e) = serve-run first.now (verify r secret first g).1 between w in
      let (_, again_fresh, _) =
        verify_request_sound r laws again.method again.path_and_query again.body secret
          again.timestamp_header again.nonce again.signature again.now
          (serve r secret (verify r secret first g).1 between) accepted in
      let rejected = replay_rejected g first.nonce first.now calls again.now fresh hc live in
      cc (again_fresh, rejected, e, after, same)
