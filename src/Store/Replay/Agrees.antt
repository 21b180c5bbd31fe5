-- ===== src/Store/Replay/Agrees.antt =====
-- src/pa/store.rs and src/pa/auth.rs: the durable replay guard against the one in memory.
use agent_voice.Common.{
  ℕ, ◌+◌, ◌≤◌, ◌<◌, ◌≡◌, refl, ap, inl, inr, Bool, true, false, ◌||◌, leb, Bool-cases, List, [],
  ◌∷◌, All, All-retain, map, retain, length, length-retain, bytes_eq, arith,
}
use agent_voice.Common.Int.{ℤ, pos, negsuc, ◌+ℤ◌, ltb_ℤ}
use agent_voice.Common.Results.{ok}
use agent_voice.Common.Text.{Text}
use agent_voice.Auth.Guard.{InMemoryReplayGuard, saturating_add, is_live, contains_key}
use agent_voice.Auth.Guard
use agent_voice.Store.Replay.{
  ReplayNonce, retention, is_written, replay_timestamps, is_unexpired, has_nonce, insert_nonce,
  consume_replay_nonce, check_and_record,
}
use agent_voice.Store.Texts.{validate_replay_nonce}

-- A row of the table for an entry of the map.
abbrev row_of : Text × ℤ → ReplayNonce
row_of (nonce, at) = record { nonce = nonce; consumed_at = at; expires_at = at +ℤ retention }

saturating_add-written :
    (at : ℤ) → is_written at ≡ true → saturating_add at retention ≡ at +ℤ retention
unfolding saturating_add ◌+ℤ◌
saturating_add-written (pos n) h = ground arith
saturating_add-written (negsuc n) h = ground arith

abbrev IsTimely : Text × ℤ → Type 0
IsTimely (nonce, at) = is_written at ≡ true

retain-row_of :
    (now : ℤ) (entries : List (Text × ℤ))
    → All IsTimely entries
    → retain (is_unexpired now) (map row_of entries) ≡ map row_of (retain (is_live now) entries)
retain-row_of now [] h = refl
retain-row_of now ((nonce, at) ∷ entries) (hx, h) =
    let same = saturating_add-written at hx in
    elim (Bool-cases (ltb_ℤ now (at +ℤ retention))) [
      | inl e ↦ rw (same, e) (ap (λ rest. row_of (nonce, at) ∷ rest) (retain-row_of now entries h))
      | inr e ↦ rw (same, e) (retain-row_of now entries h)
    ]

has_nonce-row_of :
    (nonce : Text) (entries : List (Text × ℤ))
    → has_nonce nonce (map row_of entries) ≡ contains_key nonce entries
unfolding contains_key
has_nonce-row_of nonce [] = refl
has_nonce-row_of nonce ((key, at) ∷ entries) =
    ap (λ rest. bytes_eq key nonce || rest) (has_nonce-row_of nonce entries)

-- A check of either guard, on tables that hold the same entries.
check-agrees :
    (g : InMemoryReplayGuard) (nonce : Text) (now : ℤ)
    → All IsTimely g.accepted
    → validate_replay_nonce nonce ≡ ok tt
    → is_written now ≡ true
    → length g.accepted < g.capacity
    → check_and_record (map row_of g.accepted) nonce now ≡ (
      (Guard.check_and_record g nonce now).0,
      map row_of (Guard.check_and_record g nonce now).1.accepted,
    )
unfolding check_and_record consume_replay_nonce replay_timestamps insert_nonce
    Guard.check_and_record
check-agrees g nonce now timely safe written room =
    let kept = retain (is_live now) g.accepted in
    let fits : leb g.capacity (length kept) ≡ false =
      ground (arith, length-retain (is_live now) g.accepted) in
    elim (Bool-cases (contains_key nonce kept)) [
      | inl e ↦
          rw (safe, written, retain-row_of now g.accepted timely, has_nonce-row_of nonce kept, e)
            refl
      | inr e ↦
          rw
            (
              safe,
              written,
              retain-row_of now g.accepted timely,
              has_nonce-row_of nonce kept,
              e,
              fits,
            )
            refl
    ]

-- What a check leaves in the map.
check-room :
    (g : InMemoryReplayGuard) (nonce : Text) (now : ℤ)
    → All IsTimely g.accepted
    → is_written now ≡ true
    → All IsTimely (Guard.check_and_record g nonce now).1.accepted
      × ((length (Guard.check_and_record g nonce now).1.accepted ≤ length g.accepted + 1)
          × ((Guard.check_and_record g nonce now).1.capacity ≡ g.capacity))
unfolding Guard.check_and_record
check-room g nonce now timely written =
    let kept = retain (is_live now) g.accepted in
    let all_kept = All-retain IsTimely (is_live now) g.accepted timely in
    let fewer = length-retain (is_live now) g.accepted in
    elim (Bool-cases (contains_key nonce kept || leb g.capacity (length kept))) [
      | inl e ↦ rw e (all_kept, (omega arith, refl))
      | inr e ↦ rw e ((written, all_kept), (omega arith, refl))
    ]

-- The answers to checks in turn.
unfoldable pub memory_answers : InMemoryReplayGuard → List (Text × ℤ) → List Bool
memory_answers g [] = []
memory_answers g ((nonce, now) ∷ calls) =
    let (fresh, g') = Guard.check_and_record g nonce now in fresh ∷ memory_answers g' calls

unfoldable pub store_answers : List ReplayNonce → List (Text × ℤ) → List Bool
store_answers rows [] = []
store_answers rows ((nonce, now) ∷ calls) =
    let (fresh, rows') = check_and_record rows nonce now in fresh ∷ store_answers rows' calls

abbrev pub IsRequest : Text × ℤ → Type 0
IsRequest (nonce, now) = (validate_replay_nonce nonce ≡ ok tt) × (is_written now ≡ true)

answers-agree :
    (g : InMemoryReplayGuard) (calls : List (Text × ℤ))
    → All IsTimely g.accepted
    → All IsRequest calls
    → length g.accepted + length calls ≤ g.capacity
    → store_answers (map row_of g.accepted) calls ≡ memory_answers g calls
unfolding store_answers memory_answers
answers-agree g [] timely h room = refl
answers-agree g ((nonce, now) ∷ calls) timely ((safe, written), h) room =
    let one = check-agrees g nonce now timely safe written (omega arith) in
    let (timely', (longer, same)) = check-room g nonce now timely written in
    rw one (
      ap (λ rest. (Guard.check_and_record g nonce now).0 ∷ rest)
        (answers-agree (Guard.check_and_record g nonce now).1 calls timely' h (omega arith)))

-- The durable guard, on an empty table, answers any sequence of checks as a new guard in memory
-- does, as long as the sequence is no longer than the capacity of that guard; the nonces are well
-- formed and the times between the years 0 and 9999. The durable guard has no capacity.
pub store_answers-eq-memory_answers :
    (capacity : ℕ) (calls : List (Text × ℤ))
    → length calls ≤ capacity
    → All IsRequest calls
    → store_answers [] calls ≡ memory_answers (Guard.new capacity) calls
unfolding Guard.new
store_answers-eq-memory_answers capacity calls room h =
    answers-agree (Guard.new capacity) calls tt h (ground arith)
