-- ===== src/Auth/Guard/Laws.antt =====
-- src/pa/auth.rs: `InMemoryReplayGuard` over runs of checks.
use agent_voice.Common.{
  ℕ, ◌≤◌, ◌<◌, ◌≡◌, refl, Bool, true, false, ◌||◌, List, [], ◌∷◌, leb, length, lt→ltb, All, retain,
  length-retain, Bytes, bytes_eq_refl, arith, Bool-cases, inl, inr, ◌⊎◌,
}
use agent_voice.Common.Int.{ℤ, ◌<ℤ◌}
use agent_voice.Auth.Guard.{
  InMemoryReplayGuard, new, is_live, contains_key, check_and_record, saturating_add,
  replay_retention_seconds,
}

-- No nonce has two entries.
abbrev DistinctKeys : List (Bytes × ℤ) → Type 0
DistinctKeys [] = Unit
DistinctKeys ((key, _) ∷ entries) = (contains_key key entries ≡ false) × DistinctKeys entries

pub record IsValid (g : InMemoryReplayGuard) : Type 0 where
  pub positive : 0 < g.capacity
  pub bounded : length g.accepted ≤ g.capacity
  pub distinct : DistinctKeys g.accepted

new-IsValid : (capacity : ℕ) → IsValid (new capacity)
unfolding new
new-IsValid capacity = record { positive = ground arith; bounded = ground arith; distinct = tt }

contains_key-retain :
    (nonce : Bytes) (p : Bytes × ℤ → Bool) (entries : List (Bytes × ℤ))
    → contains_key nonce entries ≡ false
    → contains_key nonce (retain p entries) ≡ false
unfolding contains_key
contains_key-retain nonce p [] h = refl
contains_key-retain nonce p ((k, t) ∷ entries) h =
    ground (arith, contains_key-retain nonce p entries)

DistinctKeys-retain :
    (p : Bytes × ℤ → Bool) (entries : List (Bytes × ℤ))
    → DistinctKeys entries
    → DistinctKeys (retain p entries)
DistinctKeys-retain p [] h = tt
DistinctKeys-retain p ((k, t) ∷ entries) (h, hs) =
    ground (arith, contains_key-retain k p entries h, DistinctKeys-retain p entries hs)

-- Every check, accepting or not, keeps the table within its capacity and its nonces distinct.
pub check_and_record-IsValid :
    (g : InMemoryReplayGuard) (nonce : Bytes) (now : ℤ)
    → IsValid g
    → IsValid (check_and_record g nonce now).1
unfolding check_and_record
check_and_record-IsValid g nonce now v = ground (
  arith,
  length-retain (is_live now) g.accepted,
  DistinctKeys-retain (is_live now) g.accepted v.distinct,
)

-- The table holds the nonce with its time of acceptance.
abbrev Holds : Bytes → ℤ → List (Bytes × ℤ) → Type 0
Holds nonce at [] = ⊥
Holds nonce at ((k, t) ∷ entries) = ((k ≡ nonce) × (t ≡ at)) ⊎ Holds nonce at entries

Holds-retain :
    (nonce : Bytes) (at now : ℤ) (entries : List (Bytes × ℤ))
    → now <ℤ saturating_add at replay_retention_seconds
    → Holds nonce at entries
    → Holds nonce at (retain (is_live now) entries)
Holds-retain nonce at now [] live h = h
Holds-retain nonce at now ((k, t) ∷ entries) live (inl (e, f)) =
    let l : is_live now (k, t) ≡ true = rw f (lt→ltb _ _ live) in rw l (inl (e, f))
Holds-retain nonce at now ((k, t) ∷ entries) live (inr h) = elim (Bool-cases (is_live now (k, t))) [
  | inl l ↦ rw l (inr (Holds-retain nonce at now entries live h))
  | inr l ↦ rw l (Holds-retain nonce at now entries live h)
]

Holds-contains_key :
    (nonce : Bytes) (at : ℤ) (entries : List (Bytes × ℤ))
    → Holds nonce at entries
    → contains_key nonce entries ≡ true
unfolding contains_key
Holds-contains_key nonce at [] h = absurd h
Holds-contains_key nonce at ((k, t) ∷ entries) (inl (e, _)) = rw e (rw bytes_eq_refl)
Holds-contains_key nonce at ((k, t) ∷ entries) (inr h) =
    ground (arith, Holds-contains_key nonce at entries h)

Holds-check_and_record :
    (nonce : Bytes) (at : ℤ) (g : InMemoryReplayGuard) (other : Bytes) (now : ℤ)
    → now <ℤ saturating_add at replay_retention_seconds
    → Holds nonce at g.accepted
    → Holds nonce at (check_and_record g other now).1.accepted
unfolding check_and_record
Holds-check_and_record nonce at g other now live h =
    let kept = retain (is_live now) g.accepted in
    let k : Holds nonce at kept = Holds-retain nonce at now g.accepted live h in
    elim (Bool-cases (contains_key other kept || leb g.capacity (length kept))) [
      | inl e ↦ rw e k
      | inr e ↦ rw e (inr k)
    ]

-- The guard after a sequence of checks, each a nonce with the time of its request.
unfoldable pub run : InMemoryReplayGuard → List (Bytes × ℤ) → InMemoryReplayGuard
run g [] = g
run g ((nonce, now) ∷ calls) = run (check_and_record g nonce now).1 calls

-- Before the retention of an acceptance at `at` has passed, by the clock of the call.
abbrev pub Within : ℤ → Bytes × ℤ → Type 0
Within at (_, now) = now <ℤ saturating_add at replay_retention_seconds

Holds-run :
    (nonce : Bytes) (at : ℤ) (g : InMemoryReplayGuard) (calls : List (Bytes × ℤ))
    → All (Within at) calls
    → Holds nonce at g.accepted
    → Holds nonce at (run g calls).accepted
unfolding run
Holds-run nonce at g [] w h = h
Holds-run nonce at g ((other, now) ∷ calls) (live, w) h =
    Holds-run nonce at (check_and_record g other now).1 calls w
      (Holds-check_and_record nonce at g other now live h)

Holds-accepted :
    (g : InMemoryReplayGuard) (nonce : Bytes) (at : ℤ)
    → (check_and_record g nonce at).0 ≡ true
    → Holds nonce at (check_and_record g nonce at).1.accepted
unfolding check_and_record
Holds-accepted g nonce at h =
    let kept = retain (is_live at) g.accepted in
    elim (Bool-cases (contains_key nonce kept || leb g.capacity (length kept))) [
      | inl e ↦ cc (rw e at h)
      | inr e ↦ rw e (inl (refl, refl))
    ]

check_and_record-Holds :
    (g : InMemoryReplayGuard) (nonce : Bytes) (at now : ℤ)
    → now <ℤ saturating_add at replay_retention_seconds
    → Holds nonce at g.accepted
    → (check_and_record g nonce now).0 ≡ false
unfolding check_and_record
check_and_record-Holds g nonce at now live h =
    let kept = retain (is_live now) g.accepted in
    let c : contains_key nonce kept ≡ true =
      Holds-contains_key nonce at kept (Holds-retain nonce at now g.accepted live h) in
    rw c

-- A nonce accepted at `at` is rejected by every later check before `at` plus five minutes
-- (saturating), whatever checks of whatever nonces come in between within that time.
pub replay_rejected :
    (g : InMemoryReplayGuard) (nonce : Bytes) (at : ℤ) (calls : List (Bytes × ℤ)) (now : ℤ)
    → (check_and_record g nonce at).0 ≡ true
    → All (Within at) calls
    → Within at (nonce, now)
    → (check_and_record (run (check_and_record g nonce at).1 calls) nonce now).0 ≡ false
replay_rejected g nonce at calls now h w live =
    check_and_record-Holds (run (check_and_record g nonce at).1 calls) nonce at now live
      (Holds-run nonce at (check_and_record g nonce at).1 calls w (Holds-accepted g nonce at h))

retain_expired :
    (now : ℤ) (entries : List (Bytes × ℤ))
    → All (λ e. is_live now e ≡ false) entries
    → retain (is_live now) entries ≡ []
retain_expired now [] h = refl
retain_expired now ((k, t) ∷ entries) (h, hs) = ground (arith, retain_expired now entries hs)

-- When every retained nonce has expired, a valid guard accepts any nonce, and holds only it.
check_and_record_expired :
    (g : InMemoryReplayGuard) (nonce : Bytes) (now : ℤ)
    → IsValid g
    → All (λ e. is_live now e ≡ false) g.accepted
    → ((check_and_record g nonce now).0 ≡ true)
      × ((check_and_record g nonce now).1.accepted ≡ (nonce, now) ∷ [])
unfolding check_and_record contains_key
check_and_record_expired g nonce now v h =
    let e : retain (is_live now) g.accepted ≡ [] = retain_expired now g.accepted h in
    let l : leb g.capacity 0 ≡ false = ground (arith, v.positive) in rw (e, l) (refl, refl)
