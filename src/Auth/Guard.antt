-- ===== src/Auth/Guard.antt =====
-- src/pa/auth.rs: `InMemoryReplayGuard`. `i64` seconds are ℤ; a `HashMap` whose entries are only
-- inserted under an absent key is the list of its entries.
pub mod Laws
use agent_voice.Common.{
  ℕ, zero, suc, ◌+◌, ◌-◌, ◌*◌, ◌^◌, ◌==◌, Bool, true, false, not, ◌||◌, Option, none, some, List,
  [], ◌∷◌, leb, ltb, if◌then◌else◌, length, retain, Bytes, bytes_eq,
}
use agent_voice.Common.Int.{ℤ, pos, negsuc, ◌+ℤ◌, ltb_ℤ}

abbrev replay_retention_seconds : ℤ
replay_retention_seconds = pos (5 * 60)

abbrev default_replay_capacity : ℕ
default_replay_capacity = 4096

abbrev i64_max : ℤ
i64_max = pos (2 ^ 63 - 1)

abbrev i64_min : ℤ
i64_min = negsuc (2 ^ 63 - 1)

-- `i64::saturating_add`
unfoldable pub saturating_add : ℤ → ℤ → ℤ
saturating_add a b =
    if ltb_ℤ i64_max (a +ℤ b) then i64_max else if ltb_ℤ (a +ℤ b) i64_min then i64_min else a +ℤ b

pub record InMemoryReplayGuard : Type 0 where
  pub accepted : List (Bytes × ℤ)
  pub capacity : ℕ

-- `capacity.max(1)`
unfoldable pub new : ℕ → InMemoryReplayGuard
new capacity = record { accepted = []; capacity = if ltb capacity 1 then 1 else capacity }

unfoldable pub default : InMemoryReplayGuard
unfolding new
default = new default_replay_capacity

unfoldable pub len : InMemoryReplayGuard → ℕ
len g = length g.accepted

unfoldable pub is_empty : InMemoryReplayGuard → Bool
is_empty g = length g.accepted == 0

abbrev pub is_live : ℤ → Bytes × ℤ → Bool
is_live now (_, accepted_at) = ltb_ℤ now (saturating_add accepted_at replay_retention_seconds)

-- Returns the number of entries that were dropped.
evict_expired : InMemoryReplayGuard → ℤ → ℕ × InMemoryReplayGuard
evict_expired g now =
    let kept = retain (is_live now) g.accepted in
    (length g.accepted - length kept, record g { accepted = kept })

unfoldable pub contains_key : Bytes → List (Bytes × ℤ) → Bool
contains_key nonce [] = false
contains_key nonce ((key, _) ∷ entries) = bytes_eq key nonce || contains_key nonce entries

unfoldable pub check_and_record : InMemoryReplayGuard → Bytes → ℤ → Bool × InMemoryReplayGuard
unfolding evict_expired
check_and_record g nonce now =
    let g' = (evict_expired g now).1 in
    if contains_key nonce g'.accepted || leb g'.capacity (length g'.accepted)
    then (false, g')
    else (true, record g' { accepted = (nonce, now) ∷ g'.accepted })
