-- ===== src/Store/Replay.antt =====
-- src/pa/store.rs: the replay nonces, and the store as a `ReplayGuard`. A stored time is the Unix
-- second that its RFC 3339 text in UTC names: from year 0 to 9999 the texts have one width, so that
-- SQLite compares them as the times. The order of the rows is not observed.
pub mod Agrees
use agent_voice.Common.{
  ℕ, ◌*◌, ltb, leb, if◌then◌else◌, Bool, true, false, not, ◌&&◌, ◌||◌, List, [], ◌∷◌, retain, any,
  Bytes, bytes_eq, codes,
}
use agent_voice.Common.Int.{ℤ, pos, negsuc, ◌+ℤ◌, ltb_ℤ}
use agent_voice.Common.Results.{Result, ok, err, guard, ◌>>=◌, ◌>>◌}
use agent_voice.Common.Text.{Text}
use agent_voice.Auth.Request.{ReplayGuard}
use agent_voice.Store.Errors.{StoreResult, invalid_input}
use agent_voice.Store.Texts.{validate_replay_nonce}

pub record ReplayNonce : Type 0 where
  pub nonce : Text
  pub consumed_at : ℤ
  pub expires_at : ℤ

-- `REPLAY_RETENTION_SECONDS`
abbrev pub retention : ℤ
retention = pos (5 * 60)

-- 0000-01-01T00:00:00Z and 9999-12-31T23:59:59Z
abbrev first_second : ℤ
first_second = negsuc 62_167_219_199

abbrev last_second : ℤ
last_second = pos 253_402_300_799

-- Neither time is outside what RFC 3339 writes.
abbrev is_written : ℤ → Bool
is_written now = not (ltb_ℤ now first_second) && not (ltb_ℤ last_second (now +ℤ retention))

unfoldable pub replay_timestamps : ℤ → StoreResult (ℤ × ℤ)
replay_timestamps now = do
  guard (is_written now) (invalid_input (codes "now"))
  ok (now, now +ℤ retention)

abbrev is_unexpired : ℤ → ReplayNonce → Bool
is_unexpired now row = ltb_ℤ now row.expires_at

abbrev has_nonce : Text → List ReplayNonce → Bool
has_nonce nonce = any (λ row. bytes_eq row.nonce nonce)

-- `INSERT … ON CONFLICT(nonce) DO NOTHING`, with whether a row was inserted.
unfoldable pub insert_nonce : ReplayNonce → List ReplayNonce → Bool × List ReplayNonce
insert_nonce row rows = if has_nonce row.nonce rows then (false, rows) else (true, row ∷ rows)

unfoldable pub consume_replay_nonce :
    List ReplayNonce → Text → ℤ → StoreResult (Bool × List ReplayNonce)
consume_replay_nonce rows nonce now = do
  validate_replay_nonce nonce
  times ← replay_timestamps now
  ok (
      insert_nonce (record { nonce = nonce; consumed_at = times.0; expires_at = times.1 })
        (retain (is_unexpired times.0) rows))

-- `unwrap_or(false)`; an error leaves the table as it was.
abbrev pub answer :
    List ReplayNonce → StoreResult (Bool × List ReplayNonce) → Bool × List ReplayNonce
answer rows (ok result) = result
answer rows (err e) = (false, rows)

unfoldable pub check_and_record : List ReplayNonce → Text → ℤ → Bool × List ReplayNonce
check_and_record rows nonce now = answer rows (consume_replay_nonce rows nonce now)

-- `impl ReplayGuard for PaStore`
instance abbrev store_guard : ReplayGuard (List ReplayNonce)
store_guard = record { check_and_record = check_and_record }
