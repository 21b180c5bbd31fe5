-- ===== src/Store/Outbox/Deliver.antt =====
-- src/pa/store.rs: `claim_notifications`, `mark_notification_sent` and `reschedule_notification`.
-- A lease's duration is its nanoseconds; `latest` is the latest
-- instant of `OffsetDateTime`.
use agent_voice.Store.Table.{update, count}
use agent_voice.Common.{
  ℕ, ◌+◌, ltb, leb, ◌==◌, ◌^◌, if◌then◌else◌, Bool, true, false, not, ◌&&◌, Option, none, some,
  List, [], ◌∷◌, map, take, retain, codes,
}
use agent_voice.Common.Equal.{eqb}
use agent_voice.Common.Int.{ℤ, pos, negsuc}
use agent_voice.Common.Results.{ok, err, guard, ok_or, ◌>>=◌, ◌>>◌}
use agent_voice.Common.Sort.{sort_by_key}
use agent_voice.Common.Text.{Text}
use agent_voice.Domain.Quote.{checked_add}
use agent_voice.Store.Errors.{StoreResult, invalid_input, cursor_conflict}
use agent_voice.Store.Instants.{OffsetDateTime, normalize_notification_time}
use agent_voice.Store.Names.{NotificationStatus, waiting, delivering, sent}
use agent_voice.Store.Outbox.{
  StoredNotification, Database, is_id, notification, option_ℕ_discrete, load_notification,
}
use agent_voice.Store.Texts.{validate_notification_error_code}

abbrev lease_has_ended : ℕ → Option ℕ → Bool
lease_has_ended now none = false
lease_has_ended now (some until) = leb until now

-- The condition of the selection and of the update in `claim_notifications`.
unfoldable pub is_eligible : ℕ → NotificationStatus → ℕ → Option ℕ → Bool
is_eligible now waiting available_at lease_until = leb available_at now
is_eligible now delivering available_at lease_until = lease_has_ended now lease_until
is_eligible now sent available_at lease_until = false

abbrev pub can_claim : ℕ → StoredNotification → Bool
can_claim now row = is_eligible now row.status row.available_at row.lease_until

-- `ORDER BY available_at, id`
unfoldable pub in_order : List StoredNotification → List StoredNotification
in_order rows = sort_by_key (λ row. row.available_at) (sort_by_key (λ row. row.id) rows)

unfoldable pub candidates : ℕ → ℕ → List StoredNotification → List StoredNotification
candidates now limit rows = take limit (in_order (retain (can_claim now) rows))

unfoldable pub claimed : ℕ → ℕ → StoredNotification → StoredNotification
claimed lease_until clock row = record row {
  status = delivering;
  attempts = row.attempts + 1;
  lease_until = some lease_until;
  sent_at = none;
  last_error_code = none;
  updated_at = clock;
}

-- One round of the loop over the candidates' ids.
unfoldable pub claim_one : ℕ → ℕ → ℕ → Database → ℕ → StoreResult (StoredNotification × Database)
claim_one now lease_until clock db id = do
  let test = λ (row : StoredNotification). is_id (pos id) row.id && can_claim now row
  let db' = record db { rows = update test (claimed lease_until clock) db.rows }
  guard (count test db.rows == 1) (cursor_conflict notification)
  row ← load_notification db' (pos id)
  ok (row, db')

unfoldable pub claim_each :
    ℕ → ℕ → ℕ → Database → List ℕ → StoreResult (List StoredNotification × Database)
claim_each now lease_until clock db [] = ok ([], db)
claim_each now lease_until clock db (id ∷ ids) =
    claim_one now lease_until clock db id >>= λ (row, db').
    claim_each now lease_until clock db' ids >>= λ (rows, db''). ok (row ∷ rows, db'')

abbrev pub is_positive_duration : ℤ → Bool
is_positive_duration (pos n) = not (leb n 0)
is_positive_duration (negsuc n) = false

abbrev pub duration_of : ℤ → ℕ
duration_of (pos n) = n
duration_of (negsuc n) = 0

unfoldable pub claim_notifications :
    ℕ → Database → ℕ → OffsetDateTime → ℕ → ℤ → StoreResult (List StoredNotification × Database)
claim_notifications latest db clock now limit lease_duration = do
  guard (not (leb limit 0) && ltb limit (2 ^ 63)) (invalid_input (codes "limit"))
  guard (is_positive_duration lease_duration) (invalid_input (codes "lease_duration"))
  let now = normalize_notification_time now
  lease_until ←
      ok_or (checked_add latest now (duration_of lease_duration))
        (invalid_input (codes "lease_duration"))
  claim_each now lease_until clock db (map (λ row. row.id) (candidates now limit db.rows))

abbrev is_positive_i64 : ℤ → Bool
is_positive_i64 (pos n) = not (leb n 0)
is_positive_i64 (negsuc n) = false

unfoldable pub validate_notification_delivery_cursor : ℤ → ℤ → StoreResult (Unit {0})
validate_notification_delivery_cursor id expected_attempt = do
  guard (is_positive_i64 id) (invalid_input (codes "id"))
  guard (is_positive_i64 expected_attempt) (invalid_input (codes "expected_attempt"))

abbrev pub is_delivering : NotificationStatus → Bool
is_delivering waiting = false
is_delivering delivering = true
is_delivering sent = false

abbrev is_sent : NotificationStatus → Bool
is_sent waiting = false
is_sent delivering = false
is_sent sent = true

-- `status = 'delivering' AND attempts = expected_attempt`
abbrev pub owns : ℤ → StoredNotification → Bool
owns expected_attempt row = is_delivering row.status && is_id expected_attempt row.attempts

-- The guarded update of one row, and the row read again.
unfoldable pub update_owned :
    Database
    → ℤ
    → ℤ
    → (StoredNotification → StoredNotification)
    → StoreResult (StoredNotification × Database)
update_owned db id expected_attempt change = do
  let test = λ (row : StoredNotification). is_id id row.id && owns expected_attempt row
  let db' = record db { rows = update test change db.rows }
  guard (count test db.rows == 1) (cursor_conflict notification)
  row ← load_notification db' id
  ok (row, db')

unfoldable pub marked_sent : ℕ → ℕ → StoredNotification → StoredNotification
marked_sent sent_at clock row = record row {
  status = sent;
  lease_until = none;
  sent_at = some sent_at;
  last_error_code = none;
  updated_at = clock;
}

-- A repeated completion gives the row as it is.
unfoldable pub is_completed : ℤ → ℕ → StoredNotification → Bool
is_completed expected_attempt sent_at row =
    is_sent row.status
    && (is_id expected_attempt row.attempts && eqb option_ℕ_discrete row.sent_at (some sent_at))

unfoldable pub mark_notification_sent :
    Database → ℕ → ℤ → ℤ → OffsetDateTime → StoreResult (StoredNotification × Database)
mark_notification_sent db clock id expected_attempt sent_at = do
  validate_notification_delivery_cursor id expected_attempt
  let sent_at = normalize_notification_time sent_at
  existing ← load_notification db id
  (if is_completed expected_attempt sent_at existing
      then ok (existing, db)
      else if not (owns expected_attempt existing)
      then err (cursor_conflict notification)
      else update_owned db id expected_attempt (marked_sent sent_at clock))

unfoldable pub rescheduled : ℕ → Text → ℕ → StoredNotification → StoredNotification
rescheduled available_at code clock row = record row {
  status = waiting;
  available_at = available_at;
  lease_until = none;
  sent_at = none;
  last_error_code = some code;
  updated_at = clock;
}

unfoldable pub reschedule_notification :
    Database → ℕ → ℤ → ℤ → OffsetDateTime → Text → StoreResult (StoredNotification × Database)
reschedule_notification db clock id expected_attempt available_at error_code = do
  validate_notification_delivery_cursor id expected_attempt
  let available_at = normalize_notification_time available_at
  code ← validate_notification_error_code error_code
  existing ← load_notification db id
  (if not (owns expected_attempt existing)
      then err (cursor_conflict notification)
      else update_owned db id expected_attempt (rescheduled available_at code clock))
