-- ===== src/Store/Instants.antt =====
-- `time::OffsetDateTime` as src/pa/store.rs uses it. An instant is its nanoseconds since
-- 0000-01-01T00:00:00Z: RFC 3339 writes no year before 0, and the type has no year after 9999. A
-- stored timestamp is the instant that its canonical UTC text names.
use agent_voice.Common.{ℕ, ◌%◌, ◌==◌, Bool, false, Bytes, codes}
use agent_voice.Common.Int.{ℤ, pos, negsuc}
use agent_voice.Common.Results.{ok, guard, ◌>>◌}
use agent_voice.Store.Errors.{StoreResult, invalid_input}

-- The offset from UTC is in seconds.
pub record OffsetDateTime : Type 0 where
  pub instant : ℕ
  pub offset : ℤ

abbrev pub is_utc : OffsetDateTime → Bool
is_utc value = elim value.offset [ pos n ↦ n == 0 | negsuc n ↦ false ]

abbrev pub nanosecond : ℕ → ℕ
nanosecond instant = instant % 1_000_000_000

-- `format_task_timestamp` and `format_audit_timestamp`: any offset, whole seconds.
unfoldable pub format_task_timestamp : OffsetDateTime → Bytes → StoreResult ℕ
format_task_timestamp value field = do
  guard (nanosecond value.instant == 0) (invalid_input field)
  ok value.instant

unfoldable pub format_audit_timestamp : OffsetDateTime → Bytes → StoreResult ℕ
format_audit_timestamp value field = do
  guard (nanosecond value.instant == 0) (invalid_input field)
  ok value.instant

unfoldable pub format_task_updated_timestamp : OffsetDateTime → StoreResult ℕ
format_task_updated_timestamp value = do
  guard (is_utc value) (invalid_input (codes "updated_at"))
  guard (nanosecond value.instant == 0) (invalid_input (codes "updated_at"))
  ok value.instant

unfoldable pub format_message_updated_timestamp : OffsetDateTime → StoreResult ℕ
format_message_updated_timestamp value = do
  guard (is_utc value) (invalid_input (codes "updated_at"))
  guard (nanosecond value.instant == 0) (invalid_input (codes "updated_at"))
  ok value.instant

unfoldable pub format_message_timestamp : OffsetDateTime → StoreResult ℕ
unfolding format_audit_timestamp
format_message_timestamp value = do
  guard (is_utc value) (invalid_input (codes "received_at"))
  format_audit_timestamp value (codes "received_at")

-- `normalize_notification_time`: the same instant in UTC.
unfoldable pub normalize_notification_time : OffsetDateTime → ℕ
normalize_notification_time value = value.instant
