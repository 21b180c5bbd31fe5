-- ===== src/Fakes/Keys.antt =====
-- src/pa/providers.rs: what backups are named and described by. A text is its Unicode scalar values.
use agent_voice.Common.{
  ℕ, ◌+◌, Bool, false, not, ◌&&◌, ◌||◌, [], ◌∷◌, leb, ltb, ◌==◌, if◌then◌else◌, all, any, bytes_eq,
  codes, is_digit,
}
use agent_voice.Common.Results.{ok, err, ◌>>=◌, ◌>>◌, guard}
use agent_voice.Common.Split.{split}
use agent_voice.Common.Text.{Text, trim, is_empty, is_control}
use agent_voice.Fakes.Errors.{
  ProviderResult, ProviderInputField, invalid_input, backup_object_key, checksum, stored_byte_count,
  provider_version, uploaded_at,
}

abbrev max_backup_metadata_length : ℕ
max_backup_metadata_length = 256

-- `str::len`: the bytes of the text in UTF-8.
unfoldable pub utf8_length : Text → ℕ
utf8_length [] = 0
utf8_length (c ∷ s) =
    (if ltb c 0x80 then 1 else if ltb c 0x800 then 2 else if ltb c 0x10000 then 3 else 4)
    + utf8_length s

unfoldable pub is_backup_text : Text → Bool
is_backup_text value = not (
    is_empty (trim value)
    || (ltb max_backup_metadata_length (utf8_length value) || any is_control value))

unfoldable pub validate_backup_text : Text → ProviderInputField → ProviderResult Text
validate_backup_text value field =
    if not (is_backup_text value) then err (invalid_input field) else ok value

abbrev starts_with_slash : Text → Bool
starts_with_slash [] = false
starts_with_slash (c ∷ s) = c == b'/'

-- `validate_backup_text(..).is_ok()` is the test of the text.
unfoldable pub is_valid_backup_object_key : Text → Bool
is_valid_backup_object_key value =
    (not (starts_with_slash value) && is_backup_text value)
    && not (
        any (λ component. bytes_eq component (codes ".") || bytes_eq component (codes ".."))
          (split b'/' value))

-- `BackupObjectKey::new`; a key is its text.
unfoldable pub new_key : Text → ProviderResult Text
new_key value =
    if not (is_valid_backup_object_key value)
    then err (invalid_input backup_object_key)
    else ok value

unfoldable pub validate_sha256_checksum : Text → ProviderResult Text
validate_sha256_checksum value =
    if not (utf8_length value == 64)
      || not (all (λ c. is_digit c || (leb b'a' c && leb c b'f')) value)
    then err (invalid_input checksum)
    else ok value

pub record BackupReceipt : Type 0 where
  pub object_key : Text
  pub provider_version : Text
  pub checksum : Text
  pub uploaded_at : ℕ
  pub stored_byte_count : ℕ

-- `BackupReceipt::new`; `has_nanos` is whether `timestamp_nanos_opt` of the crate chrono gives a value.
unfoldable pub new_receipt : (ℕ → Bool) → Text → Text → Text → ℕ → ℕ → ProviderResult BackupReceipt
new_receipt has_nanos object_key version sum at byte_count = do
  guard (not (byte_count == 0)) (invalid_input stored_byte_count)
  key ← new_key object_key
  version' ← validate_backup_text version provider_version
  sum' ← validate_sha256_checksum sum
  guard (has_nanos at) (invalid_input uploaded_at)
  ok (record {
    object_key = key;
    provider_version = version';
    checksum = sum';
    uploaded_at = at;
    stored_byte_count = byte_count;
  })

pub record BackupObjectInfo : Type 0 where
  pub key : Text
  pub provider_version : Text
  pub checksum : Text
  pub uploaded_at : ℕ
  pub byte_count : ℕ

-- `BackupObjectInfo::new`
unfoldable pub new_info : (ℕ → Bool) → Text → Text → Text → ℕ → ℕ → ProviderResult BackupObjectInfo
new_info has_nanos object_key version sum at byte_count = do
  guard (not (byte_count == 0)) (invalid_input stored_byte_count)
  key ← new_key object_key
  version' ← validate_backup_text version provider_version
  sum' ← validate_sha256_checksum sum
  guard (has_nanos at) (invalid_input uploaded_at)
  ok (record {
    key = key;
    provider_version = version';
    checksum = sum';
    uploaded_at = at;
    byte_count = byte_count;
  })
