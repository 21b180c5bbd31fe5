-- ===== src/Fakes/Runs.antt =====
-- Runs of pa/fakes/backup.rs.
use agent_voice.Common.{ℕ, ◌≡◌, refl, Bool, true, false, some, [], ◌∷◌, bytes_eq, codes}
use agent_voice.Common.Results.{ok}
use agent_voice.Common.Assoc.{lookup}
use agent_voice.Common.Decimal.{print_u64}
use agent_voice.Common.Split.{split}
use agent_voice.Common.Text.{trim, trim_start, trim_end, is_whitespace, is_control}
use agent_voice.Fakes.Control.{new}
use agent_voice.Fakes.Keys.{
  BackupReceipt, new_receipt, new_key, is_valid_backup_object_key, is_backup_text,
  validate_backup_text, validate_sha256_checksum, utf8_length,
}
use agent_voice.Fakes.Backup.{EncryptedSnapshot, BackupState, store_new, store, insert_object}
use agent_voice.Fakes.Backup.Objects.{IsStored, store-IsStored, grown}
use agent_voice.Fakes.Provider.{
  FakeEncryptedS3Backup, key_matches_prefix, strip_prefix, ends_with_slash,
}

abbrev any_time : ℕ → Bool
any_time at = true

abbrev snapshot : EncryptedSnapshot
snapshot = record {
  object_key = codes "pa/one";
  ciphertext = 1 ∷ 2 ∷ [];
  checksum = codes "e3b0c44298fc1c149afbf4c8996fb92427ae41e4649b934ca495991b7852b855";
  ciphertext_size = 2;
  encryption_format = codes "v1";
  key_metadata = codes "key";
  encryption_metadata = codes "aead";
}

abbrev empty : BackupState
empty = record { objects = []; next_provider_version = 1 }

abbrev receipt : BackupReceipt
receipt = record {
  object_key = codes "pa/one";
  provider_version = codes "fake-s3-version-1";
  checksum = codes "e3b0c44298fc1c149afbf4c8996fb92427ae41e4649b934ca495991b7852b855";
  uploaded_at = 5;
  stored_byte_count = 2;
}

stored : store any_time 5 empty snapshot ≡ (ok receipt, grown any_time 5 snapshot empty receipt)
unfolding store store_new lookup insert_object new_receipt new_key is_valid_backup_object_key
    is_backup_text validate_backup_text validate_sha256_checksum utf8_length split bytes_eq trim
    trim_start trim_end is_whitespace is_control print_u64
stored = refl

store-IsStored_example :
    IsStored any_time 5 snapshot empty receipt (grown any_time 5 snapshot empty receipt)
store-IsStored_example =
    store-IsStored any_time 5 snapshot empty receipt (grown any_time 5 snapshot empty receipt)
      stored

abbrev fake : FakeEncryptedS3Backup
fake = record { control = new 5; configured_prefix = some (codes "backups"); state = some empty }

outside : key_matches_prefix (codes "pa/one") (codes "backups") ≡ false
unfolding key_matches_prefix strip_prefix ends_with_slash bytes_eq
outside = refl
