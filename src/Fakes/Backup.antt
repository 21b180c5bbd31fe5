-- ===== src/Fakes/Backup.antt =====
-- src/pa/fakes/backup.rs: `FakeEncryptedS3Backup`. Its clones share one map of objects under a mutex;
-- the state is `none` when that is poisoned.
pub mod Objects
use agent_voice.Common.{
  ℕ, ◌+◌, Bool, true, false, not, ◌&&◌, ◌||◌, Option, none, some, List, [], ◌∷◌, ◌++◌, map, ◌==◌,
  if◌then◌else◌, retain, bytes_eq, codes, Bytes,
}
use agent_voice.Common.Results.{Result, ok, err, ◌>>=◌, ◌>>◌, ok_or}
use agent_voice.Common.Assoc.{lookup}
use agent_voice.Common.Decimal.{print_u64}
use agent_voice.Common.Order.{bytes_leb}
use agent_voice.Common.Text.{Text}
use agent_voice.Fakes.Errors.{
  ProviderError, ProviderResult, invalid_input, not_found, conflict, unavailable, backup_object_key,
}
use agent_voice.Fakes.Operations.{FakeOperation, backup_put, backup_get, backup_delete}
use agent_voice.Fakes.Control.{FakeControl, begin, u64_max}
use agent_voice.Fakes.Keys.{BackupReceipt, new_receipt, new_key}

-- src/pa/providers.rs: the fields of `EncryptedSnapshot`, whose constructor has checked them.
pub record EncryptedSnapshot : Type 0 where
  pub object_key : Text
  pub ciphertext : Bytes
  pub checksum : Text
  pub ciphertext_size : ℕ
  pub encryption_format : Text
  pub key_metadata : Text
  pub encryption_metadata : Text

-- The derived `==`.
pub snapshot_eq : EncryptedSnapshot → EncryptedSnapshot → Bool
snapshot_eq a b =
    (bytes_eq a.object_key b.object_key && bytes_eq a.ciphertext b.ciphertext)
    && ((bytes_eq a.checksum b.checksum && (a.ciphertext_size == b.ciphertext_size))
        && (bytes_eq a.encryption_format b.encryption_format
            && (bytes_eq a.key_metadata b.key_metadata
                && bytes_eq a.encryption_metadata b.encryption_metadata)))

pub record StoredObject : Type 0 where
  pub snapshot : EncryptedSnapshot
  pub receipt : BackupReceipt

pub record BackupState : Type 0 where
  pub objects : List (Text × StoredObject)
  pub next_provider_version : ℕ

-- `BTreeMap::insert` of a key that is absent: before the first greater key.
unfoldable pub insert_object :
    Text → StoredObject → List (Text × StoredObject) → List (Text × StoredObject)
insert_object key object [] = (key, object) ∷ []
insert_object key object ((k, o) ∷ objects) =
    let later = insert_object key object objects in
    if bytes_leb key k then (key, object) ∷ (k, o) ∷ objects else (k, o) ∷ later

-- `BTreeMap::remove`
remove_object : Text → List (Text × StoredObject) → List (Text × StoredObject)
remove_object key objects = retain (λ (k, o). not (bytes_eq k key)) objects

abbrev version_text : ℕ → Text
version_text sequence = codes "fake-s3-version-" ++ print_u64 sequence

-- The lines of `store` for a key that is absent; the sequence is a `u64`.
unfoldable pub store_new :
    (ℕ → Bool) → ℕ → BackupState → EncryptedSnapshot → ProviderResult BackupReceipt × BackupState
store_new has_nanos now state snapshot =
    if state.next_provider_version == u64_max
    then (err unavailable, state)
    else elim (new_receipt has_nanos snapshot.object_key (version_text state.next_provider_version)
        snapshot.checksum now snapshot.ciphertext_size) [
          | err e ↦ (err e, state)
          | ok receipt ↦ (
            ok receipt,
            record {
              objects =
                  insert_object snapshot.object_key
                    (record { snapshot = snapshot; receipt = receipt }) state.objects;
              next_provider_version = state.next_provider_version + 1;
            },
          )
        ]

unfoldable pub store :
    (ℕ → Bool) → ℕ → BackupState → EncryptedSnapshot → ProviderResult BackupReceipt × BackupState
store has_nanos now state snapshot = elim (lookup snapshot.object_key state.objects) [
  | some existing ↦
      (if snapshot_eq existing.snapshot snapshot then ok existing.receipt else err conflict, state)
  | none ↦ store_new has_nanos now state snapshot
]

pub load : BackupState → Text → ProviderResult EncryptedSnapshot
load state key = do object ← ok_or (lookup key state.objects) not_found; ok object.snapshot

pub remove : BackupState → Text → BackupState
remove state key = record {
  objects = remove_object key state.objects;
  next_provider_version = state.next_provider_version;
}
