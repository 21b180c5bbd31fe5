-- ===== src/Fakes/Provider.antt =====
-- src/pa/fakes/backup.rs: `FakeEncryptedS3Backup` as a provider, with its prefix and its control.
pub mod Prefix
use agent_voice.Common.{
  ℕ, Bool, true, false, not, ◌&&◌, ◌||◌, Option, none, some, List, [], ◌∷◌, if◌then◌else◌, ◌==◌,
  bytes_eq,
}
use agent_voice.Common.Results.{Result, ok, err, ◌>>=◌, ◌>>◌, guard}
use agent_voice.Common.Text.{Text}
use agent_voice.Fakes.Errors.{
  ProviderError, ProviderResult, invalid_input, unavailable, backup_object_key,
}
use agent_voice.Fakes.Operations.{FakeOperation, backup_put, backup_list, backup_get, backup_delete}
use agent_voice.Fakes.Control.{FakeControl, begin}
use agent_voice.Fakes.Keys.{BackupReceipt, BackupObjectInfo, new_key, new_info}
use agent_voice.Fakes.Backup.{EncryptedSnapshot, StoredObject, BackupState, store, load, remove}

pub record FakeEncryptedS3Backup : Type 0 where
  pub control : FakeControl
  pub configured_prefix : Option Text
  pub state : Option BackupState

-- `str::strip_prefix`
unfoldable pub strip_prefix : Text → Text → Option Text
strip_prefix [] s = some s
strip_prefix (c ∷ prefix) [] = none
strip_prefix (c ∷ prefix) (d ∷ s) = if c == d then strip_prefix prefix s else none

abbrev is_some : Option Text → Bool
is_some none = false
is_some (some s) = true

unfoldable pub ends_with_slash : Text → Bool
ends_with_slash [] = false
ends_with_slash (c ∷ []) = c == b'/'
ends_with_slash (c ∷ d ∷ s) = ends_with_slash (d ∷ s)

abbrev begins_with_slash : Option Text → Bool
begins_with_slash none = false
begins_with_slash (some []) = false
begins_with_slash (some (c ∷ s)) = c == b'/'

unfoldable pub key_matches_prefix : Text → Text → Bool
key_matches_prefix key prefix =
    bytes_eq key prefix
    || ((ends_with_slash prefix && is_some (strip_prefix prefix key))
        || begins_with_slash (strip_prefix prefix key))

ensure_configured_prefix : Option Text → Text → ProviderResult (Unit {0})
ensure_configured_prefix none key = ok tt
ensure_configured_prefix (some prefix) key =
    if key_matches_prefix key prefix then ok tt else err (invalid_input backup_object_key)

-- `new_with_prefix`
unfoldable pub new_with_prefix : FakeControl → Text → ProviderResult FakeEncryptedS3Backup
new_with_prefix control prefix = do
  configured_prefix ← new_key prefix
  ok (record {
    control = control;
    configured_prefix = some configured_prefix;
    state = some (record { objects = []; next_provider_version = 1 });
  })

-- After the prefix is tested and the control has counted the call, the operation works on the objects
-- under their lock.
with_objects :
    {A : Type 0}
    → FakeEncryptedS3Backup
    → FakeOperation
    → Text
    → (BackupState → ProviderResult A × BackupState)
    → ProviderResult A × FakeEncryptedS3Backup
with_objects fake operation key step = elim (ensure_configured_prefix fake.configured_prefix key) [
  | err e ↦ (err e, fake)
  | ok u ↦
      let (begun, control) = begin fake.control operation in
      let counted = record fake { control = control } in
      elim begun [
        | err e ↦ (err e, counted)
        | ok u ↦ elim fake.state [
          | none ↦ (err unavailable, counted)
          | some state ↦
              let (result, after) = step state in (result, record counted { state = some after })
        ]
      ]
]

put_snapshot :
    (ℕ → Bool)
    → FakeEncryptedS3Backup
    → EncryptedSnapshot
    → ProviderResult BackupReceipt × FakeEncryptedS3Backup
put_snapshot has_nanos fake snapshot = elim (new_key snapshot.object_key) [
  | err e ↦ (err e, fake)
  | ok key ↦
      with_objects fake backup_put key (λ state. store has_nanos fake.control.now state snapshot)
]

-- `list`: the information of the objects whose keys start with the prefix, or the first error.
unfoldable pub list_objects :
    (ℕ → Bool) → Text → List (Text × StoredObject) → ProviderResult (List BackupObjectInfo)
list_objects has_nanos prefix [] = ok []
list_objects has_nanos prefix ((key, stored) ∷ objects) =
    let rest = list_objects has_nanos prefix objects in
    if is_some (strip_prefix prefix key)
    then (do
      info ←
          new_info has_nanos key stored.receipt.provider_version stored.receipt.checksum
            stored.receipt.uploaded_at stored.receipt.stored_byte_count
      infos ← rest
      ok (info ∷ infos))
    else rest

list_snapshots :
    (ℕ → Bool)
    → FakeEncryptedS3Backup
    → Text
    → ProviderResult (List BackupObjectInfo) × FakeEncryptedS3Backup
list_snapshots has_nanos fake prefix =
    with_objects fake backup_list prefix
      (λ state. (list_objects has_nanos prefix state.objects, state))

get_snapshot :
    FakeEncryptedS3Backup → Text → ProviderResult EncryptedSnapshot × FakeEncryptedS3Backup
get_snapshot fake key = with_objects fake backup_get key (λ state. (load state key, state))

delete_snapshot : FakeEncryptedS3Backup → Text → ProviderResult (Unit {0}) × FakeEncryptedS3Backup
delete_snapshot fake key = with_objects fake backup_delete key (λ state. (ok tt, remove state key))
