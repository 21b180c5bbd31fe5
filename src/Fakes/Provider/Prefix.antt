-- ===== src/Fakes/Provider/Prefix.antt =====
-- src/pa/fakes/backup.rs: the four operations and the configured prefix.
use agent_voice.Common.{ℕ, ◌≡◌, refl, ap, ◌∙◌, Bool, false, some, Bool-cases, ◌⊎◌, inl, inr}
use agent_voice.Common.Results.{ok, err}
use agent_voice.Common.Text.{Text}
use agent_voice.Fakes.Errors.{ProviderResult, invalid_input, backup_object_key}
use agent_voice.Fakes.Operations.{FakeOperation, backup_put, backup_list, backup_get, backup_delete}
use agent_voice.Fakes.Keys.{is_valid_backup_object_key, new_key}
use agent_voice.Fakes.Backup.{EncryptedSnapshot, BackupState}
use agent_voice.Fakes.Provider.{
  FakeEncryptedS3Backup, key_matches_prefix, ensure_configured_prefix, with_objects, put_snapshot,
  list_snapshots, get_snapshot, delete_snapshot,
}

abbrev Refused {ℓ} :
    {A : Type ℓ} → FakeEncryptedS3Backup → ProviderResult A × FakeEncryptedS3Backup → Type ℓ
Refused fake outcome = outcome ≡ (err (invalid_input backup_object_key), fake)

refused_by :
    (prefix key : Text)
    → key_matches_prefix key prefix ≡ false
    → ensure_configured_prefix (some prefix) key ≡ err (invalid_input backup_object_key)
unfolding ensure_configured_prefix
refused_by prefix key h = rw (h, ensure_configured_prefix) refl

module _ (fake : FakeEncryptedS3Backup) (prefix key : Text)
    (configured : fake.configured_prefix ≡ some prefix)
    (outside : key_matches_prefix key prefix ≡ false) where
  check_refused :
      ensure_configured_prefix fake.configured_prefix key ≡ err (invalid_input backup_object_key)
  check_refused =
      ap (λ p. ensure_configured_prefix p key) configured ∙ refused_by prefix key outside

  with_objects-Refused :
      {A : Type 0} (operation : FakeOperation) (step : BackupState → ProviderResult A × BackupState)
      → Refused fake (with_objects fake operation key step)
  unfolding with_objects
  with_objects-Refused operation step = rw (check_refused, with_objects) refl

new_key_lem :
    (key : Text) → (new_key key ≡ ok key) ⊎ (new_key key ≡ err (invalid_input backup_object_key))
unfolding new_key
new_key_lem key = elim (Bool-cases (is_valid_backup_object_key key)) [
  | inl e ↦ inl (rw (e, new_key) refl)
  | inr e ↦ inr (rw (e, new_key) refl)
]

put_snapshot-Refused :
    (has_nanos : ℕ → Bool) (fake : FakeEncryptedS3Backup) (prefix : Text)
    (snapshot : EncryptedSnapshot)
    → fake.configured_prefix ≡ some prefix
    → key_matches_prefix snapshot.object_key prefix ≡ false
    → Refused fake (put_snapshot has_nanos fake snapshot)
unfolding put_snapshot
put_snapshot-Refused has_nanos fake prefix snapshot c o = elim (new_key_lem snapshot.object_key) [
  | inl e ↦
      rw (e, put_snapshot) (with_objects-Refused fake prefix snapshot.object_key c o backup_put _)
  | inr e ↦ rw (e, put_snapshot) refl
]

-- With a prefix configured, all four operations refuse a key outside it, or a listing of one, and
-- neither count the call nor change an object.
outside_refused :
    (has_nanos : ℕ → Bool) (fake : FakeEncryptedS3Backup) (prefix : Text)
    (snapshot : EncryptedSnapshot)
    → fake.configured_prefix ≡ some prefix
    → key_matches_prefix snapshot.object_key prefix ≡ false
    → (put_snapshot has_nanos fake snapshot ≡ (err (invalid_input backup_object_key), fake))
      × ((list_snapshots has_nanos fake snapshot.object_key
            ≡ (err (invalid_input backup_object_key), fake))
          × ((get_snapshot fake snapshot.object_key ≡ (err (invalid_input backup_object_key), fake))
              × (delete_snapshot fake snapshot.object_key
                  ≡ (err (invalid_input backup_object_key), fake))))
unfolding list_snapshots get_snapshot delete_snapshot
outside_refused has_nanos fake prefix snapshot c o = (
  put_snapshot-Refused has_nanos fake prefix snapshot c o,
  (
    with_objects-Refused fake prefix snapshot.object_key c o backup_list _,
    (
      with_objects-Refused fake prefix snapshot.object_key c o backup_get _,
      with_objects-Refused fake prefix snapshot.object_key c o backup_delete _,
    ),
  ),
)
