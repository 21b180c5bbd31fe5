-- ===== src/Fakes/Backup/Objects.antt =====
-- src/pa/fakes/backup.rs: `store`, `load` and `remove` together.
use agent_voice.Common.{
  ℕ, ◌+◌, ◌≡◌, refl, sym, ap, ◌∙◌, Bool, true, false, none, some, List, [], ◌∷◌, ◌==◌,
  if◌then◌else◌, bytes_eq, bytes_eq_refl, bytes_eq→eq, Bool-cases, Option-cases, ==_iff, inl, inr,
  arith,
}
use mathlib.Core.Path.{subst}
use agent_voice.Common.Results.{ok, err, ok-injective, Result-cases}
use agent_voice.Common.Assoc.{lookup}
use agent_voice.Common.Order.{bytes_leb}
use agent_voice.Common.Text.{Text}
use agent_voice.Fakes.Errors.{not_found, conflict}
use agent_voice.Fakes.Control.{u64_max}
use agent_voice.Fakes.Keys.{BackupReceipt, new_receipt}
use agent_voice.Fakes.Backup.{
  EncryptedSnapshot, snapshot_eq, StoredObject, BackupState, insert_object, remove_object,
  version_text, store_new, store, load, remove,
}

snapshot_eq_refl : (s : EncryptedSnapshot) → snapshot_eq s s ≡ true
unfolding snapshot_eq
snapshot_eq_refl s =
    rw
      (
        bytes_eq_refl s.object_key,
        bytes_eq_refl s.ciphertext,
        bytes_eq_refl s.checksum,
        (==_iff s.ciphertext_size s.ciphertext_size).1 refl,
        bytes_eq_refl s.encryption_format,
        bytes_eq_refl s.key_metadata,
        bytes_eq_refl s.encryption_metadata,
      )
      refl

lookup-insert_object :
    (key : Text) (object : StoredObject) (objects : List (Text × StoredObject))
    → lookup key objects ≡ none
    → lookup key (insert_object key object objects) ≡ some object
unfolding lookup insert_object
lookup-insert_object key object [] h = rw (bytes_eq_refl key) refl
lookup-insert_object key object ((k, o) ∷ objects) h = elim (Bool-cases (bytes_eq k key)) [
  | inl e ↦ cc (rw (e, lookup) at h)
  | inr e ↦ elim (Bool-cases (bytes_leb key k)) [
    | inl f ↦ rw (f, bytes_eq_refl key) refl
    | inr f ↦ rw (f, e) (lookup-insert_object key object objects (rw (e, lookup) at h))
  ]
]

lookup-insert_object_other :
    (key other : Text) (object : StoredObject) (objects : List (Text × StoredObject))
    → bytes_eq key other ≡ false
    → lookup other (insert_object key object objects) ≡ lookup other objects
unfolding lookup insert_object
lookup-insert_object_other key other object [] h = rw h refl
lookup-insert_object_other key other object ((k, o) ∷ objects) h =
    elim (Bool-cases (bytes_leb key k)) [
      | inl f ↦ rw (f, h) refl
      | inr f ↦ elim (Bool-cases (bytes_eq k other)) [
        | inl g ↦ rw (f, g) refl
        | inr g ↦ rw (f, g) (lookup-insert_object_other key other object objects h)
      ]
    ]

lookup-remove_object :
    (key : Text) (objects : List (Text × StoredObject))
    → lookup key (remove_object key objects) ≡ none
unfolding lookup remove_object
lookup-remove_object key [] = refl
lookup-remove_object key ((k, o) ∷ objects) = elim (Bool-cases (bytes_eq k key)) [
  | inl e ↦ rw e (lookup-remove_object key objects)
  | inr e ↦ rw e (rw e (lookup-remove_object key objects))
]

module _ (has_nanos : ℕ → Bool) (now : ℕ) where
  store_absent :
      (state : BackupState) (snapshot : EncryptedSnapshot)
      → lookup snapshot.object_key state.objects ≡ none
      → store has_nanos now state snapshot ≡ store_new has_nanos now state snapshot
  unfolding store
  store_absent state snapshot e = rw (e, store) refl

  store_present :
      (state : BackupState) (snapshot : EncryptedSnapshot) (existing : StoredObject)
      → lookup snapshot.object_key state.objects ≡ some existing
      → store has_nanos now state snapshot ≡ (
        if snapshot_eq existing.snapshot snapshot then ok existing.receipt else err conflict,
        state,
      )
  unfolding store
  store_present state snapshot existing e = rw (e, store) refl

snapshot_eq→eq : (a b : EncryptedSnapshot) → snapshot_eq a b ≡ true → a ≡ b
unfolding snapshot_eq
snapshot_eq→eq a b h =
    let key : a.object_key ≡ b.object_key = bytes_eq→eq a.object_key b.object_key (ground arith) in
    let text : a.ciphertext ≡ b.ciphertext = bytes_eq→eq a.ciphertext b.ciphertext (ground arith) in
    let sum : a.checksum ≡ b.checksum = bytes_eq→eq a.checksum b.checksum (ground arith) in
    let size : a.ciphertext_size ≡ b.ciphertext_size = ground arith in
    let format : a.encryption_format ≡ b.encryption_format =
      bytes_eq→eq a.encryption_format b.encryption_format (ground arith) in
    let meta : a.key_metadata ≡ b.key_metadata =
      bytes_eq→eq a.key_metadata b.key_metadata (ground arith) in
    let more : a.encryption_metadata ≡ b.encryption_metadata =
      bytes_eq→eq a.encryption_metadata b.encryption_metadata (ground arith) in
    cc

module _ (has_nanos : ℕ → Bool) (now : ℕ) (snapshot : EncryptedSnapshot) where
  -- The object is there, storing it again gives its receipt and changes nothing, another snapshot
  -- under its key conflicts, the other keys hold what they held, and removing it ends this.
  pub record IsStored (state : BackupState) (receipt : BackupReceipt) (after : BackupState)
      : Type 0 where
    pub loaded : load after snapshot.object_key ≡ ok snapshot
    pub again : store has_nanos now after snapshot ≡ (ok receipt, after)
    pub conflicts :
        (other : EncryptedSnapshot)
        → other.object_key ≡ snapshot.object_key
        → snapshot_eq snapshot other ≡ false
        → store has_nanos now after other ≡ (err conflict, after)
    pub others :
        (key : Text)
        → bytes_eq snapshot.object_key key ≡ false
        → lookup key after.objects ≡ lookup key state.objects
    pub removed : load (remove after snapshot.object_key) snapshot.object_key ≡ err not_found

  held-IsStored :
      (state : BackupState) (receipt : BackupReceipt) (after : BackupState)
      → lookup snapshot.object_key after.objects
        ≡ some (record { snapshot = snapshot; receipt = receipt })
      → ((key : Text)
          → bytes_eq snapshot.object_key key ≡ false
          → lookup key after.objects ≡ lookup key state.objects)
      → IsStored state receipt after
  unfolding load remove
  held-IsStored state receipt after e others = record {
    loaded = rw e refl;
    again =
        store_present has_nanos now after snapshot
          (record { snapshot = snapshot; receipt = receipt }) e
        ∙ rw (snapshot_eq_refl snapshot) refl;
    conflicts = λ other k differs.
        store_present has_nanos now after other (record { snapshot = snapshot; receipt = receipt })
          (rw k e)
        ∙ rw differs refl;
    others = others;
    removed = rw (lookup-remove_object snapshot.object_key after.objects) refl;
  }

  present-IsStored :
      (state : BackupState) (existing : StoredObject) (receipt : BackupReceipt)
      (after : BackupState)
      → lookup snapshot.object_key state.objects ≡ some existing
      → store has_nanos now state snapshot ≡ (ok receipt, after)
      → IsStored state receipt after
  present-IsStored state existing receipt after e run =
      let both = sym (store_present has_nanos now state snapshot existing e) ∙ run in
      elim (Bool-cases (snapshot_eq existing.snapshot snapshot)) [
        | inr f ↦ cc (ap (λ p. p.0) (rw f at both))
        | inl f ↦
            let same : existing.snapshot ≡ snapshot = snapshot_eq→eq existing.snapshot snapshot f in
            let held : existing.receipt ≡ receipt = ok-injective (ap (λ p. p.0) (rw f at both)) in
            let kept : state ≡ after = ap (λ p. p.1) both in
            let found : lookup snapshot.object_key state.objects
                ≡ some (record { snapshot = snapshot; receipt = receipt }) =
              e ∙ rw (same, held) refl in
            subst (IsStored state receipt) kept
              (held-IsStored state receipt state found (λ key h. refl))
      ]

  abbrev pub held_as : BackupReceipt → StoredObject
  held_as receipt = record { snapshot = snapshot; receipt = receipt }

  abbrev pub grown : BackupState → BackupReceipt → BackupState
  grown state receipt = record {
    objects = insert_object snapshot.object_key (held_as receipt) state.objects;
    next_provider_version = state.next_provider_version + 1;
  }

  new-IsStored :
      (state : BackupState) (receipt : BackupReceipt) (after : BackupState)
      → lookup snapshot.object_key state.objects ≡ none
      → store_new has_nanos now state snapshot ≡ (ok receipt, after)
      → IsStored state receipt after
  unfolding store_new
  new-IsStored state receipt after e run =
      elim (Bool-cases (state.next_provider_version == u64_max)) [
        | inl f ↦ cc (ap (λ p. p.0) (rw (f, store_new) at run))
        | inr f ↦
            elim (Result-cases (
              new_receipt has_nanos snapshot.object_key (version_text state.next_provider_version)
                snapshot.checksum now snapshot.ciphertext_size)) [
                  | inr (kind, g) ↦ cc (ap (λ p. p.0) (rw (f, g, store_new) at run))
                  | inl (made, g) ↦
                      let run' = rw (f, g, store_new) at run in
                      let same : made ≡ receipt = ok-injective (ap (λ p. p.0) run') in
                      let after_is : grown state made ≡ after = ap (λ p. p.1) run' in
                      subst (IsStored state receipt) after_is (
                        subst (λ r. IsStored state r (grown state made)) same
                          (held-IsStored state made (grown state made)
                            (lookup-insert_object snapshot.object_key (held_as made) state.objects
                              e)
                            (λ key h.
                              lookup-insert_object_other snapshot.object_key key (held_as made)
                                state.objects h)))
                ]
      ]

  -- What `store` accepts is stored: it can be loaded, storing it again gives the same receipt, another
  -- snapshot under its key conflicts, no other key changes, and removing it ends this.
  pub store-IsStored :
      (state : BackupState) (receipt : BackupReceipt) (after : BackupState)
      → store has_nanos now state snapshot ≡ (ok receipt, after)
      → IsStored state receipt after
  store-IsStored state receipt after run =
      elim (Option-cases (lookup snapshot.object_key state.objects)) [
        | inl e ↦
            new-IsStored state receipt after e
              (sym (store_absent has_nanos now state snapshot e) ∙ run)
        | inr (existing, e) ↦ present-IsStored state existing receipt after e run
      ]
