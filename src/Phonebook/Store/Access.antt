-- ===== src/Phonebook/Store/Access.antt =====
-- src/phonebook.rs: `inbound_access_decision` and `seed_policy_entries`.
use agent_voice.Common.{
  ◌≡◌, ◌≢◌, ◌⊎◌, ◌↔◌, Bool, refl, sym, ap, ◌∙◌, true, false, not, Option, none, some, [], ◌∷◌,
  bytes_eq, bytes_eq→eq, Bool-cases, Option-cases, inl, inr, arith,
}
use agent_voice.Common.Assoc.{lookup, put, lookup-put, lookup-put_other}
use agent_voice.Common.Results.{some-injective}
use agent_voice.Common.Text.{Text}
use agent_voice.Phonebook.CallerId.{normalize_caller_id}
use agent_voice.Phonebook.CallerId.Keys.{IsKey, normalize_caller_id-IsKey}
use agent_voice.Phonebook.Entries.{CallerRecord, new_system_entry}
use agent_voice.Phonebook.Store.{
  PhoneBook, wildcard_caller_id, no_caller_id_policy_key, wildcard_entry, no_caller_id_entry,
  seed_entry, seed_policy_entries, exact, wildcard, no_caller_id, InboundPolicyMatch,
  InboundAccessDecision, is_enabled, decide_by_wildcard, decide, inbound_access_decision,
}

-- The record that decides: the one for calls without an ID, or the caller's own, or the wildcard when
-- the book has none under the caller's ID.
abbrev pub IsChosen : PhoneBook → Option Text → Text → InboundPolicyMatch → Type 0
IsChosen book none key policy = (key ≡ no_caller_id_policy_key) × (policy ≡ no_caller_id)
IsChosen book (some id) key policy =
    ((caller : CallerRecord) × ((lookup id book ≡ some caller) × ((key ≡ id) × (policy ≡ exact))))
    ⊎ ((lookup id book ≡ none) × ((key ≡ wildcard_caller_id) × (policy ≡ wildcard)))

-- The book has a record under the key, and it is not disabled.
abbrev pub HasEnabled : PhoneBook → Text → Type 0
HasEnabled book key =
    (caller : CallerRecord) × ((lookup key book ≡ some caller) × (caller.disabled ≡ false))

-- The decision names the record that decides, allows by that record alone, and tracks the allowed
-- calls that the caller's own record decides.
pub record IsDecision (book : PhoneBook) (raw : Text) (decision : InboundAccessDecision)
    : Type 0 where
  pub identified : decision.caller_id ≡ normalize_caller_id raw
  pub chosen :
      IsChosen book (normalize_caller_id raw) decision.matched_record_key decision.matched_policy
  pub permitted : (decision.allowed ≡ true) ↔ HasEnabled book decision.matched_record_key
  pub tracked :
      (decision.track_existing_caller ≡ true)
      ↔ ((decision.matched_policy ≡ exact) × (decision.allowed ≡ true))

enabled_of_not : (b : Bool) → not b ≡ true → b ≡ false
enabled_of_not true h = cc
enabled_of_not false h = refl

is_enabled_iff :
    (book : PhoneBook) (key : Text) (o : Option CallerRecord)
    → lookup key book ≡ o
    → (is_enabled o ≡ true) ↔ HasEnabled book key
unfolding is_enabled
is_enabled_iff book key none at = ((λ h. cc), λ (caller, (found, enabled)). cc)
is_enabled_iff book key (some caller) at = (
  λ h. (caller, (at, enabled_of_not caller.disabled h)),
  λ (other, (found, enabled)). rw (some-injective (sym at ∙ found), enabled) refl,
)

abbrev exact_decision : Text → CallerRecord → InboundAccessDecision
exact_decision id caller = record {
  caller_id = some id;
  allowed = not caller.disabled;
  matched_policy = exact;
  matched_record_key = id;
  track_existing_caller = not caller.disabled;
}

pub decide_exact :
    (book : PhoneBook) (id : Text) (caller : CallerRecord)
    → lookup id book ≡ some caller
    → decide book (some id) ≡ exact_decision id caller
unfolding decide
decide_exact book id caller e = rw (e, decide) refl

pub decide_absent :
    (book : PhoneBook) (id : Text)
    → lookup id book ≡ none
    → decide book (some id) ≡ decide_by_wildcard book id
unfolding decide
decide_absent book id e = rw (e, decide) refl

IsDecided : PhoneBook → Option Text → InboundAccessDecision → Type 0
IsDecided book caller_id decision =
    (decision.caller_id ≡ caller_id)
    × (IsChosen book caller_id decision.matched_record_key decision.matched_policy
        × (((decision.allowed ≡ true) ↔ HasEnabled book decision.matched_record_key)
            × ((decision.track_existing_caller ≡ true)
                ↔ ((decision.matched_policy ≡ exact) × (decision.allowed ≡ true)))))

decide-IsDecided :
    (book : PhoneBook) (caller_id : Option Text) → IsDecided book caller_id (decide book caller_id)
unfolding IsDecided decide decide_by_wildcard is_enabled
decide-IsDecided book none =
    let permitted = is_enabled_iff book no_caller_id_policy_key _ refl in
    (refl, ((refl, refl), (permitted, ((λ h. cc), λ (policy, _). cc))))
decide-IsDecided book (some id) = elim (Option-cases (lookup id book)) [
  | inl e ↦
      let permitted = is_enabled_iff book wildcard_caller_id _ refl in
      rw (decide_absent book id e)
        (refl, (inr (e, (refl, refl)), (permitted, ((λ h. cc), λ (policy, _). cc))))
  | inr (caller, e) ↦
      let permitted = is_enabled_iff book id (some caller) e in
      rw (decide_exact book id caller e) (
        refl,
        (inl (caller, (e, (refl, refl))), (permitted, ((λ h. (refl, h)), λ (_, allowed). allowed))),
      )
]

-- A call without an ID is decided by the policy record for such calls, a caller who has a record in
-- the book by that record, and any other caller by the wildcard record; the call is allowed exactly
-- when the book has that record and it is not disabled, and tracked exactly when it is allowed by the
-- caller's own record.
pub inbound_access_decision-IsDecision :
    (book : PhoneBook) (raw : Text) → IsDecision book raw (inbound_access_decision book raw)
unfolding inbound_access_decision IsDecided
inbound_access_decision-IsDecision book raw =
    let (identified, (chosen, (permitted, tracked))) =
      decide-IsDecided book (normalize_caller_id raw) in
    record { identified = identified; chosen = chosen; permitted = permitted; tracked = tracked }

module _ (key : Text) (entry : CallerRecord) (closed : entry.disabled ≡ true) where
  seed_added :
      (book : PhoneBook)
      → lookup key book ≡ none
      → seed_entry key entry book ≡ (true, put key entry book)
  unfolding seed_entry
  seed_added book e = rw (e, seed_entry) refl

  seed_kept :
      (book : PhoneBook) (caller : CallerRecord)
      → lookup key book ≡ some caller
      → seed_entry key entry book ≡ (false, book)
  unfolding seed_entry
  seed_kept book caller e = rw (e, seed_entry) refl

  seed_entry-enabled :
      (book : PhoneBook) (other : Text)
      → is_enabled (lookup other (seed_entry key entry book).1) ≡ is_enabled (lookup other book)
  unfolding is_enabled
  seed_entry-enabled book other = elim (Option-cases (lookup key book)) [
    | inl e ↦ elim (Bool-cases (bytes_eq key other)) [
      | inl f ↦
          rw (seed_added book e, ← bytes_eq→eq key other f, lookup-put key entry book, e, closed)
            refl
      | inr f ↦ rw (seed_added book e, lookup-put_other key other entry book f) refl
    ]
    | inr (caller, e) ↦ rw (seed_kept book caller e) refl
  ]

  seed_entry-other :
      (book : PhoneBook) (other : Text)
      → bytes_eq key other ≡ false
      → lookup other (seed_entry key entry book).1 ≡ lookup other book
  seed_entry-other book other f = elim (Option-cases (lookup key book)) [
    | inl e ↦ rw (seed_added book e) (lookup-put_other key other entry book f)
    | inr (caller, e) ↦ rw (seed_kept book caller e) refl
  ]

module _ (now : Text) (book : PhoneBook) where
  abbrev seeded : PhoneBook
  seeded = (seed_policy_entries now book).1

  seeded-enabled : (key : Text) → is_enabled (lookup key seeded) ≡ is_enabled (lookup key book)
  unfolding seed_policy_entries new_system_entry
  seeded-enabled key =
      seed_entry-enabled no_caller_id_policy_key (no_caller_id_entry now) refl
        (seed_entry wildcard_caller_id (wildcard_entry now) book).1 key
      ∙ seed_entry-enabled wildcard_caller_id (wildcard_entry now) refl book key

  seeded-other :
      (key : Text)
      → bytes_eq wildcard_caller_id key ≡ false
      → bytes_eq no_caller_id_policy_key key ≡ false
      → lookup key seeded ≡ lookup key book
  unfolding seed_policy_entries new_system_entry
  seeded-other key w n =
      seed_entry-other no_caller_id_policy_key (no_caller_id_entry now) refl
        (seed_entry wildcard_caller_id (wildcard_entry now) book).1 key n
      ∙ seed_entry-other wildcard_caller_id (wildcard_entry now) refl book key w

  decide-seeded :
      (id : Text)
      → bytes_eq wildcard_caller_id id ≡ false
      → bytes_eq no_caller_id_policy_key id ≡ false
      → (decide seeded (some id)).allowed ≡ (decide book (some id)).allowed
  unfolding decide_by_wildcard
  decide-seeded id w n = elim (Option-cases (lookup id book)) [
    | inl e ↦
        rw (decide_absent book id e, decide_absent seeded id (seeded-other id w n ∙ e))
          (seeded-enabled wildcard_caller_id)
    | inr (caller, e) ↦
        rw (decide_exact book id caller e, decide_exact seeded id caller (seeded-other id w n ∙ e))
          refl
  ]

key_ne_wildcard : (id : Text) → IsKey id → bytes_eq wildcard_caller_id id ≡ false
unfolding bytes_eq
key_ne_wildcard [] k = refl
key_ne_wildcard (c ∷ id) k = let plain = k.plain in ground arith

nobody :
    (now : Text) (book : PhoneBook)
    → (decide (seeded now book) none).allowed ≡ (decide book none).allowed
unfolding decide
nobody now book = seeded-enabled now book no_caller_id_policy_key

ne_policy_key :
    (raw id : Text)
    → normalize_caller_id raw ≢ some no_caller_id_policy_key
    → normalize_caller_id raw ≡ some id
    → bytes_eq no_caller_id_policy_key id ≡ false
ne_policy_key raw id h e = elim (Bool-cases (bytes_eq no_caller_id_policy_key id)) [
  | inl f ↦ absurd (h (e ∙ ap some (sym (bytes_eq→eq no_caller_id_policy_key id f))))
  | inr f ↦ f
]

-- Adding the missing policy records changes for no call whether it is allowed, except for a caller
-- whose ID spells the key of the policy for calls without one.
pub inbound_access_decision-seed_policy_entries :
    (now : Text) (book : PhoneBook) (raw : Text)
    → normalize_caller_id raw ≢ some no_caller_id_policy_key
    → (inbound_access_decision (seed_policy_entries now book).1 raw).allowed
      ≡ (inbound_access_decision book raw).allowed
unfolding inbound_access_decision
inbound_access_decision-seed_policy_entries now book raw h =
    elim (Option-cases (normalize_caller_id raw)) [
      | inl e ↦ rw e (nobody now book)
      | inr (id, e) ↦ rw e (
          decide-seeded now book id (key_ne_wildcard id (normalize_caller_id-IsKey raw id e))
            (ne_policy_key raw id h e))
    ]
