-- ===== src/Phonebook/Store/Updates.antt =====
-- src/phonebook.rs: `touch_caller` and `merge_update` on the whole book.
use agent_voice.Common.{
  ◌≡◌, refl, ◌∙◌, Bool, true, false, Option, none, some, bytes_eq, bytes_eq→eq, Bool-cases,
  Option-cases, inl, inr,
}
use agent_voice.Common.Results.{ok}
use agent_voice.Common.Assoc.{lookup, put, lookup-put, lookup-put_other}
use agent_voice.Common.Text.{Text}
use agent_voice.Phonebook.CallerId.{normalize_caller_id}
use agent_voice.Phonebook.Entries.{CallerRecord, CallerUpdate, new_record, merged}
use agent_voice.Phonebook.Store.{
  PhoneBook, wildcard_caller_id, no_caller_id_policy_key, entry_or, is_enabled, decide,
  decide_by_wildcard, inbound_access_decision, touched, touch_caller, merge_update,
}
use agent_voice.Phonebook.Store.Access.{
  decide_exact, decide_absent, inbound_access_decision-IsDecision,
}

-- The record under the key is replaced by one that is as enabled as it.
module _ (book : PhoneBook) (key : Text) (caller after : CallerRecord)
    (found : lookup key book ≡ some caller) (same : after.disabled ≡ caller.disabled) where
  enabled_same :
      (other : Text)
      → is_enabled (lookup other (put key after book)) ≡ is_enabled (lookup other book)
  unfolding is_enabled
  enabled_same other = elim (Bool-cases (bytes_eq key other)) [
    | inl f ↦ rw (← bytes_eq→eq key other f, lookup-put key after book, found, same) refl
    | inr f ↦ rw (lookup-put_other key other after book f) refl
  ]

  decide_same :
      (caller_id : Option Text)
      → (decide (put key after book) caller_id).allowed ≡ (decide book caller_id).allowed
  unfolding decide decide_by_wildcard
  decide_same none = enabled_same no_caller_id_policy_key
  decide_same (some id) = elim (Bool-cases (bytes_eq key id)) [
    | inl f ↦
        rw
          (
            ← bytes_eq→eq key id f,
            decide_exact book key caller found,
            decide_exact (put key after book) key after (lookup-put key after book),
            same,
          )
          refl
    | inr f ↦ elim (Option-cases (lookup id book)) [
      | inl e ↦
          rw
            (
              decide_absent book id e,
              decide_absent (put key after book) id (lookup-put_other key id after book f ∙ e),
            )
            (enabled_same wildcard_caller_id)
      | inr (other, e) ↦
          rw
            (
              decide_exact book id other e,
              decide_exact (put key after book) id other (lookup-put_other key id after book f ∙ e),
            )
            refl
    ]
  ]

entry_found :
    (book : PhoneBook) (key : Text) (default caller : CallerRecord)
    → lookup key book ≡ some caller
    → entry_or key default book ≡ caller
unfolding entry_or
entry_found book key default caller e = rw (e, entry_or) refl

-- After a call that is to be tracked is counted, every call is allowed or not as before, whether or
-- not the file could be written.
pub touch_caller_tracked :
    (persist : PhoneBook → Bool) (book : PhoneBook) (raw now other : Text)
    → (inbound_access_decision book raw).track_existing_caller ≡ true
    → (inbound_access_decision
        (touch_caller persist book (inbound_access_decision book raw).matched_record_key now).1
        other).allowed
      ≡ (inbound_access_decision book other).allowed
unfolding touch_caller inbound_access_decision touched
touch_caller_tracked persist book raw now other h =
    let decision = inbound_access_decision book raw in
    let checked = inbound_access_decision-IsDecision book raw in
    let (_, allowed) = checked.tracked.0 h in
    let (caller, (found, _)) = checked.permitted.0 allowed in
    rw
      (entry_found book decision.matched_record_key (new_record decision.matched_record_key now)
        caller found)
      (decide_same book decision.matched_record_key caller (touched caller now) found refl
        (normalize_caller_id other))

-- The book holds the record under the key, and under other keys what it held.
pub record ChangesOne (book after : PhoneBook) (key : Text) (caller : CallerRecord) : Type 0 where
  pub stored : lookup key after ≡ some caller
  pub others : (other : Text) → bytes_eq key other ≡ false → lookup other after ≡ lookup other book

put-ChangesOne :
    (book : PhoneBook) (key : Text) (caller : CallerRecord)
    → ChangesOne book (put key caller book) key caller
put-ChangesOne book key caller = record {
  stored = lookup-put key caller book;
  others = λ other h. lookup-put_other key other caller book h;
}

-- An update that is merged changes the record of its caller alone, a new one if there was none, and
-- gives it when the file could be written.
merge_update-ChangesOne :
    (persist : PhoneBook → Bool) (book : PhoneBook) (key : Text) (update : CallerUpdate)
    (now later : Text)
    → (snapshot : CallerRecord) × (ChangesOne book
          (merge_update persist book key update now later).1
          key
          snapshot
        × (persist (merge_update persist book key update now later).1 ≡ true
            → (merge_update persist book key update now later).0 ≡ ok snapshot))
unfolding merge_update
merge_update-ChangesOne persist book key update now later =
    let snapshot = merged (entry_or key (new_record key now) book) update later in
    (snapshot, (put-ChangesOne book key snapshot, λ h. rw h refl))
