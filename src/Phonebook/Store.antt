-- ===== src/Phonebook/Store.antt =====
-- src/phonebook.rs: `PhoneBookStore`. The callers are a map under its lock; the instants are those of
-- `now_rfc3339`, and `persist` tells whether writing the file succeeds.
pub mod Access
pub mod Updates
use agent_voice.Common.{
  ℕ, ◌+◌, ◌%◌, ◌^◌, Bool, true, false, not, Option, none, some, List, [], ◌∷◌, map, if◌then◌else◌,
  codes,
}
use agent_voice.Common.Results.{Result, ok, err}
use agent_voice.Common.Assoc.{lookup, put}
use agent_voice.Common.Text.{Text}
use agent_voice.Phonebook.CallerId.{normalize_caller_id}
use agent_voice.Phonebook.Entries.{
  CallerRecord, CallerUpdate, new_record, new_system_entry, sanitized, merged,
}

abbrev pub PhoneBook : Type 0
PhoneBook = List (Text × CallerRecord)

abbrev wildcard_caller_id : Text
wildcard_caller_id = codes "*"

abbrev pub no_caller_id_policy_key : Text
no_caller_id_policy_key = codes "__no_caller_id__"

-- `entry(key).or_insert_with(default)`
pub entry_or : Text → CallerRecord → PhoneBook → CallerRecord
entry_or key default book = elim (lookup key book) [ none ↦ default | some caller ↦ caller ]

abbrev denies_by_default : Text
denies_by_default = codes "Disabled by default to enforce deny-by-default inbound access."

abbrev wildcard_entry : Text → CallerRecord
wildcard_entry now = new_system_entry wildcard_caller_id now true (
    codes
      "System policy entry for callers that do present caller ID but do not have an exact record."
    ∷ denies_by_default
    ∷ [])

abbrev no_caller_id_entry : Text → CallerRecord
no_caller_id_entry now = new_system_entry no_caller_id_policy_key now true (
    codes "System policy entry for callers that do not present caller ID." ∷ denies_by_default ∷ [])

-- One entry of the seed: whether it was added, and the book with it.
pub seed_entry : Text → CallerRecord → PhoneBook → Bool × PhoneBook
seed_entry key entry book = elim (lookup key book) [
  | none ↦ (true, put key entry book)
  | some caller ↦ (false, book)
]

unfoldable pub seed_policy_entries : Text → PhoneBook → Bool × PhoneBook
seed_policy_entries now book =
    let (wildcard_added, book') = seed_entry wildcard_caller_id (wildcard_entry now) book in
    let (no_caller_id_added, seeded) =
      seed_entry no_caller_id_policy_key (no_caller_id_entry now) book' in
    (if wildcard_added then true else no_caller_id_added, seeded)

pub data InboundPolicyMatch : Type 0 where
  exact : InboundPolicyMatch
  wildcard : InboundPolicyMatch
  no_caller_id : InboundPolicyMatch

pub record InboundAccessDecision : Type 0 where
  pub caller_id : Option Text
  pub allowed : Bool
  pub matched_policy : InboundPolicyMatch
  pub matched_record_key : Text
  pub track_existing_caller : Bool

-- `map(|record| !record.disabled).unwrap_or(false)`
pub is_enabled : Option CallerRecord → Bool
is_enabled none = false
is_enabled (some caller) = not caller.disabled

-- The decision for a caller ID without a record of its own.
pub decide_by_wildcard : PhoneBook → Text → InboundAccessDecision
decide_by_wildcard book caller_id = record {
  caller_id = some caller_id;
  allowed = is_enabled (lookup wildcard_caller_id book);
  matched_policy = wildcard;
  matched_record_key = wildcard_caller_id;
  track_existing_caller = false;
}

unfoldable pub decide : PhoneBook → Option Text → InboundAccessDecision
decide book none = record {
  caller_id = none;
  allowed = is_enabled (lookup no_caller_id_policy_key book);
  matched_policy = no_caller_id;
  matched_record_key = no_caller_id_policy_key;
  track_existing_caller = false;
}
decide book (some caller_id) = elim (lookup caller_id book) [
  | none ↦ decide_by_wildcard book caller_id
  | some caller ↦ record {
    caller_id = some caller_id;
    allowed = not caller.disabled;
    matched_policy = exact;
    matched_record_key = caller_id;
    track_existing_caller = not caller.disabled;
  }
]

unfoldable pub inbound_access_decision : PhoneBook → Text → InboundAccessDecision
inbound_access_decision book raw_caller_id = decide book (normalize_caller_id raw_caller_id)

-- A failure of `persist` is reported after the change of the book.
pub data PersistError : Type 0 where
  persist_failed : PersistError

abbrev reported :
    (PhoneBook → Bool) → PhoneBook → CallerRecord → Result PersistError CallerRecord × PhoneBook
reported persist book snapshot = (if persist book then ok snapshot else err persist_failed, book)

-- `caller.call_count += 1` on `u64`, as a release build wraps it.
pub touched : CallerRecord → Text → CallerRecord
touched caller now = record {
  caller_id = caller.caller_id;
  first_seen_at = caller.first_seen_at;
  last_seen_at = now;
  call_count = (caller.call_count + 1) % 2 ^ 64;
  disabled = caller.disabled;
  system_entry = caller.system_entry;
  first_name = caller.first_name;
  last_name = caller.last_name;
  email = caller.email;
  company = caller.company;
  timezone = caller.timezone;
  preferred_language = caller.preferred_language;
  notes = caller.notes;
}

unfoldable pub touch_caller :
    (PhoneBook → Bool) → PhoneBook → Text → Text → Result PersistError CallerRecord × PhoneBook
touch_caller persist book caller_id now =
    let caller = touched (entry_or caller_id (new_record caller_id now) book) now in
    reported persist (put caller_id caller book) caller

-- `now` is read for a new record and again at the end.
pub merge_update :
    (PhoneBook → Bool)
    → PhoneBook
    → Text
    → CallerUpdate
    → Text
    → Text
    → Result PersistError CallerRecord × PhoneBook
merge_update persist book caller_id update now later =
    let caller = merged (entry_or caller_id (new_record caller_id now) book) update later in
    reported persist (put caller_id caller book) caller

-- `PhoneBookStore::get`: system entries are not callers.
unfoldable pub get : PhoneBook → Text → Option CallerRecord
get book caller_id = elim (lookup caller_id book) [
  | none ↦ none
  | some caller ↦ if not caller.system_entry then some caller else none
]

abbrev sanitize : CallerRecord → CallerRecord
sanitize caller = record {
  caller_id = caller.caller_id;
  first_seen_at = caller.first_seen_at;
  last_seen_at = caller.last_seen_at;
  call_count = caller.call_count;
  disabled = caller.disabled;
  system_entry = caller.system_entry;
  first_name = caller.first_name;
  last_name = caller.last_name;
  email = caller.email;
  company = caller.company;
  timezone = caller.timezone;
  preferred_language = caller.preferred_language;
  notes = sanitized caller.notes;
}

unfoldable pub sanitize_phone_book : PhoneBook → PhoneBook
sanitize_phone_book book = map (λ (key, caller). (key, sanitize caller)) book

-- What `load` makes of the document that it read, or of an empty one.
unfoldable pub loaded : Text → PhoneBook → PhoneBook
loaded now document = sanitize_phone_book (seed_policy_entries now document).1
