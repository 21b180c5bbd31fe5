-- ===== src/Phonebook/Examples.antt =====
-- Runs of phonebook.rs.
use agent_voice.Common.{◌≡◌, ◌≢◌, refl, sym, ap, ◌∙◌, true, none, some, [], ◌∷◌, bytes_eq, codes}
use agent_voice.Common.Results.{some-injective}
use agent_voice.Common.Assoc.{lookup}
use agent_voice.Common.Text.{Text, trim, trim_start, trim_end, is_whitespace}
use agent_voice.Phonebook.CallerId.{
  normalize_caller_id, trim_matches, trim_start_matches, trim_end_matches, user_part,
  without_scheme, has_prefix, before_first, some_unless_empty,
}
use agent_voice.Phonebook.Entries.{
  CallerUpdate, new_record, sanitized, note_mentions_language, has_infix,
}
use agent_voice.Phonebook.Store.{
  PhoneBook, no_caller_id_policy_key, seed_policy_entries, inbound_access_decision, decide,
  touch_caller,
}
use agent_voice.Phonebook.Store.Access.{
  IsDecision, inbound_access_decision-IsDecision, inbound_access_decision-seed_policy_entries,
}
use agent_voice.Phonebook.Store.Updates.{touch_caller_tracked}

sip_run : normalize_caller_id (codes "\"<sip:+61-415@pbx.example;tag=1>") ≡ some (codes "+61-415")
unfolding normalize_caller_id trim trim_start trim_end is_whitespace trim_matches trim_start_matches
    trim_end_matches user_part without_scheme has_prefix before_first some_unless_empty bytes_eq
sip_run = refl

withheld_run : normalize_caller_id (codes " Anonymous ") ≡ none
unfolding normalize_caller_id trim trim_start trim_end is_whitespace trim_matches trim_start_matches
    trim_end_matches bytes_eq
withheld_run = refl

-- The withheld names are looked for before the scheme is taken off.
withheld_uri_run :
    normalize_caller_id (codes "sip:anonymous@anonymous.invalid") ≡ some (codes "anonymous")
unfolding normalize_caller_id trim trim_start trim_end is_whitespace trim_matches trim_start_matches
    trim_end_matches user_part without_scheme has_prefix before_first some_unless_empty bytes_eq
withheld_uri_run = refl

-- A caller ID can spell the key of the policy for calls without one.
policy_key_run :
    normalize_caller_id (codes "sip:__no_caller_id__@host") ≡ some no_caller_id_policy_key
unfolding normalize_caller_id trim trim_start trim_end is_whitespace trim_matches trim_start_matches
    trim_end_matches user_part without_scheme has_prefix before_first some_unless_empty bytes_eq
policy_key_run = refl

abbrev known : Text
known = codes "61415"

abbrev now : Text
now = codes "2026-01-01T00:00:00Z"

abbrev book : PhoneBook
book = (known, new_record known now) ∷ []

inbound_access_decision-IsDecision_example :
    IsDecision book known (inbound_access_decision book known)
inbound_access_decision-IsDecision_example = inbound_access_decision-IsDecision book known

known_run : normalize_caller_id known ≡ some known
unfolding normalize_caller_id trim trim_start trim_end is_whitespace trim_matches trim_start_matches
    trim_end_matches user_part without_scheme has_prefix before_first some_unless_empty bytes_eq
known_run = refl

not_policy_key : normalize_caller_id known ≢ some no_caller_id_policy_key
unfolding bytes_eq
not_policy_key h = cc (ap (bytes_eq known) (some-injective (sym known_run ∙ h)))

inbound_access_decision-seed_policy_entries_example :
    (inbound_access_decision (seed_policy_entries now book).1 known).allowed
    ≡ (inbound_access_decision book known).allowed
inbound_access_decision-seed_policy_entries_example =
    inbound_access_decision-seed_policy_entries now book known not_policy_key

tracked_run : (inbound_access_decision book known).track_existing_caller ≡ true
unfolding inbound_access_decision decide lookup new_record normalize_caller_id trim trim_start
    trim_end is_whitespace trim_matches trim_start_matches trim_end_matches user_part without_scheme
    has_prefix before_first some_unless_empty bytes_eq
tracked_run = refl

touch_caller_tracked_example :
    (inbound_access_decision
      (touch_caller
        (λ written. true)
        book
        (inbound_access_decision book known).matched_record_key
        now).1
      (codes "sip:ann@host")).allowed
    ≡ (inbound_access_decision book (codes "sip:ann@host")).allowed
touch_caller_tracked_example =
    touch_caller_tracked (λ written. true) book known now (codes "sip:ann@host") tracked_run

abbrev update : CallerUpdate
update = record {
  first_name = some (codes " Dave ");
  last_name = none;
  email = some (codes "Dave@Example.com");
  company = none;
  timezone = none;
  preferred_language = none;
  notes = codes "Likes tea" ∷ codes "speaks French" ∷ [];
}

notes_run : sanitized (codes "Likes tea" ∷ codes "Speaks French" ∷ []) ≡ codes "Likes tea" ∷ []
unfolding sanitized note_mentions_language has_infix has_prefix
notes_run = refl
