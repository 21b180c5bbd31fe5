-- ===== src/Phonebook/Entries.antt =====
-- src/phonebook.rs: `CallerRecord`, `CallerUpdate` and what is merged into a record.
pub mod Notes
use agent_voice.Common.{
  ℕ, ◌+◌, Bool, true, false, not, ◌&&◌, ◌||◌, Option, none, some, List, [], ◌∷◌, ◌++◌, map,
  if◌then◌else◌, any, retain, bytes_eq, codes, to_lower,
}
use agent_voice.Common.Text.{Text, trim, is_empty}
use agent_voice.Phonebook.CallerId.{has_prefix}

pub record CallerRecord : Type 0 where
  pub caller_id : Text
  pub first_seen_at : Text
  pub last_seen_at : Text
  pub call_count : ℕ
  pub disabled : Bool
  pub system_entry : Bool
  pub first_name : Option Text
  pub last_name : Option Text
  pub email : Option Text
  pub company : Option Text
  pub timezone : Option Text
  pub preferred_language : Option Text
  pub notes : List Text

pub record CallerUpdate : Type 0 where
  pub first_name : Option Text
  pub last_name : Option Text
  pub email : Option Text
  pub company : Option Text
  pub timezone : Option Text
  pub preferred_language : Option Text
  pub notes : List Text

unfoldable pub new_record : Text → Text → CallerRecord
new_record caller_id now = record {
  caller_id = caller_id;
  first_seen_at = now;
  last_seen_at = now;
  call_count = 0;
  disabled = false;
  system_entry = false;
  first_name = none;
  last_name = none;
  email = none;
  company = none;
  timezone = none;
  preferred_language = none;
  notes = [];
}

unfoldable pub new_system_entry : Text → Text → Bool → List Text → CallerRecord
new_system_entry caller_id now disabled notes = record {
  caller_id = caller_id;
  first_seen_at = now;
  last_seen_at = now;
  call_count = 0;
  disabled = disabled;
  system_entry = true;
  first_name = none;
  last_name = none;
  email = none;
  company = none;
  timezone = none;
  preferred_language = none;
  notes = notes;
}

abbrev name_if_none : Option Text → Text → List Text
name_if_none none name = name ∷ []
name_if_none (some value) name = []

unfoldable pub missing_fields : CallerRecord → List Text
missing_fields caller =
    name_if_none caller.first_name (codes "first_name")
    ++ (name_if_none caller.last_name (codes "last_name")
        ++ (name_if_none caller.email (codes "email")
            ++ name_if_none caller.company (codes "company")))

-- `str::contains`
unfoldable pub has_infix : Text → Text → Bool
has_infix part [] = is_empty part
has_infix part (c ∷ s) = has_prefix part (c ∷ s) || has_infix part s

unfoldable pub note_mentions_language : Text → Bool
note_mentions_language note =
    let normalized = map to_lower note in
    (has_infix (codes " language") normalized || has_prefix (codes "language ") normalized)
    || (has_infix (codes "speaks ") normalized
        || (has_infix (codes "spoke ") normalized || has_infix (codes "used ") normalized))

-- The notes that `sanitize` leaves.
unfoldable pub sanitized : List Text → List Text
sanitized notes = retain (λ note. not (note_mentions_language note)) notes

unfoldable pub merge_option : Option Text → Option Text → Option Text
merge_option target none = target
merge_option target (some value) = if not (is_empty (trim value)) then some (trim value) else target

-- `str::eq_ignore_ascii_case`
abbrev eq_ignore_case : Text → Text → Bool
eq_ignore_case a b = bytes_eq (map to_lower a) (map to_lower b)

-- One round of the loop.
merge_note : List Text → Text → List Text
merge_note target note =
    if is_empty (trim note)
    then target
    else if not (any (λ existing. eq_ignore_case existing (trim note)) target)
    then target ++ trim note ∷ []
    else target

pub merge_notes : List Text → List Text → List Text
merge_notes target [] = target
merge_notes target (note ∷ notes) = merge_notes (merge_note target note) notes

-- The lines of `merge_update` on the record.
unfoldable pub merged : CallerRecord → CallerUpdate → Text → CallerRecord
merged caller update now = record {
  caller_id = caller.caller_id;
  first_seen_at = caller.first_seen_at;
  last_seen_at = now;
  call_count = caller.call_count;
  disabled = caller.disabled;
  system_entry = caller.system_entry;
  first_name = merge_option caller.first_name update.first_name;
  last_name = merge_option caller.last_name update.last_name;
  email =
      merge_option caller.email
        (elim update.email [ none ↦ none | some value ↦ some (map to_lower value) ]);
  company = merge_option caller.company update.company;
  timezone = merge_option caller.timezone update.timezone;
  preferred_language = merge_option caller.preferred_language update.preferred_language;
  notes = sanitized (merge_notes caller.notes update.notes);
}
