-- ===== src/Phonebook/CallerId.antt =====
-- src/phonebook.rs: `normalize_caller_id`, `caller_id_display` and the email candidates. Texts are
-- lists of Unicode scalar values.
pub mod Keys
use agent_voice.Common.{
  ℕ, Bool, true, false, not, ◌&&◌, ◌||◌, Option, none, some, List, [], ◌∷◌, map, ◌==◌,
  if◌then◌else◌, any, all, drop, retain, bytes_eq, codes, is_alphanumeric, to_lower,
}
use agent_voice.Common.Split.{split}
use agent_voice.Common.Text.{Text, trim, is_empty}

-- `str::trim_matches`
unfoldable pub trim_start_matches : (ℕ → Bool) → Text → Text
trim_start_matches p [] = []
trim_start_matches p (c ∷ s) = let rest = trim_start_matches p s in if p c then rest else c ∷ s

unfoldable pub trim_end_matches : (ℕ → Bool) → Text → Text
trim_end_matches p [] = []
trim_end_matches p (c ∷ s) =
    let rest = trim_end_matches p s in if is_empty rest && p c then [] else c ∷ rest

unfoldable pub trim_matches : (ℕ → Bool) → Text → Text
unfolding trim_start_matches trim_end_matches
trim_matches p s = trim_end_matches p (trim_start_matches p s)

-- `str::starts_with`
unfoldable pub has_prefix : Text → Text → Bool
has_prefix [] s = true
has_prefix (c ∷ prefix) [] = false
has_prefix (c ∷ prefix) (d ∷ s) = (c == d) && has_prefix prefix s

-- What `split(..).next()` gives for the separators of the test.
unfoldable pub before_first : (ℕ → Bool) → Text → Text
before_first p [] = []
before_first p (c ∷ s) = let rest = before_first p s in if p c then [] else c ∷ rest

abbrev is_quote : ℕ → Bool
is_quote c = c == b'<' || (c == b'>' || (c == b'"' || c == b'\''))

abbrev is_withheld : Text → Bool
is_withheld lowered =
    bytes_eq lowered (codes "anonymous")
    || (bytes_eq lowered (codes "unknown")
        || (bytes_eq lowered (codes "unavailable")
            || (bytes_eq lowered (codes "private") || bytes_eq lowered (codes "restricted"))))

-- Lowering ASCII letters keeps the length, so the rest starts behind the scheme.
unfoldable pub without_scheme : Text → Text
unfolding has_prefix
without_scheme trimmed =
    if has_prefix (codes "sip:") (map to_lower trimmed)
    then drop 4 trimmed
    else if has_prefix (codes "sips:") (map to_lower trimmed)
    then drop 5 trimmed
    else if has_prefix (codes "tel:") (map to_lower trimmed)
    then drop 4 trimmed
    else trimmed

abbrev is_key_character : ℕ → Bool
is_key_character c = is_alphanumeric c || (c == b'+' || (c == b'-' || (c == b'_' || c == b'.')))

unfoldable pub user_part : Text → Text
unfolding without_scheme before_first trim
user_part trimmed = trim (
    before_first (λ c. c == b'@')
      (before_first (λ c. c == b';' || c == b'?') (without_scheme trimmed)))

unfoldable pub some_unless_empty : Text → Option Text
some_unless_empty [] = none
some_unless_empty (c ∷ s) = some (c ∷ s)

unfoldable pub normalize_caller_id : Text → Option Text
unfolding trim_matches user_part some_unless_empty trim
normalize_caller_id raw =
    let trimmed = trim_matches is_quote (trim raw) in
    if is_empty trimmed
    then none
    else if is_withheld (map to_lower trimmed)
    then none
    else if is_empty (user_part trimmed)
    then none
    else some_unless_empty (retain is_key_character (user_part trimmed))

abbrev no_caller_id_display : Text
no_caller_id_display = codes "no-caller-id"

unfoldable pub caller_id_display : Text → Text
caller_id_display raw = elim (normalize_caller_id raw) [
  | none ↦ no_caller_id_display
  | some id ↦ id
]

abbrev is_address_quote : ℕ → Bool
is_address_quote c =
    c == b'"' || (c == b'\'' || (c == b'.' || (c == b',' || (c == b';' || c == b':'))))

unfoldable pub starts_with : ℕ → Text → Bool
starts_with c [] = false
starts_with c (x ∷ s) = x == c

unfoldable pub ends_with : ℕ → Text → Bool
ends_with c [] = false
ends_with c (x ∷ []) = x == c
ends_with c (x ∷ y ∷ s) = ends_with c (y ∷ s)

-- The parts between `@`: a missing one is empty, and a third one refuses the address.
email_parts : List Text → Bool
unfolding starts_with ends_with
email_parts [] = false
email_parts (local ∷ []) = false
email_parts (local ∷ domain ∷ []) =
    (not (is_empty local) && any (λ c. c == b'.') domain)
    && (not (starts_with b'.' domain) && not (ends_with b'.' domain))
email_parts (local ∷ domain ∷ third ∷ parts) = false

abbrev is_address_character : ℕ → Bool
is_address_character c =
    is_alphanumeric c || (c == b'@' || (c == b'.' || (c == b'_' || (c == b'-' || c == b'+'))))

looks_like_email : Text → Bool
unfolding email_parts
looks_like_email value = email_parts (split b'@' value) && all is_address_character value

unfoldable pub normalize_email_candidate : Text → Option Text
unfolding trim_matches looks_like_email trim
normalize_email_candidate value =
    let normalized = map to_lower (trim_matches is_address_quote (trim value)) in
    if looks_like_email normalized then some normalized else none
