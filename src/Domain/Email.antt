-- ===== src/Domain/Email.antt =====
-- src/pa/domain.rs: `is_valid_email`, `ConfirmedEmail` and `CallerIdentity`.
pub mod Shape
use agent_voice.Common.{
  ℕ, Bool, true, false, not, ◌&&◌, ◌||◌, List, [], ◌∷◌, ◌==◌, if◌then◌else◌, all, any, Bytes,
  bytes_eq, codes, is_alphanumeric,
}
use agent_voice.Common.Results.{Result, ok, err, ◌>>=◌}
use agent_voice.Common.Split.{split}
use agent_voice.Common.Text.{Text, trim, is_whitespace, is_empty}
use agent_voice.Domain.Kinds.{DomainResult, invalid_email, unconfirmed_email, non_blank}

abbrev is_email_character : ℕ → Bool
is_email_character c =
    is_alphanumeric c || (c == b'@' || (c == b'.' || (c == b'_' || (c == b'-' || c == b'+'))))

unfoldable pub starts_with : ℕ → Text → Bool
starts_with c [] = false
starts_with c (x ∷ s) = x == c

unfoldable pub ends_with : ℕ → Text → Bool
ends_with c [] = false
ends_with c (x ∷ []) = x == c
ends_with c (x ∷ y ∷ s) = ends_with c (y ∷ s)

unfoldable pub contains : ℕ → Text → Bool
contains c s = any (λ x. x == c) s

-- The test of the local part and the domain.
unfoldable pub check_parts : Text → Text → Bool
unfolding starts_with ends_with contains
check_parts local domain =
    if (is_empty local || is_empty domain)
      || ((starts_with b'.' local || ends_with b'.' local)
          || ((starts_with b'.' domain || ends_with b'.' domain) || not (contains b'.' domain)))
    then false
    else not (any is_empty (split b'.' domain))

-- The parts between `@`: a missing one is empty, and a third one refuses the address.
unfoldable pub valid_parts : List Text → Bool
unfolding check_parts
valid_parts [] = check_parts [] []
valid_parts (local ∷ []) = check_parts local []
valid_parts (local ∷ domain ∷ []) = check_parts local domain
valid_parts (local ∷ domain ∷ third ∷ parts) = false

unfoldable pub is_valid_email : Text → Bool
unfolding trim is_whitespace valid_parts
is_valid_email value =
    if (is_empty value || not (bytes_eq (trim value) value))
      || (any is_whitespace value || not (all is_email_character value))
    then false
    else valid_parts (split b'@' value)

pub record ConfirmedEmail : Type 0 where
  pub value : Text
  pub confirmed : Bool

unfoldable pub confirm : Text → DomainResult ConfirmedEmail
confirm value =
    if not (is_valid_email value)
    then err invalid_email
    else ok (record { value = value; confirmed = true })

-- Whatever the input, it cannot attest a confirmation.
unfoldable pub deserialize_email : Text → DomainResult ConfirmedEmail
deserialize_email value = err unconfirmed_email

pub record CallerIdentity : Type 0 where
  pub name : Text
  pub email : ConfirmedEmail

unfoldable pub new_caller : Text → ConfirmedEmail → DomainResult CallerIdentity
new_caller name email = do
  name' ← non_blank name (codes "name")
  ok (record { name = name'; email = email })

-- The fields of `Wire` are deserialized first.
unfoldable pub deserialize_caller : Text → Text → DomainResult CallerIdentity
deserialize_caller name email = do email' ← deserialize_email email; new_caller name email'
