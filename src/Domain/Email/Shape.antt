-- ===== src/Domain/Email/Shape.antt =====
-- src/pa/domain.rs: the addresses that `is_valid_email` accepts.
use agent_voice.Common.{
  ◌≡◌, refl, sym, ap, ◌∙◌, true, false, List, [], ◌∷◌, ◌++◌, all, any, All, arith,
}
use agent_voice.Common.Split.{split, join}
use agent_voice.Common.Split.Parts.{LacksSeparator, split-LacksSeparator, join-split}
use agent_voice.Common.Text.{Text, is_empty}
use agent_voice.Domain.Email.{
  is_email_character, contains, check_parts, valid_parts, is_valid_email,
}

pub record IsAddress (value : Text) : Type 0 where
  pub local : Text
  pub domain : Text
  pub whole : value ≡ local ++ b'@' ∷ domain
  pub local_lacks_at : LacksSeparator b'@' local
  pub domain_lacks_at : LacksSeparator b'@' domain
  pub local_present : is_empty local ≡ false
  pub domain_dotted : contains b'.' domain ≡ true
  pub labels_present : any is_empty (split b'.' domain) ≡ false
  pub plain : all is_email_character value ≡ true

parts-IsAddress :
    (value : Text) (parts : List Text)
    → split b'@' value ≡ parts
    → All (LacksSeparator b'@') parts
    → all is_email_character value ≡ true
    → valid_parts parts ≡ true
    → IsAddress value
unfolding valid_parts check_parts join
parts-IsAddress value [] e lacks plain h = cc
parts-IsAddress value (local ∷ []) e lacks plain h = absurd (ground arith)
parts-IsAddress value (local ∷ domain ∷ []) e (local_lacks, (domain_lacks, _)) plain h = record {
  local = local;
  domain = domain;
  whole = sym (join-split b'@' value) ∙ ap (join (b'@' ∷ [])) e;
  local_lacks_at = local_lacks;
  domain_lacks_at = domain_lacks;
  local_present = ground arith;
  domain_dotted = ground arith;
  labels_present = ground arith;
  plain = plain;
}
parts-IsAddress value (local ∷ domain ∷ third ∷ parts) e lacks plain h = cc

-- A confirmed address has one `@`, a local part, a domain of at least two labels that are not
-- empty, and no other characters than letters, digits and `@ . _ - +`.
is_valid_email-IsAddress : (value : Text) → is_valid_email value ≡ true → IsAddress value
unfolding is_valid_email
is_valid_email-IsAddress value h =
    parts-IsAddress value (split b'@' value) refl (split-LacksSeparator b'@' value) (ground arith)
      (ground arith)
