-- ===== src/Fakes/Errors.antt =====
-- src/pa/providers.rs: `ProviderError`. A retry delay is its nanoseconds.
use agent_voice.Common.{ℕ}
use agent_voice.Common.Results.{Result}

pub data ProviderInputField : Type 0 where
  account_id : ProviderInputField
  access_token : ProviderInputField
  source_id : ProviderInputField
  item_id : ProviderInputField
  next_cursor : ProviderInputField
  time_range : ProviderInputField
  retry_after : ProviderInputField
  email_address : ProviderInputField
  subject : ProviderInputField
  operation_key : ProviderInputField
  label : ProviderInputField
  limit : ProviderInputField
  received_at : ProviderInputField
  sent_at : ProviderInputField
  title : ProviderInputField
  task_duration : ProviderInputField
  due_at : ProviderInputField
  event_id : ProviderInputField
  timezone : ProviderInputField
  last_modified_at : ProviderInputField
  changed_at : ProviderInputField
  attendee_rsvp : ProviderInputField
  backup_object_key : ProviderInputField
  ciphertext : ProviderInputField
  checksum : ProviderInputField
  encryption_metadata : ProviderInputField
  provider_version : ProviderInputField
  uploaded_at : ProviderInputField
  stored_byte_count : ProviderInputField

pub data ProviderError : Type 0 where
  invalid_input : ProviderInputField → ProviderError
  token_expired : ProviderError
  throttled : ℕ → ProviderError
  cursor_expired : ProviderError
  not_found : ProviderError
  conflict : ProviderError
  unavailable : ProviderError

abbrev pub ProviderResult {ℓ} : Type ℓ → Type ℓ
ProviderResult A = Result ProviderError A
