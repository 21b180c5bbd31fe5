-- ===== src/Store/Texts.antt =====
-- src/pa/store.rs: the texts that the store accepts. A text is its Unicode scalar values, and
-- `len` counts the bytes of its UTF-8.
use agent_voice.Common.{
  ℕ, ◌+◌, leb, ltb, ◌==◌, if◌then◌else◌, Bool, not, ◌&&◌, ◌||◌, Option, none, some, [], ◌∷◌, all,
  any, Bytes, codes, is_alphanumeric,
}
use agent_voice.Common.Results.{ok, err, ◌>>=◌}
use agent_voice.Common.Text.{Text, is_whitespace, is_control, trim, is_empty}
use agent_voice.Store.Errors.{StoreResult, invalid_input}

utf8_width : ℕ → ℕ
utf8_width c = if ltb c 0x80 then 1 else if ltb c 0x800 then 2 else if ltb c 0x10000 then 3 else 4

-- `String::len`
unfoldable pub len : Text → ℕ
unfolding utf8_width
len [] = 0
len (c ∷ cs) = utf8_width c + len cs

abbrev max_id_length : ℕ
max_id_length = 256

abbrev max_message_summary_length : ℕ
max_message_summary_length = 4096

abbrev max_message_subject_length : ℕ
max_message_subject_length = 256

abbrev max_message_sender_length : ℕ
max_message_sender_length = 320

-- A byte beyond ASCII fails the test, and so does the character that it is part of.
is_machine_byte : ℕ → Bool
is_machine_byte c = is_alphanumeric c || (c == b'.' || (c == b'_' || (c == b':' || c == b'-')))

validate_machine_identifier_with_limit : Text → Bytes → ℕ → StoreResult Text
unfolding is_machine_byte is_whitespace is_control
validate_machine_identifier_with_limit value field maximum_length =
    if is_empty value
      || (ltb maximum_length (len value)
          || (any is_whitespace value || (any is_control value || not (all is_machine_byte value))))
    then err (invalid_input field)
    else ok value

unfoldable pub validate_message_identifier : Text → Bytes → StoreResult Text
unfolding validate_machine_identifier_with_limit
validate_message_identifier value field =
    validate_machine_identifier_with_limit value field max_id_length

unfoldable pub validate_provider_stream_identifier : Text → Bytes → StoreResult Text
unfolding validate_machine_identifier_with_limit
validate_provider_stream_identifier value field =
    validate_machine_identifier_with_limit value field max_id_length

unfoldable pub validate_task_identifier : Text → Bytes → StoreResult Text
unfolding is_machine_byte is_whitespace is_control
validate_task_identifier value field =
    if is_empty value
      || (ltb max_id_length (len value)
          || (any is_whitespace value || (any is_control value || not (all is_machine_byte value))))
    then err (invalid_input field)
    else ok value

unfoldable pub validate_audit_machine_identifier : Text → Bytes → ℕ → StoreResult Text
unfolding is_machine_byte
validate_audit_machine_identifier value field maximum_length =
    if not (leb 1 (len value) && leb (len value) maximum_length) || not (all is_machine_byte value)
    then err (invalid_input field)
    else ok value

unfoldable pub validate_provider_cursor_identifier : Text → Bytes → StoreResult Text
unfolding trim is_control
validate_provider_cursor_identifier value field =
    if is_empty (trim value)
      || (ltb max_id_length (len value)
          || (not (all (λ c. ltb c 0x80) value) || any is_control value))
    then err (invalid_input field)
    else ok value

validate_message_text : Text → Bytes → ℕ → StoreResult Text
unfolding trim is_control
validate_message_text value field maximum_length =
    if is_empty (trim value) || (ltb maximum_length (len value) || any is_control value)
    then err (invalid_input field)
    else ok value

-- `Option::map` and `transpose`
abbrev pub traverse : {A B : Type 0} → (A → StoreResult B) → Option A → StoreResult (Option B)
traverse f none = ok none
traverse f (some a) = do b ← f a; ok (some b)

unfoldable pub validate_message_summary : Text → StoreResult Text
unfolding validate_message_text
validate_message_summary value =
    validate_message_text value (codes "summary") max_message_summary_length

unfoldable pub validate_message_subject : Option Text → StoreResult (Option Text)
unfolding validate_message_text
validate_message_subject =
    traverse (λ value. validate_message_text value (codes "subject") max_message_subject_length)

unfoldable pub validate_message_sender : Option Text → StoreResult (Option Text)
unfolding validate_message_text
validate_message_sender =
    traverse (λ value. validate_message_text value (codes "sender") max_message_sender_length)

unfoldable pub validate_task_title : Text → StoreResult Text
unfolding trim is_control
validate_task_title value =
    if is_empty (trim value) || (ltb max_id_length (len value) || any is_control value)
    then err (invalid_input (codes "title"))
    else ok value

-- `validate_notification_error_code`
is_code_byte : ℕ → Bool
is_code_byte c = is_alphanumeric c || (c == b'_' || c == b'-')

unfoldable pub validate_notification_error_code : Text → StoreResult Text
unfolding is_code_byte
validate_notification_error_code value =
    if is_empty value || (ltb 64 (len value) || not (all is_code_byte value))
    then err (invalid_input (codes "error_code"))
    else ok value

unfoldable pub validate_replay_nonce : Text → StoreResult (Unit {0})
unfolding is_code_byte
validate_replay_nonce nonce =
    if not (leb 16 (len nonce) && leb (len nonce) 128) || not (all is_code_byte nonce)
    then err (invalid_input (codes "nonce"))
    else ok tt
