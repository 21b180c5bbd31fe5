-- ===== src/Domain/Quote.antt =====
-- src/pa/domain.rs: `Quote` and `AppointmentSlot`. An instant is its nanoseconds since the earliest
-- one, and a UUID its number. Adding past the latest instant panics, or fails in `checked_add`:
-- both are `none`.
pub mod Window
use agent_voice.Common.{
  ℕ, ◌+◌, ◌-◌, ◌*◌, Bool, true, false, not, ◌&&◌, Option, none, some, leb, ltb, ◌==◌, if◌then◌else◌,
}
use agent_voice.Common.Results.{Result, ok, err, ◌>>=◌, ◌>>◌, guard, ok_or}
use agent_voice.Domain.Kinds.{
  DomainResult, invalid_quote_expiry, invalid_appointment_slot, quote_expired, quote_not_yet_valid,
  minute_ns,
}

abbrev pub QuoteId : Type 0
QuoteId = ℕ

pub record Quote : Type 0 where
  pub id : QuoteId
  pub issued_at : ℕ
  pub expires_at : ℕ

-- `Quote::VALID_FOR`
abbrev valid_for : ℕ
valid_for = 5 * minute_ns

-- `OffsetDateTime::checked_add` of a duration that is not negative, with the latest instant.
unfoldable pub checked_add : ℕ → ℕ → ℕ → Option ℕ
checked_add latest at duration = if leb (at + duration) latest then some (at + duration) else none

unfoldable pub with_id : ℕ → QuoteId → ℕ → Option Quote
unfolding checked_add
with_id latest id issued_at = elim (checked_add latest issued_at valid_for) [
  | none ↦ none
  | some expires_at ↦ some (record { id = id; issued_at = issued_at; expires_at = expires_at })
]

is_expired : Quote → ℕ → Bool
is_expired quote at = leb quote.expires_at at

pub is_valid_at : Quote → ℕ → Bool
unfolding is_expired
is_valid_at quote at = leb quote.issued_at at && not (is_expired quote at)

pub consume : Quote → ℕ → DomainResult QuoteId
unfolding is_expired
consume quote at =
    if ltb at quote.issued_at
    then err quote_not_yet_valid
    else if is_expired quote at
    then err quote_expired
    else ok quote.id

-- `Deserialize for Quote`, from the fields of `Wire`.
deserialize_quote : ℕ → QuoteId → ℕ → ℕ → DomainResult Quote
deserialize_quote latest id issued_at expires_at = do
  expected ← ok_or (checked_add latest issued_at valid_for) invalid_quote_expiry
  guard (expires_at == expected) invalid_quote_expiry
  ok (record { id = id; issued_at = issued_at; expires_at = expires_at })

pub record AppointmentSlot : Type 0 where
  pub starts_at : ℕ
  pub ends_at : ℕ

-- `AppointmentSlot::new`; deserializing a slot is it on the two fields.
new_slot : ℕ → ℕ → DomainResult AppointmentSlot
new_slot starts_at ends_at =
    if leb ends_at starts_at
    then err invalid_appointment_slot
    else ok (record { starts_at = starts_at; ends_at = ends_at })

-- The order of the bounds is the type's invariant, so the subtraction does not go below 0.
slot_duration : AppointmentSlot → ℕ
slot_duration slot = slot.ends_at - slot.starts_at
