-- ===== src/Store/Templates.antt =====
-- src/pa/store.rs: `NotificationTemplateData`.
pub mod Stored
use agent_voice.Common.{ℕ, leb, Bool, true, false, not, Option, none, some, codes}
use mathlib.Core.Option
use agent_voice.Common.Int.{ℤ, pos}
use agent_voice.Common.Results.{Result, ok, err, guard, ◌>>=◌, ◌>>◌}
use agent_voice.Common.Text.{Text, trim, is_empty}
use agent_voice.Domain.Kinds.{AppointmentKind, ProposalState}
use agent_voice.Store.Errors.{StoreResult, invalid_input}
use agent_voice.Store.Instants.{OffsetDateTime, is_utc}

pub record TemplateData : Type 0 where
  pub title : Option Text
  pub starts_at : Option ℕ
  pub ends_at : Option ℕ
  pub timezone : Option Text
  pub appointment_kind : Option AppointmentKind
  pub proposal_state : Option ProposalState

abbrev pub same : Bool → Bool → Bool
same true b = b
same false b = not b

abbrev pub is_some : {A : Type 0} → Option A → Bool
is_some none = false
is_some (some a) = true

abbrev is_blank : Option Text → Bool
is_blank none = false
is_blank (some value) = is_empty (trim value)

abbrev is_offset : Option OffsetDateTime → Bool
is_offset none = false
is_offset (some value) = not (is_utc value)

abbrev is_reversed : Option OffsetDateTime → Option OffsetDateTime → Bool
is_reversed (some start) (some end) = leb end.instant start.instant
is_reversed _ _ = false

-- `NotificationTemplateData::new`
unfoldable pub new_template_data :
    Option Text
    → Option OffsetDateTime
    → Option OffsetDateTime
    → Option Text
    → Option AppointmentKind
    → Option ProposalState
    → StoreResult TemplateData
new_template_data title starts_at ends_at timezone appointment_kind proposal_state = do
  guard (not (is_blank title)) (invalid_input (codes "title"))
  guard (not (is_blank timezone)) (invalid_input (codes "timezone"))
  guard (same (is_some starts_at) (is_some ends_at)) (invalid_input (codes "template_times"))
  guard (not (is_offset starts_at)) (invalid_input (codes "starts_at"))
  guard (not (is_offset ends_at)) (invalid_input (codes "ends_at"))
  guard (not (is_reversed starts_at ends_at)) (invalid_input (codes "template_times"))
  ok (record {
    title = Option.map trim title;
    starts_at = Option.map (λ at. at.instant) starts_at;
    ends_at = Option.map (λ at. at.instant) ends_at;
    timezone = Option.map trim timezone;
    appointment_kind = appointment_kind;
    proposal_state = proposal_state;
  })

abbrev in_utc : ℕ → OffsetDateTime
in_utc instant = record { instant = instant; offset = pos 0 }

-- `Deserialize for NotificationTemplateData`, of the payload that was written for the value.
unfoldable pub deserialize_template : TemplateData → StoreResult TemplateData
deserialize_template data' =
    new_template_data data'.title (Option.map in_utc data'.starts_at)
      (Option.map in_utc data'.ends_at) data'.timezone data'.appointment_kind data'.proposal_state
