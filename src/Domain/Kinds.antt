-- ===== src/Domain/Kinds.antt =====
-- src/pa/domain.rs: the errors, the kinds of appointments and tasks, durations, and the texts that
-- must not be blank. A Rust `&'static str` in an error is its bytes.
use agent_voice.Common.{ℕ, ◌*◌, Bool, true, false, not, Bytes, codes, ◌==◌, if◌then◌else◌}
use agent_voice.Common.Results.{Result, ok, err}
use agent_voice.Common.Text.{Text, trim, is_empty}

-- `#[default]` is the first variant.
pub data ProposalState : Type 0 where
  pending : ProposalState
  accepted : ProposalState
  declined : ProposalState
  expired : ProposalState

pub data DomainError : Type 0 where
  blank_required_field : Bytes → DomainError
  invalid_email : DomainError
  unconfirmed_email : DomainError
  zero_duration : Bytes → DomainError
  invalid_quote_expiry : DomainError
  invalid_appointment_slot : DomainError
  quote_expired : DomainError
  quote_not_yet_valid : DomainError
  terminal_proposal_state : ProposalState → DomainError
  invalid_proposal_transition : ProposalState → ProposalState → DomainError

abbrev pub DomainResult {ℓ} : Type ℓ → Type ℓ
DomainResult A = Result DomainError A

pub data AppointmentKind : Type 0 where
  callback : AppointmentKind
  meeting : AppointmentKind

unfoldable pub appointment_minutes : AppointmentKind → ℕ
appointment_minutes callback = 15
appointment_minutes meeting = 30

pub requester_included_by_default : AppointmentKind → Bool
requester_included_by_default callback = false
requester_included_by_default meeting = true

unfoldable pub owner_only_by_default : AppointmentKind → Bool
unfolding requester_included_by_default
owner_only_by_default kind = not (requester_included_by_default kind)

abbrev pub minute_ns : ℕ
minute_ns = 60 * 1_000_000_000

-- `Duration::minutes`, in nanoseconds
unfoldable pub appointment_duration : AppointmentKind → ℕ
unfolding appointment_minutes
appointment_duration kind = appointment_minutes kind * minute_ns

pub data TaskKind : Type 0 where
  bill : TaskKind
  callback_task : TaskKind
  reading : TaskKind
  email_reply : TaskKind
  preparation : TaskKind

unfoldable pub task_minutes : TaskKind → ℕ
task_minutes bill = 15
task_minutes callback_task = 15
task_minutes reading = 30
task_minutes email_reply = 30
task_minutes preparation = 60

pub record DurationMinutes : Type 0 where
  pub minutes : ℕ

-- `DurationMinutes::new`, and `try_from`, which is it.
unfoldable pub new_duration : ℕ → DomainResult DurationMinutes
new_duration minutes =
    if minutes == 0
    then err (zero_duration (codes "duration"))
    else ok (record { minutes = minutes })

unfoldable pub non_blank : Text → Bytes → DomainResult Text
unfolding trim
non_blank value field =
    if is_empty (trim value) then err (blank_required_field field) else ok (trim value)
