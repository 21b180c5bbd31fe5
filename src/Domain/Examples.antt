-- ===== src/Domain/Examples.antt =====
-- Runs of pa/domain.rs.
use agent_voice.Common.{ℕ, ◌≡◌, ◌⊎◌, refl, true, false, none, some, bytes_eq, codes}
use agent_voice.Common.Results.{ok}
use agent_voice.Common.Split.{split}
use agent_voice.Common.Text.{trim, trim_start, trim_end, is_whitespace}
use agent_voice.Domain.Kinds.{pending, accepted, reading, new_duration, non_blank}
use agent_voice.Domain.Email.{
  is_valid_email, valid_parts, check_parts, starts_with, ends_with, contains, CallerIdentity,
}
use agent_voice.Domain.Quote.{Quote, with_id, checked_add, AppointmentSlot}
use agent_voice.Domain.Quote.Window.{HasWindow, with_id-HasWindow}
use agent_voice.Domain.Drafts.{IdempotencyKey, new_key, OwnerTaskDraft, with_duration}
use agent_voice.Domain.Proposal.{transition_to, is_terminal, can_transition_to}
use agent_voice.Domain.Proposal.Final.{stay, next_step, step, Reach-once}

address_run : is_valid_email (codes "ann@mail.example.com") ≡ true
unfolding is_valid_email valid_parts check_parts starts_with ends_with contains split bytes_eq trim
    trim_start trim_end is_whitespace
address_run = refl

two_ats : is_valid_email (codes "ann@b@example.com") ≡ false
unfolding is_valid_email valid_parts split bytes_eq trim trim_start trim_end is_whitespace
two_ats = refl

abbrev latest : ℕ
latest = 1_000_000_000_000

abbrev quote : Quote
quote = record { id = 7; issued_at = 1000; expires_at = 300_000_001_000 }

issued : with_id latest 7 1000 ≡ some quote
unfolding with_id checked_add
issued = refl

with_id-HasWindow_example : HasWindow 7 1000 quote
with_id-HasWindow_example = with_id-HasWindow latest 7 1000 quote issued

abbrev slot : AppointmentSlot
slot = record { starts_at = 10; ends_at = 25 }

abbrev key : IdempotencyKey
key = record { text = codes "call-1" }

key_run : new_key (codes " call-1 ") ≡ ok key
unfolding new_key non_blank trim trim_start trim_end is_whitespace
key_run = refl

abbrev task : OwnerTaskDraft
task = record {
  kind = reading;
  title = codes "read it";
  duration = record { minutes = 45 };
  due_at = none;
  idempotency_key = key;
}

task_run : with_duration reading (codes "read it ") 45 none key ≡ ok task
unfolding with_duration new_duration non_blank trim trim_start trim_end is_whitespace
task_run = refl

abbrev caller : CallerIdentity
caller = record {
  name = codes "Ann";
  email = record { value = codes "ann@mail.example.com"; confirmed = true };
}

accepts : transition_to pending accepted ≡ ok accepted
unfolding transition_to is_terminal can_transition_to
accepts = refl

accepted_terminal : is_terminal accepted ≡ true
unfolding is_terminal
accepted_terminal = refl

Reach-once_example : (accepted ≡ accepted) × ((pending ≡ accepted) ⊎ (pending ≡ pending))
Reach-once_example =
    Reach-once pending accepted accepted
      (next_step pending accepted accepted (step pending accepted accepts) (stay accepted))
      (stay accepted) accepted_terminal
