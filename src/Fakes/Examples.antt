-- ===== src/Fakes/Examples.antt =====
-- Runs of pa/fakes/control.rs.
use agent_voice.Common.{◌≡◌, refl, none, some, [], ◌∷◌, length}
use agent_voice.Common.Results.{ok, err}
use agent_voice.Fakes.Errors.{token_expired, cursor_expired, unavailable}
use agent_voice.Fakes.Operations.{mail_sync, mail_send, index}
use agent_voice.Fakes.Control.{
  OperationState, default_states, new, set_at, locked, begin_state, begin, queue_failure,
}
use agent_voice.Fakes.Control.Outcomes.{outcomes}

abbrev failing : OperationState
failing = record {
  count = 3;
  queued_failures = token_expired ∷ cursor_expired ∷ [];
  persistent_failure = some unavailable;
  partial_failure_after = none;
}

outcomes_run : outcomes 3 failing ≡ err token_expired ∷ err cursor_expired ∷ err unavailable ∷ []
unfolding begin_state
outcomes_run = refl

-- A failure that is queued for one operation does not reach another.
queued_run : (begin (queue_failure (new 0) mail_sync token_expired).1 mail_send).0 ≡ ok tt
unfolding begin queue_failure new default_states set_at locked begin_state index
queued_run = refl

sixteen : length default_states ≡ 16
unfolding default_states
sixteen = refl
