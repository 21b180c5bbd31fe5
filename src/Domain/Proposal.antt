-- ===== src/Domain/Proposal.antt =====
-- src/pa/domain.rs: the state machine `ProposalState`.
pub mod Final
use agent_voice.Common.{Bool, true, false, not, if◌then◌else◌}
use agent_voice.Common.Results.{Result, ok, err}
use agent_voice.Domain.Kinds.{
  ProposalState, pending, accepted, declined, expired, DomainResult, terminal_proposal_state,
  invalid_proposal_transition,
}

unfoldable pub is_terminal : ProposalState → Bool
is_terminal pending = false
is_terminal accepted = true
is_terminal declined = true
is_terminal expired = true

unfoldable pub can_transition_to : ProposalState → ProposalState → Bool
can_transition_to pending accepted = true
can_transition_to pending declined = true
can_transition_to pending expired = true
can_transition_to pending pending = false
can_transition_to accepted next = false
can_transition_to declined next = false
can_transition_to expired next = false

unfoldable pub transition_to : ProposalState → ProposalState → DomainResult ProposalState
unfolding is_terminal can_transition_to
transition_to state next =
    if is_terminal state
    then err (terminal_proposal_state state)
    else if not (can_transition_to state next)
    then err (invalid_proposal_transition state next)
    else ok next

unfoldable pub accept : ProposalState → DomainResult ProposalState
unfolding transition_to
accept state = transition_to state accepted

unfoldable pub decline : ProposalState → DomainResult ProposalState
unfolding transition_to
decline state = transition_to state declined

unfoldable pub expire : ProposalState → DomainResult ProposalState
unfolding transition_to
expire state = transition_to state expired
