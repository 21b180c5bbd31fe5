-- ===== src/Domain/Proposal/Final.antt =====
-- src/pa/domain.rs: `transition_to` as a step relation, and the states it reaches.
use agent_voice.Common.{◌≡◌, ◌⊎◌, inl, inr, refl, true}
use agent_voice.Common.Results.{ok}
use agent_voice.Domain.Kinds.{ProposalState, pending, accepted, declined, expired}
use agent_voice.Domain.Proposal.{is_terminal, can_transition_to, transition_to}

-- One successful transition, and a run of them.
pub data Step : ProposalState → ProposalState → Type 0 where
  step : (state next : ProposalState) → transition_to state next ≡ ok next → Step state next

pub data Reach : ProposalState → ProposalState → Type 0 where
  stay : (state : ProposalState) → Reach state state
  next_step :
      (state middle last : ProposalState) → Step state middle → Reach middle last → Reach state last

step_lem :
    (state next : ProposalState) → Step state next → (state ≡ pending) × (is_terminal next ≡ true)
unfolding transition_to is_terminal can_transition_to
step_lem pending next (step pending pending h) = cc
step_lem pending next (step pending accepted h) = (refl, refl)
step_lem pending next (step pending declined h) = (refl, refl)
step_lem pending next (step pending expired h) = (refl, refl)
step_lem accepted next (step accepted target h) = cc
step_lem declined next (step declined target h) = cc
step_lem expired next (step expired target h) = cc

-- Nothing leaves a terminal state.
Reach-is_terminal :
    (state last : ProposalState) → Reach state last → is_terminal state ≡ true → last ≡ state
unfolding is_terminal
Reach-is_terminal state last (stay same) h = refl
Reach-is_terminal state last (next_step from middle to s r) h =
    let (e, _) = step_lem state middle s in cc (rw e at h)

Reach-is_terminal_start :
    (state last : ProposalState)
    → Reach state last
    → is_terminal last ≡ true
    → (state ≡ last) ⊎ (state ≡ pending)
Reach-is_terminal_start state last (stay same) h = inl refl
Reach-is_terminal_start state last (next_step from middle to s r) h =
    inr (step_lem state middle s).0

-- What a proposal reaches is itself, or from pending a terminal state, which it never leaves: a
-- decision is made once.
pub Reach-once :
    (state middle last : ProposalState)
    → Reach state middle
    → Reach middle last
    → is_terminal middle ≡ true
    → (last ≡ middle) × ((state ≡ middle) ⊎ (state ≡ pending))
Reach-once state middle last r q h =
    (Reach-is_terminal middle last q h, Reach-is_terminal_start state middle r h)
