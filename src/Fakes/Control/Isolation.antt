-- ===== src/Fakes/Control/Isolation.antt =====
-- src/pa/fakes/control.rs: `begin` on the array of all operations.
use agent_voice.Common.{
  ℕ, zero, suc, ◌<◌, ◌≡◌, ◌≢◌, refl, sym, ◌∙◌, none, some, [], ◌∷◌, length, get_or, arith,
}
use agent_voice.Common.Results.{err}
use agent_voice.Fakes.Errors.{unavailable}
use agent_voice.Fakes.Operations.{FakeOperation, index, index-lt, index-injective}
use agent_voice.Fakes.Control.{
  OperationState, FakeState, default_state, state_of, set_at, locked, begin_state, begin,
}

get_or-set_at :
    (i : ℕ) (s : OperationState) (states : FakeState)
    → i < length states
    → get_or (set_at i s states) i default_state ≡ s
unfolding set_at
get_or-set_at i s [] h = absurd (omega arith)
get_or-set_at zero s (x ∷ xs) h = refl
get_or-set_at (suc i) s (x ∷ xs) h = get_or-set_at i s xs (omega arith)

get_or-set_at_other :
    (i j : ℕ) (s : OperationState) (states : FakeState)
    → i ≢ j
    → get_or (set_at i s states) j default_state ≡ get_or states j default_state
unfolding set_at
get_or-set_at_other i j s [] h = refl
get_or-set_at_other zero zero s (x ∷ xs) h = absurd (h refl)
get_or-set_at_other zero (suc j) s (x ∷ xs) h = refl
get_or-set_at_other (suc i) zero s (x ∷ xs) h = refl
get_or-set_at_other (suc i) (suc j) s (x ∷ xs) h =
    get_or-set_at_other i j s xs (λ e. h (omega arith))

length-set_at :
    (i : ℕ) (s : OperationState) (states : FakeState) → length (set_at i s states) ≡ length states
unfolding set_at
length-set_at i s [] = refl
length-set_at zero s (x ∷ xs) = refl
length-set_at (suc i) s (x ∷ xs) = omega (arith, length-set_at i s xs)

-- The array has its sixteen states, the operation's is the one that the call leaves, and the others
-- are as before.
pub record IsIsolated (states : FakeState) (operation : FakeOperation) (next : OperationState)
    (after : FakeState) : Type 0 where
  pub sixteen : length after ≡ 16
  pub own : state_of operation after ≡ next
  pub others :
      (other : FakeOperation) → other ≢ operation → state_of other after ≡ state_of other states

set_at-IsIsolated :
    (states : FakeState) (operation : FakeOperation) (next : OperationState)
    → length states ≡ 16
    → IsIsolated states operation next (set_at (index operation) next states)
set_at-IsIsolated states operation next h = record {
  sixteen = length-set_at (index operation) next states ∙ h;
  own = get_or-set_at (index operation) next states (omega (arith, index-lt operation));
  others = λ other differs.
      get_or-set_at_other (index operation) (index other) next states
        (λ e. differs (index-injective other operation (sym e)));
}

-- A call under the lock gives the outcome of its operation's state and changes that state alone;
-- when the mutex is poisoned it is unavailable and changes nothing.
begin-IsIsolated :
    (now : ℕ) (states : FakeState) (operation : FakeOperation)
    → length states ≡ 16
    → ((begin (record { now = now; state = none }) operation
          ≡ (err unavailable, record { now = now; state = none }))
        × ((after : FakeState) × ((begin (record { now = now; state = some states }) operation ≡ (
          (begin_state (state_of operation states)).0,
          record { now = now; state = some after },
        ))
              × IsIsolated states operation (begin_state (state_of operation states)).1 after)))
unfolding begin locked
begin-IsIsolated now states operation h = (
  refl,
  (
    set_at (index operation) (begin_state (state_of operation states)).1 states,
    (refl, set_at-IsIsolated states operation (begin_state (state_of operation states)).1 h),
  ),
)
