-- ===== src/Fakes/Control.antt =====
-- src/pa/fakes/control.rs: `FakeControl`. Its clones share one state under a mutex, so an operation
-- is one step on that state; it is `none` when the mutex is poisoned.
pub mod Outcomes
pub mod Isolation
use agent_voice.Common.{
  ℕ, zero, suc, ◌+◌, ◌-◌, ◌^◌, Bool, true, false, Option, none, some, List, [], ◌∷◌, ◌++◌, ◌==◌,
  if◌then◌else◌, get_or, not, Bytes, codes,
}
use agent_voice.Common.Results.{Result, ok, err}
use agent_voice.Fakes.Errors.{ProviderError, ProviderResult, unavailable}
use agent_voice.Fakes.Operations.{FakeOperation, index}

abbrev pub u64_max : ℕ
u64_max = 2 ^ 64 - 1

pub record OperationState : Type 0 where
  pub count : ℕ
  pub queued_failures : List ProviderError
  pub persistent_failure : Option ProviderError
  pub partial_failure_after : Option ℕ

-- `OperationState::default`
abbrev default_state : OperationState
default_state = record {
  count = 0;
  queued_failures = [];
  persistent_failure = none;
  partial_failure_after = none;
}

-- `FakeState`: the array of the states.
abbrev FakeState : Type 0
FakeState = List OperationState

abbrev repeat : ℕ → FakeState
repeat zero = []
repeat (suc n) = default_state ∷ repeat n

unfoldable pub default_states : FakeState
default_states = repeat 16

unfoldable pub set_at : ℕ → OperationState → FakeState → FakeState
set_at i s [] = []
set_at zero s (x ∷ xs) = s ∷ xs
set_at (suc i) s (x ∷ xs) = x ∷ set_at i s xs

abbrev pub state_of : FakeOperation → FakeState → OperationState
state_of operation states = get_or states (index operation) default_state

pub record FakeControl : Type 0 where
  pub now : ℕ
  pub state : Option FakeState

unfoldable pub new : ℕ → FakeControl
new now = record { now = now; state = some default_states }

-- An operation under the lock: its result and the control after it.
unfoldable pub locked :
    {A : Type 0}
    → FakeControl
    → FakeOperation
    → (OperationState → ProviderResult A × OperationState)
    → ProviderResult A × FakeControl
locked control operation step = elim control.state [
  | none ↦ (err unavailable, control)
  | some states ↦
      let (result, after) = step (state_of operation states) in
      (result, record { now = control.now; state = some (set_at (index operation) after states) })
]

unfoldable pub queue_failure :
    FakeControl → FakeOperation → ProviderError → ProviderResult (Unit {0}) × FakeControl
queue_failure control operation failure =
    locked control operation
      (λ s. (ok tt, record s { queued_failures = s.queued_failures ++ failure ∷ [] }))

unfoldable pub set_failure :
    FakeControl → FakeOperation → ProviderError → ProviderResult (Unit {0}) × FakeControl
set_failure control operation failure =
    locked control operation (λ s. (ok tt, record s { persistent_failure = some failure }))

unfoldable pub clear_failure : FakeControl → FakeOperation → ProviderResult (Unit {0}) × FakeControl
clear_failure control operation =
    locked control operation
      (λ s. (ok tt, record s { queued_failures = []; persistent_failure = none }))

unfoldable pub clear_persistent_failure :
    FakeControl → FakeOperation → ProviderResult (Unit {0}) × FakeControl
clear_persistent_failure control operation =
    locked control operation (λ s. (ok tt, record s { persistent_failure = none }))

unfoldable pub set_partial_failure :
    FakeControl → FakeOperation → ℕ → ProviderResult (Unit {0}) × FakeControl
set_partial_failure control operation after_items =
    locked control operation (λ s. (ok tt, record s { partial_failure_after = some after_items }))

unfoldable pub clear_partial_failure :
    FakeControl → FakeOperation → ProviderResult (Unit {0}) × FakeControl
clear_partial_failure control operation =
    locked control operation (λ s. (ok tt, record s { partial_failure_after = none }))

unfoldable pub partial_failure_after : FakeControl → FakeOperation → ProviderResult (Option ℕ)
partial_failure_after control operation = elim control.state [
  | none ↦ err unavailable
  | some states ↦ ok (state_of operation states).partial_failure_after
]

unfoldable pub invocation_count : FakeControl → FakeOperation → ProviderResult ℕ
invocation_count control operation = elim control.state [
  | none ↦ err unavailable
  | some states ↦ ok (state_of operation states).count
]

-- `count.saturating_add(1)`
pub next_count : ℕ → ℕ
next_count count = if count == u64_max then u64_max else count + 1

-- The lines of `begin` on the state of the operation.
unfoldable pub begin_state : OperationState → ProviderResult (Unit {0}) × OperationState
begin_state s = elim s.queued_failures [
  | failure ∷ queued ↦
      (err failure, record s { count = next_count s.count; queued_failures = queued })
  | [] ↦ (
    elim s.persistent_failure [ some failure ↦ err failure | none ↦ ok tt ],
    record s { count = next_count s.count },
  )
]

unfoldable pub begin : FakeControl → FakeOperation → ProviderResult (Unit {0}) × FakeControl
begin control operation = locked control operation begin_state

abbrev is_some {ℓ} : {A : Type ℓ} → Option A → Bool
is_some none = false
is_some (some a) = true

abbrev is_nil {ℓ} : {A : Type ℓ} → List A → Bool
is_nil [] = true
is_nil (a ∷ rest) = false

-- The arms of the `match` on the three tests.
unfoldable pub mode_of : Bool → Bool → Bool → Bytes
mode_of false false false = codes "ready"
mode_of true false false = codes "queued"
mode_of false true false = codes "persistent"
mode_of true true false = codes "queued+persistent"
mode_of false false true = codes "partial"
mode_of true false true = codes "queued+partial"
mode_of false true true = codes "persistent+partial"
mode_of true true true = codes "queued+persistent+partial"

unfoldable pub mode : OperationState → Bytes
mode s =
    mode_of (not (is_nil s.queued_failures)) (is_some s.persistent_failure)
      (is_some s.partial_failure_after)
