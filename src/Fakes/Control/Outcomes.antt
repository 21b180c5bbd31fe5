-- ===== src/Fakes/Control/Outcomes.antt =====
-- src/pa/fakes/control.rs: `begin` called again and again for one operation.
use agent_voice.Common.{
  ℕ, zero, suc, ◌+◌, ◌≤◌, ◌≡◌, refl, ap, ◌∙◌, Option, none, some, List, [], ◌∷◌, ◌++◌, map,
  if◌then◌else◌, leb, length, arith,
}
use agent_voice.Common.Results.{ok, err}
use agent_voice.Fakes.Errors.{ProviderError, ProviderResult}
use agent_voice.Fakes.Control.{OperationState, u64_max, next_count, begin_state}

-- What a number of calls gives, and the state behind them.
abbrev pub outcomes : ℕ → OperationState → List (ProviderResult (Unit {0}))
outcomes zero s = []
outcomes (suc n) s = (begin_state s).0 ∷ outcomes n (begin_state s).1

abbrev pub behind : ℕ → OperationState → OperationState
behind zero s = s
behind (suc n) s = behind n (begin_state s).1

abbrev persistent_outcome : OperationState → ProviderResult (Unit {0})
persistent_outcome s = elim s.persistent_failure [ some failure ↦ err failure | none ↦ ok tt ]

abbrev pub times : ℕ → ProviderResult (Unit {0}) → List (ProviderResult (Unit {0}))
times zero outcome = []
times (suc n) outcome = outcome ∷ times n outcome

outcomes_persistent :
    (n count : ℕ) (persistent : Option ProviderError) (partial : Option ℕ)
    → outcomes n (record {
      count = count;
      queued_failures = [];
      persistent_failure = persistent;
      partial_failure_after = partial;
    })
      ≡ times n (elim persistent [ some failure ↦ err failure | none ↦ ok tt ])
unfolding begin_state
outcomes_persistent zero count persistent partial = refl
outcomes_persistent (suc n) count persistent partial =
    ap (λ later. (elim persistent [ some failure ↦ err failure | none ↦ ok tt ]) ∷ later)
      (outcomes_persistent n (next_count count) persistent partial)

outcomes_queued :
    (n total count : ℕ) (queued : List ProviderError) (persistent : Option ProviderError)
    (partial : Option ℕ)
    → total ≡ length queued + n
    → outcomes total (record {
      count = count;
      queued_failures = queued;
      persistent_failure = persistent;
      partial_failure_after = partial;
    })
      ≡ map err queued ++ times n (elim persistent [ some failure ↦ err failure | none ↦ ok tt ])
unfolding begin_state
outcomes_queued n total count [] persistent partial h =
    let same : total ≡ n = omega arith in rw same (outcomes_persistent n count persistent partial)
outcomes_queued n zero count (failure ∷ queued) persistent partial h = absurd (omega arith)
outcomes_queued n (suc total) count (failure ∷ queued) persistent partial h =
    ap (λ later. err failure ∷ later)
      (outcomes_queued n total (next_count count) queued persistent partial (omega arith))

-- Calls of an operation fail with its queued failures, in the order in which they were queued, and
-- after them with its persistent failure, or succeed if it has none.
outcomes_lem :
    (n : ℕ) (s : OperationState)
    → outcomes (length s.queued_failures + n) s
      ≡ map err s.queued_failures ++ times n (persistent_outcome s)
outcomes_lem n s =
    outcomes_queued n (length s.queued_failures + n) s.count s.queued_failures s.persistent_failure
      s.partial_failure_after refl

counted :
    (queued : List ProviderError) (s : OperationState)
    → s.queued_failures ≡ queued
    → (begin_state s).1.count ≡ next_count s.count
unfolding begin_state
counted [] s h = rw (h, begin_state) refl
counted (failure ∷ queued) s h = rw (h, begin_state) refl

next_count-le : (count : ℕ) → count ≤ u64_max → next_count count ≤ u64_max
unfolding next_count
next_count-le count h = ground arith

next_total :
    (count n : ℕ)
    → count ≤ u64_max
    → (if leb (next_count count + n) u64_max then next_count count + n else u64_max)
      ≡ (if leb (count + suc n) u64_max then count + suc n else u64_max)
unfolding next_count
next_total count n h = ground arith

-- Each call is counted once, whatever its outcome, until the count is the greatest `u64`.
behind_count :
    (n : ℕ) (s : OperationState)
    → s.count ≤ u64_max
    → (behind n s).count ≡ (if leb (s.count + n) u64_max then s.count + n else u64_max)
behind_count zero s h = ground arith
behind_count (suc n) s h =
    let one = counted s.queued_failures s refl in
    let rest = behind_count n (begin_state s).1 (rw one (next_count-le s.count h)) in
    rest ∙ rw one (next_total s.count n h)
