-- ===== src/Store/Tasks/Transition.antt =====
-- src/pa/store.rs: the results of `transition_task`.
use agent_voice.Common.{
  ℕ, ◌≡◌, refl, sym, ap, ◌∙◌, ◌⊎◌, inl, inr, true, false, not, ◌&&◌, ◌==◌, if◌then◌else◌,
  Bool-cases, some, codes, bytes_eq,
}
use mathlib.Core.Option
use mathlib.Core.Path.{subst}
use agent_voice.Common.Equal.{eqb, eqb→eq, eqb_refl}
use agent_voice.Common.Results.{ok, err, guard, ok_or, bind_ok, guard_ok, ok-injective}
use agent_voice.Common.Text.{Text}
use agent_voice.Store.Errors.{not_found}
use agent_voice.Store.Instants.{OffsetDateTime, format_task_updated_timestamp}
use agent_voice.Store.Names.{StoredTaskState, pending, proposed, scheduled, no_slot}
use agent_voice.Store.Table.{find, find-All, find_passes, find-map, update, count, count-one}
use agent_voice.Store.Texts.{validate_task_identifier}
use agent_voice.Store.Tasks.{
  StoredTask, Tables, task_invalid, task_text, decode_task_row, StoredTaskState-discrete,
  validate_task_message, by_task_source, valid_task_transition,
}
use agent_voice.Store.Tasks.Update.{
  in_task_state, with_task_state, task_conflict, update_task, transition_task,
}
use agent_voice.Store.Tasks.Linked.{IsLinked}
use agent_voice.Store.Tasks.Moved.{
  with_tasks, task_test, moved_task, task_source_kept, update_task-IsLinked,
}

-- The tables after the update of a transition.
abbrev moved_tables : Tables → Text → StoredTaskState → StoredTaskState → ℕ → Tables
moved_tables tables source expected next at =
    with_tasks tables (update (task_test source expected) (with_task_state next at) tables.tasks)

-- The last lines of `transition_task`, with the row that was read.
branch :
    (tables : Tables) (source : Text) (expected next : StoredTaskState) (at : ℕ)
    (current : StoredTask) (result : StoredTask × Tables)
    → (if in_task_state next current && (current.updated_at == at)
        then ok (current, tables)
        else if not (in_task_state expected current)
        then err task_conflict
        else update_task tables source expected next at)
      ≡ ok result
    → (result.1 ≡ tables) ⊎ (result.1 ≡ moved_tables tables source expected next at)
unfolding update_task
branch tables source expected next at current result run =
    elim (Bool-cases (in_task_state next current && (current.updated_at == at))) [
      | inl e ↦ inl (sym (ap (λ p. p.1) (ok-injective (rw e at run))))
      | inr e ↦ elim (Bool-cases (in_task_state expected current)) [
        | inr f ↦ cc (rw (e, f) at run)
        | inl f ↦
            let rest = rw (e, f) at run in
            let tables' = moved_tables tables source expected next at in
            let (_, (_, rest)) =
              bind_ok (guard (count (task_test source expected) tables.tasks == 1) task_conflict) _
                rest in
            let (row, (_, rest)) =
              bind_ok (ok_or (find (by_task_source source) tables'.tasks) task_invalid) _ rest in
            let (stored, (_, rest)) = bind_ok (decode_task_row row) _ rest in
            let (_, (_, last)) = bind_ok (validate_task_message tables' stored.message_id) _ rest in
            inr (sym (ap (λ p. p.1) (ok-injective last)))
      ]
    ]

-- A transition that succeeds leaves the tables as they are or makes an allowed change.
transition_task-cases :
    (tables : Tables) (source_id : Text) (expected next : StoredTaskState)
    (updated_at : OffsetDateTime) (out : StoredTask) (final : Tables)
    → transition_task tables source_id expected next updated_at ≡ ok (out, final)
    → (final ≡ tables)
      ⊎ ((source : Text) × ((at : ℕ) × ((valid_task_transition expected next ≡ true)
              × (final ≡ moved_tables tables source expected next at))))
unfolding transition_task
transition_task-cases tables source_id expected next updated_at out final run =
    let (source, (_, run)) =
      bind_ok (validate_task_identifier source_id (codes "source_id")) _ run in
    let (at, (_, run)) = bind_ok (format_task_updated_timestamp updated_at) _ run in
    let (_, (allowed, run)) =
      bind_ok (guard (valid_task_transition expected next) task_conflict) _ run in
    let (row, (_, run)) =
      bind_ok (ok_or (find (by_task_source source) tables.tasks) (not_found task_text)) _ run in
    let (current, (_, run)) = bind_ok (decode_task_row row) _ run in
    let (_, (_, run)) = bind_ok (validate_task_message tables current.message_id) _ run in
    elim (branch tables source expected next at current (out, final) run) [
      | inl same ↦ inl same
      | inr made ↦ inr (source, (at, (guard_ok _ _ allowed, made)))
    ]

pub transition_task-IsLinked :
    (tables : Tables) (source_id : Text) (expected next : StoredTaskState)
    (updated_at : OffsetDateTime) (out : StoredTask) (final : Tables)
    → IsLinked tables
    → transition_task tables source_id expected next updated_at ≡ ok (out, final)
    → IsLinked final
transition_task-IsLinked tables source_id expected next updated_at out final l run =
    elim (transition_task-cases tables source_id expected next updated_at out final run) [
      | inl same ↦ subst IsLinked (sym same) l
      | inr (source, (at, (allowed, made))) ↦
          subst IsLinked (sym made) (update_task-IsLinked source expected next at tables l)
    ]

stays_apart : (state : StoredTaskState) → valid_task_transition state state ≡ false
unfolding valid_task_transition
stays_apart pending = refl
stays_apart proposed = refl
stays_apart scheduled = refl
stays_apart no_slot = refl

in_expected :
    (row : StoredTask) (state : StoredTaskState)
    → row.state ≡ state
    → in_task_state state row ≡ true
in_expected row state h =
    ap (λ s. eqb StoredTaskState-discrete s state) h ∙ eqb_refl StoredTaskState-discrete state

not_next :
    (row : StoredTask) (expected next : StoredTaskState)
    → row.state ≡ expected
    → valid_task_transition expected next ≡ true
    → in_task_state next row ≡ false
not_next row expected next h allowed = elim (Bool-cases (in_task_state next row)) [
  | inr e ↦ e
  | inl e ↦
      let same : expected ≡ next = sym h ∙ eqb→eq StoredTaskState-discrete row.state next e in
      cc (
        sym (subst (λ (s : StoredTaskState). valid_task_transition s next ≡ true) same allowed)
        ∙ stays_apart next)
]

changed :
    (source : Text) (expected next : StoredTaskState) (at : ℕ) (row : StoredTask)
    → task_test source expected row ≡ true
    → moved_task source expected next at row ≡ with_task_state next at row
changed source expected next at row h = rw h refl

message_kept :
    (next : StoredTaskState) (at : ℕ) (row : StoredTask)
    → (with_task_state next at row).message_id ≡ row.message_id
unfolding with_task_state
message_kept next at row = refl

-- The graph of the tasks: a task is proposed and then scheduled, or ends with no slot.
pub data IsTaskMove : StoredTaskState → StoredTaskState → Type 0 where
  proposal : IsTaskMove pending proposed
  no_proposal : IsTaskMove pending no_slot
  appointment : IsTaskMove proposed scheduled
  no_appointment : IsTaskMove proposed no_slot

IsTaskMove-allowed :
    (expected next : StoredTaskState)
    → IsTaskMove expected next
    → valid_task_transition expected next ≡ true
unfolding valid_task_transition
IsTaskMove-allowed _ _ proposal = refl
IsTaskMove-allowed _ _ no_proposal = refl
IsTaskMove-allowed _ _ appointment = refl
IsTaskMove-allowed _ _ no_appointment = refl

-- The row in another state, updated at a time, and else as it was.
abbrev pub moved_row : StoredTaskState → ℕ → StoredTask → StoredTask
moved_row next at row = record row { state = next; updated_at = at }

-- On linked tables a transition of a task from the expected state, along the task graph and at a
-- UTC time of whole seconds, succeeds for a source that is accepted as it is: it returns the row in
-- the new state, updated at that time and else as it was, which is then the row of its source, and
-- the tables stay linked.
pub transition_task_ok :
    (tables : Tables) (source : Text) (expected next : StoredTaskState)
    (updated_at : OffsetDateTime) (row : StoredTask)
    → IsLinked tables
    → find (by_task_source source) tables.tasks ≡ some row
    → validate_task_identifier source (codes "source_id") ≡ ok source
    → format_task_updated_timestamp updated_at ≡ ok updated_at.instant
    → IsTaskMove expected next
    → row.state ≡ expected
    → (final : Tables) × (transition_task tables source expected next updated_at
        ≡ ok (moved_row next updated_at.instant row, final))
      × (find (by_task_source source) final.tasks ≡ some (moved_row next updated_at.instant row))
      × IsLinked final
unfolding transition_task update_task with_task_state
transition_task_ok tables source expected next updated_at row l found named timed move state =
    let allowed = IsTaskMove-allowed expected next move in
    let at = updated_at.instant in
    let final = moved_tables tables source expected next at in
    let linked = update_task-IsLinked source expected next at tables l in
    let read =
      find-All (λ r. decode_task_row r ≡ ok r) (by_task_source source) row tables.tasks l.readable
        found in
    let link =
      find-All (λ r. validate_task_message tables r.message_id ≡ ok tt) (by_task_source source) row
        tables.tasks l.linked found in
    let expected_state = in_expected row expected state in
    let one =
      count-one (λ r. r.source_id) source (in_task_state expected) tables.tasks row l.sources found
        expected_state in
    let here : task_test source expected row ≡ true =
      rw (find_passes (by_task_source source) row tables.tasks found, expected_state) refl in
    let seen = λ (r : StoredTask).
      ap (λ s. bytes_eq s source) (task_source_kept source expected next at r) in
    let there : find (by_task_source source) final.tasks ≡ some (with_task_state next at row) =
      find-map (by_task_source source) (moved_task source expected next at) tables.tasks seen
      ∙ (ap (Option.map (moved_task source expected next at)) found
          ∙ ap some (changed source expected next at row here)) in
    let reread =
      find-All (λ r. decode_task_row r ≡ ok r) (by_task_source source) (with_task_state next at row)
        final.tasks linked.readable there in
    let relinked =
      find-All (λ r. validate_task_message final r.message_id ≡ ok tt) (by_task_source source)
        (with_task_state next at row) final.tasks linked.linked there in
    (
      final,
      rw
          (
            named,
            timed,
            allowed,
            found,
            read,
            link,
            not_next row expected next state allowed,
            expected_state,
            one,
            there,
            reread,
            relinked,
          )
          refl,
      there,
      linked,
    )
