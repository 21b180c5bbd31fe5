-- ===== src/Store/Tasks/Queries.antt =====
-- src/pa/store.rs: the list of the tasks in a state. Every task is decoded and its message checked
-- before the filter and the limit.
pub mod Pages
use agent_voice.Common.{ℕ, leb, ltb, not, ◌&&◌, Option, List, retain, take, codes}
use agent_voice.Common.Int.{ℤ}
use agent_voice.Common.Results.{Result, ok, err, guard, ◌>>=◌, ◌>>◌}
use agent_voice.Store.Errors.{StoreResult}
use agent_voice.Store.Names.{StoredTaskState}
use agent_voice.Store.Paging.{validate_page, page, decode_each}
use agent_voice.Store.Tasks.{
  StoredTask, Tables, decode_task_row, as_task_error, validate_task_message,
}
use agent_voice.Store.Tasks.Update.{in_task_state}

abbrev max_task_list_limit : ℕ
max_task_list_limit = 100

pub checked_task : Tables → StoredTask → StoreResult StoredTask
checked_task tables row = do
  task ← decode_task_row row
  as_task_error (validate_task_message tables task.message_id)
  ok task

unfoldable pub list_tasks_by_state :
    Tables → StoredTaskState → Option ℤ → ℕ → StoreResult (List StoredTask)
list_tasks_by_state tables state after_id limit = do
  validate_page after_id limit max_task_list_limit
  tasks ← decode_each (checked_task tables) tables.tasks
  ok (page (λ task. task.id) after_id limit (retain (in_task_state state) tasks))
