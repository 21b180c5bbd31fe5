-- ===== src/Store/Tasks/Queries/Pages.antt =====
-- src/pa/store.rs: the list of tasks read page by page.
use agent_voice.Common.{ℕ, suc, ◌+◌, ◌<◌, ◌≡◌, refl, ap, ◌∙◌, none, All-zip, length, retain, arith}
use agent_voice.Common.Results.{ok}
use agent_voice.Store.Names.{StoredTaskState}
use agent_voice.Store.Paging.{Ascending, read_pages, decode_each}
use agent_voice.Store.Paging.Complete.{
  read_pages-all, decode_each-map, validate_page_ok, Ascending-retain, map-same,
}
use agent_voice.Store.Tasks.{StoredTask, Tables, decode_task_row, validate_task_message}
use agent_voice.Store.Tasks.Update.{in_task_state}
use agent_voice.Store.Tasks.Linked.{IsLinked}
use agent_voice.Store.Tasks.Queries.{max_task_list_limit, checked_task, list_tasks_by_state}

checked_task-same :
    (tables : Tables) (task : StoredTask)
    → decode_task_row task ≡ ok task
    → validate_task_message tables task.message_id ≡ ok tt
    → checked_task tables task ≡ ok task
unfolding checked_task
checked_task-same tables task read link = rw (read, link) refl

-- A client that lists the tasks in a state on linked tables, the tasks kept by id, with any limit
-- `suc limit` from 1 to 100, each time after the last id it has seen and until it gets no task, is
-- given every task in that state once, in the order of the ids.
pub list_tasks_by_state_all :
    (tables : Tables) (limit : ℕ) (state : StoredTaskState)
    → IsLinked tables
    → Ascending (λ task. task.id) 0 tables.tasks
    → limit < max_task_list_limit
    → read_pages
        (λ task. task.id)
        (λ c. list_tasks_by_state tables state c (suc limit))
        (length (retain (in_task_state state) tables.tasks) + 1)
        none
      ≡ ok (retain (in_task_state state) tables.tasks)
unfolding list_tasks_by_state
list_tasks_by_state_all tables limit state l s fits =
    let id : StoredTask → ℕ = λ task. task.id in
    let checked : decode_each (checked_task tables) tables.tasks ≡ ok tables.tasks =
      decode_each-map (checked_task tables) (λ task. task) tables.tasks
        (All-zip {R = λ task. checked_task tables task ≡ ok task}
          (λ task read link. checked_task-same tables task read link) tables.tasks l.readable
          l.linked)
      ∙ ap ok (map-same tables.tasks) in
    read_pages-all id (λ c. list_tasks_by_state tables state c (suc limit))
      (retain (in_task_state state) tables.tasks) limit
      (Ascending-retain id (in_task_state state) 0 tables.tasks s)
      (λ c cursor.
        rw (validate_page_ok c limit max_task_list_limit cursor (omega arith), checked) refl)
