-- ===== src/Memory/TaskQueue.antt =====
-- robot_brain/memory/task_queue.py over `InMemoryTaskStore`: the store is the dictionary of that
-- class, and the queue has no state of its own. A fresh `uuid4` and the time are arguments, the time
-- one for all updates of a call. A method returns the new store with its result.
pub mod Listing
pub mod Order
pub mod Bulk
pub mod Single
use robot_brain.Prelude.{
  ℕ, suc, ◌+◌, ◌&◌, Bool, true, false, ◌&&◌, ◌||◌, String, Option, none, some, List, [], ◌∷◌, ℤ,
  ltb, ltb_ℤ, beq_ℤ, nat_beq, ◌==◌, string_eq, if◌then◌else◌, keep, contains, head?,
}
use robot_brain.Prelude.Dict.{Dict, get, put, values}
use robot_brain.Prelude.Sort.{text_le, sorted}
use robot_brain.Core.Tasks.{
  TaskStatus, queued, running, paused, completed, failed, cancelled, ScheduledTask, status_eq,
}

abbrev pub terminal_task_statuses : List TaskStatus
terminal_task_statuses = completed ∷ failed ∷ cancelled ∷ []

-- `InMemoryTaskStore._tasks`. A deep copy of a value is the value.
abbrev pub Store : Type 0
Store = Dict String ScheduledTask

unfoldable pub save_task : ScheduledTask → Store → Store
save_task task tasks = put task.task_id task tasks

unfoldable pub get_task : String → Store → Option ScheduledTask
get_task task_id tasks = get task_id tasks

unfoldable pub list_tasks : Store → List ScheduledTask
list_tasks tasks = values tasks

-- Python's `a or b` for an optional text: the empty text is false too.
abbrev pub or_text : Option String → String → String
or_text none default = default
or_text (some t) default = if t == "" then default else t

-- `none` is the `ValidationError` of a limit below 1.
unfoldable pub enqueue :
    String → ℕ → String → ℤ → ℕ → String → Option String → Store → Option (ScheduledTask × Store)
unfolding save_task
enqueue uuid now objective priority max_attempts source thread_id store =
    let task : ScheduledTask = record {
      task_id = uuid;
      thread_id = or_text thread_id ("task-" & uuid);
      objective = objective;
      priority = priority;
      status = queued;
      attempts = 0;
      max_attempts = max_attempts;
      source = source;
      last_message = "";
      created_at = now;
      updated_at = now;
    } in
    if nat_beq max_attempts 0 then none else some (task, save_task task store)

-- The order of the key (-priority, created_at, task_id).
unfoldable pub task_le : ScheduledTask → ScheduledTask → Bool
task_le a b =
    ltb_ℤ b.priority a.priority
    || (beq_ℤ a.priority b.priority
        && (ltb a.created_at b.created_at
            || (nat_beq a.created_at b.created_at && text_le a.task_id b.task_id)))

-- `none` for the statuses keeps every task.
abbrev pub selected : Option (List TaskStatus) → ScheduledTask → Bool
selected none task = true
selected (some statuses) task = contains statuses task.status

unfoldable pub list : Option (List TaskStatus) → Store → List ScheduledTask
unfolding list_tasks
list statuses store = sorted task_le (keep (selected statuses) (list_tasks store))

unfoldable pub next_queued : Store → Option ScheduledTask
unfolding list
next_queued store = head? (list (some (queued ∷ [])) store)

-- The optional arguments of `update`.
pub record Changes : Type 0 where
  pub status : Option TaskStatus
  pub last_message : Option String
  pub increment_attempts : Bool

abbrev pub get_or {ℓ} : {A : Type ℓ} → Option A → A → A
get_or none default = default
get_or (some a) default = a

unfoldable pub updated : ℕ → Changes → ScheduledTask → ScheduledTask
updated now changes task = record task {
  status = get_or changes.status task.status;
  last_message = get_or changes.last_message task.last_message;
  attempts = if changes.increment_attempts then task.attempts + 1 else task.attempts;
  updated_at = now;
}

unfoldable pub update : ℕ → Changes → ScheduledTask → Store → ScheduledTask × Store
unfolding updated save_task
update now changes task store =
    (updated now changes task, save_task (updated now changes task) store)

abbrev pub to_status : TaskStatus → String → Changes
to_status status message = record {
  status = some status;
  last_message = some message;
  increment_attempts = false;
}

-- A task that is missing or ended is returned as it is.
unfoldable pub cancel : ℕ → String → Store → Option ScheduledTask × Store
unfolding get_task update
cancel now task_id store = elim (get_task task_id store) [
  | none ↦ (none, store)
  | some task ↦
      (if contains terminal_task_statuses task.status
        then (some task, store)
        else (let (task', store') =
              update now (to_status cancelled "cancelled by operator") task store in
            (some task', store')))
]

-- The loop that the three methods below share: `update` of each task of a listing.
unfoldable pub update_each : ℕ → Changes → List ScheduledTask → Store → List ScheduledTask × Store
unfolding update
update_each now changes [] store = ([], store)
update_each now changes (task ∷ tasks) store =
    let (task', store') = update now changes task store in
    let (tasks', store'') = update_each now changes tasks store' in (task' ∷ tasks', store'')

unfoldable pub recover_running : ℕ → Store → List ScheduledTask × Store
recover_running now store =
    update_each now (to_status queued "requeued after runtime restart")
      (list (some (running ∷ [])) store) store

unfoldable pub pause_running : ℕ → String → Store → List ScheduledTask × Store
pause_running now reason store =
    update_each now (to_status paused reason) (list (some (running ∷ [])) store) store

unfoldable pub resume_paused : ℕ → Store → List ScheduledTask × Store
resume_paused now store =
    update_each now (to_status queued "resumed after operator reset")
      (list (some (paused ∷ [])) store) store
