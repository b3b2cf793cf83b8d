-- ===== src/Runtime/Scheduler.antt =====
-- robot_brain/runtime/scheduler.py. The state is the runtime's and the task store's; no other code
-- runs while a method awaits. Fresh `uuid4`s, the times of the updates and the duration of a run are
-- arguments.
mod State
pub mod Authority
pub mod Settled
pub use robot_brain.Runtime.Scheduler.State.{
  SchedulerResult, Scheduler, S, pure, on_runtime, on_tasks, ◌>>=◌, ◌>>◌,
}
use robot_brain.Prelude.{
  ℕ, zero, suc, ◌+◌, ◌&◌, Bool, true, false, ◌||◌, String, Option, none, some, List, [], ◌∷◌, ℤ,
  pos, if◌then◌else◌, ltb, nat_beq, ◌==◌, string_eq,
}
use robot_brain.Prelude.Dict.{remove}
use robot_brain.Core.Builtins.{Builtins}
use robot_brain.Core.Results.{Result, ok, raise}
use robot_brain.Core.Tasks.{TaskStatus, ScheduledTask, status_eq}
use robot_brain.Core.Tasks as tasks
use robot_brain.Memory.TaskQueue.{
  Store, Changes, enqueue, get_task, update, cancel, next_queued, pause_running, recover_running,
  resume_paused, to_status, get_or,
}
use robot_brain.Orchestration.Context.{Setup}
use robot_brain.Runtime.State.{Runtime, RunResult, R, Event, EventType}
use robot_brain.Runtime.Loop as loop

abbrev pub plain : String → String → SchedulerResult
plain status message = record { status = status; message = message; task = none; run_result = none }

abbrev pub of_task : ScheduledTask → RunResult → SchedulerResult
of_task task result = record {
  status = tasks.value task.status;
  message = task.last_message;
  task = some task;
  run_result = some result;
}

abbrev pub recharged : RunResult → SchedulerResult
recharged result = record {
  status = "auto_recharge";
  message = result.message;
  task = none;
  run_result = some result;
}

-- The status of a task after a run.
unfoldable pub settled_status : ScheduledTask → RunResult → TaskStatus
settled_status task result =
    if result.status == "completed"
    then TaskStatus.completed
    else (if result.status == "awaiting_confirmation"
        then TaskStatus.awaiting_confirmation
        else (if ltb task.attempts task.max_attempts then TaskStatus.queued else TaskStatus.failed))

unfoldable pub settle_task : ℕ → ScheduledTask → RunResult → Store → ScheduledTask × Store
unfolding settled_status
settle_task now task result store =
    update now (to_status (settled_status task result) result.message) task store

abbrev pub to_running : Changes
to_running = record {
  status = some TaskStatus.running;
  last_message = none;
  increment_attempts = true;
}

abbrev pub recharge_command : String
recharge_command = "dock at home for automatic recharge"

module _ {B : Builtins} {E : Type 0} (setup : Setup B E) where
  open setup use {settings}

  -- `AgentScheduler.__init__`
  unfoldable pub start : ℕ → S B E (List ScheduledTask)
  start now = on_tasks (recover_running now)

  -- `max_attempts or settings.default_task_max_attempts`
  abbrev attempts_or : Option ℕ → ℕ
  attempts_or none = settings.default_task_max_attempts
  attempts_or (some n) = if nat_beq n 0 then settings.default_task_max_attempts else n

  unfoldable pub submit :
      String → ℕ → String → ℤ → Option ℕ → String → Option String → S B E ScheduledTask
  submit uuid now objective priority max_attempts source thread_id s =
      elim (enqueue uuid now objective priority (attempts_or max_attempts) source thread_id
        s.tasks) [
          | none ↦ (raise "max_attempts", s)
          | some (task, store) ↦ (ok task, record s { tasks = store })
        ]

  -- `cancel`: the checkpoint of a task that awaits its confirmation goes too.
  abbrev pop_of : Option ScheduledTask → Runtime B E → Runtime B E
  pop_of none runtime = runtime
  pop_of (some task) runtime = elim task.status [
    | TaskStatus.awaiting_confirmation ↦ record runtime {
      checkpoints = remove task.thread_id runtime.checkpoints;
    }
    | _ ↦ runtime
  ]

  unfoldable pub cancel_task : ℕ → String → S B E (Option ScheduledTask)
  cancel_task now task_id s =
      let (task, store) = cancel now task_id s.tasks in
      (ok task, record s { runtime = pop_of (get_task task_id s.tasks) s.runtime; tasks = store })

  unfoldable pub settle : ℕ → ScheduledTask → RunResult → S B E SchedulerResult
  settle now task result = do
    task' ← on_tasks (settle_task now task result)
    pure (of_task task' result)

  -- A run of a task that is marked as running.
  unfoldable pub run_task : String → B.Float → ℕ → ScheduledTask → S B E SchedulerResult
  unfolding settle
  run_task uuid duration now task = do
    result ← on_runtime (loop.run_command setup uuid duration task.objective (some task.thread_id))
    settle now task result

  unfoldable pub recharge : String → B.Float → S B E SchedulerResult
  recharge uuid duration = do
    result ←
        on_runtime
          (loop.run_command setup uuid duration recharge_command (some ("auto-recharge-" & uuid)))
    pure (recharged result)

  unfoldable pub take : String → B.Float → ℕ → ℕ → Option ScheduledTask → S B E SchedulerResult
  unfolding run_task
  take uuid duration began ended none = pure (plain "idle" "no queued tasks")
  take uuid duration began ended (some task) = do
    task' ← on_tasks (update began to_running task)
    run_task uuid duration ended task'

  -- `run_next` behind its look at the world.
  unfoldable pub dispatch : String → B.Float → ℕ → ℕ → S B E SchedulerResult
  unfolding recharge take
  dispatch uuid duration began ended s =
      if s.runtime.context.world.estop_active
      then (ok (plain "paused" "emergency stop is active"), s)
      else (if B.le s.runtime.context.world.battery_level settings.low_battery_threshold
          then recharge uuid duration s
          else take uuid duration began ended (next_queued s.tasks) s)

  unfoldable pub run_next : String → B.Float → ℕ → ℕ → S B E SchedulerResult
  unfolding dispatch
  run_next uuid duration began ended = do
    on_runtime (loop.refresh_world setup "scheduler:poll" none)
    dispatch uuid duration began ended

  abbrev is_last : SchedulerResult → Bool
  is_last result =
      result.status == "idle"
      || result.status == "paused"
      || result.status == "awaiting_confirmation"

  -- What one cycle of `run_until_idle` takes from outside.
  abbrev pub Cycle : Type 0
  Cycle = String × B.Float × ℕ × ℕ

  abbrev pub go_on : S B E (List SchedulerResult) → SchedulerResult → S B E (List SchedulerResult)
  go_on rest result =
      if is_last result then pure (result ∷ []) else rest >>= λ results. pure (result ∷ results)

  -- A cycle for each of at most `max_cycles`.
  unfoldable pub run_until_idle : List Cycle → S B E (List SchedulerResult)
  unfolding run_next
  run_until_idle [] = pure []
  run_until_idle ((uuid, duration, began, ended) ∷ cycles) =
      run_next uuid duration began ended >>= go_on (run_until_idle cycles)

  unfoldable pub resume_task : ℕ → String → Bool → S B E SchedulerResult
  unfolding settle
  resume_task now task_id approved s = elim (get_task task_id s.tasks) [
    | none ↦ (ok (plain "missing_task" "task does not exist"), s)
    | some task ↦
        if task.status == TaskStatus.awaiting_confirmation
        then (on_runtime (loop.resume setup task.thread_id approved) >>= settle now task) s
        else (
          ok (record {
            status = "invalid_task_state";
            message = "task is " & tasks.value task.status;
            task = some task;
            run_result = none;
          }),
          s,
        )
  ]

  abbrev queued_result : String → ScheduledTask → SchedulerResult
  queued_result message task = record {
    status = tasks.value task.status;
    message = message;
    task = some task;
    run_result = none;
  }

  abbrev text_or : Option String → String
  text_or none = ""
  text_or (some t) = t

  unfoldable pub handle_event :
      (String → E → Result (Unit {0}) × E) → String → B.Float → ℕ → Event → S B E SchedulerResult
  unfolding submit resume_task
  handle_event halt uuid duration now event = elim event.type [
    | EventType.interrupt ↦ (do
      result ← on_runtime (loop.handle_event setup halt uuid duration event)
      on_tasks (pause_running now event.message) >>= λ paused. pure (record {
        status = result.status;
        message = result.message;
        task = none;
        run_result = some result;
      }))
    | EventType.confirmation ↦ resume_task now (text_or event.task_id) event.approved
    | EventType.warning ↦ (do
      task ←
          submit uuid now ("report warning: " & event.message) (get_or event.priority (pos 100))
            none "warning" event.thread_id
      pure (queued_result "warning task queued" task))
    | EventType.command ↦ (do
      task ←
          submit uuid now event.message (get_or event.priority (pos 0)) none "command"
            event.thread_id
      pure (queued_result "command task queued" task))
  ]

  unfoldable pub reset_estop : ℕ → S B E (List ScheduledTask)
  reset_estop now = do on_runtime loop.reset_estop; on_tasks (resume_paused now)
