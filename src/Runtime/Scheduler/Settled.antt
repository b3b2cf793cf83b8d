-- ===== src/Runtime/Scheduler/Settled.antt =====
-- What the run of a task leaves of it (`run_next` and `_settle_task`, robot_brain/runtime/scheduler.py).
use robot_brain.Prelude.{
  ℕ, ◌≡◌, refl, ◌∙◌, ap, ◌<◌, ◌≤◌, String, some, Bool, true, false, arith, Bool-cases, inl, inr,
  ◌⊎◌, string_eq, ◌==◌, eq_sound, ltb,
}
use robot_brain.Prelude.Dict.{get, get-put_self}
use robot_brain.Core.Builtins.{Builtins}
use robot_brain.Core.Results.{Result, ok, raise}
use robot_brain.Core.Tasks.{TaskStatus, ScheduledTask}
use robot_brain.Memory.TaskQueue.{Store, update, updated, save_task}
use robot_brain.Orchestration.Context.{Setup}
use robot_brain.Runtime.State.{Runtime, RunResult, PendingCheckpoint}
use robot_brain.Runtime.Loop.{run_command}
use robot_brain.Runtime.Loop.Checkpoints.{Kept, Saved, run_command_lem}
use robot_brain.Runtime.Scheduler.{
  Scheduler, SchedulerResult, S, ◌>>=◌, settled_status, settle_task, settle, run_task,
}

-- A finished run completes the task, queues it again while attempts are left, or fails it.
abbrev pub IsOver : ScheduledTask → Type 0
IsOver task =
    (task.status ≡ TaskStatus.completed)
    ⊎ ((task.status ≡ TaskStatus.queued) × (task.attempts < task.max_attempts))
    ⊎ ((task.status ≡ TaskStatus.failed) × (task.max_attempts ≤ task.attempts))

module _ {B : Builtins} {E : Type 0} where
  -- A task after its run: it awaits the answer to a checkpoint of its thread, or its run is over and
  -- the checkpoints are as they were.
  abbrev pub Outcome : ScheduledTask → Runtime B E → Runtime B E → Type 0
  Outcome task before after =
      ((task.status ≡ TaskStatus.awaiting_confirmation)
        × ((p : PendingCheckpoint B) × (get task.thread_id after.checkpoints ≡ some p)))
      ⊎ (IsOver task × (after.checkpoints ≡ before.checkpoints))

  -- The result shows the task as it is stored; a run that raises leaves the stored tasks alone.
  abbrev pub Settled :
      ScheduledTask → Scheduler B E → Result SchedulerResult → Scheduler B E → Type 0
  Settled task s (raise t) s' =
      (s'.tasks ≡ s.tasks) × (s'.runtime.checkpoints ≡ s.runtime.checkpoints)
  Settled task s (ok r) s' =
      (t : ScheduledTask) × (r.task ≡ some t)
      × (get task.task_id s'.tasks ≡ some t)
      × Outcome t s.runtime s'.runtime

settle_task_lem :
    (now : ℕ) (task : ScheduledTask) (result : RunResult) (store : Store)
    → (let (t, store') = settle_task now task result store in
        (get task.task_id store' ≡ some t)
        × (t.status ≡ settled_status task result)
        × (t.thread_id ≡ task.thread_id)
        × (t.attempts ≡ task.attempts)
        × (t.max_attempts ≡ task.max_attempts))
unfolding settle_task update updated save_task
settle_task_lem now task result store = (get-put_self task.task_id _ store, refl, refl, refl, refl)

settled-awaiting :
    (task : ScheduledTask) (result : RunResult)
    → (result.status == "awaiting_confirmation") ≡ true
    → settled_status task result ≡ TaskStatus.awaiting_confirmation
unfolding settled_status
settled-awaiting task result e =
    let same : result.status ≡ "awaiting_confirmation" =
      eq_sound result.status "awaiting_confirmation" e in
    rw (same, settled_status) refl

settled-IsOver :
    (task t : ScheduledTask) (result : RunResult)
    → (result.status == "awaiting_confirmation") ≡ false
    → t.status ≡ settled_status task result
    → t.attempts ≡ task.attempts
    → t.max_attempts ≡ task.max_attempts
    → IsOver t
unfolding settled_status
settled-IsOver task t result e f k l = elim (Bool-cases (result.status == "completed")) [
  | inl c ↦ inl (ground (arith, c, f))
  | inr c ↦ elim (Bool-cases (ltb task.attempts task.max_attempts)) [
    | inl b ↦ inr (inl (ground (arith, c, e, b, f), ground (arith, b, k, l)))
    | inr b ↦ inr (inr (ground (arith, c, e, b, f), ground (arith, b, k, l)))
  ]
]

module _ {B : Builtins} {E : Type 0} (setup : Setup B E) where
  outcome :
      (task t : ScheduledTask) (result : RunResult) (before after : Runtime B E)
      → (task.thread_id == "") ≡ false
      → t.status ≡ settled_status task result
      → t.thread_id ≡ task.thread_id
      → t.attempts ≡ task.attempts
      → t.max_attempts ≡ task.max_attempts
      → (b : Bool) → (result.status == "awaiting_confirmation") ≡ b
      → Kept b task.thread_id task.objective before.checkpoints after.checkpoints
      → Outcome t before after
  outcome task t result before after n st th at mx true e (call, k) =
      let found =
        ap (λ d. get task.thread_id d) k ∙ get-put_self task.thread_id _ before.checkpoints in
      inl (st ∙ settled-awaiting task result e, (_, ap (λ i. get i after.checkpoints) th ∙ found))
  outcome task t result before after n st th at mx false e k =
      inr (settled-IsOver task t result e st at mx, k)

  settle_lem :
      (now : ℕ) (task : ScheduledTask) (result : RunResult) (before : Scheduler B E)
      (s : Scheduler B E)
      → (task.thread_id == "") ≡ false
      → s.tasks ≡ before.tasks
      → Saved task.thread_id task.objective before.runtime.checkpoints (ok result) s.runtime
      → (let (r, s') = settle setup now task result s in Settled task before r s')
  unfolding settle
  settle_lem now task result before s n e h =
      let (g, st, th, at, mx) = settle_task_lem now task result s.tasks in
      let t = (settle_task now task result s.tasks).0 in
      let kept = outcome task t result before.runtime s.runtime n st th at mx _ refl h in
      (t, refl, g, kept)

  after_run :
      (now : ℕ) (task : ScheduledTask) (s : Scheduler B E)
      → (task.thread_id == "") ≡ false
      → (r : Result RunResult) (runtime : Runtime B E)
      → Saved task.thread_id task.objective s.runtime.checkpoints r runtime
      → (let m : S B E RunResult = λ s. (r, record s { runtime = runtime }) in
          let (r', s') = (m >>= settle setup now task) s in Settled task s r' s')
  after_run now task s n (ok result) runtime h =
      settle_lem now task result s (record s { runtime = runtime }) n refl h
  after_run now task s n (raise t) runtime h = (refl, h)

  -- The task of `run_task` is settled if the run returns: its result shows the task as it is stored,
  -- which awaits the answer to a stored checkpoint of its thread, or is completed, or is queued
  -- again with attempts left, or has failed with none left, and then no checkpoint has changed. If
  -- the run raises, the stored tasks and the checkpoints are as before. The thread has a name.
  pub run_task_lem :
      (uuid : String) (duration : B.Float) (now : ℕ) (task : ScheduledTask) (s : Scheduler B E)
      → (task.thread_id == "") ≡ false
      → (let (r, s') = run_task setup uuid duration now task s in Settled task s r s')
  unfolding run_task
  run_task_lem uuid duration now task s n =
      let (r, runtime) =
        run_command setup uuid duration task.objective (some task.thread_id) s.runtime in
      let h = run_command_lem setup uuid duration task.objective (some task.thread_id) s.runtime in
      after_run now task s n r runtime (ground (arith, n, h))
