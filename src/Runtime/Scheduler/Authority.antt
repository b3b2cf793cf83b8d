-- ===== src/Runtime/Scheduler/Authority.antt =====
-- What the scheduler may do outside without the operator (robot_brain/runtime/scheduler.py).
use robot_brain.Prelude.{
  ℕ, ◌&◌, String, Option, some, none, List, [], ◌∷◌, arith, inl, inr, string_eq,
}
use robot_brain.Core.Builtins.{Builtins}
use robot_brain.Core.Results.{Result-cases}
use robot_brain.Core.Tasks.{ScheduledTask}
use robot_brain.Memory.TaskQueue.{next_queued, update}
use robot_brain.Orchestration.Context.{Setup}
use robot_brain.Orchestration.Hoare.{Any, Holds-env}
use robot_brain.Orchestration.Effects.{sense-Triple}
use robot_brain.Orchestration.Graph.Careful.{Careful}
use robot_brain.Runtime.State.{RunResult}
use robot_brain.Runtime.Loop.{run_command, refresh_world}
use robot_brain.Runtime.Loop.Authority.{run_command_keeps}
use robot_brain.Runtime.Scheduler.{
  Scheduler, SchedulerResult, S, Cycle, on_runtime, ◌>>=◌, pure, recharge, recharged, take,
  run_task, settle, dispatch, run_next, go_on, run_until_idle, recharge_command, to_running,
}

module _ {B : Builtins} {E : Type 0} (Q : E → Type 0) where
  -- Code that keeps `Q` of the outside, however it ends.
  abbrev Keeps : {A : Type 0} → S B E A → Type 0
  Keeps m = (s : Scheduler B E) → Q s.runtime.context.env → Q (m s).1.runtime.context.env

  Keeps-bind :
      {A C : Type 0} (m : S B E A) (f : A → S B E C)
      → Keeps m
      → ((a : A) → Keeps (f a))
      → Keeps (m >>= f)
  Keeps-bind m f h k s q = elim (Result-cases (m s).0) [
    | inl (a, e) ↦ ground (arith, e, k a (m s).1 (h s q))
    | inr (t, e) ↦ ground (arith, e, h s q)
  ]

module _ {B : Builtins} {E : Type 0} (setup : Setup B E) (Q : E → Type 0)
    (careful : Careful setup Q) where
  command-Keeps :
      (uuid : String) (duration : B.Float) (command : String) (given : Option String)
      → Keeps Q (on_runtime (run_command setup uuid duration command given))
  command-Keeps uuid duration command given s q =
      run_command_keeps setup Q uuid duration command given s.runtime careful q

  refresh-Keeps :
      (reason : String) (thread_id : Option String)
      → Keeps Q (on_runtime (refresh_world setup reason thread_id))
  unfolding refresh_world
  refresh-Keeps reason thread_id s q = Holds-env Q Any _ _ (
      sense-Triple setup Q (reason & " observation: ") reason thread_id careful.quiet.senses
        s.runtime.context q tt)

  settle-Keeps :
      (now : ℕ) (task : ScheduledTask) (result : RunResult) → Keeps Q (settle setup now task result)
  unfolding settle
  settle-Keeps now task result s q = q

  run_task-Keeps :
      (uuid : String) (duration : B.Float) (now : ℕ) (task : ScheduledTask)
      → Keeps Q (run_task setup uuid duration now task)
  unfolding run_task
  run_task-Keeps uuid duration now task =
      Keeps-bind Q
        (on_runtime (run_command setup uuid duration task.objective (some task.thread_id)))
        (settle setup now task) (command-Keeps uuid duration task.objective (some task.thread_id))
        (settle-Keeps now task)

  take-Keeps :
      (uuid : String) (duration : B.Float) (began ended : ℕ) (task : Option ScheduledTask)
      → Keeps Q (take setup uuid duration began ended task)
  unfolding take
  take-Keeps uuid duration began ended none s q = q
  take-Keeps uuid duration began ended (some task) s q =
      run_task-Keeps uuid duration ended (update began to_running task s.tasks).0 _ q

  recharge-Keeps : (uuid : String) (duration : B.Float) → Keeps Q (recharge setup uuid duration)
  unfolding recharge
  recharge-Keeps uuid duration =
      Keeps-bind Q
        (on_runtime
          (run_command setup uuid duration recharge_command (some ("auto-recharge-" & uuid))))
        (λ result. pure (recharged result))
        (command-Keeps uuid duration recharge_command (some ("auto-recharge-" & uuid)))
        (λ result s q. q)

  dispatch-Keeps :
      (uuid : String) (duration : B.Float) (began ended : ℕ)
      → Keeps Q (dispatch setup uuid duration began ended)
  unfolding dispatch
  dispatch-Keeps uuid duration began ended s q = ground (
    arith,
    q,
    recharge-Keeps uuid duration s q,
    take-Keeps uuid duration began ended (next_queued s.tasks) s q,
  )

  run_next-Keeps :
      (uuid : String) (duration : B.Float) (began ended : ℕ)
      → Keeps Q (run_next setup uuid duration began ended)
  unfolding run_next
  run_next-Keeps uuid duration began ended =
      Keeps-bind Q (on_runtime (refresh_world setup "scheduler:poll" none))
        (λ _. dispatch setup uuid duration began ended) (refresh-Keeps "scheduler:poll" none)
        (λ _. dispatch-Keeps uuid duration began ended)

  go_on-Keeps :
      (rest : S B E (List SchedulerResult))
      → Keeps Q rest
      → (result : SchedulerResult) → Keeps Q (go_on setup rest result)
  go_on-Keeps rest h result s q =
      ground (arith, q, Keeps-bind Q rest (λ results. pure (result ∷ results)) h (λ _ s q. q) s q)

  run_until_idle-Keeps : (cycles : List (Cycle setup)) → Keeps Q (run_until_idle setup cycles)
  unfolding run_until_idle
  run_until_idle-Keeps [] = λ s q. q
  run_until_idle-Keeps ((uuid, duration, began, ended) ∷ cycles) =
      Keeps-bind Q (run_next setup uuid duration began ended)
        (go_on setup (run_until_idle setup cycles)) (run_next-Keeps uuid duration began ended)
        (go_on-Keeps (run_until_idle setup cycles) (run_until_idle-Keeps cycles))

-- The scheduler works without the operator only within the rules: a property of the outside that the
-- sensors and the planner keep, and that every execution keeps which the rules permit without a
-- confirmation, is kept by any number of its cycles, whatever tasks are queued and however the
-- runs end.
pub run_until_idle_keeps :
    {B : Builtins} {E : Type 0} (setup : Setup B E) (Q : E → Type 0) (cycles : List (Cycle setup))
    (s : Scheduler B E)
    → Careful setup Q
    → Q s.runtime.context.env
    → Q (run_until_idle setup cycles s).1.runtime.context.env
run_until_idle_keeps setup Q cycles s careful = run_until_idle-Keeps setup Q careful cycles s
