-- ===== src/Runtime/Scheduler/State.antt =====
-- The results, the state and the monad of robot_brain/runtime/scheduler.py.
use robot_brain.Prelude.{String, Option, string_eq}
use robot_brain.Core.Builtins.{Builtins}
use robot_brain.Core.Results.{Result, ok, raise}
use robot_brain.Core.Tasks.{ScheduledTask, status_eq}
use robot_brain.Memory.TaskQueue.{Store}
use robot_brain.Runtime.State.{Runtime, RunResult, R}

pub record SchedulerResult : Type 0 where
  pub status : String
  pub message : String
  pub task : Option ScheduledTask
  pub run_result : Option RunResult

pub record Scheduler (B : Builtins) (E : Type 0) : Type 0 where
  pub runtime : Runtime B E
  pub tasks : Store

abbrev pub S : Builtins → Type 0 → Type 0 → Type 0
S B E A = Scheduler B E → Result A × Scheduler B E

module _ {B : Builtins} {E A : Type 0} where
  abbrev pub pure : A → S B E A
  pure a s = (ok a, s)

  -- Code over the runtime, and code over the tasks.
  abbrev pub on_runtime : R B E A → S B E A
  on_runtime m s = let (r, runtime) = m s.runtime in (r, record s { runtime = runtime })

  abbrev pub on_tasks : (Store → A × Store) → S B E A
  on_tasks f s = let (a, tasks) = f s.tasks in (ok a, record s { tasks = tasks })

module _ {B : Builtins} {E : Type 0} {A C : Type 0} where
  infixl 5 ◌>>=◌
  abbrev pub ◌>>=◌ : S B E A → (A → S B E C) → S B E C
  m >>= f = λ s. let (r, s') = m s in elim r [ ok a ↦ f a s' | raise t ↦ (raise t, s') ]

module _ {B : Builtins} {E : Type 0} {C : Type 0} where
  infixl 5 ◌>>◌
  abbrev pub ◌>>◌ : S B E (Unit {0}) → S B E C → S B E C
  m >> n = m >>= λ _. n
