-- ===== src/Runtime/State.antt =====
-- The state of an `AgentRuntime` (robot_brain/runtime/loop.py) over the in-memory stores of
-- runtime/checkpoint.py, memory/execution_summary.py and the context. There is no database, so
-- `_save_decision_context` returns at once.
use robot_brain.Prelude.{String, Option, List, Bool, ℤ}
use robot_brain.Prelude.Dict.{Dict}
use robot_brain.Core.Builtins.{Builtins}
use robot_brain.Core.Results.{Result, ok, raise}
use robot_brain.Core.Errors.{ErrorCode}
use robot_brain.Core.Calls.{ToolCall, SkillResult}
use robot_brain.Safety.Estop.{EmergencyStop}
use robot_brain.Orchestration.Context.{Context, M}

pub record PendingCheckpoint (B : Builtins) : Type 0 where
  pub thread_id : String
  pub command : String
  pub tool_call : ToolCall B

pub record ExecutionSummary (B : Builtins) : Type 0 where
  pub thread_id : String
  pub objective : String
  pub outcome : String
  pub skills_executed : List String
  pub duration_seconds : B.Float
  pub failure_reason : Option String
  pub memory_refs : List String
  pub decision_source : String

-- The snapshot of the world, which nothing reads back, is left out.
pub record RunResult : Type 0 where
  pub status : String
  pub message : String
  pub error_code : Option ErrorCode
  pub thread_id : Option String
  pub decision_source : String
  pub results : List SkillResult

pub data EventType : Type 0 where
  command warning interrupt confirmation : EventType

-- The text that the `StrEnum` member is.
abbrev pub value : EventType → String
value command = "command"
value warning = "warning"
value interrupt = "interrupt"
value confirmation = "confirmation"

-- The entries of an event's payload that are read, each at the type that its reader takes.
pub record Event : Type 0 where
  pub type : EventType
  pub message : String
  pub thread_id : Option String
  pub task_id : Option String
  pub approved : Bool
  pub priority : Option ℤ

pub record Runtime (B : Builtins) (E : Type 0) : Type 0 where
  pub context : Context B E
  pub checkpoints : Dict String (PendingCheckpoint B)
  pub estop : EmergencyStop
  pub summaries : List (ExecutionSummary B)
  pub restored_threads : List String

-- Code over the runtime's state; an exception leaves the state as it is when it is raised.
abbrev pub R : Builtins → Type 0 → Type 0 → Type 0
R B E A = Runtime B E → Result A × Runtime B E

module _ {B : Builtins} {E A : Type 0} where
  abbrev pub pure : A → R B E A
  pure a s = (ok a, s)

  -- Code over the context.
  abbrev pub within : M B E A → R B E A
  within m s = let (r, c) = m s.context in (r, record s { context = c })

module _ {B : Builtins} {E : Type 0} {A C : Type 0} where
  infixl 5 ◌>>=◌
  abbrev pub ◌>>=◌ : R B E A → (A → R B E C) → R B E C
  m >>= f = λ s. let (r, s') = m s in elim r [ ok a ↦ f a s' | raise t ↦ (raise t, s') ]

module _ {B : Builtins} {E : Type 0} {C : Type 0} where
  infixl 5 ◌>>◌
  abbrev pub ◌>>◌ : R B E (Unit {0}) → R B E C → R B E C
  m >> n = m >>= λ _. n

module _ {B : Builtins} {E : Type 0} where
  abbrev pub get_runtime : R B E (Runtime B E)
  get_runtime s = (ok s, s)

  abbrev pub modify : (Runtime B E → Runtime B E) → R B E (Unit {0})
  modify f s = (ok tt, f s)
