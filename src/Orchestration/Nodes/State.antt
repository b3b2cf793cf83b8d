-- ===== src/Orchestration/Nodes/State.antt =====
-- The state of the graph (robot_brain/orchestration/state.py) and the texts that the nodes make of it.
use robot_brain.Prelude.{
  ℕ, ◌&◌, Bool, true, false, String, Option, none, some, List, [], ◌∷◌, map, if◌then◌else◌, ◌==◌,
  string_eq,
}
use robot_brain.Core.Builtins.{Builtins}
use robot_brain.Core.Results.{Result}
use robot_brain.Core.Errors.{ErrorCode, code_text}
use robot_brain.Core.World.{WorldState, TaskProgress, ProgressStatus}
use robot_brain.Core.Calls.{ToolCall, SkillResult, Source, fast, slow}
use robot_brain.Safety.Validator.{ValidationResult}
use robot_brain.Cognition.Planner.{BrainError}
use robot_brain.Orchestration.Context.{
  Setup, M, Role, system, ConversationMessage, pure, ◌>>◌, note,
}

-- The texts that a node leaves under "status"; `unset` is the missing key.
pub data GraphStatus : Type 0 where
  unset perceived decided validated awaiting_confirmation blocked executed replan ready :
      GraphStatus
  completed failed : GraphStatus

abbrev pub value : GraphStatus → String
value unset = ""
value perceived = "perceived"
value decided = "decided"
value validated = "validated"
value awaiting_confirmation = "awaiting_confirmation"
value blocked = "blocked"
value executed = "executed"
value replan = "replan"
value ready = "ready"
value completed = "completed"
value failed = "failed"

-- `status in {"blocked", "failed", "awaiting_confirmation"}`
abbrev pub is_halt : GraphStatus → Bool
is_halt blocked = true
is_halt failed = true
is_halt awaiting_confirmation = true
is_halt _ = false

-- The dump of the observation, which nothing reads, is left out.
pub record GraphState (B : Builtins) : Type 0 where
  pub command : String
  pub thread_id : String
  pub queue : List (ToolCall B)
  pub current_call : Option (ToolCall B)
  pub validation : Option (ValidationResult B)
  pub last_result : Option SkillResult
  pub results : List SkillResult
  pub status : GraphStatus
  pub error : Option String
  pub error_code : Option ErrorCode
  pub decision_source : Option Source
  pub confirmation_granted : Bool
  pub iterations : ℕ
  pub plan_cycles : ℕ

abbrev pub error_texts : List BrainError → List String
error_texts errors =
    map (λ e. "LLM output rejected: [" & (code_text e.code & ("] " & e.message))) errors

abbrev pub source_text : Source → String
source_text fast = "fast"
source_text slow = "slow"

-- The turns of a conversation that the language model is shown.
abbrev pub turns : List ConversationMessage → List (Role × String)
turns [] = []
turns (m ∷ ms) = elim m.role [ system ↦ turns ms | _ ↦ (m.role, m.content) ∷ turns ms ]

module _ {B : Builtins} where
  abbrev pub names : List (ToolCall B) → List String
  names calls = map (λ call. call.skill_name) calls

  abbrev pub set_task : (TaskProgress → TaskProgress) → WorldState B → WorldState B
  set_task f world = elim world.current_task [
    | none ↦ world
    | some task ↦ record world { current_task = some (f task) }
  ]

  -- The task of a run that begins or goes on with a command.
  unfoldable pub start_task : String → WorldState B → WorldState B
  start_task command world =
      let new : TaskProgress = record {
        objective = command;
        status = ProgressStatus.running;
        completed_skills = [];
        last_message = "";
      } in
      record world {
        current_task = elim world.current_task [
          | none ↦ some new
          | some task ↦
              if task.objective == command
              then some (record task { status = ProgressStatus.running })
              else some new
        ];
      }

module _ {B : Builtins} {E : Type 0} where
  abbrev pub notes : Setup B E → List String → M B E (Unit {0})
  notes setup [] = pure tt
  notes setup (e ∷ es) = note setup e >> notes setup es

module _ {B : Builtins} {E : Type 0} {A : Type 0} where
  abbrev pub lift : Result A → M B E A
  lift r c = (r, c)
