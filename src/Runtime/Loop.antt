-- ===== src/Runtime/Loop.antt =====
-- The entry points of `AgentRuntime` (robot_brain/runtime/loop.py). A fresh `uuid4` is an argument, and
-- `halt` is the robot's `stop`.
mod Command
mod Resume
pub mod Checkpoints
pub mod Answers
pub mod Authority
pub mod Approvals
pub use robot_brain.Runtime.Loop.Command.{is_awaiting, initial, graph_result}
unfoldable pub use robot_brain.Runtime.Loop.Command.{
  pending, run_graph, save_checkpoint, conclude, run_command,
}
pub use robot_brain.Runtime.Loop.Resume.{
  text_of, settle, skill_outcome, recheck, pop_checkpoint, answer,
}
unfoldable pub use robot_brain.Runtime.Loop.Resume.{
  reject, complete_pending, observe_pending, run_pending, execute_pending, approve_validated,
  approve, missing, resume,
}
use robot_brain.Prelude.{
  ℕ, suc, ◌&◌, Bool, true, false, String, Option, none, some, List, [], ◌∷◌, ◌++◌, if◌then◌else◌,
  string_eq,
}
use robot_brain.Prelude.Dict.{get, put, remove}
use robot_brain.Core.Builtins.{Builtins}
use robot_brain.Core.Results.{Result, ok, raise}
use robot_brain.Core.Errors.{runtime_missing_checkpoint, runtime_skill_not_found}
use robot_brain.Core.World.{
  WorldState, Observation, TaskProgress, ProgressStatus, apply_observation,
}
use robot_brain.Core.Calls.{ToolCall, Params, SkillResult}
use robot_brain.Safety.Skills.{Skill}
use robot_brain.Safety.Validator.{ValidationResult, validate}
use robot_brain.Safety.Estop.{EmergencyStop, activate, reset}
use robot_brain.Memory.TaskQueue.{or_text}
use robot_brain.Orchestration.Context.{
  Context, Setup, M, user, system, set_world, save_world, outside,
}
use robot_brain.Orchestration.Nodes.{
  GraphState, GraphStatus, unset, awaiting_confirmation, set_task, sense, run_skill, lift,
}
use robot_brain.Orchestration.Graph.{ainvoke}
use robot_brain.Runtime.State.{
  Runtime, PendingCheckpoint, RunResult, Event, EventType, value, R, pure, within, ◌>>=◌, ◌>>◌,
  get_runtime, modify,
}
use robot_brain.Runtime.Records.{
  simple_result, to_result, add_message, restore_thread_context, record_result, remember_result,
  save_execution_summary,
}

module _ {B : Builtins} {E : Type 0} (setup : Setup B E) where
  open setup use {settings, skills, adapters}

  -- `estop.activate` on the runtime's robot and world.
  unfoldable pub activate_estop : (String → E → Result (Unit {0}) × E) → String → R B E (Unit {0})
  unfolding activate
  activate_estop halt reason s =
      let (r, estop, world, env) = activate halt reason (s.context.world, s.context.env) in
      (r, record s { estop = estop; context = record s.context { world = world; env = env } })

  unfoldable pub interrupted :
      (String → E → Result (Unit {0}) × E) → String → Event → R B E RunResult
  unfolding activate_estop
  interrupted halt thread_id event = do
    activate_estop halt event.message
    within (save_world "event:interrupt" (some thread_id))
    let result = simple_result "interrupted" event.message thread_id none
    remember_result setup event.message result (B.decimal 0 0)
    pure result

  unfoldable pub ignored : String → EventType → R B E RunResult
  ignored thread_id type = do
    let result =
        simple_result "ignored" ("event type is not actionable: " & value type) thread_id none
    record_result setup result
    pure result

  unfoldable pub handle_event :
      (String → E → Result (Unit {0}) × E) → String → B.Float → Event → R B E RunResult
  unfolding interrupted ignored run_command
  handle_event halt uuid duration event =
      let thread_id = or_text event.thread_id uuid in
      elim event.type [
        | EventType.command ↦ run_command setup uuid duration event.message event.thread_id
        | EventType.interrupt ↦ (do
          restore_thread_context setup thread_id
          add_message setup thread_id system event.message "event:interrupt"
          interrupted halt thread_id event)
        | _ ↦ (do
          restore_thread_context setup thread_id
          add_message setup thread_id system event.message ("event:" & value event.type)
          ignored thread_id event.type)
      ]

  unfoldable pub refresh_world : String → Option String → R B E (Unit {0})
  refresh_world reason thread_id = within (sense setup (reason & " observation: ") reason thread_id)

module _ {B : Builtins} {E : Type 0} where
  unfoldable pub reset_estop : R B E (Unit {0})
  unfolding reset
  reset_estop = do
    modify λ s.
        let (estop, world) = reset s.context.world in
        record s { estop = estop; context = record s.context { world = world } }
    within (save_world "estop:reset" none)
