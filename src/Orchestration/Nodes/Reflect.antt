-- ===== src/Orchestration/Nodes/Reflect.antt =====
-- The nodes `reflect` and `finish` of robot_brain/orchestration/nodes.py.
use robot_brain.Prelude.{
  ◌&◌, Bool, true, false, not, ◌||◌, String, Option, none, some, List, [], ◌∷◌, ◌++◌, if◌then◌else◌,
  string_eq,
}
use robot_brain.Prelude.Dict.{get}
use robot_brain.Core.Builtins.{Builtins}
use robot_brain.Core.Errors.{runtime_no_result}
use robot_brain.Core.World.{WorldState, TaskProgress, ProgressStatus}
use robot_brain.Core.Calls.{ToolCall, SkillResult}
use robot_brain.Orchestration.Context.{
  Setup, M, pure, ◌>>=◌, ◌>>◌, get_context, note, save_world, set_world,
}
use robot_brain.Orchestration.Nodes.State.{
  GraphStatus, unset, awaiting_confirmation, replan, ready, completed, failed, value, is_halt,
  GraphState, set_task,
}

module _ {B : Builtins} {E : Type 0} (setup : Setup B E) where
  open setup use {settings, skills, adapters}

  -- Does the result ask for a new plan?
  abbrev pub needs_replan : Option (ToolCall B) → SkillResult → WorldState B → Bool
  needs_replan none result world = not result.success
  needs_replan (some call) result world = not result.success || (elim (get call.skill_name skills) [
    | none ↦ false
    | some skill ↦ not (skill.is_done world)
  ])

  abbrev pub call_name : Option (ToolCall B) → String
  call_name none = "unknown"
  call_name (some call) = call.skill_name

  -- The task's progress after a result: `again` asks for a new plan, `more` means calls are queued.
  unfoldable pub progress :
      Option (ToolCall B) → SkillResult → Bool → Bool → TaskProgress → TaskProgress
  progress call result again more task = record task {
    completed_skills = elim call [
      | none ↦ task.completed_skills
      | some c ↦ if again then task.completed_skills else task.completed_skills ++ c.skill_name ∷ []
    ];
    last_message = result.message;
    status = if again || more then ProgressStatus.running else ProgressStatus.completed;
  }

  abbrev pub is_queued : List (ToolCall B) → Bool
  is_queued [] = false
  is_queued (c ∷ cs) = true

  unfoldable pub reflect_result : GraphState B → SkillResult → M B E (GraphState B)
  unfolding progress
  reflect_result state result = do
    note setup ("result for " & (call_name state.current_call & (": " & result.message)))
    c ← get_context
    let again = needs_replan state.current_call result c.world
    set_world (set_task (progress state.current_call result again (is_queued state.queue)))
    if again
        then (do
          note setup "reflection requested replanning"
          save_world "reflect:replan" (some state.thread_id)
          pure (record state {
            results = state.results ++ result ∷ [];
            queue = [];
            status = replan;
          }))
        else (do
          save_world "reflect" (some state.thread_id)
          pure (record state {
            results = state.results ++ result ∷ [];
            status = if is_queued state.queue then ready else completed;
          }))

  unfoldable pub reflect : GraphState B → M B E (GraphState B)
  unfolding reflect_result
  reflect state = elim state.last_result [
    | none ↦ pure (record state {
      status = failed;
      error = some "execution produced no result";
      error_code = some runtime_no_result;
    })
    | some result ↦ reflect_result state result
  ]

  abbrev pub finish_task : GraphStatus → Option String → TaskProgress → TaskProgress
  finish_task status error task =
      if is_halt status
      then record task {
        status = elim status [
          | awaiting_confirmation ↦ ProgressStatus.paused
          | _ ↦ ProgressStatus.failed
        ];
        last_message = elim error [ none ↦ "" | some e ↦ e ];
      }
      else task

  -- `state.get("status", "completed")`
  abbrev pub final_status : GraphStatus → GraphStatus
  final_status unset = completed
  final_status status = status

  unfoldable pub finish : GraphState B → M B E (GraphState B)
  finish state = do
    let status = final_status state.status
    set_world (set_task (finish_task status state.error))
    save_world ("finish:" & value status) (some state.thread_id)
    pure (record state { status = status })
