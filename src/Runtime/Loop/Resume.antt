-- ===== src/Runtime/Loop/Resume.antt =====
-- `AgentRuntime.resume` (robot_brain/runtime/loop.py), cut where it awaits and where it returns.
use robot_brain.Prelude.{
  ◌&◌, Bool, true, String, Option, none, some, [], ◌∷◌, ◌++◌, if◌then◌else◌, string_eq,
}
use robot_brain.Prelude.Dict.{get, remove}
use robot_brain.Core.Builtins.{Builtins}
use robot_brain.Core.Results.{ok}
use robot_brain.Core.Errors.{runtime_missing_checkpoint, runtime_skill_not_found}
use robot_brain.Core.World.{Observation, ProgressStatus, apply_observation}
use robot_brain.Core.Calls.{Params, SkillResult}
use robot_brain.Safety.Skills.{Skill}
use robot_brain.Safety.Validator.{ValidationResult, validate}
use robot_brain.Orchestration.Context.{Setup, M, user, set_world, save_world, outside}
use robot_brain.Orchestration.Nodes.{set_task, sense, run_skill, lift}
use robot_brain.Runtime.State.{PendingCheckpoint, RunResult, R, pure, within, ◌>>=◌, ◌>>◌}
use robot_brain.Runtime.Records.{
  simple_result, add_message, restore_thread_context, record_result, remember_result,
}

abbrev pub text_of : Bool → String
text_of approved =
    if approved then "operator approved pending action" else "operator rejected pending action"

abbrev ended : SkillResult → ProgressStatus
ended result = if result.success then ProgressStatus.completed else ProgressStatus.failed

module _ {B : Builtins} {E : Type 0} (setup : Setup B E) where
  open setup use {settings, skills, adapters}

  -- An outcome that is remembered under the checkpoint's command.
  abbrev pub settle : PendingCheckpoint B → RunResult → R B E RunResult
  settle checkpoint result = do
    remember_result setup checkpoint.command result (B.decimal 0 0)
    pure result

  unfoldable pub reject : String → PendingCheckpoint B → R B E RunResult
  reject thread_id checkpoint = do
    within (
        set_world (
          set_task λ task. record task {
            status = ProgressStatus.failed;
            last_message = "operator rejected pending action";
          }))
    within (save_world "resume:rejected" (some thread_id))
    settle checkpoint (simple_result "rejected" "operator rejected pending action" thread_id none)

  abbrev pub skill_outcome : String → SkillResult → RunResult
  skill_outcome thread_id skill_result = record {
    status = if skill_result.success then "completed" else "failed";
    message = skill_result.message;
    error_code = none;
    thread_id = some thread_id;
    decision_source = "";
    results = skill_result ∷ [];
  }

  -- The execution of an approved call, from its end: behind the last look, behind the skill, and all.
  unfoldable pub complete_pending :
      String → PendingCheckpoint B → SkillResult → Observation B → R B E RunResult
  complete_pending thread_id checkpoint skill_result observation = do
    within (set_world (apply_observation observation (some settings.object_ttl_seconds)))
    within (
        set_world (
          set_task λ task. record task {
            completed_skills = task.completed_skills ++ checkpoint.tool_call.skill_name ∷ [];
            status = ended skill_result;
            last_message = skill_result.message;
          }))
    within (save_world "resume:complete" (some thread_id))
    settle checkpoint (skill_outcome thread_id skill_result)

  unfoldable pub observe_pending : String → PendingCheckpoint B → SkillResult → R B E RunResult
  unfolding complete_pending
  observe_pending thread_id checkpoint skill_result = do
    within (save_world ("resume:execute:" & checkpoint.tool_call.skill_name) (some thread_id))
    observation ← within (outside adapters.observe)
    complete_pending thread_id checkpoint skill_result observation

  unfoldable pub run_pending : String → PendingCheckpoint B → Skill B E → Params B → R B E RunResult
  unfolding observe_pending
  run_pending thread_id checkpoint skill params = do
    skill_result ← within (run_skill skill params)
    observe_pending thread_id checkpoint skill_result

  unfoldable pub execute_pending :
      String → PendingCheckpoint B → Skill B E → ValidationResult B → R B E RunResult
  unfolding run_pending
  execute_pending thread_id checkpoint skill validation = do
    params ← within (lift (skill.parse_params validation.normalized_parameters))
    run_pending thread_id checkpoint skill params

  -- The guards behind the second validation.
  unfoldable pub approve_validated :
      String → PendingCheckpoint B → ValidationResult B → R B E RunResult
  unfolding execute_pending
  approve_validated thread_id checkpoint validation =
      if validation.allowed
      then elim (get checkpoint.tool_call.skill_name skills) [
        | none ↦ settle checkpoint (
            simple_result "blocked" "skill disappeared from registry" thread_id
              (some runtime_skill_not_found))
        | some skill ↦ execute_pending thread_id checkpoint skill validation
      ]
      else settle checkpoint
          (simple_result "blocked" validation.reason thread_id validation.error_code)

  -- The validation of a pending call, with the confirmation granted.
  abbrev pub recheck : PendingCheckpoint B → M B E (ValidationResult B)
  recheck checkpoint c =
      (validate settings skills checkpoint.tool_call c.world (adapters.now c.env) true, c)

  unfoldable pub approve : String → PendingCheckpoint B → R B E RunResult
  unfolding approve_validated
  approve thread_id checkpoint = do
    within (sense setup "resume observation: " "resume:perceive" (some thread_id))
    validation ← within (recheck checkpoint)
    approve_validated thread_id checkpoint validation

  unfoldable pub missing : String → R B E RunResult
  missing thread_id = do
    let result =
        simple_result "missing_checkpoint" "no pending checkpoint" thread_id
          (some runtime_missing_checkpoint)
    record_result setup result
    pure result

  abbrev pub pop_checkpoint : String → R B E (Option (PendingCheckpoint B))
  pop_checkpoint thread_id s =
      (ok (get thread_id s.checkpoints), record s { checkpoints = remove thread_id s.checkpoints })

  abbrev pub answer : String → Bool → Option (PendingCheckpoint B) → R B E RunResult
  answer thread_id approved none = missing thread_id
  answer thread_id approved (some checkpoint) =
      if approved then approve thread_id checkpoint else reject thread_id checkpoint

  unfoldable pub resume : String → Bool → R B E RunResult
  unfolding reject approve missing
  resume thread_id approved = do
    restore_thread_context setup thread_id
    add_message setup thread_id user (text_of approved) "confirmation"
    checkpoint ← pop_checkpoint thread_id
    answer thread_id approved checkpoint
