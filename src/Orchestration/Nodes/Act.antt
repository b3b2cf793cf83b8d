-- ===== src/Orchestration/Nodes/Act.antt =====
-- The nodes `select_action`, `validate` and `execute` of robot_brain/orchestration/nodes.py.
use robot_brain.Prelude.{◌+◌, ◌&◌, String, none, some, [], ◌∷◌, if◌then◌else◌, ltb, string_eq}
use robot_brain.Prelude.Dict.{get}
use robot_brain.Core.Builtins.{Builtins}
use robot_brain.Core.Errors.{runtime_max_iterations, runtime_skill_not_found}
use robot_brain.Core.Calls.{Params, ToolCall, SkillResult}
use robot_brain.Safety.Skills.{Skill}
use robot_brain.Safety.Validator.{ValidationResult, validate}
use robot_brain.Orchestration.Context.{Setup, M, pure, ◌>>=◌, ◌>>◌, get_context, note, save_world}
use robot_brain.Orchestration.Nodes.State.{
  GraphStatus, validated, awaiting_confirmation, blocked, executed, completed, failed, value,
  is_halt, GraphState, lift,
}

module _ {B : Builtins} {E : Type 0} (setup : Setup B E) where
  open setup use {settings, skills, adapters}

  unfoldable pub select_action : GraphState B → GraphState B
  select_action state =
      let iterations = state.iterations + 1 in
      if ltb settings.max_loop_iterations iterations
      then record state {
        current_call = none;
        error = some "max_loop_iterations exceeded";
        error_code = some runtime_max_iterations;
        status = failed;
      }
      else elim state.queue [
        | [] ↦ record state {
          current_call = none;
          queue = [];
          iterations = iterations;
          status = if is_halt state.status then state.status else completed;
        }
        | call ∷ rest ↦ record state {
          current_call = some call;
          queue = rest;
          iterations = iterations;
        }
      ]

  abbrev pub verdict : ValidationResult B → GraphStatus
  verdict v =
      if v.requires_confirmation
      then awaiting_confirmation
      else (if v.allowed then validated else blocked)

  abbrev pub judged : GraphState B → ValidationResult B → GraphState B
  judged state v = record state {
    validation = some v;
    status = verdict v;
    error = some v.reason;
    error_code = v.error_code;
  }

  -- `validate`, when there is a call.
  unfoldable pub check_call : GraphState B → ToolCall B → M B E (GraphState B)
  check_call state call = do
    c ← get_context
    validation ←
        lift (validate settings skills call c.world (adapters.now c.env) state.confirmation_granted)
    note setup (
        "validation for "
        & (call.skill_name
            & (": " & (value (verdict validation) & (" (" & (validation.reason & ")"))))))
    pure (judged state validation)

  unfoldable pub validate_node : GraphState B → M B E (GraphState B)
  unfolding check_call
  validate_node state = elim state.current_call [
    | none ↦ pure (record state { status = completed })
    | some call ↦ check_call state call
  ]

-- `skill.execute(params, robot, world)`.
module _ {B : Builtins} {E : Type 0} where
  abbrev pub run_skill : Skill B E → Params B → M B E SkillResult
  run_skill skill params c =
      let (result, world, env) = skill.execute params (c.world, c.env) in
      (result, record c { world = world; env = env })

module _ {B : Builtins} {E : Type 0} (setup : Setup B E) where
  open setup use {settings, skills, adapters}

  abbrev blocked_state : GraphState B → GraphState B
  blocked_state state = record state { status = blocked }

  abbrev unknown_skill : GraphState B → String → GraphState B
  unknown_skill state name = record state {
    status = blocked;
    error = some ("unknown skill: " & name);
    error_code = some runtime_skill_not_found;
  }

  -- The part of `execute` behind its first guard.
  unfoldable pub execute_call :
      GraphState B → ToolCall B → ValidationResult B → M B E (GraphState B)
  execute_call state call validation = elim (get call.skill_name skills) [
    | none ↦ pure (unknown_skill state call.skill_name)
    | some skill ↦ do
      params ← lift (skill.parse_params validation.normalized_parameters)
      result ← run_skill skill params
      save_world ("execute:" & call.skill_name) (some state.thread_id)
      pure (record state { last_result = some result; status = executed })
  ]

  unfoldable pub execute : GraphState B → M B E (GraphState B)
  unfolding execute_call
  execute state = elim state.current_call [
    | none ↦ pure (blocked_state state)
    | some call ↦ elim state.validation [
      | none ↦ pure (blocked_state state)
      | some validation ↦
          if validation.allowed
          then execute_call state call validation
          else pure (blocked_state state)
    ]
  ]
