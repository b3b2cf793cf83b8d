-- ===== src/Cognition/Planner.antt =====
-- robot_brain/planning/catalog.py and robot_brain/llm/output_validator.py: what the planner may call,
-- and which of its calls enter the graph. The planner itself is a node's business, in Orchestration.
pub mod Filter
use robot_brain.Prelude.{
  Bool, true, false, not, ◌||◌, ◌&&◌, ◌&◌, ◌++◌, String, Option, none, some, List, [], ◌∷◌,
  if◌then◌else◌, keep, ◌==◌, string_eq, contains,
}
use robot_brain.Prelude.Dict.{Dict, get, keys}
use robot_brain.Core.Builtins.{Builtins}
use robot_brain.Core.Results.{ok, raise}
use robot_brain.Core.Errors.{ErrorCode, llm_unknown_skill, llm_param_validation}
use robot_brain.Core.Calls.{ToolCall}
use robot_brain.Safety.Policy.{CapabilityMetadata, allows_backend}
use robot_brain.Safety.Skills.{Skill, SkillRegistry, unitree_llm_skills}

-- `details` of the error, which no modelled code reads, is left out.
pub record BrainError : Type 0 where
  pub code : ErrorCode
  pub message : String

-- The guard of the loop in `visible_skill_names`.
abbrev pub is_visible : Option CapabilityMetadata → String → Bool
is_visible none backend = false
is_visible (some m) backend = m.planner_visible && allows_backend m.backend_allowlist backend

module _ {B : Builtins} {E : Type 0} where
  -- `name in visible_skill_names()`.
  unfoldable pub sees : SkillRegistry B E → String → String → Bool
  sees skills backend name =
      if backend == "unitree"
      then contains unitree_llm_skills name || (elim (get name skills) [
        | none ↦ false
        | some skill ↦ is_visible skill.capability_metadata backend
      ])
      else contains (keys skills) name

  -- The names of the tools that the planner is offered, in the registry's order.
  unfoldable pub planner_tools : SkillRegistry B E → String → List String
  unfolding sees
  planner_tools skills backend =
      if backend == "unitree" then keep (sees skills backend) (keys skills) else keys skills

  -- One round of the loop of `validate_tool_calls`: the call's error, if it has one.
  unfoldable pub call_error : SkillRegistry B E → ToolCall B → Option BrainError
  call_error skills call = elim (get call.skill_name skills) [
    | none ↦ some (record {
      code = llm_unknown_skill;
      message = "LLM requested unknown skill: " & call.skill_name;
    })
    | some skill ↦ elim (skill.parse_params call.parameters) [
      | raise _ ↦ some (record {
        code = llm_param_validation;
        message = "LLM provided invalid params for " & call.skill_name;
      })
      | ok _ ↦ none
    ]
  ]

  unfoldable pub validate_tool_calls :
      SkillRegistry B E → List (ToolCall B) → List (ToolCall B) × List BrainError
  unfolding call_error
  validate_tool_calls skills [] = ([], [])
  validate_tool_calls skills (call ∷ calls) =
      let (valid, errors) = validate_tool_calls skills calls in
      elim (call_error skills call) [
        | none ↦ (call ∷ valid, errors)
        | some error ↦ (valid, error ∷ errors)
      ]
