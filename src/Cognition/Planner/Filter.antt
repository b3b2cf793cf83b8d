-- ===== src/Cognition/Planner/Filter.antt =====
-- The loop of `validate_tool_calls` (robot_brain/llm/output_validator.py) as a filter.
use robot_brain.Prelude.{
  ◌+◌, ◌≡◌, refl, Bool, true, false, none, some, List, [], ◌∷◌, keep, length, arith, string_eq,
}
use robot_brain.Prelude.Dict.{get}
use robot_brain.Core.Builtins.{Builtins}
use robot_brain.Core.Results.{Result, ok, raise}
use robot_brain.Core.Calls.{ToolCall}
use robot_brain.Safety.Skills.{SkillRegistry}
use robot_brain.Cognition.Planner.{call_error, validate_tool_calls}

module _ {B : Builtins} {E : Type 0} (skills : SkillRegistry B E) where
  abbrev pub is_ok : {A : Type 0} → Result A → Bool
  is_ok (ok a) = true
  is_ok (raise t) = false

  -- Registered, with parameters that the skill accepts.
  abbrev pub is_callable : ToolCall B → Bool
  is_callable call = elim (get call.skill_name skills) [
    | none ↦ false
    | some skill ↦ is_ok (skill.parse_params call.parameters)
  ]

  -- The calls that enter the graph are the callable ones, in their order; each of the others leaves
  -- one error.
  pub validate_tool_calls_lem :
      (calls : List (ToolCall B))
      → ((validate_tool_calls skills calls).0 ≡ keep is_callable calls)
        × (length (validate_tool_calls skills calls).1 + length (keep is_callable calls)
            ≡ length calls)
  unfolding validate_tool_calls call_error
  validate_tool_calls_lem [] = (refl, refl)
  validate_tool_calls_lem (call ∷ calls) = ground (arith, validate_tool_calls_lem calls)
