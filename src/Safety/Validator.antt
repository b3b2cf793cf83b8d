-- ===== src/Safety/Validator.antt =====
-- `SafetyValidator.validate` of robot_brain/safety/validator.py. It may raise, where the motion check
-- reads a parameter that is not there.
use robot_brain.Prelude.{
  ℕ, Bool, true, false, not, ◌&&◌, ◌&◌, String, Option, none, some, List, [], ◌∷◌, string_eq,
  if◌then◌else◌, contains,
}
use robot_brain.Prelude.Dict.{get}
use robot_brain.Core.Builtins.{Builtins}
use robot_brain.Core.Results.{Result, ok, raise, ◌>>=◌}
use robot_brain.Core.Errors.{
  ErrorCode, safety_not_whitelisted, safety_invalid_params, safety_estop_active,
  safety_battery_critical, safety_precondition_failed, safety_motion_violation,
  safety_confirmation_required,
}
use robot_brain.Core.World.{WorldState}
use robot_brain.Core.Calls.{Params, ToolCall}
use robot_brain.Core.Settings.{Settings}
use robot_brain.Safety.Policy.{
  CapabilityMetadata, PolicyDecision, check_backend, check_state, check_confirmation,
}
use robot_brain.Safety.Skills.{Skill, SkillRegistry}
use robot_brain.Safety.Motion.{validate_motion, validate_backend}

pub record ValidationResult (B : Builtins) : Type 0 where
  pub allowed : Bool
  pub reason : String
  pub error_code : Option ErrorCode
  pub requires_confirmation : Bool
  pub normalized_parameters : Params B

abbrev pub always_allowed : List String
always_allowed = "stop" ∷ "dock" ∷ "report" ∷ []

module _ {B : Builtins} where
  abbrev pub refuse : String → Option ErrorCode → ValidationResult B
  refuse reason code = record {
    allowed = false;
    reason = reason;
    error_code = code;
    requires_confirmation = false;
    normalized_parameters = [];
  }

  abbrev pub accept : Params B → ValidationResult B
  accept normalized = record {
    allowed = true;
    reason = "";
    error_code = none;
    requires_confirmation = false;
    normalized_parameters = normalized;
  }

  -- A denial by the policy, or none.
  abbrev pub denial : PolicyDecision → Option (ValidationResult B)
  denial d = if d.allowed then none else some (refuse d.reason d.error_code)

  -- Stage 1: the backend.
  unfoldable pub backend_stage :
      Settings B → Option CapabilityMetadata → String → Option (ValidationResult B)
  backend_stage settings none skill_name = elim (validate_backend settings skill_name) [
    | none ↦ none
    | some reason ↦ some (refuse reason (some safety_not_whitelisted))
  ]
  backend_stage settings (some metadata) skill_name =
      denial (check_backend metadata settings.robot_backend)

  -- Stage 3: the emergency stop and the critical battery.
  unfoldable pub state_stage :
      Settings B → Option CapabilityMetadata → String → WorldState B → Option (ValidationResult B)
  state_stage settings none skill_name world =
      if world.estop_active && not (contains always_allowed skill_name)
      then some (refuse "emergency stop is active" (some safety_estop_active))
      else (if B.le world.battery_level settings.critical_battery_threshold
            && not (contains always_allowed skill_name)
          then some (
              refuse "critical battery only permits stop, dock, or report"
                (some safety_battery_critical))
          else none)
  state_stage settings (some metadata) skill_name world =
      denial (check_state settings metadata world)

  -- Stage 6: the operator's confirmation. The normalised parameters go with the refusal.
  unfoldable pub confirmation_stage :
      Settings B → Option CapabilityMetadata → String → Bool → Params B → ValidationResult B
  confirmation_stage settings none skill_name confirmation_granted normalized =
      if contains settings.require_confirmation_for skill_name && not confirmation_granted
      then record {
        allowed = false;
        reason = skill_name & " requires operator confirmation";
        error_code = some safety_confirmation_required;
        requires_confirmation = true;
        normalized_parameters = normalized;
      }
      else accept normalized
  confirmation_stage settings (some metadata) skill_name confirmation_granted normalized =
      let d = check_confirmation metadata confirmation_granted in
      if d.allowed then accept normalized else record {
        allowed = false;
        reason = d.reason;
        error_code = d.error_code;
        requires_confirmation = d.requires_confirmation;
        normalized_parameters = normalized;
      }

module _ {B : Builtins} {E : Type 0} where
  -- Stages 3 to 6, on parameters that parsed.
  unfoldable pub checked :
      Settings B
      → Skill B E
      → String
      → WorldState B
      → ℕ
      → Bool
      → Params B
      → Result (ValidationResult B)
  checked settings skill skill_name world now confirmation_granted normalized =
      elim (state_stage settings skill.capability_metadata skill_name world) [
        | some refused ↦ ok refused
        | none ↦
            if not (skill.preconditions world)
            then ok (
                refuse ("preconditions failed for " & skill_name) (some safety_precondition_failed))
            else (validate_motion settings skill_name normalized now world >>= λ error. elim error [
              | some reason ↦ ok (refuse reason (some safety_motion_violation))
              | none ↦ ok (
                  confirmation_stage settings skill.capability_metadata skill_name
                    confirmation_granted normalized)
            ])
      ]

  -- The `ValidationError` that parsing raises is caught here.
  unfoldable pub validate :
      Settings B
      → SkillRegistry B E
      → ToolCall B
      → WorldState B
      → ℕ
      → Bool
      → Result (ValidationResult B)
  unfolding checked
  validate settings skills call world now confirmation_granted = elim (get call.skill_name skills) [
    | none ↦
        ok (refuse ("skill is not whitelisted: " & call.skill_name) (some safety_not_whitelisted))
    | some skill ↦ elim (backend_stage settings skill.capability_metadata call.skill_name) [
      | some refused ↦ ok refused
      | none ↦ elim (skill.parse_params call.parameters) [
        | raise errors ↦ ok (refuse ("invalid parameters: " & errors) (some safety_invalid_params))
        | ok normalized ↦
            checked settings skill call.skill_name world now confirmation_granted normalized
      ]
    ]
  ]
