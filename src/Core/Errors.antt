-- ===== src/Core/Errors.antt =====
-- robot_brain/core/errors.py.
use robot_brain.Prelude.{String}

pub data ErrorCode : Type 0 where
  llm_timeout llm_api_error llm_invalid_output llm_unknown_skill : ErrorCode
  llm_param_validation llm_degraded : ErrorCode
  safety_not_whitelisted safety_invalid_params safety_estop_active : ErrorCode
  safety_battery_critical safety_precondition_failed safety_motion_violation : ErrorCode
  safety_confirmation_required : ErrorCode
  runtime_max_iterations runtime_missing_checkpoint runtime_skill_not_found : ErrorCode
  runtime_no_result : ErrorCode

-- The text that the `StrEnum` member is.
abbrev pub code_text : ErrorCode → String
code_text llm_timeout = "llm_timeout"
code_text llm_api_error = "llm_api_error"
code_text llm_invalid_output = "llm_invalid_output"
code_text llm_unknown_skill = "llm_unknown_skill"
code_text llm_param_validation = "llm_param_validation"
code_text llm_degraded = "llm_degraded"
code_text safety_not_whitelisted = "safety_not_whitelisted"
code_text safety_invalid_params = "safety_invalid_params"
code_text safety_estop_active = "safety_estop_active"
code_text safety_battery_critical = "safety_battery_critical"
code_text safety_precondition_failed = "safety_precondition_failed"
code_text safety_motion_violation = "safety_motion_violation"
code_text safety_confirmation_required = "safety_confirmation_required"
code_text runtime_max_iterations = "runtime_max_iterations"
code_text runtime_missing_checkpoint = "runtime_missing_checkpoint"
code_text runtime_skill_not_found = "runtime_skill_not_found"
code_text runtime_no_result = "runtime_no_result"
