-- ===== src/Core/Settings.antt =====
-- The fields of config/settings.py that the modelled code reads. A limit that the source counts down
-- to is a natural number: a negative one acts as 0 does.
use robot_brain.Prelude.{ℕ, Bool, String, List, ℤ}
use robot_brain.Core.Builtins.{Builtins}

pub record Settings (B : Builtins) : Type 0 where
  pub robot_backend : String
  pub low_battery_threshold : B.Float
  pub critical_battery_threshold : B.Float
  pub max_linear_speed : B.Float
  pub max_step_distance : B.Float
  pub require_confirmation_for : List String
  pub object_ttl_seconds : B.Float
  pub max_loop_iterations : ℕ
  pub default_task_max_attempts : ℕ
  pub max_conversation_context : ℕ
  pub unitree_state_max_age_seconds : B.Float
  pub explore_max_steps : ℤ
  pub go2_reflex_error_debounce : ℕ
  pub unitree_dry_run : Bool
  pub unitree_max_speed : B.Float
  pub unitree_max_step : B.Float
  pub unitree_max_yaw_speed : B.Float
  pub unitree_max_drive_duration : B.Float
  pub teleop_deadman_ms : ℤ
  pub teleop_lease_ttl_ms : ℤ
  pub teleop_chunk_seconds : B.Float
