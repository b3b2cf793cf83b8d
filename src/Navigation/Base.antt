-- ===== src/Navigation/Base.antt =====
-- The contracts of robot_brain/navigation/base.py, less the times of the updates.
use robot_brain.Prelude.{
  ℕ, Bool, true, false, String, Option, none, some, ◌&&◌, ◌==◌, string_eq, if◌then◌else◌, List,
}
use robot_brain.Core.Builtins.{Builtins}
use robot_brain.Core.Results.{Result, ok, raise}
use robot_brain.Core.Actions.{Action}

pub data NavigationStatus : Type 0 where
  idle active succeeded failed canceled timed_out no_progress unavailable : NavigationStatus

unfoldable pub status_value : NavigationStatus → String
status_value idle = "idle"
status_value active = "active"
status_value succeeded = "succeeded"
status_value failed = "failed"
status_value canceled = "canceled"
status_value timed_out = "timed_out"
status_value no_progress = "no_progress"
status_value unavailable = "unavailable"

-- `self not in {IDLE, ACTIVE}`
unfoldable pub terminal : NavigationStatus → Bool
terminal idle = false
terminal active = false
terminal _ = true

abbrev pub is_active : NavigationStatus → Bool
is_active active = true
is_active _ = false

pub record NavigationPose (B : Builtins) : Type 0 where
  pub x_m : B.Float
  pub y_m : B.Float
  pub yaw_degrees : B.Float
  pub frame_id : String

pub data LocalizationStatus : Type 0 where
  unknown local localized lost stale : LocalizationStatus

pub record MapIdentity : Type 0 where
  pub map_id : String
  pub version : Option String
  pub frame_id : String
  pub persistent : Bool

pub record LocalizationState (B : Builtins) : Type 0 where
  pub status : LocalizationStatus
  pub map_identity : Option MapIdentity
  pub pose : Option (NavigationPose B)
  pub confidence : Option B.Float
  pub message : String

pub record RelativeNavigationGoal (B : Builtins) : Type 0 where
  pub forward_m : B.Float
  pub left_m : B.Float
  pub yaw_degrees : B.Float
  pub require_final_yaw : Bool
  pub max_duration_s : B.Float

pub record AbsoluteNavigationGoal (B : Builtins) : Type 0 where
  pub pose : NavigationPose B
  pub map_id : String
  pub map_version : Option String
  pub max_duration_s : B.Float

pub record NavigationGoalHandle : Type 0 where
  pub goal_id : String
  pub accepted : Bool
  pub message : String

pub record NavigationState (B : Builtins) : Type 0 where
  pub provider : String
  pub ready : Bool
  pub status : NavigationStatus
  pub goal_id : Option String
  pub pose : Option (NavigationPose B)
  pub progress : Option B.Float
  pub message : String
  pub error_code : Option String
  pub path : List (NavigationPose B)
  pub replan_count : ℕ
  pub stop_reason : Option String

-- A provider over the state `T` outside.
pub record NavigationClient (B : Builtins) (T : Type 0) : Type 0 where
  pub get_state : Action T (NavigationState B)
  pub set_relative_goal : RelativeNavigationGoal B → Action T NavigationGoalHandle
  pub cancel : Option String → Action T (NavigationState B)
  pub supports_absolute_goals : T → Bool
  pub get_localization_state : Action T (LocalizationState B)
  pub set_absolute_goal : AbsoluteNavigationGoal B → Action T NavigationGoalHandle

abbrev is_localized : LocalizationStatus → Bool
is_localized localized = true
is_localized _ = false

abbrev between : (B : Builtins) (low high x : B.Float) → Bool
between B low high x = B.le low x && B.le x high

module _ {B : Builtins} where
  unfoldable pub usable_for_persistent_memory : LocalizationState B → Bool
  usable_for_persistent_memory l = is_localized l.status && (elim l.map_identity [
    | none ↦ false
    | some m ↦ m.persistent && (elim l.pose [ none ↦ false | some p ↦ p.frame_id == m.frame_id ])
  ])

  -- The models check their fields: a value that is out of range, or NaN, raises.
  unfoldable pub relative_goal : RelativeNavigationGoal B → Result (RelativeNavigationGoal B)
  relative_goal g =
      if between B (B.neg (B.decimal 3 0)) (B.decimal 3 0) g.forward_m
        && between B (B.neg (B.decimal 3 0)) (B.decimal 3 0) g.left_m
        && between B (B.neg (B.decimal 90 0)) (B.decimal 90 0) g.yaw_degrees
        && between B (B.decimal 5 1) (B.decimal 120 0) g.max_duration_s
      then ok g
      else raise "ValidationError"

  unfoldable pub absolute_goal : AbsoluteNavigationGoal B → Result (AbsoluteNavigationGoal B)
  absolute_goal g =
      if between B (B.decimal 5 1) (B.decimal 600 0) g.max_duration_s
      then ok g
      else raise "ValidationError"
