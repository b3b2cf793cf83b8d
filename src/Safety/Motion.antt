-- ===== src/Safety/Motion.antt =====
-- `SafetyValidator._validate_motion` and `_validate_backend` of robot_brain/safety/validator.py. The
-- parameters are the JSON dump of the skill's params model, in which the fields read here are floats
-- (`max_steps` an integer); a missing key or a value of another kind raises.
pub mod Bounds
use robot_brain.Prelude.{
  ℕ, Bool, true, false, not, ◌||◌, ◌&&◌, ◌&◌, String, Option, none, some, List, [], ◌∷◌, string_eq,
  if◌then◌else◌, contains, ◌==◌, ℤ, pos, ltb_ℤ,
}
use robot_brain.Prelude.Dict.{get}
use robot_brain.Core.Builtins.{Builtins}
use robot_brain.Core.Results.{Result, ok, raise, ◌>>=◌}
use robot_brain.Core.World.{Position, WorldState, distance_to, is_object_fresh}
use robot_brain.Core.Calls.{Value, number, integer, text, point, points, Params}
use robot_brain.Core.Settings.{Settings}
use robot_brain.Safety.Skills.{unitree_hidden_skills}

-- A check's answer: the reason of a violation, or none for the empty text of the source.
abbrev pub Check : Type 0
Check = Result (Option String)

abbrev pub passes : Check
passes = ok none

abbrev pub violation : String → Check
violation reason = ok (some reason)

-- One `if` of the source after another: the first violation or exception is the answer.
infixr 20 ◌then_check◌
abbrev pub ◌then_check◌ : Check → Check → Check
first then_check second = first >>= λ r. elim r [ none ↦ second | some reason ↦ ok (some reason) ]

abbrev pub forbid : Bool → String → Check
forbid b reason = if b then violation reason else passes

-- `if skill_name == ...:`
abbrev pub for_skill : String → String → Check → Check
for_skill skill_name name check = if skill_name == name then check else passes

-- `low <= x <= high`
abbrev pub within : (B : Builtins) → B.Float → B.Float → B.Float → Bool
within B low high x = B.le low x && B.le x high

module _ {B : Builtins} where
  abbrev pub to_float : Value B → Result B.Float
  to_float (number f) = ok f
  to_float _ = raise "TypeError"

  abbrev pub to_int : Value B → Result ℤ
  to_int (integer n) = ok n
  to_int _ = raise "TypeError"

  abbrev pub to_text : Value B → Result String
  to_text (text t) = ok t
  to_text _ = raise "TypeError"

  -- `Position.model_validate`
  abbrev pub to_point : Value B → Result (Position B)
  to_point (point p) = ok p
  to_point _ = raise "ValidationError"

  abbrev pub to_points : Value B → Result (List (Position B))
  to_points (points ps) = ok ps
  to_points _ = raise "ValidationError"

  -- `params[key]` and `params.get(key, default)`, read as some kind of value.
  abbrev pub item : {A : Type 0} → (Value B → Result A) → String → Params B → Result A
  item kind key params = elim (get key params) [ none ↦ raise "KeyError" | some v ↦ kind v ]

  abbrev pub item_or : {A : Type 0} → (Value B → Result A) → String → A → Params B → Result A
  item_or kind key default params = elim (get key params) [ none ↦ ok default | some v ↦ kind v ]

  unfoldable pub navigate_motion : Settings B → Params B → WorldState B → Check
  unfolding distance_to
  navigate_motion settings params world = do
    speed ← item to_float "speed" params
    forbid (B.lt settings.max_linear_speed speed) "requested speed exceeds max_linear_speed"
        then_check (do
          target ← item to_point "target" params
          forbid (B.lt settings.max_step_distance (distance_to world.position target))
              "navigate target exceeds max_step_distance")

  -- The loop over the waypoints of a patrol, from the position `previous`.
  unfoldable pub patrol_steps : Settings B → Position B → List (Position B) → Check
  unfolding distance_to
  patrol_steps settings previous [] = passes
  patrol_steps settings previous (waypoint ∷ waypoints) =
      forbid (B.lt settings.max_step_distance (distance_to previous waypoint))
        "patrol waypoint exceeds max_step_distance"
      then_check patrol_steps settings waypoint waypoints

  unfoldable pub patrol_motion : Settings B → Params B → WorldState B → Check
  patrol_motion settings params world = do
    speed ← item to_float "speed" params
    forbid (B.lt settings.max_linear_speed speed) "requested speed exceeds max_linear_speed"
        then_check (do
          waypoints ← item to_points "waypoints" params
          patrol_steps settings world.position waypoints)

  unfoldable pub follow_motion : Settings B → Params B → ℕ → WorldState B → Check
  follow_motion settings params now world = do
    target_id ← item to_text "target_id" params
    forbid (not (is_object_fresh target_id settings.object_ttl_seconds now world))
        "follow target has not been perceived recently"

  unfoldable pub nudge_motion : Params B → Check
  nudge_motion params = do
    d ← item_or to_float "distance_cm" (B.decimal 20 0) params
    forbid (not (within B (B.decimal 10 0) (B.decimal 50 0) d)) "nudge distance must be 10–50 cm"

  unfoldable pub scan_motion : Params B → Check
  scan_motion params = do
    y ← item_or to_float "yaw_degrees" (B.decimal 45 0) params
    forbid (not (within B (B.neg (B.decimal 90 0)) (B.decimal 90 0) y)) "scan angle must be ±90°"

  unfoldable pub retreat_motion : Params B → Check
  retreat_motion params = do
    d ← item_or to_float "distance_cm" (B.decimal 30 0) params
    forbid (not (within B (B.decimal 10 0) (B.decimal 100 0) d))
        "retreat distance must be 10–100 cm"

  unfoldable pub explore_motion : Settings B → Params B → Check
  explore_motion settings params = do
    ms ← item_or to_int "max_steps" (pos 5) params
    forbid (ltb_ℤ settings.explore_max_steps ms) (
          "explore max_steps ("
          & (B.show_int ms
              & (") exceeds settings limit (" & (B.show_int settings.explore_max_steps & ")"))))
        then_check (do
          sd ← item_or to_float "step_distance_cm" (B.decimal 20 0) params
          forbid (not (within B (B.decimal 10 0) (B.decimal 50 0) sd))
                "explore step_distance_cm must be 10–50 cm"
              then_check (do
                deg ← item_or to_float "scan_degrees" (B.decimal 45 0) params
                forbid (not (within B (B.decimal 10 0) (B.decimal 90 0) deg))
                    "explore scan_degrees must be 10–90°"))

  unfoldable pub local_nav_motion : Params B → Check
  local_nav_motion params = do
    forward ← item_or to_float "forward_m" (B.decimal 0 0) params
    forbid (not (within B (B.neg (B.decimal 1 0)) (B.decimal 1 0) forward))
          "go2_local_nav forward_m must be -1.0–1.0 m"
        then_check (do
          left ← item_or to_float "left_m" (B.decimal 0 0) params
          forbid (not (within B (B.neg (B.decimal 5 1)) (B.decimal 5 1) left))
                "go2_local_nav left_m must be -0.5–0.5 m"
              then_check (do
                yaw ← item_or to_float "yaw_degrees" (B.decimal 0 0) params
                forbid (not (within B (B.neg (B.decimal 90 0)) (B.decimal 90 0) yaw))
                      "go2_local_nav yaw_degrees must be ±90°"
                    then_check (do
                      max_duration ← item_or to_float "max_duration_s" (B.decimal 12 0) params
                      forbid (not (within B (B.decimal 5 1) (B.decimal 20 0) max_duration))
                          "go2_local_nav max_duration_s must be 0.5–20.0")))

  unfoldable pub validate_motion : Settings B → String → Params B → ℕ → WorldState B → Check
  validate_motion settings skill_name params now world =
      for_skill skill_name "navigate" (navigate_motion settings params world)
      then_check for_skill skill_name "patrol" (patrol_motion settings params world)
      then_check for_skill skill_name "follow" (follow_motion settings params now world)
      then_check for_skill skill_name "nudge" (nudge_motion params)
      then_check for_skill skill_name "scan" (scan_motion params)
      then_check for_skill skill_name "retreat" (retreat_motion params)
      then_check for_skill skill_name "explore" (explore_motion settings params)
      then_check for_skill skill_name "go2_local_nav" (local_nav_motion params)

  unfoldable pub validate_backend : Settings B → String → Option String
  validate_backend settings skill_name =
      if (settings.robot_backend == "unitree") && contains unitree_hidden_skills skill_name
      then some ("skill '" & (skill_name & "' is unsupported on unitree backend"))
      else none
