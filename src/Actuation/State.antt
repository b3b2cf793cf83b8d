-- ===== src/Actuation/State.antt =====
-- The state of `UnitreeRobot` of robot_brain/actuation/unitree.py, its limits and its history. An entry
-- is its action with the other keys; the times, the dumps of the state before and after a drive, the
-- dump of a state that was read and the log are left out.
use robot_brain.Prelude.{Bool, String, List, [], ◌∷◌, ◌++◌, ◌==◌, string_eq, if◌then◌else◌}
use robot_brain.Prelude.Dict.{Dict, put}
use robot_brain.Core.Builtins.{Builtins}
use robot_brain.Core.World.{Position}
use robot_brain.Core.Settings.{Settings}
use robot_brain.Core.Actions.{Action, modify}
use robot_brain.Actuation.Transport.{Velocity}

pub data Detail (B : Builtins) : Type 0 where
  amount : B.Float → Detail B
  label : String → Detail B
  flag : Bool → Detail B
  place : Position B → Detail B
  motion : Velocity B → B.Float → Detail B
  missing : Detail B

abbrev pub Details : Builtins → Type 0
Details B = Dict String (Detail B)

abbrev pub Entry : Builtins → Type 0
Entry B = String × Details B

pub record UnitreeRobot (B : Builtins) (T : Type 0) : Type 0 where
  pub action_history : List (Entry B)
  pub stopped : Bool
  pub transport : T

-- Code over the robot.
abbrev pub Robot : Builtins → Type 0 → Type 0 → Type 0
Robot B T A = Action (UnitreeRobot B T) A

-- Python's `min(x, y)` and `max(x, y)`: the first unless the second is strictly beyond it.
unfoldable pub min : (B : Builtins) → B.Float → B.Float → B.Float
min B x y = if B.lt y x then y else x

unfoldable pub max : (B : Builtins) → B.Float → B.Float → B.Float
max B x y = if B.lt x y then y else x

-- `max(-limit, min(limit, x))`
unfoldable pub clamp : (B : Builtins) → B.Float → B.Float → B.Float
unfolding min max
clamp B limit x = max B (B.neg limit) (min B limit x)

module _ {B : Builtins} where
  unfoldable pub max_lin : Settings B → B.Float
  unfolding min
  max_lin settings = min B settings.unitree_max_speed settings.max_linear_speed

  unfoldable pub clamped : Settings B → Velocity B → Velocity B
  unfolding clamp max_lin
  clamped settings v = record {
    vx = clamp B (max_lin settings) v.vx;
    vy = clamp B (max_lin settings) v.vy;
    vyaw = clamp B settings.unitree_max_yaw_speed v.vyaw;
  }

  unfoldable pub update : Details B → Details B → Details B
  update [] entry = entry
  update ((key, v) ∷ fields) entry = update fields (put key v entry)

  -- `self._action_history[-1].update(fields)`, if that entry is of a drive.
  unfoldable pub patch_last : Details B → List (Entry B) → List (Entry B)
  unfolding update
  patch_last fields [] = []
  patch_last fields ((action, entry) ∷ []) =
      (if action == "drive" then (action, update fields entry) else (action, entry)) ∷ []
  patch_last fields (e ∷ f ∷ entries) = e ∷ patch_last fields (f ∷ entries)

abbrev pub allowed_postures : List String
allowed_postures =
    "balance_stand" ∷ "stand_up" ∷ "stand_down" ∷ "recovery_stand" ∷ "damp" ∷ "sit" ∷ "free_walk"
    ∷ "hello" ∷ []

abbrev pub allowed_text : String
allowed_text =
    "'. Allowed: ['balance_stand', 'damp', 'free_walk', 'hello', 'recovery_stand', 'sit', 'stand_down', 'stand_up']"

module _ {B : Builtins} {T : Type 0} where
  -- A method of the transport.
  unfoldable pub on_transport : {A : Type 0} → Action T A → Robot B T A
  on_transport m r = let (a, t) = m r.transport in (a, record r { transport = t })

  unfoldable pub record_entry : String → Details B → Robot B T (Unit {0})
  record_entry action details =
      modify (λ r. record r { action_history = r.action_history ++ (action, details) ∷ [] })

  unfoldable pub patch_last_history : Details B → Robot B T (Unit {0})
  unfolding patch_last
  patch_last_history fields =
      modify (λ r. record r { action_history = patch_last fields r.action_history })

  unfoldable pub set_stopped : Bool → Robot B T (Unit {0})
  set_stopped b = modify (λ r. record r { stopped = b })
