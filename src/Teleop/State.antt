-- ===== src/Teleop/State.antt =====
-- `TeleopSession` of robot_brain/teleop/session.py: a lease with one holder, and a dead-man timer. The
-- time at which a method reads the clock, and the id that it draws, are its arguments. What the lock
-- guards is one step; so is the end of a drive, and a hold has its effects when it begins.
use robot_brain.Prelude.{
  Bool, ℤ, String, Option, none, some, List, [], ◌∷◌, ◌++◌, ◌&◌, ◌&&◌, ◌==◌, string_eq,
  if◌then◌else◌,
}
use robot_brain.Core.Builtins.{Builtins}
use robot_brain.Core.Settings.{Settings}
use robot_brain.Core.Actions.{Action, modify}
use robot_brain.Actuation.Transport.{Velocity, Transport}
use robot_brain.Actuation.State.{UnitreeRobot, Robot, max}
use robot_brain.Navigation.Base.{NavigationClient}

pub data ControlEventType : Type 0 where
  accepted rejected stopped preempted watchdog obstacle : ControlEventType

pub record ControlEvent : Type 0 where
  pub type : ControlEventType
  pub message : String

pub record LeaseResult (B : Builtins) : Type 0 where
  pub granted : Bool
  pub lease_id : String
  pub expires_at : B.Float
  pub reason : String

pub record SetpointResult : Type 0 where
  pub accepted : Bool
  pub reason : String

pub record Setpoint (B : Builtins) : Type 0 where
  pub velocity : Velocity B
  pub at : B.Float

-- The task of the drive loop: it has not begun, it awaits a hold, or it is done.
pub data Phase : Type 0 where
  created holding done : Phase

pub record DriveTask : Type 0 where
  pub lease : String
  pub phase : Phase

pub record Session (B : Builtins) (T : Type 0) : Type 0 where
  pub robot : UnitreeRobot B T
  pub lease_id : String
  pub operator : String
  pub lease_expires : B.Float
  pub setpoint : Setpoint B
  pub drive_task : Option DriveTask
  pub events : List ControlEvent

-- What the session is made with.
pub record Control (B : Builtins) (T : Type 0) : Type 0 where
  pub dev : Transport B T
  pub settings : Settings B
  pub navigation : Option (NavigationClient B T)

-- Code over the session.
abbrev pub Teleop : Builtins → Type 0 → Type 0 → Type 0
Teleop B T A = Action (Session B T) A

abbrev pub zero_velocity : (B : Builtins) → Velocity B
zero_velocity B = record { vx = B.decimal 0 0; vy = B.decimal 0 0; vyaw = B.decimal 0 0 }

abbrev pub no_setpoint : (B : Builtins) → Setpoint B
no_setpoint B = record { velocity = zero_velocity B; at = B.decimal 0 0 }

-- `max(0.0, ms / 1000.0)`
unfoldable pub seconds : (B : Builtins) → ℤ → B.Float
unfolding max
seconds B ms = max B (B.decimal 0 0) (B.div (B.of_int ms) (B.decimal 1000 0))

unfoldable pub obstacle_msg : (B : Builtins) → B.Float → String
obstacle_msg B distance_m =
    if B.lt distance_m (B.decimal 1 0)
    then "obstacle:" & (B.show_int (B.truncate (B.mul distance_m (B.decimal 100 0))) & "cm:front")
    else "obstacle:" & (B.show_2 distance_m & "m:front")

-- `a or b` of texts.
abbrev pub or_text : String → String → String
or_text a b = if a == "" then b else a

-- `goal_id or ""`
abbrev pub text_of : Option String → String
text_of none = ""
text_of (some t) = t

module _ {B : Builtins} where
  abbrev pub deadman_s : Settings B → B.Float
  deadman_s settings = seconds B settings.teleop_deadman_ms

  abbrev pub lease_ttl_s : Settings B → B.Float
  lease_ttl_s settings = seconds B settings.teleop_lease_ttl_ms

  unfoldable pub chunk_s : Settings B → B.Float
  unfolding max
  chunk_s settings = max B (B.decimal 5 2) settings.teleop_chunk_seconds

  unfoldable pub is_zero : Setpoint B → Bool
  is_zero s = B.is_zero s.velocity.vx && B.is_zero s.velocity.vy && B.is_zero s.velocity.vyaw

module _ {B : Builtins} {T : Type 0} where
  unfoldable pub on_robot : {A : Type 0} → Robot B T A → Teleop B T A
  on_robot m s = let (a, r) = m s.robot in (a, record s { robot = r })

  unfoldable pub emit : ControlEventType → String → Teleop B T (Unit {0})
  emit type message =
      modify (λ s. record s { events = s.events ++ record { type = type; message = message } ∷ [] })

  unfoldable pub clear_lease : Teleop B T (Unit {0})
  clear_lease = modify (λ s. record s {
    lease_id = "";
    operator = "";
    lease_expires = B.decimal 0 0;
    setpoint = no_setpoint B;
  })

  unfoldable pub set_task : Option DriveTask → Teleop B T (Unit {0})
  set_task task = modify (λ s. record s { drive_task = task })
