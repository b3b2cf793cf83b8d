-- ===== src/Actuation/Transport.antt =====
-- The transport of robot_brain/actuation/unitree.py: its state, its commands, the methods that the
-- robot calls and `FakeUnitreeTransport`. A method that `hasattr` looks for is an option; sleeping
-- is left out.
use robot_brain.Prelude.{
  Bool, true, false, ℤ, String, Option, none, List, [], ◌∷◌, ◌++◌, ◌&◌, not, if◌then◌else◌,
}
use robot_brain.Core.Builtins.{Builtins}
use robot_brain.Core.World.{Position}
use robot_brain.Core.Settings.{Settings}
use robot_brain.Core.Actions.{Action, ◌>>=◌, ◌>>◌, pure, throw, get_state, modify}

-- A body-frame velocity: forward, left and counter-clockwise.
pub record Velocity (B : Builtins) : Type 0 where
  pub vx : B.Float
  pub vy : B.Float
  pub vyaw : B.Float

pub record Ultrasonic (B : Builtins) : Type 0 where
  pub front : B.Float
  pub left : B.Float
  pub right : B.Float
  pub rear : B.Float

-- The velocity of the state, an attitude and a stamp are only copied by the source.
pub record UnitreeState (B : Builtins) : Type 0 where
  pub connected : Bool
  pub battery_level : B.Float
  pub position : Position B
  pub heading_degrees : B.Float
  pub is_standing : Bool
  pub is_moving : Bool
  pub error_code : ℤ
  pub sport_mode : Option ℤ
  pub velocity : B.Float × B.Float × B.Float
  pub imu_rpy : B.Float × B.Float × B.Float
  pub ultrasonic : Option (Ultrasonic B)
  pub pose_frame_id : String
  pub pose_timestamp : Option B.Float
  pub pose_source : String

-- The commands that the robot builds, with their parameters.
pub data UnitreeCommand (B : Builtins) : Type 0 where
  stop : String → UnitreeCommand B
  release : String → UnitreeCommand B
  move : Position B → B.Float → UnitreeCommand B
  turn : B.Float → UnitreeCommand B
  posture : String → UnitreeCommand B
  drive : Velocity B → B.Float → UnitreeCommand B

unfoldable pub action_name : {B : Builtins} → UnitreeCommand B → String
action_name (UnitreeCommand.stop _) = "stop"
action_name (UnitreeCommand.release _) = "release"
action_name (UnitreeCommand.move _ _) = "move"
action_name (UnitreeCommand.turn _) = "turn"
action_name (UnitreeCommand.posture name) = name
action_name (UnitreeCommand.drive _ _) = "drive"

-- `T` is the state outside the robot. The velocity of a hold is read anew at every tick; `cancel_hold`
-- is what the transport does when the task that awaits a hold is cancelled, and what it raises then
-- other than the cancellation. The flag that `send_command` returns is not read.
pub record Transport (B : Builtins) (T : Type 0) : Type 0 where
  pub read_state : Action T (UnitreeState B)
  pub send_command : UnitreeCommand B → Action T (Unit {0})
  pub enable_omni_teleop : Option (Action T (Unit {0}))
  pub stream_hold : Option (Action T (Velocity B) → B.Float → Action T (Unit {0}))
  pub cancel_hold : Action T (Unit {0})
  pub assert_drive_preconditions : Option (Settings B → Action T (Unit {0}))
  pub verify_stopped_after_drive : Option (Settings B → Action T Bool)
  pub last_drive_end_reason : T → Option String

pub record FakeUnitreeTransport (B : Builtins) : Type 0 where
  pub state : UnitreeState B
  pub is_connected : Bool
  pub command_log : List (UnitreeCommand B)
  pub fail_next : Bool

module _ {B : Builtins} where
  -- `_apply_command`; a posture named like another command is not among the allowed ones.
  unfoldable pub apply_command : UnitreeCommand B → UnitreeState B → UnitreeState B
  apply_command (UnitreeCommand.stop _) s = record s {
    is_moving = false;
    velocity = (B.decimal 0 0, B.decimal 0 0, B.decimal 0 0);
  }
  apply_command (UnitreeCommand.move target _) s = record s { position = target; is_moving = false }
  apply_command (UnitreeCommand.turn heading) s = record s { heading_degrees = heading }
  apply_command (UnitreeCommand.drive v duration) s =
      let heading = B.radians s.heading_degrees in
      let dx = B.mul v.vx duration in
      let dy = B.mul v.vy duration in
      record s {
        position = record {
          x = B.add s.position.x (B.sub (B.mul dx (B.cos heading)) (B.mul dy (B.sin heading)));
          y = B.add s.position.y (B.add (B.mul dx (B.sin heading)) (B.mul dy (B.cos heading)));
        };
        heading_degrees = B.add s.heading_degrees (B.degrees (B.mul v.vyaw duration));
        is_moving = false;
        velocity = (B.decimal 0 0, B.decimal 0 0, B.decimal 0 0);
      }
  apply_command _ s = s

  unfoldable pub connect : FakeUnitreeTransport B → FakeUnitreeTransport B
  connect t = record t { is_connected = true; state = record t.state { connected = true } }

  unfoldable pub disconnect : FakeUnitreeTransport B → FakeUnitreeTransport B
  disconnect t = record t { is_connected = false; state = record t.state { connected = false } }

  unfoldable pub read_state : Action (FakeUnitreeTransport B) (UnitreeState B)
  read_state = do
    t ← get_state
    if not t.is_connected then throw "Transport not connected" else pure t.state

  unfoldable pub send_command : UnitreeCommand B → Action (FakeUnitreeTransport B) (Unit {0})
  unfolding apply_command action_name
  send_command command = do
    t ← get_state
    if not t.is_connected
        then throw "Transport not connected"
        else if t.fail_next
        then modify (λ t. record t { fail_next = false })
          >> throw ("Simulated transport failure for " & action_name command)
        else modify (λ t. record t {
          command_log = t.command_log ++ command ∷ [];
          state = apply_command command t.state;
        })

  abbrev pub fake_transport : Transport B (FakeUnitreeTransport B)
  fake_transport = record {
    read_state = read_state;
    send_command = send_command;
    enable_omni_teleop = none;
    stream_hold = none;
    cancel_hold = pure tt;
    assert_drive_preconditions = none;
    verify_stopped_after_drive = none;
    last_drive_end_reason = λ t. none;
  }
