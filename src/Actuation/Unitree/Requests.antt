-- ===== src/Actuation/Unitree/Requests.antt =====
-- The requests to `UnitreeRobot` one after another, each of which may raise
-- (robot_brain/actuation/unitree.py).
use robot_brain.Prelude.{ℕ, Bool, String, List, [], ◌∷◌, string_eq}
use robot_brain.Core.Builtins.{Builtins}
use robot_brain.Core.World.{Position}
use robot_brain.Core.Settings.{Settings}
use robot_brain.Core.Actions.{Action, ◌>>=◌, pure}
use robot_brain.Actuation.Transport.{Velocity, Transport}
use robot_brain.Actuation.Unitree
use robot_brain.Actuation.State.{UnitreeRobot, Robot}

pub data Request (B : Builtins) (T : Type 0) : Type 0 where
  stop : String → Request B T
  release_drive : String → Request B T
  move_to : Position B → B.Float → Request B T
  turn : B.Float → Request B T
  set_posture : String → Request B T
  wave : Request B T
  enable_omni_teleop : Request B T
  stream_hold : ℕ → Action T (Velocity B) → B.Float → Request B T
  drive : Velocity B → B.Float → Bool → Request B T
  get_state : Request B T
  dock : String → Request B T
  follow : String → B.Float → Request B T
  report : String → String → Request B T
  prepare_locomotion : Request B T

module _ {B : Builtins} {T : Type 0} (dev : Transport B T) (settings : Settings B) where
  unfoldable pub perform : Request B T → Robot B T (Unit {0})
  perform (Request.stop reason) = Unitree.stop dev settings reason
  perform (Request.release_drive reason) = Unitree.release_drive dev settings reason
  perform (Request.move_to target speed) = Unitree.move_to dev settings target speed
  perform (Request.turn heading) = Unitree.turn dev settings heading
  perform (Request.set_posture name) = Unitree.set_posture dev settings name
  perform Request.wave = Unitree.wave dev settings
  perform Request.enable_omni_teleop = Unitree.enable_omni_teleop dev settings
  perform (Request.stream_hold rounds get_velocity deadline) =
      Unitree.stream_hold dev settings rounds get_velocity deadline
  perform (Request.drive v duration stream) = Unitree.drive dev settings v duration stream
  perform Request.get_state = Unitree.get_state_of dev settings >>= λ s. pure tt
  perform (Request.dock station) = Unitree.dock dev settings station
  perform (Request.follow target distance) = Unitree.follow dev settings target distance
  perform (Request.report message severity) = Unitree.report dev settings message severity
  perform Request.prepare_locomotion = Unitree.prepare_locomotion dev settings

  -- What a request raises is left to its caller.
  unfoldable pub serve : List (Request B T) → UnitreeRobot B T → UnitreeRobot B T
  unfolding perform
  serve [] r = r
  serve (q ∷ qs) r = serve qs (perform q r).1
