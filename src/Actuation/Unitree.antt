-- ===== src/Actuation/Unitree.antt =====
-- The operations of `UnitreeRobot` of robot_brain/actuation/unitree.py.
pub mod Limits
pub mod Requests
pub mod Authority
pub mod Failures
use robot_brain.Prelude.{
  ℕ, zero, suc, Bool, true, false, String, Option, none, some, List, [], ◌∷◌, ◌++◌, ◌&◌, not, ◌&&◌,
  ◌==◌, string_eq, if◌then◌else◌, contains,
}
use robot_brain.Prelude.Dict.{Dict, put}
use robot_brain.Core.Builtins.{Builtins}
use robot_brain.Core.Results.{Result, ok, raise}
use robot_brain.Core.World.{Position, distance_to}
use robot_brain.Core.Settings.{Settings}
use robot_brain.Core.Actions.{Action, ◌>>=◌, ◌>>◌, pure, throw, get_state, modify, try, if_some}
use robot_brain.Actuation.Base.{RobotState}
use robot_brain.Actuation.Transport.{Velocity, UnitreeCommand, Transport}
use robot_brain.Actuation.State.{
  Detail, amount, label, flag, place, motion, missing, Details, Entry, UnitreeRobot, Robot, min,
  max, clamp, max_lin, clamped, update, patch_last, allowed_postures, allowed_text, on_transport,
  record_entry, patch_last_history, set_stopped,
}

module _ {B : Builtins} {T : Type 0} (dev : Transport B T) (settings : Settings B) where
  abbrev pub send : UnitreeCommand B → Robot B T (Unit {0})
  send command = on_transport (dev.send_command command)

  -- A reading whose battery is not a percentage is no `RobotState`.
  unfoldable pub get_state_of : Robot B T (RobotState B)
  unfolding record_entry
  get_state_of =
      try (on_transport dev.read_state)
        (λ raw.
          record_entry "get_state" (("success", Detail.flag true) ∷ [])
          >> (if B.le (B.decimal 0 0) raw.battery_level && B.le raw.battery_level (B.decimal 100 0)
              then pure (record {
                position = raw.position;
                heading_degrees = raw.heading_degrees;
                battery_level = raw.battery_level;
                payload = none;
                stopped = not raw.is_moving;
                docked = false;
              })
              else throw "ValidationError"))
        (λ exc.
          record_entry "get_state"
            (("success", Detail.flag false) ∷ ("error", Detail.label exc) ∷ [])
          >> pure (record {
            position = record { x = B.decimal 0 0; y = B.decimal 0 0 };
            heading_degrees = B.decimal 0 0;
            battery_level = B.decimal 100 0;
            payload = none;
            stopped = true;
            docked = false;
          }))

  -- The exception of a command that is sent on a best effort is logged.
  unfoldable pub best_effort : UnitreeCommand B → Robot B T (Unit {0})
  best_effort command = try (send command) pure (λ exc. pure tt)

  unfoldable pub stop : String → Robot B T (Unit {0})
  unfolding record_entry
  stop reason = do
    record_entry "stop" (("reason", Detail.label reason) ∷ [])
    set_stopped true
    if settings.unitree_dry_run then pure tt else best_effort (UnitreeCommand.stop reason)

  unfoldable pub release_drive : String → Robot B T (Unit {0})
  unfolding record_entry
  release_drive reason = do
    record_entry "release_drive" (("reason", Detail.label reason) ∷ [])
    if settings.unitree_dry_run then pure tt else best_effort (UnitreeCommand.release reason)

  -- `send_command`, and a stop and another exception where that one raises.
  unfoldable pub send_or_stop : UnitreeCommand B → String → String → Robot B T (Unit {0})
  unfolding stop
  send_or_stop command doing failed =
      try (send command) pure
        (λ exc. stop (doing & (" exception: " & exc)) >> throw (failed & (" failed: " & exc)))

  -- `move_to` once the position is known.
  unfoldable pub move_from : Position B → Position B → B.Float → Robot B T (Unit {0})
  unfolding min record_entry send_or_stop distance_to
  move_from current target speed =
      let clamped_speed =
        min B (min B speed settings.unitree_max_speed) settings.max_linear_speed in
      let distance = distance_to current target in
      let max_step = min B settings.unitree_max_step settings.max_step_distance in
      if B.lt max_step distance
      then record_entry "move_to" (
          ("success", Detail.flag false)
          ∷ ("reason", Detail.label "distance_clamped")
          ∷ ("requested", Detail.amount distance)
          ∷ ("max_allowed", Detail.amount max_step)
          ∷ [])
        >> throw (
            "move_to rejected: distance "
            & (B.show_2 distance & (" exceeds max step " & B.show_2 max_step)))
      else record_entry "move_to" (
          ("target", Detail.place target)
          ∷ ("speed", Detail.amount clamped_speed)
          ∷ ("original_speed", Detail.amount speed)
          ∷ ("distance", Detail.amount distance)
          ∷ [])
        >> set_stopped false
        >> (if settings.unitree_dry_run
            then pure tt
            else send_or_stop (UnitreeCommand.move target clamped_speed) "move_to"
                "Unitree move_to")

  unfoldable pub move_to : Position B → B.Float → Robot B T (Unit {0})
  unfolding record_entry move_from
  move_to target speed =
      try (on_transport dev.read_state) (λ raw. move_from raw.position target speed)
        (λ exc.
          record_entry "move_to" (("success", Detail.flag false) ∷ ("error", Detail.label exc) ∷ [])
          >> throw ("Unitree move_to aborted: cannot read state: " & exc))

  unfoldable pub turn : B.Float → Robot B T (Unit {0})
  unfolding record_entry clamp send_or_stop
  turn heading_degrees =
      let clamped = clamp B (B.decimal 45 0) heading_degrees in
      record_entry "turn" (
        ("heading_degrees", Detail.amount clamped)
        ∷ ("original", Detail.amount heading_degrees)
        ∷ [])
      >> (if settings.unitree_dry_run
          then pure tt
          else send_or_stop (UnitreeCommand.turn clamped) "turn" "Unitree turn")

  unfoldable pub set_posture : String → Robot B T (Unit {0})
  unfolding record_entry send_or_stop
  set_posture name =
      if not (contains allowed_postures name)
      then record_entry "set_posture" (
          ("posture", Detail.label name)
          ∷ ("success", Detail.flag false)
          ∷ ("reason", Detail.label "unsupported")
          ∷ [])
        >> throw ("Unsupported posture '" & (name & allowed_text))
      else record_entry "set_posture" (("posture", Detail.label name) ∷ [])
        >> (if settings.unitree_dry_run
            then pure tt
            else send_or_stop (UnitreeCommand.posture name) "set_posture" "Unitree set_posture")

  unfoldable pub wave : Robot B T (Unit {0})
  unfolding record_entry set_posture
  wave = do record_entry "wave" (("gesture", Detail.label "hello") ∷ []); set_posture "hello"

  unfoldable pub enable_omni_teleop : Robot B T (Unit {0})
  unfolding record_entry
  enable_omni_teleop = do
    record_entry "enable_omni_teleop" []
    if settings.unitree_dry_run
        then pure tt
        else if_some dev.enable_omni_teleop (λ m. on_transport m) (pure tt)

  -- The loop of a dry run, in which `rounds` tests of the clock come before the deadline.
  unfoldable pub dry_hold : ℕ → Action T (Velocity B) → Action T (Unit {0})
  dry_hold zero get_velocity = pure tt
  dry_hold (suc rounds) get_velocity = get_velocity >>= λ v. dry_hold rounds get_velocity

  -- In the source the text of the last exception names the class of the transport.
  unfoldable pub stream_hold : ℕ → Action T (Velocity B) → B.Float → Robot B T (Unit {0})
  unfolding record_entry dry_hold clamped
  stream_hold rounds get_velocity session_deadline = do
    record_entry "stream_hold" (("session_deadline", Detail.amount session_deadline) ∷ [])
    set_stopped false
    if settings.unitree_dry_run
        then on_transport (dry_hold rounds (get_velocity >>= λ v. pure (clamped settings v)))
        else if_some dev.stream_hold
            (λ hold.
              if_some dev.assert_drive_preconditions (λ m. on_transport (m settings)) (pure tt)
              >> on_transport
                  (hold (get_velocity >>= λ v. pure (clamped settings v)) session_deadline))
            (throw "the transport has no stream_hold")

  abbrev ended : String → Bool → Details B
  ended reason success = ("end_reason", Detail.label reason) ∷ ("success", Detail.flag success) ∷ []

  unfoldable pub verify_stopped : Bool → Robot B T Bool
  verify_stopped stream =
      if stream
      then pure true
      else if_some dev.verify_stopped_after_drive
          (λ m. on_transport (m settings) >>= λ stopped_ok.
            try (on_transport dev.read_state) (λ raw. pure stopped_ok) (λ exc. pure stopped_ok))
          (pure true)

  -- `drive` after the command was sent without an exception.
  unfoldable pub conclude_drive : Bool → Robot B T (Unit {0})
  unfolding stop verify_stopped
  conclude_drive stream = do
    r ← get_state
    let end_reason : String = elim (dev.last_drive_end_reason r.transport) [
      | none ↦ "completed"
      | some last ↦ last
    ]
    stopped_ok ← verify_stopped stream
    if stopped_ok
        then patch_last_history (ended end_reason true)
        else patch_last_history (ended "post_drive_still_moving" false)
          >> stop "post-drive still moving"
          >> throw "Unitree drive finished but robot still reports motion; issued stop"

  unfoldable pub drive : Velocity B → B.Float → Bool → Robot B T (Unit {0})
  unfolding clamped clamp min max record_entry stop conclude_drive
  drive v duration stream =
      let cv = clamped settings v in
      let cdur = max B (B.decimal 0 0) (min B settings.unitree_max_drive_duration duration) in
      (if settings.unitree_dry_run
        then pure tt
        else if_some dev.assert_drive_preconditions (λ m. on_transport (m settings)) (pure tt))
      >> record_entry "drive"
          (("velocity", Detail.motion cv cdur) ∷ ("original", Detail.motion v duration) ∷ [])
      >> set_stopped false
      >> (if settings.unitree_dry_run
          then patch_last_history (ended "dry_run" true)
          else try (send (UnitreeCommand.drive cv cdur)) (λ _. conclude_drive stream)
              (λ exc.
                stop ("drive exception: " & exc)
                >> patch_last_history (ended "transport_error" false)
                >> throw ("Unitree drive failed: " & exc)))

  unfoldable pub dock : String → Robot B T (Unit {0})
  unfolding record_entry
  dock station = do
    record_entry "dock" (("station", Detail.label station) ∷ ("supported", Detail.flag false) ∷ [])
    throw "Unitree dock not supported in this version"

  unfoldable pub follow : String → B.Float → Robot B T (Unit {0})
  unfolding record_entry
  follow target_id distance = do
    record_entry "follow" (
        ("target_id", Detail.label target_id)
        ∷ ("distance", Detail.amount distance)
        ∷ ("supported", Detail.flag false)
        ∷ [])
    throw "Unitree follow not supported in this version"

  unfoldable pub report : String → String → Robot B T (Unit {0})
  unfolding record_entry
  report message severity =
      record_entry "report"
        (("message", Detail.label message) ∷ ("severity", Detail.label severity) ∷ [])

  unfoldable pub prepare_locomotion : Robot B T (Unit {0})
  unfolding set_posture enable_omni_teleop get_state_of
  prepare_locomotion = do
    set_posture "stand_up"
    set_posture "balance_stand"
    set_posture "free_walk"
    enable_omni_teleop
    s ← get_state_of
    pure tt
