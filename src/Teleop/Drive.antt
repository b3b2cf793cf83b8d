-- ===== src/Teleop/Drive.antt =====
-- The setpoints, the emergency stop and the drive loop of robot_brain/teleop/session.py.
use robot_brain.Prelude.{
  ℕ, Bool, true, false, String, Option, none, some, not, ◌&&◌, ◌||◌, ◌==◌, string_eq, if◌then◌else◌,
}
use robot_brain.Core.Builtins.{Builtins}
use robot_brain.Core.Actions.{Action, ◌>>=◌, ◌>>◌, pure, get_state, modify, try, if_some}
use robot_brain.Actuation.Transport.{Velocity}
use robot_brain.Actuation.Unitree
use robot_brain.Actuation.State.{on_transport}
use robot_brain.Teleop.State.{
  ControlEventType, SetpointResult, created, holding, done, DriveTask, Session, Control, Teleop,
  zero_velocity, seconds, or_text, deadman_s, lease_ttl_s, chunk_s, is_zero, obstacle_msg, on_robot,
  emit, clear_lease, set_task,
}
use robot_brain.Teleop.Lease.{end_drive, on_navigation, loop_end}

module _ {B : Builtins} {T : Type 0} (c : Control B T) where
  -- The reading in front, if there is one.
  unfoldable pub read_front_ultrasonic : Teleop B T (Option B.Float)
  unfolding on_robot
  read_front_ultrasonic =
      try (on_robot (on_transport c.dev.read_state))
        (λ raw. pure (elim raw.ultrasonic [
          | none ↦ none
          | some u ↦ if B.le u.front (B.decimal 0 0) then none else some u.front
        ]))
        (λ exc. pure none)

  -- The velocity with the forward part set to zero before an obstacle.
  unfoldable pub check_obstacle : Velocity B → Teleop B T (Velocity B)
  unfolding read_front_ultrasonic emit obstacle_msg
  check_obstacle v =
      if B.lt (B.decimal 0 0) v.vx
      then read_front_ultrasonic >>= (λ reading.
        if_some reading
          (λ obs.
            if B.lt obs (B.decimal 30 2)
            then emit ControlEventType.obstacle (obstacle_msg B obs)
              >> pure (record v { vx = B.decimal 0 0 })
            else pure v)
          (pure v))
      else pure v

  abbrev is_over : Option DriveTask → Bool
  is_over none = true
  is_over (some task) = elim task.phase [ done ↦ true | _ ↦ false ]

  -- An accepted setpoint.
  unfoldable pub accept : B.Float → Velocity B → Teleop B T SetpointResult
  unfolding is_zero emit seconds
  accept now v =
      modify (λ s. record s {
        setpoint = record { velocity = v; at = now };
        lease_expires = B.add now (lease_ttl_s c.settings);
        drive_task =
            if not (is_zero (record { velocity = v; at = now })) && is_over s.drive_task
            then some (record { lease = s.lease_id; phase = created })
            else s.drive_task;
      })
      >> emit ControlEventType.accepted ""
      >> pure (record { accepted = true; reason = "" })

  unfoldable pub set_velocity : B.Float → String → Velocity B → Teleop B T SetpointResult
  unfolding check_obstacle accept
  set_velocity now lease_id v = do
    s ← get_state
    if s.lease_id == "" || B.le s.lease_expires now
        then pure (record { accepted = false; reason = "no active lease" })
        else if not (lease_id == s.lease_id)
        then pure (record { accepted = false; reason = "lease_id does not hold control" })
        else check_obstacle v >>= λ v. accept now v

  unfoldable pub emergency_stop : String → Teleop B T (Unit {0})
  unfolding end_drive clear_lease emit on_robot
  emergency_stop reason = do
    end_drive c false
    on_robot (Unitree.stop c.dev c.settings (or_text reason "teleop emergency stop"))
    clear_lease
    if_some c.navigation
        (λ nav. try (on_navigation c (nav.cancel none)) (λ _. pure tt) (λ _. pure tt)) (pure tt)
    emit ControlEventType.stopped (or_text reason "estop")

  unfoldable pub stale : B.Float → Session B T → Bool
  unfolding seconds
  stale now s = B.lt (deadman_s c.settings) (B.sub now s.setpoint.at)

  -- What a hold reads of the session at `now`.
  unfoldable pub live_velocity : B.Float → Session B T → Velocity B
  unfolding stale
  live_velocity now s = if stale now s then zero_velocity B else s.setpoint.velocity

  -- The end of the drive loop.
  unfoldable pub finish_loop : DriveTask → Bool → Teleop B T (Unit {0})
  unfolding set_task on_robot emit
  finish_loop task watchdog_fired =
      set_task (some (record task { phase = done }))
      >> loop_end c
      >> (if watchdog_fired then emit ControlEventType.watchdog "deadman: no setpoint" else pure tt)

  -- A turn of the drive loop at `now`. What a hold raises ends the task.
  unfoldable pub drive_turn :
      B.Float → ℕ → Action T (Velocity B) → B.Float → DriveTask → Teleop B T (Unit {0})
  unfolding finish_loop stale set_task on_robot chunk_s
  drive_turn now rounds get_velocity loop_time task = do
    s ← get_state
    if not (task.lease == s.lease_id) || B.le s.lease_expires now
        then finish_loop task false
        else if stale now s
        then finish_loop task true
        else set_task (some (record task { phase = holding }))
          >> try
              (on_robot (
                Unitree.stream_hold c.dev c.settings rounds get_velocity
                  (B.add loop_time (chunk_s c.settings))))
              pure (λ exc. finish_loop task false)
