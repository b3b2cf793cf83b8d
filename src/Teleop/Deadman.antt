-- ===== src/Teleop/Deadman.antt =====
-- The dead-man timer, the obstacle check and the emergency stop (robot_brain/teleop/session.py).
use robot_brain.Prelude.{
  true, false, ◌≡◌, some, ◌≢◌, ◌==◌, string_eq, arith, List, [], ◌∷◌, ◌++◌, eq_self,
}
use robot_brain.Core.Builtins.{Builtins}
use robot_brain.Core.Results.{ok}
use robot_brain.Core.Actions.{pure, ◌>>=◌, try, get_state, modify, if_some}
use robot_brain.Actuation.Transport.{Velocity, UnitreeState, Ultrasonic}
use robot_brain.Actuation.Unitree
use robot_brain.Actuation.State.{on_transport}
use robot_brain.Teleop.State.{
  ControlEventType, ControlEvent, Session, Control, on_robot, emit, obstacle_msg, lease_ttl_s,
}
use robot_brain.Teleop.Drive.{read_front_ultrasonic, check_obstacle, accept, set_velocity}

module _ {B : Builtins} {T : Type 0} (c : Control B T) where
  -- The velocity that an accepted setpoint leaves.
  abbrev halted : Velocity B → Velocity B
  halted v = record v { vx = B.decimal 0 0 }

  abbrev events_near : B.Float → List ControlEvent → List ControlEvent
  events_near obs events =
      (events ++ record { type = ControlEventType.obstacle; message = obstacle_msg B obs } ∷ [])
      ++ record { type = ControlEventType.accepted; message = "" } ∷ []

  -- A setpoint of the holder of a live lease that drives forward, while a reading in front is positive
  -- and below 0.3 m, is accepted without its forward part, and the obstacle is reported before the
  -- acceptance: the setpoint is as of now, and the lease is renewed.
  pub set_velocity_near :
      (now : B.Float) (v : Velocity B) (s : Session B T) (raw : UnitreeState B) (u : Ultrasonic B)
      (t : T)
      → s.lease_id ≢ ""
      → B.le s.lease_expires now ≡ false
      → B.lt (B.decimal 0 0) v.vx ≡ true
      → c.dev.read_state s.robot.transport ≡ (ok raw, t)
      → raw.ultrasonic ≡ some u
      → B.le u.front (B.decimal 0 0) ≡ false
      → B.lt u.front (B.decimal 30 2) ≡ true
      → (let s' = (set_velocity c now s.lease_id v s).1 in
          ((set_velocity c now s.lease_id v s).0 ≡ ok (record { accepted = true; reason = "" }))
          × (s'.setpoint ≡ record { velocity = halted v; at = now })
          × (s'.lease_id ≡ s.lease_id)
          × (s'.lease_expires ≡ B.add now (lease_ttl_s c.settings))
          × (s'.events ≡ events_near u.front s.events))
  unfolding set_velocity check_obstacle read_front_ultrasonic accept emit on_robot on_transport
      ◌>>=◌ pure get_state modify try if_some
  set_velocity_near now v s raw u t held live ahead r e far near =
      let named : (s.lease_id == "") ≡ false =
        ground (arith, held, string_eq.beq_iff s.lease_id "") in
      ground (arith, named, live, ahead, r, e, far, near, eq_self s.lease_id)
