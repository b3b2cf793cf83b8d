-- ===== src/Tests/TeleopRuns.antt =====
-- The session at concrete steps.
use robot_brain.Prelude.{◌≡◌, refl, true, false, String, none, some, [], ◌∷◌, arith, ◌≢◌, string_eq}
use robot_brain.Core.Results.{ok, raise}
use robot_brain.Core.Actions.{pure, throw, if_some, ◌>>=◌, modify, get_state, try}
use robot_brain.Actuation.Transport.{
  Ultrasonic, UnitreeState, FakeUnitreeTransport, fake_transport, read_state,
}
use robot_brain.Actuation.Unitree
use robot_brain.Actuation.State.{on_transport}
use robot_brain.Actuation.Unitree.{best_effort}
use robot_brain.Teleop.State.{
  ControlEventType, holding, Session, Control, no_setpoint, on_robot, emit, obstacle_msg,
  lease_ttl_s,
}
use robot_brain.Teleop.Lease.{grant}
use robot_brain.Teleop.Drive.{
  set_velocity, emergency_stop, check_obstacle, accept, read_front_ultrasonic,
}
use robot_brain.Teleop.Steps.{here, next, acquires, stops, after}
use robot_brain.Teleop.Holder.{holds_until_revoked, revoked, IsAccepted}
use robot_brain.Teleop.Limits.{session-keeps, Preemptible}
use robot_brain.Teleop.Deadman.{set_velocity_near}
use robot_brain.Teleop.Estop.{emergency_stop_lem, emergency_stop_escapes}
use robot_brain.Tests.Samples.{naturals, settings_sample}
use robot_brain.Tests.ActuationRuns.{
  dog, link, ready, fast, Logged, naturals-Order, sample-IsSensible, fake-Obeys,
}

abbrev Link : Type 0
Link = FakeUnitreeTransport naturals

abbrev control : Control naturals Link
control = record { dev = fake_transport; settings = settings_sample; navigation = none }

-- Ann holds the lease "a" until 30, and drives since 10.
abbrev driving : Session naturals Link
driving = record {
  robot = ready;
  lease_id = "a";
  operator = "ann";
  lease_expires = 30;
  setpoint = record { velocity = fast; at = 10 };
  drive_task = some (record { lease = "a"; phase = holding });
  events = [];
}

-- Bob has asked for the lease.
abbrev asked : Session naturals Link
asked = after (grant control 12 "b" "bob" none) driving

IsAccepted-asked : IsAccepted (set_velocity control 12 "a" fast asked).0
unfolding grant set_velocity check_obstacle accept read_front_ultrasonic read_state emit on_robot
    on_transport ◌>>=◌ pure get_state modify try if_some
IsAccepted-asked = refl

other : ◌≢◌ {A = String} "b" "a"
other e = cc ((string_eq.beq_iff "b" "a").1 e)

holds_until_revoked_example :
    (asked.lease_id ≡ "a") × (asked.operator ≡ "ann") × (naturals.le asked.lease_expires 12 ≡ false)
holds_until_revoked_example =
    holds_until_revoked control (λ _. Unit) "a" "ann" {s = driving} {t = asked} (λ e. cc)
      (λ e. refl) (next here (acquires 12 "b" "bob" none other)) 12 fast IsAccepted-asked

abbrev stopped : Session naturals Link
stopped = after (emergency_stop control "now") driving

emergency_stop_lem_example :
    (let (r, s') = emergency_stop control "now" driving in
      (r ≡ ok tt)
      × (s'.robot.stopped ≡ true)
      × (s'.lease_id ≡ "")
      × (s'.setpoint ≡ no_setpoint naturals)
      × (s'.drive_task ≡ none))
unfolding pure
emergency_stop_lem_example = emergency_stop_lem control "now" driving (λ t. refl)

gone : stopped.lease_id ≢ "a"
unfolding pure
gone e = let lost = (emergency_stop_lem control "now" driving (λ t. refl)).2 in cc

revoked_example :
    (reason : String) × (set_velocity control 12 "a" fast stopped
      ≡ (ok (record { accepted = false; reason = reason }), stopped))
revoked_example =
    revoked control (λ _. Unit) "a" {s = stopped} {t = stopped} (λ e. cc) gone here 12 fast

undisturbed : Preemptible control Logged
undisturbed = record {
  states = λ nav e. absurd (ground (arith, e));
  cancels = λ nav goal e. absurd (ground (arith, e));
}

session-keeps_example : Logged stopped.robot.transport
session-keeps_example =
    session-keeps control Logged naturals-Order sample-IsSensible fake-Obeys undisturbed (λ _. Unit)
      {s = driving} {t = stopped} (next here (stops "now")) tt

-- A wall 20 cm ahead, where floats count the unit: the literal 0.30 stands for 30.
abbrev wall : Ultrasonic naturals
wall = record { front = 20; left = 90; right = 90; rear = 90 }

abbrev near_wall : UnitreeState naturals
near_wall = record dog { ultrasonic = some wall }

abbrev blocked : Session naturals Link
blocked = record driving { robot = record ready { transport = record link { state = near_wall } } }

set_velocity_near_example :
    (let s' = (set_velocity control 12 "a" fast blocked).1 in
      ((set_velocity control 12 "a" fast blocked).0 ≡ ok (record { accepted = true; reason = "" }))
      × (s'.setpoint ≡ record { velocity = record fast { vx = 0 }; at = 12 })
      × (s'.lease_id ≡ "a")
      × (s'.lease_expires ≡ naturals.add 12 (lease_ttl_s settings_sample))
      × (s'.events
          ≡ record { type = ControlEventType.obstacle; message = obstacle_msg naturals 20 }
            ∷ record { type = ControlEventType.accepted; message = "" }
            ∷ []))
unfolding read_state ◌>>=◌ get_state pure
set_velocity_near_example =
    set_velocity_near control 12 fast blocked near_wall wall blocked.robot.transport (λ e. cc) refl
      refl refl refl refl refl

abbrev steered : Session naturals Link
steered = (set_velocity control 12 "a" fast driving).1

-- A transport whose holds raise when they are cancelled.
abbrev rough : Control naturals Link
rough = record control {
  dev = record (fake_transport {B = naturals}) { cancel_hold = throw "lost" };
}

emergency_stop_escapes_example :
    (let (r, s') = emergency_stop rough "now" driving in
      (r ≡ raise "lost")
      × (s'.robot
          ≡ (Unitree.release_drive rough.dev settings_sample "teleop drive loop end" ready).1)
      × (s'.lease_id ≡ "a")
      × (s'.setpoint ≡ driving.setpoint))
unfolding throw
emergency_stop_escapes_example =
    emergency_stop_escapes rough "now" "a" "lost" driving refl refl refl
