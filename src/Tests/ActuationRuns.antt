-- ===== src/Tests/ActuationRuns.antt =====
-- The robot over the fake transport of robot_brain/actuation/unitree.py, at concrete requests.
use robot_brain.Prelude.{
  ◌≡◌, refl, true, false, none, List, [], ◌∷◌, ◌++◌, arith, pos, All, Bool-cases, inl, inr,
}
use robot_brain.Core.Results.{ok, raise}
use robot_brain.Core.Actions.{Keeps, pure, if_some, ◌>>=◌, modify, throw, get_state}
use robot_brain.Actuation.Transport.{
  Velocity, UnitreeState, UnitreeCommand, FakeUnitreeTransport, fake_transport, read_state,
  send_command, apply_command, action_name,
}
use robot_brain.Actuation.State.{UnitreeRobot, label, motion, clamped, clamp, max, min, max_lin}
use robot_brain.Actuation.Unitree.{drive, stop}
use robot_brain.Actuation.Unitree.Limits.{Order, IsSensible, InLimits}
use robot_brain.Actuation.Unitree.Requests.{Request, serve}
use robot_brain.Actuation.Unitree.Authority.{Obeys, serve-keeps}
use robot_brain.Actuation.Unitree.Failures.{stop_lem, drive_failed}
use robot_brain.Tests.Samples.{naturals, settings_sample, origin}

abbrev pub dog : UnitreeState naturals
dog = record {
  connected = true;
  battery_level = 80;
  position = origin;
  heading_degrees = 0;
  is_standing = true;
  is_moving = false;
  error_code = pos 0;
  sport_mode = none;
  velocity = (0, 0, 0);
  imu_rpy = (0, 0, 0);
  ultrasonic = none;
  pose_frame_id = "world";
  pose_timestamp = none;
  pose_source = "sport_state";
}

abbrev pub link : FakeUnitreeTransport naturals
link = record { state = dog; is_connected = true; command_log = []; fail_next = false }

abbrev pub ready : UnitreeRobot naturals (FakeUnitreeTransport naturals)
ready = record { action_history = []; stopped = false; transport = link }

abbrev pub fast : Velocity naturals
fast = record { vx = 9; vy = 1; vyaw = 7 }

-- Every command in the log of the fake transport is within the limits.
abbrev pub Logged : FakeUnitreeTransport naturals → Type 0
Logged t = All (InLimits settings_sample) t.command_log

All-append :
    (P : UnitreeCommand naturals → Type 0) (xs : List (UnitreeCommand naturals))
    (x : UnitreeCommand naturals)
    → All P xs
    → P x
    → All P (xs ++ x ∷ [])
All-append P [] x h p = (p, tt)
All-append P (y ∷ ys) x h p = (h.0, All-append P ys x h.1 p)

pub naturals-Order : Order naturals
naturals-Order = record { asym = λ x y h. ground arith; trans = λ x y z h k. ground arith }

pub sample-IsSensible : IsSensible settings_sample
unfolding max_lin min
sample-IsSensible = record { speed = refl; yaw = refl; duration = refl; heading = refl }

send-Logged :
    (c : UnitreeCommand naturals) → InLimits settings_sample c → Keeps Logged (send_command c)
unfolding send_command ◌>>=◌ modify throw get_state
send-Logged c h = record {
  apply = λ t l. elim (Bool-cases t.is_connected) [
    | inl e ↦ elim (Bool-cases t.fail_next) [
      | inl f ↦ ground (arith, e, f, l)
      | inr f ↦ ground (arith, e, f, All-append (InLimits settings_sample) t.command_log c l h)
    ]
    | inr e ↦ ground (arith, e, l)
  ];
}

pub fake-Obeys : Obeys (fake_transport {B = naturals}) settings_sample Logged
unfolding read_state send_command ◌>>=◌ pure get_state throw
fake-Obeys = record {
  reads = record {
    apply = λ t l. elim (Bool-cases t.is_connected) [
      | inl e ↦ ground (arith, e, l)
      | inr e ↦ ground (arith, e, l)
    ];
  };
  sends = λ c t h near _ l. (send-Logged c h).apply t l;
  omni = λ m e. absurd (ground (arith, e));
  cancels = λ _. record { apply = λ t l. l };
  asserts = λ m e. absurd (ground (arith, e));
  verifies = λ m e. absurd (ground (arith, e));
  holds = λ hold v deadline e. absurd (ground (arith, e));
}

serve-keeps_example :
    Logged
      (serve fake_transport settings_sample
        (Request.move_to dog.position 1
          ∷ Request.drive fast 9 false
          ∷ Request.turn 90
          ∷ Request.wave
          ∷ [])
        ready).transport
serve-keeps_example =
    serve-keeps fake_transport settings_sample Logged naturals-Order sample-IsSensible fake-Obeys
      (Request.move_to dog.position 1
        ∷ Request.drive fast 9 false
        ∷ Request.turn 90
        ∷ Request.wave
        ∷ [])
      ready (tt, (tt, (tt, (tt, tt)))) tt

stop_lem_example : stop fake_transport settings_sample "halt" ready ≡ (
  ok tt,
  record {
    action_history = ("stop", ("reason", label "halt") ∷ []) ∷ [];
    stopped = true;
    transport = record link {
      command_log = UnitreeCommand.stop "halt" ∷ [];
      state = record dog { velocity = (0, 0, 0) };
    };
  },
)
unfolding send_command apply_command ◌>>=◌ get_state modify
stop_lem_example = stop_lem fake_transport settings_sample "halt" ready

abbrev broken : FakeUnitreeTransport naturals
broken = record link { fail_next = true }

abbrev unlucky : UnitreeRobot naturals (FakeUnitreeTransport naturals)
unlucky = record ready { transport = broken }

drive_failed_example : drive fake_transport settings_sample fast 9 false unlucky ≡ (
  raise "Unitree drive failed: Simulated transport failure for drive",
  record {
    action_history =
        (
          "drive",
          ("velocity", motion (record { vx = 3; vy = 1; vyaw = 2 }) 4)
              ∷ ("original", motion fast 9)
              ∷ [],
        )
        ∷ ("stop", ("reason", label "drive exception: Simulated transport failure for drive") ∷ [])
        ∷ [];
    stopped = true;
    transport = record link {
      command_log =
          UnitreeCommand.stop "drive exception: Simulated transport failure for drive" ∷ [];
      state = record dog { velocity = (0, 0, 0) };
    };
  },
)
unfolding send_command apply_command action_name ◌>>=◌ get_state modify throw pure if_some clamped
    clamp max min max_lin
drive_failed_example =
    drive_failed fake_transport settings_sample fast 9 false unlucky unlucky
      "Simulated transport failure for drive" refl refl refl
