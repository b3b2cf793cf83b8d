-- ===== src/Teleop/Steps.antt =====
-- The steps of a session in any order: what its clients call, the turns of its drive loop and what
-- happens outside meanwhile (robot_brain/teleop/session.py). `Drawn` holds of the ids that are drawn
-- for new leases, and `Q` of the outside, where what is not a step of the session keeps it.
use robot_brain.Prelude.{ℕ, ◌≡◌, ℤ, String, Option, some, ◌≢◌, string_eq}
use robot_brain.Core.Builtins.{Builtins}
use robot_brain.Core.Actions.{Action, Keeps}
use robot_brain.Actuation.Transport.{Velocity}
use robot_brain.Teleop.State.{LeaseResult, done, DriveTask, Session, Control, Teleop}
use robot_brain.Teleop.Lease.{grant, preempt, release_lease}
use robot_brain.Teleop.Drive.{set_velocity, emergency_stop, drive_turn}

module _ {B : Builtins} {T : Type 0} where
  abbrev pub after : {A : Type 0} → Teleop B T A → Session B T → Session B T
  after m s = (m s).1

module _ {B : Builtins} {T : Type 0} (c : Control B T) (Q : T → Type 0)
    (Drawn : String → Type 0) where
  -- A client that acquires the lease waits for the navigation, and other steps come between.
  pub data Step (s : Session B T) : Session B T → Type 0 where
    acquires :
        (now : B.Float) (fresh operator_id : String) (ttl_ms : Option ℤ)
        → Drawn fresh
        → Step s (after (grant c now fresh operator_id ttl_ms) s)
    preempts : (given : LeaseResult B) → Step s (after (preempt c given) s)
    releases : (lease_id : String) → Step s (after (release_lease c lease_id) s)
    sets :
        (now : B.Float) (lease_id : String) (v : Velocity B)
        → Step s (after (set_velocity c now lease_id v) s)
    stops : (reason : String) → Step s (after (emergency_stop c reason) s)
    turns :
        (now : B.Float) (rounds : ℕ) (v : Action T (Velocity B)) (loop_time : B.Float)
        (task : DriveTask)
        → s.drive_task ≡ some task
        → task.phase ≢ done
        → Keeps Q v
        → Step s (after (drive_turn c now rounds v loop_time task) s)
    passes :
        (t : T)
        → (Q s.robot.transport → Q t)
        → Step s (record s { robot = record s.robot { transport = t } })

  pub data Reach (s : Session B T) : Session B T → Type 0 where
    here : Reach s s
    next : {t u : Session B T} → Reach s t → Step t u → Reach s u
