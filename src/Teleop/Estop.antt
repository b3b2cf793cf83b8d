-- ===== src/Teleop/Estop.antt =====
-- The emergency stop of robot_brain/teleop/session.py.
use robot_brain.Prelude.{
  true, false, ◌≡◌, refl, String, Option, some, none, arith, inl, inr, Option-cases,
}
use robot_brain.Core.Builtins.{Builtins}
use robot_brain.Core.Results.{ok, raise, Result-cases}
use robot_brain.Core.Actions.{pure, throw, ◌>>=◌, try, get_state, modify, if_some}
use robot_brain.Actuation.Unitree
use robot_brain.Actuation.State.{on_transport}
use robot_brain.Actuation.Unitree.Failures.{stop_lem, release_drive_lem}
use robot_brain.Teleop.State.{
  Phase, created, holding, done, DriveTask, Session, Control, Teleop, on_robot, emit, set_task,
  clear_lease, no_setpoint, or_text,
}
use robot_brain.Teleop.Lease.{interrupt, interrupt_task, end_drive}
use robot_brain.Teleop.Drive.{emergency_stop}

module _ {B : Builtins} {T : Type 0} (c : Control B T) where
  -- The cancellation of a hold raises nothing of its own.
  abbrev pub CancelsQuietly : Type 0
  CancelsQuietly = (t : T) → (c.dev.cancel_hold t).0 ≡ ok tt

  interrupt_lem :
      CancelsQuietly
      → (s : Session B T)
      → ((interrupt c s).0 ≡ ok tt) × ((interrupt c s).1.drive_task ≡ s.drive_task)
  unfolding interrupt on_robot on_transport ◌>>=◌ try pure
  interrupt_lem quiet s =
      let reason : String = "teleop drive loop end" in
      let t = (c.dev.cancel_hold s.robot.transport).1 in
      ground (
        arith,
        quiet s.robot.transport,
        release_drive_lem c.dev c.settings reason s.robot,
        release_drive_lem c.dev c.settings reason (record s.robot { transport = t }),
      )

  interrupt_task_lem :
      CancelsQuietly
      → (task : Option DriveTask) (s : Session B T)
      → ((interrupt_task c task s).0 ≡ ok tt)
        × ((interrupt_task c task s).1.drive_task ≡ s.drive_task)
  unfolding pure
  interrupt_task_lem quiet none s = (refl, refl)
  interrupt_task_lem quiet (some task) s = phase task.phase
    where
      phase :
          (p : Phase)
          → (let m : Teleop B T (Unit {0}) = elim p [
            | created ↦ pure tt
            | holding ↦ interrupt c
            | done ↦ pure tt
          ] in
              ((m s).0 ≡ ok tt) × ((m s).1.drive_task ≡ s.drive_task))
      phase created = (refl, refl)
      phase holding = interrupt_lem quiet s
      phase done = (refl, refl)

  end_drive_lem :
      CancelsQuietly
      → (s : Session B T)
      → ((end_drive c false s).0 ≡ ok tt) × ((end_drive c false s).1.drive_task ≡ none)
  unfolding end_drive set_task ◌>>=◌ get_state modify pure
  end_drive_lem quiet s =
      ground (arith, interrupt_task_lem quiet s.drive_task (record s { drive_task = none }))

  -- An emergency stop returns, and leaves the robot stopped, no lease, no setpoint and no drive, if
  -- cancelling a hold raises nothing of its own; what the transport and the navigation raise is of no
  -- account.
  pub emergency_stop_lem :
      (reason : String) (s : Session B T)
      → CancelsQuietly
      → (let (r, s') = emergency_stop c reason s in
          (r ≡ ok tt)
          × (s'.robot.stopped ≡ true)
          × (s'.lease_id ≡ "")
          × (s'.setpoint ≡ no_setpoint B)
          × (s'.drive_task ≡ none))
  unfolding emergency_stop on_robot on_transport clear_lease emit ◌>>=◌ try pure modify if_some
  emergency_stop_lem reason s quiet =
      let s1 = (end_drive c false s).1 in
      let text : String = or_text reason "teleop emergency stop" in
      elim (Option-cases c.navigation) [
        | inl e ↦ ground (arith, e, end_drive_lem quiet s, stop_lem c.dev c.settings text s1.robot)
        | inr (nav, e) ↦
            let t = (Unitree.stop c.dev c.settings text s1.robot).1.transport in
            elim (Result-cases (nav.cancel none t).0) [
              | inl (a, f) ↦
                  ground
                    (arith, e, f, end_drive_lem quiet s, stop_lem c.dev c.settings text s1.robot)
              | inr (a, f) ↦
                  ground
                    (arith, e, f, end_drive_lem quiet s, stop_lem c.dev c.settings text s1.robot)
            ]
      ]

  -- If a hold raises an exception of its own while its task is cancelled, outside of a dry run, an
  -- emergency stop ends with that exception: the robot is only sent a release of the drive, and the
  -- lease and the setpoint stay as they are.
  pub emergency_stop_escapes :
      (reason lease exc : String) (s : Session B T)
      → c.settings.unitree_dry_run ≡ false
      → s.drive_task ≡ some (record { lease = lease; phase = holding })
      → (c.dev.cancel_hold s.robot.transport).0 ≡ raise exc
      → (let (r, s') = emergency_stop c reason s in
          let t = (c.dev.cancel_hold s.robot.transport).1 in
          (r ≡ raise exc)
          × (s'.robot
              ≡ (Unitree.release_drive c.dev c.settings "teleop drive loop end"
                  (record s.robot { transport = t })).1)
          × (s'.lease_id ≡ s.lease_id)
          × (s'.setpoint ≡ s.setpoint))
  unfolding emergency_stop end_drive interrupt set_task on_robot on_transport ◌>>=◌ try pure modify
      get_state throw
  emergency_stop_escapes reason lease exc s live e f =
      let t = (c.dev.cancel_hold s.robot.transport).1 in
      ground (
        arith,
        live,
        e,
        f,
        release_drive_lem c.dev c.settings "teleop drive loop end"
            (record s.robot { transport = t }),
      )
