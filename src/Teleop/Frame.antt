-- ===== src/Teleop/Frame.antt =====
-- What the steps of a session keep, from what their parts keep (robot_brain/teleop/session.py).
use robot_brain.Prelude.{
  ℕ, Bool, true, false, ◌≡◌, ℤ, String, Option, some, none, not, ◌||◌, ◌==◌, string_eq,
}
use robot_brain.Core.Builtins.{Builtins}
use robot_brain.Core.Actions.{
  Action, pure, Keeps, try-Keeps, bind-Keeps, seq-Keeps, pure-Keeps, throw-Keeps, get_state-Keeps,
  if-Keeps, if_some-Keeps,
}
use robot_brain.Actuation.Transport.{Velocity}
use robot_brain.Actuation.Unitree
use robot_brain.Actuation.State.{on_transport}
use robot_brain.Navigation.Base.{NavigationClient, is_active}
use robot_brain.Teleop.State.{
  ControlEventType, LeaseResult, Phase, created, holding, done, DriveTask, Session, Control,
  on_robot, emit, clear_lease, set_task,
}
use robot_brain.Teleop.Lease.{
  grant, has_ended, cancel_navigation, preempt, interrupt, interrupt_task, end_drive, release_lease,
  loop_end,
}
use robot_brain.Teleop.Drive.{
  read_front_ultrasonic, check_obstacle, accept, set_velocity, emergency_stop, stale, finish_loop,
  drive_turn,
}
use robot_brain.Teleop.Steps.{
  Step, Reach, acquires, preempts, releases, sets, stops, turns, passes, here, next,
}

module _ {B : Builtins} {T : Type 0} (c : Control B T) (Q : T → Type 0)
    (Drawn : String → Type 0) where
  -- A property of sessions that everything which the steps are made of keeps.
  pub record Frame (P : Session B T → Type 0) : Type 0 where
    pub robot_stops : (reason : String) → Keeps P (on_robot (Unitree.stop c.dev c.settings reason))
    pub robot_releases :
        (reason : String) → Keeps P (on_robot (Unitree.release_drive c.dev c.settings reason))
    pub robot_holds :
        (rounds : ℕ) (v : Action T (Velocity B)) (deadline : B.Float)
        → Keeps Q v
        → Keeps P (on_robot (Unitree.stream_hold c.dev c.settings rounds v deadline))
    pub reads : Keeps P (on_robot (on_transport c.dev.read_state))
    pub cancels :
        c.settings.unitree_dry_run ≡ false → Keeps P (on_robot (on_transport c.dev.cancel_hold))
    pub navigation_states :
        (nav : NavigationClient B T)
        → c.navigation ≡ some nav
        → Keeps P (on_robot (on_transport nav.get_state))
    pub navigation_cancels :
        (nav : NavigationClient B T) (goal : Option String)
        → c.navigation ≡ some nav
        → Keeps P (on_robot (on_transport (nav.cancel goal)))
    pub emits : (type : ControlEventType) (message : String) → Keeps P (emit type message)
    pub clears : Keeps P clear_lease
    pub tasks : (task : Option DriveTask) → Keeps P (set_task task)
    pub grants :
        (now : B.Float) (fresh operator_id : String) (ttl_ms : Option ℤ)
        → Drawn fresh
        → Keeps P (grant c now fresh operator_id ttl_ms)
    pub accepts : (now : B.Float) (v : Velocity B) → Keeps P (accept c now v)
    pub world :
        (s : Session B T) (t : T)
        → (Q s.robot.transport → Q t)
        → P s
        → P (record s { robot = record s.robot { transport = t } })

  module _ {P : Session B T → Type 0} (f : Frame P) where
    cancel_navigation-Keeps :
        (nav : NavigationClient B T) → c.navigation ≡ some nav → Keeps P (cancel_navigation c nav)
    unfolding cancel_navigation
    cancel_navigation-Keeps nav e = bind-Keeps (f.navigation_states nav e) (λ state.
        if-Keeps (is_active state.status)
          (λ _.
            bind-Keeps (f.navigation_cancels nav state.goal_id e) (λ ended.
              if-Keeps (has_ended c ended.status) (λ _. f.emits _ _) (λ _. throw-Keeps _)))
          (λ _. pure-Keeps _))

    preempt-Keeps : (given : LeaseResult B) → Keeps P (preempt c given)
    unfolding preempt
    preempt-Keeps given =
        if_some-Keeps
          (λ nav e.
            try-Keeps (cancel_navigation-Keeps nav e) (λ _. pure-Keeps _)
              (λ exc.
                seq-Keeps
                  (seq-Keeps
                    (bind-Keeps get_state-Keeps (λ s.
                      if-Keeps (given.lease_id == s.lease_id) (λ _. f.clears) (λ _. pure-Keeps _)))
                    (f.robot_stops _))
                  (pure-Keeps _)))
          (λ _. pure-Keeps _)

    loop_end-Keeps : Keeps P (loop_end c)
    loop_end-Keeps = f.robot_releases _

    interrupt-Keeps : Keeps P (interrupt c)
    unfolding interrupt
    interrupt-Keeps =
        try-Keeps (if-Keeps c.settings.unitree_dry_run (λ _. pure-Keeps _) f.cancels)
          (λ _. loop_end-Keeps) (λ exc. seq-Keeps loop_end-Keeps (throw-Keeps _))

    interrupt_task-Keeps : (task : Option DriveTask) → Keeps P (interrupt_task c task)
    interrupt_task-Keeps none = pure-Keeps _
    interrupt_task-Keeps (some task) = phase task.phase
      where
        phase :
            (p : Phase)
            → Keeps P (elim p [ created ↦ pure tt | holding ↦ interrupt c | done ↦ pure tt ])
        phase created = pure-Keeps _
        phase holding = interrupt-Keeps
        phase done = pure-Keeps _

    end_drive-Keeps : (release : Bool) → Keeps P (end_drive c release)
    unfolding end_drive
    end_drive-Keeps release = bind-Keeps get_state-Keeps (λ s. seq-Keeps (f.tasks none) (
        seq-Keeps (interrupt_task-Keeps s.drive_task)
          (if-Keeps release (λ _. f.robot_releases _) (λ _. pure-Keeps _))))

    release_lease-Keeps : (lease_id : String) → Keeps P (release_lease c lease_id)
    unfolding release_lease
    release_lease-Keeps lease_id = bind-Keeps get_state-Keeps (λ s.
        if-Keeps (not (lease_id == s.lease_id)) (λ _. pure-Keeps _)
          (λ _.
            seq-Keeps (seq-Keeps (seq-Keeps (end_drive-Keeps true) f.clears) (f.emits _ _))
              (pure-Keeps _)))

    check_obstacle-Keeps : (v : Velocity B) → Keeps P (check_obstacle c v)
    unfolding check_obstacle read_front_ultrasonic
    check_obstacle-Keeps v =
        if-Keeps (B.lt (B.decimal 0 0) v.vx)
          (λ _. bind-Keeps (try-Keeps f.reads (λ _. pure-Keeps _) (λ _. pure-Keeps _)) (λ reading.
            if_some-Keeps
              (λ obs e.
                if-Keeps (B.lt obs (B.decimal 30 2)) (λ _. seq-Keeps (f.emits _ _) (pure-Keeps _))
                  (λ _. pure-Keeps _))
              (λ _. pure-Keeps _)))
          (λ _. pure-Keeps _)

    set_velocity-Keeps :
        (now : B.Float) (lease_id : String) (v : Velocity B)
        → Keeps P (set_velocity c now lease_id v)
    unfolding set_velocity
    set_velocity-Keeps now lease_id v = bind-Keeps get_state-Keeps (λ s.
        if-Keeps (s.lease_id == "" || B.le s.lease_expires now) (λ _. pure-Keeps _)
          (λ _.
            if-Keeps (not (lease_id == s.lease_id)) (λ _. pure-Keeps _)
              (λ _. bind-Keeps (check_obstacle-Keeps v) (λ v. f.accepts now v))))

    emergency_stop-Keeps : (reason : String) → Keeps P (emergency_stop c reason)
    unfolding emergency_stop
    emergency_stop-Keeps reason = seq-Keeps (end_drive-Keeps false) (
        seq-Keeps (f.robot_stops _) (
          seq-Keeps f.clears (
            seq-Keeps
              (if_some-Keeps
                (λ nav e.
                  try-Keeps (f.navigation_cancels nav none e) (λ _. pure-Keeps _)
                    (λ _. pure-Keeps _))
                (λ _. pure-Keeps _))
              (f.emits _ _))))

    finish_loop-Keeps : (task : DriveTask) (fired : Bool) → Keeps P (finish_loop c task fired)
    unfolding finish_loop
    finish_loop-Keeps task fired =
        seq-Keeps (seq-Keeps (f.tasks _) loop_end-Keeps)
          (if-Keeps fired (λ _. f.emits _ _) (λ _. pure-Keeps _))

    drive_turn-Keeps :
        (now : B.Float) (rounds : ℕ) (v : Action T (Velocity B)) (loop_time : B.Float)
        (task : DriveTask)
        → Keeps Q v
        → Keeps P (drive_turn c now rounds v loop_time task)
    unfolding drive_turn
    drive_turn-Keeps now rounds v loop_time task h = bind-Keeps get_state-Keeps (λ s.
        if-Keeps (not (task.lease == s.lease_id) || B.le s.lease_expires now)
          (λ _. finish_loop-Keeps task false)
          (λ _.
            if-Keeps (stale c now s) (λ _. finish_loop-Keeps task true)
              (λ _. seq-Keeps (f.tasks _) (
                try-Keeps (f.robot_holds _ _ _ h) (λ _. pure-Keeps _)
                  (λ exc. finish_loop-Keeps task false)))))

    Step-keeps : {s t : Session B T} → Step c Q Drawn s t → P s → P t
    Step-keeps {s} (acquires now fresh operator_id ttl_ms d) p =
        (f.grants now fresh operator_id ttl_ms d).apply s p
    Step-keeps {s} (preempts given) p = (preempt-Keeps given).apply s p
    Step-keeps {s} (releases lease_id) p = (release_lease-Keeps lease_id).apply s p
    Step-keeps {s} (sets now lease_id v) p = (set_velocity-Keeps now lease_id v).apply s p
    Step-keeps {s} (stops reason) p = (emergency_stop-Keeps reason).apply s p
    Step-keeps {s} (turns now rounds v loop_time task e live h) p =
        (drive_turn-Keeps now rounds v loop_time task h).apply s p
    Step-keeps {s} (passes t h) p = f.world s t h p

    -- What the steps keep holds of every session that they reach.
    pub Reach-keeps : {s t : Session B T} → Reach c Q Drawn s t → P s → P t
    Reach-keeps here p = p
    Reach-keeps (next r st) p = Step-keeps st (Reach-keeps r p)
