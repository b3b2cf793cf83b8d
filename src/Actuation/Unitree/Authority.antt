-- ===== src/Actuation/Unitree/Authority.antt =====
-- What the requests to `UnitreeRobot` keep of the outside (robot_brain/actuation/unitree.py).
use robot_brain.Prelude.{
  ℕ, Bool, true, false, ◌≡◌, String, some, List, [], ◌∷◌, arith, contains, string_eq, All, subst,
  inl, inr, ap, Bool-cases, if◌then◌else◌, zero, suc, not, ◌&&◌,
}
use robot_brain.Core.Builtins.{Builtins}
use robot_brain.Core.Results.{ok, Result-cases}
use robot_brain.Core.World.{Position, distance_to}
use robot_brain.Core.Settings.{Settings}
use robot_brain.Core.Actions.{
  Action, ◌>>=◌, pure, modify, Keeps, try-Keeps, try-run, bind-Keeps, seq-Keeps, pure-Keeps,
  throw-Keeps, get_state-Keeps, modify-Keeps, if-Keeps, if_some, if_some-Keeps,
}
use robot_brain.Actuation.Transport.{Velocity, UnitreeCommand, UnitreeState, Transport}
use robot_brain.Actuation.State.{
  UnitreeRobot, Robot, min, clamped, on_transport, record_entry, patch_last_history, set_stopped,
  allowed_postures, Details,
}
use robot_brain.Actuation.Unitree.{
  best_effort, stop, release_drive, send_or_stop, move_from, move_to, turn, set_posture, wave,
  enable_omni_teleop, dry_hold, stream_hold, verify_stopped, conclude_drive, drive, dock, follow,
  report, get_state_of, prepare_locomotion,
}
use robot_brain.Actuation.Unitree.Limits.{
  Order, AtMost, IsSensible, IsSlow, InLimits, slow_enough, clamp-Band, clamped-IsSlow,
  duration_bounds,
}
use robot_brain.Actuation.Unitree.Requests.{Request, perform, serve}

module _ {B : Builtins} {T : Type 0} (dev : Transport B T) (settings : Settings B)
    (Q : T → Type 0) where
  abbrev pub IsLive : Type 0
  IsLive = settings.unitree_dry_run ≡ false

  -- A move is sent in the state that a reading has just left, and its target is within the longest step
  -- of the position that was read.
  abbrev pub InReach : T → UnitreeCommand B → Type 0
  InReach t (UnitreeCommand.move target _) =
      (before : T) × (raw : UnitreeState B) × (dev.read_state before ≡ (ok raw, t))
      × AtMost B (min B settings.unitree_max_step settings.max_step_distance)
          (distance_to raw.position target)
  InReach t _ = Unit

  -- Reading keeps `Q`; unless the run is dry, so do the other methods, as long as the commands and the
  -- velocities of the holds are in the limits.
  pub record Obeys : Type 0 where
    pub reads : Keeps Q dev.read_state
    pub sends :
        (c : UnitreeCommand B) (t : T)
        → InLimits settings c
        → InReach t c
        → IsLive
        → Q t
        → Q (dev.send_command c t).1
    pub omni : (m : Action T (Unit {0})) → dev.enable_omni_teleop ≡ some m → IsLive → Keeps Q m
    pub cancels : IsLive → Keeps Q dev.cancel_hold
    pub asserts :
        (m : Settings B → Action T (Unit {0}))
        → dev.assert_drive_preconditions ≡ some m
        → IsLive
        → Keeps Q (m settings)
    pub verifies :
        (m : Settings B → Action T Bool)
        → dev.verify_stopped_after_drive ≡ some m
        → IsLive
        → Keeps Q (m settings)
    pub holds :
        (hold : Action T (Velocity B) → B.Float → Action T (Unit {0})) (v : Action T (Velocity B))
        (deadline : B.Float)
        → dev.stream_hold ≡ some hold
        → IsLive
        → Keeps Q v
        → ((t : T) (u : Velocity B) → (v t).0 ≡ ok u → IsSlow settings u)
        → Keeps Q (hold v deadline)

  abbrev pub On : UnitreeRobot B T → Type 0
  On r = Q r.transport

  -- The velocities that are asked for keep `Q`.
  abbrev pub Asks : Request B T → Type 0
  Asks (Request.stream_hold rounds get_velocity deadline) = Keeps Q get_velocity
  Asks _ = Unit

  pub on_transport-Keeps : {A : Type 0} {m : Action T A} → Keeps Q m → Keeps On (on_transport m)
  unfolding on_transport
  on_transport-Keeps h = record { apply = λ r q. h.apply r.transport q }

  record_entry-Keeps : (action : String) (d : Details B) → Keeps On (record_entry action d)
  unfolding record_entry
  record_entry-Keeps action d = modify-Keeps _ (λ r q. q)

  patch-Keeps : (d : Details B) → Keeps On (patch_last_history d)
  unfolding patch_last_history
  patch-Keeps d = modify-Keeps _ (λ r q. q)

  set_stopped-Keeps : (b : Bool) → Keeps On (set_stopped b)
  unfolding set_stopped
  set_stopped-Keeps b = modify-Keeps _ (λ r q. q)

  -- A command that is sent unless the run is dry.
  unless_dry-Keeps :
      {m : Robot B T (Unit {0})}
      → (IsLive → Keeps On m)
      → Keeps On (if settings.unitree_dry_run then pure tt else m)
  unless_dry-Keeps h = if-Keeps settings.unitree_dry_run (λ _. pure-Keeps _) h

  module _ (o : Order B) (s : IsSensible settings) (d : Obeys) where
    send-Keeps :
        (c : UnitreeCommand B)
        → InLimits settings c
        → ((t : T) → InReach t c)
        → IsLive
        → Keeps On (on_transport (dev.send_command c))
    unfolding on_transport
    send-Keeps c h near live = record {
      apply = λ r q. d.sends c r.transport h (near r.transport) live q;
    }

    best_effort-Keeps :
        (c : UnitreeCommand B)
        → InLimits settings c
        → ((t : T) → InReach t c)
        → IsLive
        → Keeps On (best_effort dev settings c)
    unfolding best_effort
    best_effort-Keeps c h near live =
        try-Keeps (send-Keeps c h near live) (λ _. pure-Keeps _) (λ _. pure-Keeps _)

    pub stop-Keeps : (reason : String) → Keeps On (stop dev settings reason)
    unfolding stop
    stop-Keeps reason = seq-Keeps (record_entry-Keeps _ _) (
        seq-Keeps (set_stopped-Keeps true) (
          unless_dry-Keeps
            (λ live. best_effort-Keeps (UnitreeCommand.stop reason) tt (λ _. tt) live)))

    pub release_drive-Keeps : (reason : String) → Keeps On (release_drive dev settings reason)
    unfolding release_drive
    release_drive-Keeps reason = seq-Keeps (record_entry-Keeps _ _) (
        unless_dry-Keeps
          (λ live. best_effort-Keeps (UnitreeCommand.release reason) tt (λ _. tt) live))

    send_or_stop-run :
        (c : UnitreeCommand B) (doing failed : String) (r : UnitreeRobot B T)
        → InLimits settings c
        → InReach r.transport c
        → IsLive
        → On r
        → On (send_or_stop dev settings c doing failed r).1
    unfolding send_or_stop on_transport
    send_or_stop-run c doing failed r h near live q =
        let p = d.sends c r.transport h near live q in
        try-run On _ _ _ r (λ a e. (pure-Keeps {Q = On} a).apply _ p)
          (λ exc e. (seq-Keeps (stop-Keeps _) (throw-Keeps _)).apply _ p)

    send_or_stop-Keeps :
        (c : UnitreeCommand B) (doing failed : String)
        → InLimits settings c
        → ((t : T) → InReach t c)
        → IsLive
        → Keeps On (send_or_stop dev settings c doing failed)
    send_or_stop-Keeps c doing failed h near live = record {
      apply = λ r q. send_or_stop-run c doing failed r h (near r.transport) live q;
    }

    unless_dry-run :
        (m : Robot B T (Unit {0})) (r : UnitreeRobot B T)
        → (IsLive → On (m r).1)
        → On r
        → On ((if settings.unitree_dry_run then pure tt else m) r).1
    unless_dry-run m r h q = elim (Bool-cases settings.unitree_dry_run) [
      | inl e ↦ rw e ((pure-Keeps {Q = On} tt).apply r q)
      | inr e ↦ rw e (h e)
    ]

    move_from-run :
        (before : T) (raw : UnitreeState B) (target : Position B) (speed : B.Float)
        (r : UnitreeRobot B T)
        → dev.read_state before ≡ (ok raw, r.transport)
        → On r
        → On (move_from dev settings raw.position target speed r).1
    unfolding move_from record_entry set_stopped ◌>>=◌ modify
    move_from-run before raw target speed r read q =
        elim (Bool-cases (
          B.lt (min B settings.unitree_max_step settings.max_step_distance)
            (distance_to raw.position target))) [
              | inl e ↦
                  rw (e, move_from) ((seq-Keeps (record_entry-Keeps _ _) (throw-Keeps _)).apply r q)
              | inr e ↦
                  rw (e, move_from)
                    (unless_dry-run _ _
                      (λ live.
                        send_or_stop-run _ _ _ _ (slow_enough o settings speed)
                          (before, raw, read, e) live q)
                      q)
            ]

    move_to-Keeps :
        (target : Position B) (speed : B.Float) → Keeps On (move_to dev settings target speed)
    unfolding move_to on_transport
    move_to-Keeps target speed = record {
      apply = λ r q.
          let p = d.reads.apply r.transport q in
          try-run On _ _ _ r
            (λ raw e.
              move_from-run r.transport raw target speed _
                (ap (λ x. (x, (dev.read_state r.transport).1)) e) p)
            (λ exc e. (seq-Keeps (record_entry-Keeps _ _) (throw-Keeps _)).apply _ p);
    }

    turn-Keeps : (heading : B.Float) → Keeps On (turn dev settings heading)
    unfolding turn
    turn-Keeps heading = seq-Keeps (record_entry-Keeps _ _) (
        unless_dry-Keeps (λ live.
          send_or_stop-Keeps _ _ _ (clamp-Band o (B.decimal 45 0) heading s.heading) (λ _. tt)
            live))

    set_posture-Keeps : (name : String) → Keeps On (set_posture dev settings name)
    unfolding set_posture
    set_posture-Keeps name =
        if-Keeps (not (contains allowed_postures name))
          (λ _. seq-Keeps (record_entry-Keeps _ _) (throw-Keeps _))
          (λ allowed. seq-Keeps (record_entry-Keeps _ _) (
            unless_dry-Keeps
              (λ live. send_or_stop-Keeps _ _ _ (ground (arith, allowed)) (λ _. tt) live)))

    enable_omni_teleop-Keeps : Keeps On (enable_omni_teleop dev settings)
    unfolding enable_omni_teleop
    enable_omni_teleop-Keeps = seq-Keeps (record_entry-Keeps _ _) (
        unless_dry-Keeps
          (λ live. if_some-Keeps (λ m e. on_transport-Keeps (d.omni m e live)) (λ _. pure-Keeps _)))

    get_state_of-Keeps : Keeps On (get_state_of dev settings)
    unfolding get_state_of
    get_state_of-Keeps =
        try-Keeps (on_transport-Keeps d.reads)
          (λ raw. seq-Keeps (record_entry-Keeps _ _) (
            if-Keeps
              (B.le (B.decimal 0 0) raw.battery_level && B.le raw.battery_level (B.decimal 100 0))
              (λ _. pure-Keeps _) (λ _. throw-Keeps _)))
          (λ exc. seq-Keeps (record_entry-Keeps _ _) (pure-Keeps _))

    assert-Keeps :
        IsLive
        → Keeps On
            (if_some dev.assert_drive_preconditions (λ m. on_transport (m settings)) (pure tt))
    assert-Keeps live =
        if_some-Keeps (λ m e. on_transport-Keeps (d.asserts m e live)) (λ _. pure-Keeps _)

    clamped_velocity-Keeps :
        {v : Action T (Velocity B)} → Keeps Q v → Keeps Q (v >>= λ u. pure (clamped settings u))
    clamped_velocity-Keeps h = bind-Keeps h (λ u. pure-Keeps _)

    clamped_velocity-IsSlow :
        (v : Action T (Velocity B)) (t : T) (u : Velocity B)
        → ((v >>= λ u. pure (clamped settings u)) t).0 ≡ ok u
        → IsSlow settings u
    unfolding ◌>>=◌ pure
    clamped_velocity-IsSlow v t u e = elim (Result-cases (v t).0) [
      | inl (w, f) ↦ subst (IsSlow settings) (ground (arith, e, f)) (clamped-IsSlow o settings w s)
      | inr (text, f) ↦ absurd (ground (arith, e, f))
    ]

    dry_hold-Keeps :
        (rounds : ℕ) {v : Action T (Velocity B)}
        → Keeps Q v
        → Keeps Q (dry_hold dev settings rounds v)
    unfolding dry_hold
    dry_hold-Keeps zero h = pure-Keeps _
    dry_hold-Keeps (suc rounds) h = bind-Keeps h (λ _. dry_hold-Keeps rounds h)

    pub stream_hold-Keeps :
        (rounds : ℕ) (v : Action T (Velocity B)) (deadline : B.Float)
        → Keeps Q v
        → Keeps On (stream_hold dev settings rounds v deadline)
    unfolding stream_hold
    stream_hold-Keeps rounds v deadline h = seq-Keeps (record_entry-Keeps _ _) (
        seq-Keeps (set_stopped-Keeps false) (
          if-Keeps settings.unitree_dry_run
            (λ _. on_transport-Keeps (dry_hold-Keeps rounds (clamped_velocity-Keeps h)))
            (λ live.
              if_some-Keeps
                (λ hold e. seq-Keeps (assert-Keeps live) (
                  on_transport-Keeps (
                    d.holds hold (v >>= λ u. pure (clamped settings u)) deadline e live
                      (clamped_velocity-Keeps h) (clamped_velocity-IsSlow v))))
                (λ _. throw-Keeps _))))

    verify-Keeps : IsLive → (stream : Bool) → Keeps On (verify_stopped dev settings stream)
    unfolding verify_stopped
    verify-Keeps live stream =
        if-Keeps stream (λ _. pure-Keeps _)
          (λ _.
            if_some-Keeps
              (λ m e. bind-Keeps (on_transport-Keeps (d.verifies m e live)) (λ _.
                try-Keeps (on_transport-Keeps d.reads) (λ _. pure-Keeps _) (λ _. pure-Keeps _)))
              (λ _. pure-Keeps _))

    conclude_drive-Keeps : IsLive → (stream : Bool) → Keeps On (conclude_drive dev settings stream)
    unfolding conclude_drive
    conclude_drive-Keeps live stream = bind-Keeps get_state-Keeps (λ r.
        bind-Keeps (verify-Keeps live stream) (λ stopped_ok.
          if-Keeps stopped_ok (λ _. patch-Keeps _)
            (λ _. seq-Keeps (seq-Keeps (patch-Keeps _) (stop-Keeps _)) (throw-Keeps _))))

    drive-Keeps :
        (v : Velocity B) (duration : B.Float) (stream : Bool)
        → Keeps On (drive dev settings v duration stream)
    unfolding drive
    drive-Keeps v duration stream =
        seq-Keeps
          (seq-Keeps (seq-Keeps (unless_dry-Keeps assert-Keeps) (record_entry-Keeps _ _))
            (set_stopped-Keeps false))
          (if-Keeps settings.unitree_dry_run (λ _. patch-Keeps _)
            (λ live.
              try-Keeps
                (send-Keeps (UnitreeCommand.drive _ _)
                  (
                    clamped-IsSlow o settings v s,
                    (duration_bounds o settings.unitree_max_drive_duration duration s.duration).0,
                    (duration_bounds o settings.unitree_max_drive_duration duration s.duration).1,
                  )
                  (λ _. tt) live)
                (λ _. conclude_drive-Keeps live stream)
                (λ exc. seq-Keeps (seq-Keeps (stop-Keeps _) (patch-Keeps _)) (throw-Keeps _))))

    perform-Keeps : (q : Request B T) → Asks q → Keeps On (perform dev settings q)
    unfolding perform wave dock follow report prepare_locomotion
    perform-Keeps (Request.stop reason) h = stop-Keeps reason
    perform-Keeps (Request.release_drive reason) h = release_drive-Keeps reason
    perform-Keeps (Request.move_to target speed) h = move_to-Keeps target speed
    perform-Keeps (Request.turn heading) h = turn-Keeps heading
    perform-Keeps (Request.set_posture name) h = set_posture-Keeps name
    perform-Keeps Request.wave h = seq-Keeps (record_entry-Keeps _ _) (set_posture-Keeps "hello")
    perform-Keeps Request.enable_omni_teleop h = enable_omni_teleop-Keeps
    perform-Keeps (Request.stream_hold rounds v deadline) h = stream_hold-Keeps rounds v deadline h
    perform-Keeps (Request.drive v duration stream) h = drive-Keeps v duration stream
    perform-Keeps Request.get_state h = bind-Keeps get_state_of-Keeps (λ _. pure-Keeps _)
    perform-Keeps (Request.dock station) h = seq-Keeps (record_entry-Keeps _ _) (throw-Keeps _)
    perform-Keeps (Request.follow target distance) h =
        seq-Keeps (record_entry-Keeps _ _) (throw-Keeps _)
    perform-Keeps (Request.report message severity) h = record_entry-Keeps _ _
    perform-Keeps Request.prepare_locomotion h = seq-Keeps (set_posture-Keeps "stand_up") (
        seq-Keeps (set_posture-Keeps "balance_stand") (
          seq-Keeps (set_posture-Keeps "free_walk") (
            seq-Keeps enable_omni_teleop-Keeps
              (bind-Keeps get_state_of-Keeps (λ _. pure-Keeps _)))))

    -- A property of the outside that reading the state and the sources of velocities keep and that,
    -- unless the run is dry, every command within the limits, every hold of velocities within the
    -- limits and the other methods of the transport keep, is kept by any requests to the robot in any
    -- order, whatever the transport raises, if the limits of the settings are not negative and the
    -- order of floats is asymmetric and transitive: no command or velocity beyond the limits leaves the
    -- robot, and none at all in a dry run. A move, whose target is within the longest step of the
    -- position that has just been read, is one within the limits.
    pub serve-keeps :
        (qs : List (Request B T)) (r : UnitreeRobot B T)
        → All Asks qs
        → Q r.transport
        → Q (serve dev settings qs r).transport
    unfolding serve
    serve-keeps [] r h q = q
    serve-keeps (x ∷ xs) r h q =
        serve-keeps xs (perform dev settings x r).1 h.1 ((perform-Keeps x h.0).apply r q)
