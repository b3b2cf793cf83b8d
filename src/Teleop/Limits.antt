-- ===== src/Teleop/Limits.antt =====
-- What a session keeps of the outside (robot_brain/teleop/session.py, robot_brain/actuation/unitree.py).
use robot_brain.Prelude.{◌≡◌, String, Option, some, ◌==◌, string_eq, not, ◌&&◌}
use robot_brain.Core.Builtins.{Builtins}
use robot_brain.Core.Actions.{
  Keeps, bind-Keeps, seq-Keeps, pure-Keeps, get_state-Keeps, modify-Keeps, if-Keeps,
}
use robot_brain.Actuation.State.{Robot}
use robot_brain.Actuation.Unitree.Limits.{Order, IsSensible}
use robot_brain.Actuation.Unitree.Authority.{
  Obeys, On, on_transport-Keeps, stop-Keeps, release_drive-Keeps, stream_hold-Keeps,
}
use robot_brain.Navigation.Base.{NavigationClient}
use robot_brain.Teleop.State.{Session, Control, on_robot, emit, clear_lease, set_task}
use robot_brain.Teleop.Lease.{grant}
use robot_brain.Teleop.Drive.{accept}
use robot_brain.Teleop.Steps.{Reach}
use robot_brain.Teleop.Frame.{Frame, Reach-keeps}

module _ {B : Builtins} {T : Type 0} (c : Control B T) (Q : T → Type 0) where
  -- The navigation keeps `Q` when a session looks at it and cancels it.
  pub record Preemptible : Type 0 where
    pub states : (nav : NavigationClient B T) → c.navigation ≡ some nav → Keeps Q nav.get_state
    pub cancels :
        (nav : NavigationClient B T) (goal : Option String)
        → c.navigation ≡ some nav
        → Keeps Q (nav.cancel goal)

  abbrev Over : Session B T → Type 0
  Over s = Q s.robot.transport

  robot-Over :
      {A : Type 0} {m : Robot B T A} → Keeps (On c.dev c.settings Q) m → Keeps Over (on_robot m)
  unfolding on_robot
  robot-Over h = record { apply = λ s q. h.apply s.robot q }

  module _ (o : Order B) (i : IsSensible c.settings) (d : Obeys c.dev c.settings Q)
      (n : Preemptible) where
    limited : (Drawn : String → Type 0) → Frame c Q Drawn Over
    unfolding emit clear_lease set_task grant accept
    limited Drawn = record {
      robot_stops = λ reason. robot-Over (stop-Keeps c.dev c.settings Q o i d reason);
      robot_releases = λ reason. robot-Over (release_drive-Keeps c.dev c.settings Q o i d reason);
      robot_holds = λ rounds v deadline h.
          robot-Over (stream_hold-Keeps c.dev c.settings Q o i d rounds v deadline h);
      reads = robot-Over (on_transport-Keeps c.dev c.settings Q d.reads);
      cancels = λ live. robot-Over (on_transport-Keeps c.dev c.settings Q (d.cancels live));
      navigation_states =
          λ nav e. robot-Over (on_transport-Keeps c.dev c.settings Q (n.states nav e));
      navigation_cancels =
          λ nav goal e. robot-Over (on_transport-Keeps c.dev c.settings Q (n.cancels nav goal e));
      emits = λ _ _. modify-Keeps _ (λ s q. q);
      clears = modify-Keeps _ (λ s q. q);
      tasks = λ _. modify-Keeps _ (λ s q. q);
      grants = λ now fresh operator_id ttl_ms _. bind-Keeps get_state-Keeps (λ s.
          if-Keeps
            (not (s.lease_id == "") && B.lt now s.lease_expires && not (operator_id == s.operator))
            (λ _. pure-Keeps _) (λ _. seq-Keeps (modify-Keeps _ (λ s q. q)) (pure-Keeps _)));
      accepts = λ now v.
          seq-Keeps (seq-Keeps (modify-Keeps _ (λ s q. q)) (modify-Keeps _ (λ s q. q)))
            (pure-Keeps _);
      world = λ s t k q. k q;
    }

    -- Whatever the clients of a session do in any order, its drive loop and what happens outside
    -- between them included, a property of the outside is kept that reading the robot, the sources of
    -- velocities and preempting the navigation keep and that, unless the run is dry, every command and
    -- every hold within the limits and the other methods of the transport keep, if the limits of the
    -- settings are not negative and the order of floats is asymmetric and transitive.
    pub session-keeps :
        (Drawn : String → Type 0) {s t : Session B T}
        → Reach c Q Drawn s t
        → Q s.robot.transport
        → Q t.robot.transport
    session-keeps Drawn r q = Reach-keeps c Q Drawn (limited Drawn) r q
