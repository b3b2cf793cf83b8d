-- ===== src/Teleop/Lease.antt =====
-- The leases of robot_brain/teleop/session.py, and the end of a drive.
use robot_brain.Prelude.{
  Bool, true, false, ℤ, String, Option, none, some, ◌&◌, not, ◌&&◌, ◌==◌, string_eq, if◌then◌else◌,
}
use robot_brain.Core.Builtins.{Builtins}
use robot_brain.Core.Actions.{Action, ◌>>=◌, ◌>>◌, pure, throw, get_state, modify, try, if_some}
use robot_brain.Actuation.Unitree
use robot_brain.Actuation.State.{on_transport}
use robot_brain.Navigation.Base.{
  NavigationStatus, idle, canceled, NavigationClient, is_active, status_value,
}
use robot_brain.Teleop.State.{
  ControlEventType, LeaseResult, created, holding, done, DriveTask, Control, Teleop, seconds,
  text_of, lease_ttl_s, on_robot, emit, clear_lease, set_task,
}

module _ {B : Builtins} {T : Type 0} (c : Control B T) where
  -- The part of `acquire_lease` that the lock guards.
  unfoldable pub grant : B.Float → String → String → Option ℤ → Teleop B T (LeaseResult B)
  unfolding seconds
  grant now fresh operator_id ttl_ms = do
    s ← get_state
    let ttl_s : B.Float = elim ttl_ms [ none ↦ lease_ttl_s c.settings | some ms ↦ seconds B ms ]
    if not (s.lease_id == "") && B.lt now s.lease_expires && not (operator_id == s.operator)
        then pure (record {
          granted = false;
          lease_id = "";
          expires_at = B.decimal 0 0;
          reason = "control held by '" & (s.operator & "'");
        })
        else modify (λ s. record s {
          lease_id = fresh;
          operator = operator_id;
          lease_expires = B.add now ttl_s;
        })
          >> pure (record {
            granted = true;
            lease_id = fresh;
            expires_at = B.add now ttl_s;
            reason = "";
          })

  abbrev pub on_navigation : {A : Type 0} → Action T A → Teleop B T A
  on_navigation m = on_robot (on_transport m)

  abbrev pub has_ended : NavigationStatus → Bool
  has_ended canceled = true
  has_ended idle = true
  has_ended _ = false

  -- The `try` of `acquire_lease`.
  unfoldable pub cancel_navigation : NavigationClient B T → Teleop B T (Unit {0})
  unfolding on_robot emit status_value
  cancel_navigation nav = do
    state ← on_navigation nav.get_state
    if is_active state.status
        then on_navigation (nav.cancel state.goal_id) >>= (λ after.
          if has_ended after.status
          then emit ControlEventType.preempted
              ("navigation " & (text_of state.goal_id & " canceled for teleop"))
          else throw ("navigation remained " & status_value after.status))
        else pure tt

  -- What `acquire_lease` does after a grant.
  unfoldable pub preempt : LeaseResult B → Teleop B T (LeaseResult B)
  unfolding cancel_navigation clear_lease on_robot
  preempt given =
      if_some c.navigation
        (λ nav.
          try (cancel_navigation nav) (λ _. pure given)
            (λ exc.
              (get_state >>= λ s. if given.lease_id == s.lease_id then clear_lease else pure tt)
              >> on_robot
                  (Unitree.stop c.dev c.settings "teleop acquire could not preempt navigation")
              >> pure (record {
                granted = false;
                lease_id = "";
                expires_at = B.decimal 0 0;
                reason = "navigation preemption failed: " & exc;
              })))
        (pure given)

  unfoldable pub acquire_lease : B.Float → String → String → Option ℤ → Teleop B T (LeaseResult B)
  unfolding grant preempt
  acquire_lease now fresh operator_id ttl_ms = do
    given ← grant now fresh operator_id ttl_ms
    if given.granted then preempt given else pure given

  abbrev pub loop_end : Teleop B T (Unit {0})
  loop_end = on_robot (Unitree.release_drive c.dev c.settings "teleop drive loop end")

  -- What becomes of a drive loop that is cancelled while it awaits a hold.
  unfoldable pub interrupt : Teleop B T (Unit {0})
  unfolding on_robot
  interrupt =
      try
        (if c.settings.unitree_dry_run then pure tt else on_robot (on_transport c.dev.cancel_hold))
        (λ _. loop_end) (λ exc. loop_end >> throw exc)

  abbrev pub interrupt_task : Option DriveTask → Teleop B T (Unit {0})
  interrupt_task none = pure tt
  interrupt_task (some task) = elim task.phase [
    | created ↦ pure tt
    | holding ↦ interrupt
    | done ↦ pure tt
  ]

  unfoldable pub end_drive : Bool → Teleop B T (Unit {0})
  unfolding interrupt set_task on_robot
  end_drive release = do
    s ← get_state
    set_task none
    interrupt_task s.drive_task
    if release then on_robot (Unitree.release_drive c.dev c.settings "teleop stop") else pure tt

  unfoldable pub release_lease : String → Teleop B T Bool
  unfolding end_drive clear_lease emit
  release_lease lease_id = do
    s ← get_state
    if not (lease_id == s.lease_id)
        then pure false
        else end_drive true
          >> clear_lease
          >> emit ControlEventType.stopped "lease released"
          >> pure true
