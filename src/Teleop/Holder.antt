-- ===== src/Teleop/Holder.antt =====
-- Who holds control of a session (robot_brain/teleop/session.py).
use robot_brain.Prelude.{
  true, false, ◌≡◌, ℤ, String, Option, ◌≢◌, not, ◌&&◌, ◌||◌, ◌==◌, string_eq, arith, inl, inr, sym,
  Bool-cases, eq_sound,
}
use robot_brain.Core.Builtins.{Builtins}
use robot_brain.Core.Results.{Result, ok, raise}
use robot_brain.Core.Actions.{
  Keeps, pure, ◌>>=◌, get_state, modify, bind-Keeps, seq-Keeps, pure-Keeps, get_state-Keeps,
  modify-Keeps, if-Keeps,
}
use robot_brain.Actuation.Transport.{Velocity}
use robot_brain.Actuation.State.{Robot}
use robot_brain.Teleop.State.{
  SetpointResult, Session, Control, on_robot, emit, clear_lease, set_task,
}
use robot_brain.Teleop.Lease.{grant}
use robot_brain.Teleop.Drive.{accept, set_velocity}
use robot_brain.Teleop.Steps.{Reach}
use robot_brain.Teleop.Frame.{Frame, Reach-keeps}

module _ {B : Builtins} {T : Type 0} (id : String) (R : String → Type 0) where
  -- If the id holds control, then for such an operator.
  abbrev pub Holds : Session B T → Type 0
  Holds s = s.lease_id ≡ id → R s.operator

  robot-Holds : {A : Type 0} (m : Robot B T A) → Keeps Holds (on_robot m)
  unfolding on_robot
  robot-Holds m = record { apply = λ s h. h }

  module _ (c : Control B T) (Q : T → Type 0) (named : id ≢ "") where
    accept-Holds : (now : B.Float) (v : Velocity B) → Keeps Holds (accept c now v)
    unfolding accept emit ◌>>=◌ pure modify
    accept-Holds now v = record { apply = λ s h. h }

    grant-Holds :
        (now : B.Float) (fresh operator_id : String) (ttl_ms : Option ℤ)
        → fresh ≢ id
        → Keeps Holds (grant c now fresh operator_id ttl_ms)
    unfolding grant
    grant-Holds now fresh operator_id ttl_ms new = bind-Keeps get_state-Keeps (λ s.
        if-Keeps
          (not (s.lease_id == "") && B.lt now s.lease_expires && not (operator_id == s.operator))
          (λ _. pure-Keeps _)
          (λ _. seq-Keeps (modify-Keeps _ (λ s h e. absurd (new e))) (pure-Keeps _)))

    holder : Frame c Q (λ fresh. fresh ≢ id) Holds
    unfolding emit clear_lease set_task
    holder = record {
      robot_stops = λ _. robot-Holds _;
      robot_releases = λ _. robot-Holds _;
      robot_holds = λ _ _ _ _. robot-Holds _;
      reads = robot-Holds _;
      cancels = λ _. robot-Holds _;
      navigation_states = λ _ _. robot-Holds _;
      navigation_cancels = λ _ _ _. robot-Holds _;
      emits = λ _ _. modify-Keeps _ (λ s h. h);
      clears = modify-Keeps _ (λ s h e. absurd (named (sym e)));
      tasks = λ _. modify-Keeps _ (λ s h. h);
      grants = grant-Holds;
      accepts = accept-Holds;
      world = λ s t k h. h;
    }

-- The answer to a setpoint is positive.
abbrev pub IsAccepted : Result SetpointResult → Type 0
IsAccepted (ok r) = r.accepted ≡ true
IsAccepted (raise t) = ⊥

module _ {B : Builtins} {T : Type 0} (c : Control B T) where
  pub set_velocity-IsAccepted :
      (now : B.Float) (id : String) (v : Velocity B) (s : Session B T)
      → IsAccepted (set_velocity c now id v s).0
      → (s.lease_id ≡ id) × (B.le s.lease_expires now ≡ false)
  unfolding set_velocity ◌>>=◌ pure get_state
  set_velocity-IsAccepted now id v s h =
      elim (Bool-cases (s.lease_id == "" || B.le s.lease_expires now)) [
        | inl e ↦ absurd (ground (arith, e, h))
        | inr e ↦ elim (Bool-cases (id == s.lease_id)) [
          | inl f ↦ (sym (eq_sound id s.lease_id f), ground (arith, e))
          | inr f ↦ absurd (ground (arith, e, f, h))
        ]
      ]

  -- From a session in which an operator holds an id on, by steps in any order: if the id is ever
  -- accepted with a setpoint, then it still holds control, for this operator, and has not expired. The
  -- ids that are drawn meanwhile are other ones, and the id is not empty.
  pub holds_until_revoked :
      (Q : T → Type 0) (id op : String) {s t : Session B T}
      → id ≢ ""
      → (s.lease_id ≡ id → s.operator ≡ op)
      → Reach c Q (λ fresh. fresh ≢ id) s t
      → (now : B.Float) (v : Velocity B) → IsAccepted (set_velocity c now id v t).0
      → (t.lease_id ≡ id) × (t.operator ≡ op) × (B.le t.lease_expires now ≡ false)
  holds_until_revoked Q id op {t} named h r now v a =
      let found = set_velocity-IsAccepted now id v t a in
      let kept = Reach-keeps c Q (λ fresh. fresh ≢ id) (holder id (λ x. x ≡ op) c Q named) r h in
      (found.0, kept found.0, found.1)

  -- An id that is not empty and does not hold control never gets it back, by steps of the session in
  -- any order, as long as none draws it again: every setpoint with it is refused and changes nothing.
  pub revoked :
      (Q : T → Type 0) (id : String) {s t : Session B T}
      → id ≢ ""
      → s.lease_id ≢ id
      → Reach c Q (λ fresh. fresh ≢ id) s t
      → (now : B.Float) (v : Velocity B)
      → (reason : String) × (set_velocity c now id v t
          ≡ (ok (record { accepted = false; reason = reason }), t))
  unfolding set_velocity ◌>>=◌ pure get_state
  revoked Q id {t} named h r now v =
      let lost = Reach-keeps c Q (λ fresh. fresh ≢ id) (holder id (λ _. ⊥) c Q named) r h in
      elim (Bool-cases (t.lease_id == "" || B.le t.lease_expires now)) [
        | inl e ↦ ("no active lease", ground (arith, e))
        | inr e ↦ elim (Bool-cases (id == t.lease_id)) [
          | inl f ↦ absurd (lost (sym (eq_sound id t.lease_id f)))
          | inr f ↦ ("lease_id does not hold control", ground (arith, e, f))
        ]
      ]
