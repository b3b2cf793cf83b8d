-- ===== src/Actuation/Unitree/Failures.antt =====
-- The failures of a stop and of a drive (robot_brain/actuation/unitree.py).
use robot_brain.Prelude.{
  Bool, true, false, ◌≡◌, refl, String, List, [], ◌∷◌, ◌++◌, ◌&◌, arith, inl, inr, ap,
  if◌then◌else◌,
}
use robot_brain.Core.Builtins.{Builtins}
use robot_brain.Core.Results.{ok, raise, Result-cases}
use robot_brain.Core.Settings.{Settings}
use robot_brain.Core.Actions.{◌>>=◌, pure, throw, modify, try, if_some}
use robot_brain.Actuation.Transport.{Velocity, UnitreeCommand, Transport}
use robot_brain.Actuation.State.{
  UnitreeRobot, Entry, Detail, min, max, clamped, on_transport, record_entry, set_stopped,
  patch_last_history, patch_last,
}
use robot_brain.Actuation.Unitree.{best_effort, stop, release_drive, drive}

module _ {B : Builtins} {T : Type 0} (dev : Transport B T) (settings : Settings B) where
  -- What a stop sends, unless the run is dry.
  abbrev stopping : String → T → T
  stopping reason t =
      if settings.unitree_dry_run then t else (dev.send_command (UnitreeCommand.stop reason) t).1

  -- A stop never raises, whatever the transport does: it is entered in the history, the robot counts as
  -- stopped, and the transport was sent the stop, unless the run is dry.
  pub stop_lem :
      (reason : String) (r : UnitreeRobot B T)
      → stop dev settings reason r ≡ (
        ok tt,
        record {
          action_history = r.action_history ++ ("stop", ("reason", Detail.label reason) ∷ []) ∷ [];
          stopped = true;
          transport = stopping reason r.transport;
        },
      )
  unfolding stop record_entry set_stopped best_effort on_transport ◌>>=◌ pure modify try
  stop_lem reason r =
      elim (Result-cases (dev.send_command (UnitreeCommand.stop reason) r.transport).0) [
        | inl (a, e) ↦ ground (arith, e)
        | inr (t, e) ↦ ground (arith, e)
      ]

  -- The fields are written into the last entry if that is a drive.
  patch_last-append :
      (fields : List (String × Detail B)) (xs : List (Entry B)) (d : List (String × Detail B))
      → patch_last fields (xs ++ ("stop", d) ∷ []) ≡ xs ++ ("stop", d) ∷ []
  unfolding patch_last
  patch_last-append fields [] d = refl
  patch_last-append fields (x ∷ []) d = refl
  patch_last-append fields (x ∷ y ∷ xs) d = ap (λ zs. x ∷ zs) (patch_last-append fields (y ∷ xs) d)

  -- The command that a drive sends, and the entry that it leaves.
  abbrev capped : B.Float → B.Float
  capped duration = max B (B.decimal 0 0) (min B settings.unitree_max_drive_duration duration)

  abbrev driven : Velocity B → B.Float → Entry B
  driven v duration = (
    "drive",
    ("velocity", Detail.motion (clamped settings v) (capped duration))
        ∷ ("original", Detail.motion v duration)
        ∷ [],
  )

  -- A drive whose preconditions hold and whose command the transport refuses raises, and the robot is
  -- stopped: the transport is sent the stop after the refused command, outside of a dry run. The entry
  -- of the drive is left without an end, since the stop is entered before it is patched.
  pub drive_failed :
      (v : Velocity B) (duration : B.Float) (stream : Bool) (r r' : UnitreeRobot B T) (exc : String)
      → settings.unitree_dry_run ≡ false
      → if_some dev.assert_drive_preconditions (λ m. on_transport (m settings)) (pure tt) r
        ≡ (ok tt, r')
      → (dev.send_command
          (UnitreeCommand.drive (clamped settings v) (capped duration))
          r'.transport).0
        ≡ raise exc
      → drive dev settings v duration stream r ≡ (
        raise ("Unitree drive failed: " & exc),
        record {
          action_history =
              (r'.action_history ++ driven v duration ∷ [])
              ++ ("stop", ("reason", Detail.label ("drive exception: " & exc)) ∷ []) ∷ [];
          stopped = true;
          transport =
              (dev.send_command
                (UnitreeCommand.stop ("drive exception: " & exc))
                (dev.send_command
                  (UnitreeCommand.drive (clamped settings v) (capped duration))
                  r'.transport).1).1;
        },
      )
  unfolding drive record_entry set_stopped on_transport ◌>>=◌ pure modify try patch_last_history
      throw
  drive_failed v duration stream r r' exc live h e =
      let reason = "drive exception: " & exc in
      let r1 : UnitreeRobot B T = record {
        action_history = r'.action_history ++ driven v duration ∷ [];
        stopped = false;
        transport =
            (dev.send_command (UnitreeCommand.drive (clamped settings v) (capped duration))
              r'.transport).1;
      } in
      ground (
        arith,
        live,
        h,
        e,
        stop_lem reason r1,
        patch_last-append
            (("end_reason", Detail.label "transport_error") ∷ ("success", Detail.flag false) ∷ [])
            r1.action_history (("reason", Detail.label reason) ∷ []),
      )

  -- A release never raises either, and it keeps the flag.
  pub release_drive_lem :
      (reason : String) (r : UnitreeRobot B T)
      → ((release_drive dev settings reason r).0 ≡ ok tt)
        × ((release_drive dev settings reason r).1.stopped ≡ r.stopped)
  unfolding release_drive record_entry best_effort on_transport ◌>>=◌ pure modify try
  release_drive_lem reason r =
      elim (Result-cases (dev.send_command (UnitreeCommand.release reason) r.transport).0) [
        | inl (a, e) ↦ ground (arith, e)
        | inr (t, e) ↦ ground (arith, e)
      ]
