-- ===== src/Navigation/Patrol/Ends.antt =====
-- The waits of a patrol that have an end (robot_brain/navigation/patrol_controller.py).
use robot_brain.Prelude.{
  ℕ, zero, suc, ◌+◌, Bool, true, false, ◌≡◌, some, List, [], ◌∷◌, ◌++◌, subst, arith,
}
use robot_brain.Core.Builtins.{Builtins}
use robot_brain.Core.Results.{Result, ok}
use robot_brain.Core.Actions.{◌>>=◌, pure, get_state, modify, if_some}
use robot_brain.Navigation.Base.{
  NavigationStatus, NavigationPose, NavigationGoalHandle, NavigationClient,
}
use robot_brain.Navigation.Patrol.{
  Patrol, PatrolEvent, Tally, waypoint_command, Leg, goes_on, finishes, judge, miss,
  waypoint_terminal, no_tally, submit, wait_terminal, leg, legs,
}

-- What a property of the counters asks of the end of a leg, if the patrol goes on then.
abbrev pub IfOn : Result Leg → (Tally → Type 0) → Type 0
IfOn (ok (goes_on t)) P = P t
IfOn _ P = Unit

pub IfOn-goes_on :
    (r : Result Leg) (t : Tally) (P : Tally → Type 0) → r ≡ ok (goes_on t) → IfOn r P → P t
IfOn-goes_on r t P e h = subst (λ x. IfOn x P) e h

abbrev pub tried : Tally → Tally
tried t = record t { attempted = t.attempted + 1 }

abbrev pub lapped : Tally → Tally
lapped t = record t { cycles_completed = t.cycles_completed + 1 }

module _ {B : Builtins} where
  abbrev pub command_of : NavigationPose B → Tally → PatrolEvent B
  command_of w t = waypoint_command (t.attempted + 1) (t.cycles_completed + 1) w

module _ {B : Builtins} {T : Type 0} where
  -- The patrol with a goal for a waypoint, and its command in the log.
  abbrev pub underway : NavigationPose B → Tally → NavigationGoalHandle → Patrol B T → Patrol B T
  underway w t handle p = record p {
    events = p.events ++ command_of w t ∷ [];
    active_goal_id = some handle.goal_id;
  }

module _ {B : Builtins} {T : Type 0} (nav : NavigationClient B T) (others : T → Bool × T)
    (goal_timeout : B.Float) (fuel : ℕ) where
  -- A wait, if there is one, has an end within the fuel.
  abbrev pub WaitEnds : Bool → Patrol B T → Type 0
  WaitEnds false p = Unit
  WaitEnds true p =
      (status : NavigationStatus) × ((wait_terminal nav others goal_timeout fuel p).0
        ≡ ok (some status))

  -- Unless the patrol is canceled before it, the provider answers the goal for a waypoint without
  -- raising, and if it takes it on, the wait for it ends.
  abbrev pub GoalEnds : Bool → NavigationPose B → Tally → Patrol B T → Type 0
  GoalEnds true w t p = Unit
  GoalEnds false w t p =
      (handle : NavigationGoalHandle) × ((submit nav others goal_timeout w p).0 ≡ ok handle)
      × WaitEnds handle.accepted (underway w t handle (submit nav others goal_timeout w p).1)

  abbrev pub LegEnds : NavigationPose B → Tally → Patrol B T → Type 0
  LegEnds w t p = GoalEnds p.cancel_set w t p

  -- The same for each waypoint that a run comes to, in the state in which it does.
  abbrev pub LegsEnd : Bool → List (NavigationPose B) → Tally → Patrol B T → Type 0
  LegsEnd cont [] t p = Unit
  LegsEnd cont (w ∷ ws) t p =
      LegEnds w t p
      × IfOn (leg nav others goal_timeout fuel cont w t p).0
          (λ t'. LegsEnd cont ws t' (leg nav others goal_timeout fuel cont w t p).1)

  abbrev pub LapsEnd : Bool → List (NavigationPose B) → ℕ → Tally → Patrol B T → Type 0
  LapsEnd cont route zero t p = Unit
  LapsEnd cont route (suc cycles) t p =
      LegsEnd cont route t p
      × IfOn (legs nav others goal_timeout fuel cont route t p).0 (λ t'.
        LapsEnd cont route cycles (lapped t') (legs nav others goal_timeout fuel cont route t p).1)

  abbrev pub RunEnds : Bool → List (NavigationPose B) → ℕ → Patrol B T → Type 0
  RunEnds cont route cycles p = LapsEnd cont route cycles no_tally (record p { cancel_set = false })

  module _ (cont : Bool) (w : NavigationPose B) (t : Tally) (p : Patrol B T) where
    pub leg-canceled :
        p.cancel_set ≡ true → (leg nav others goal_timeout fuel cont w t p).0 ≡ ok (finishes true t)
    unfolding leg ◌>>=◌ pure get_state
    leg-canceled e = ground (arith, e)

    -- A leg whose goal the provider takes on.
    pub leg-taken :
        (handle : NavigationGoalHandle) (status : NavigationStatus)
        → p.cancel_set ≡ false
        → (submit nav others goal_timeout w p).0 ≡ ok handle
        → handle.accepted ≡ true
        → (let p2 = underway w t handle (submit nav others goal_timeout w p).1 in
            (wait_terminal nav others goal_timeout fuel p2).0 ≡ ok (some status))
        → (let p2 = underway w t handle (submit nav others goal_timeout w p).1 in
            let p3 = (wait_terminal nav others goal_timeout fuel p2).1 in
            ((leg nav others goal_timeout fuel cont w t p).0
              ≡ ok (judge cont p3.cancel_set (tried t) status))
            × ((leg nav others goal_timeout fuel cont w t p).1.events
                ≡ p3.events ++ waypoint_terminal (t.attempted + 1) status ∷ []))
    unfolding leg ◌>>=◌ pure get_state modify if_some
    leg-taken handle status e submitted a settled =
        (ground (arith, e, submitted, a, settled), ground (arith, e, submitted, a, settled))

    -- A leg whose goal it refuses.
    pub leg-refused :
        (handle : NavigationGoalHandle)
        → p.cancel_set ≡ false
        → (submit nav others goal_timeout w p).0 ≡ ok handle
        → handle.accepted ≡ false
        → ((leg nav others goal_timeout fuel cont w t p).0
            ≡ ok (miss cont (tried t) NavigationStatus.failed))
          × ((leg nav others goal_timeout fuel cont w t p).1.events
              ≡ (submit nav others goal_timeout w p).1.events ++ command_of w t ∷ [])
    unfolding leg ◌>>=◌ pure get_state modify if_some
    leg-refused handle e submitted a =
        (ground (arith, e, submitted, a), ground (arith, e, submitted, a))
