-- ===== src/Navigation/Patrol.antt =====
-- `PatrolController` of robot_brain/navigation/patrol_controller.py. What others do while it sleeps
-- between two polls is whether one of them cancels the patrol. The events are those that the sink is
-- given; what a sink raises is of no account.
pub mod Ends
pub mod Accounts
pub mod Trace
pub mod Evaluation
pub mod Unlogged
pub mod Evidence
use robot_brain.Prelude.{
  ℕ, zero, suc, ◌+◌, Bool, true, false, ℤ, String, Option, none, some, List, [], ◌∷◌, ◌++◌, not,
  ◌||◌, ◌&&◌, if◌then◌else◌,
}
use robot_brain.Core.Builtins.{Builtins}
use robot_brain.Core.Results.{Result, ok, raise}
use robot_brain.Core.Actions.{Action, pure, throw, ◌>>=◌, ◌>>◌, try, get_state, modify, if_some}
use robot_brain.Navigation.Base.{
  NavigationStatus, failed, canceled, succeeded, terminal, NavigationPose, MapIdentity,
  LocalizationState, RelativeNavigationGoal, AbsoluteNavigationGoal, NavigationGoalHandle,
  NavigationState, NavigationClient, usable_for_persistent_memory, relative_goal, absolute_goal,
}
use robot_brain.Navigation.Fake.{is_succeeded}

pub record PatrolExecutionResult : Type 0 where
  pub completed : Bool
  pub canceled : Bool
  pub attempted : ℕ
  pub reached : ℕ
  pub failed : ℕ
  pub cycles_completed : ℕ
  pub last_status : Option NavigationStatus

pub data PatrolEvent (B : Builtins) : Type 0 where
  waypoint_command : ℕ → ℕ → NavigationPose B → PatrolEvent B
  waypoint_terminal : ℕ → NavigationStatus → PatrolEvent B
  finished : PatrolExecutionResult → PatrolEvent B

pub record Patrol (B : Builtins) (T : Type 0) : Type 0 where
  pub cancel_set : Bool
  pub active_goal_id : Option String
  pub events : List (PatrolEvent B)
  pub outside : T

-- The counters of a run.
pub record Tally : Type 0 where
  pub attempted : ℕ
  pub reached : ℕ
  pub failed : ℕ
  pub cycles_completed : ℕ
  pub last_status : Option NavigationStatus

-- What comes of a waypoint: the patrol goes on, or it ends, canceled or not, or a wait has no end
-- within the fuel.
pub data Leg : Type 0 where
  goes_on : Tally → Leg
  finishes : Bool → Tally → Leg
  waits_on : Leg

abbrev is_canceled : NavigationStatus → Bool
is_canceled canceled = true
is_canceled _ = false

abbrev pub no_tally : Tally
no_tally = record {
  attempted = 0;
  reached = 0;
  failed = 0;
  cycles_completed = 0;
  last_status = none;
}

-- A waypoint that was not reached.
unfoldable pub miss : Bool → Tally → NavigationStatus → Leg
miss continue_on_failure t status =
    let t' : Tally = record t { failed = t.failed + 1; last_status = some status } in
    if continue_on_failure then goes_on t' else finishes false t'

-- The end of a wait.
unfoldable pub judge : Bool → Bool → Tally → NavigationStatus → Leg
unfolding miss
judge continue_on_failure cancel_set t status =
    if cancel_set || is_canceled status
    then finishes true (record t { last_status = some status })
    else if is_succeeded status
    then goes_on (record t { reached = t.reached + 1; last_status = some status })
    else miss continue_on_failure t status

unfoldable pub result_of : Bool → Bool → Tally → PatrolExecutionResult
result_of completed was_canceled t = record {
  completed = completed;
  canceled = was_canceled;
  attempted = t.attempted;
  reached = t.reached;
  failed = t.failed;
  cycles_completed = t.cycles_completed;
  last_status = t.last_status;
}

module _ {B : Builtins} {T : Type 0} (nav : NavigationClient B T) (others : T → Bool × T)
    (goal_timeout : B.Float) where
  abbrev pub Step : Type 0 → Type 0
  Step A = Action (Patrol B T) A

  abbrev on_navigation : {A : Type 0} → Action T A → Step A
  on_navigation m p = let (a, t) = m p.outside in (a, record p { outside = t })

  abbrev event : PatrolEvent B → Step (Unit {0})
  event e = modify (λ p. record p { events = p.events ++ e ∷ [] })

  abbrev set_active : Option String → Step (Unit {0})
  set_active goal = modify (λ p. record p { active_goal_id = goal })

  abbrev of_result : {A : Type 0} → Result A → Step A
  of_result r p = (r, p)

  unfoldable pub cancel : Step (Unit {0})
  cancel = do
    modify (λ p. record p { cancel_set = true })
    p ← get_state
    if_some p.active_goal_id (λ goal. on_navigation (nav.cancel (some goal)) >>= λ _. pure tt)
        (pure tt)

  -- The sleep between two polls; what a cancellation raises goes to its caller.
  unfoldable pub sleep : Step (Unit {0})
  unfolding cancel
  sleep p =
      let (called, t) = others p.outside in
      let p' : Patrol B T = record p { outside = t } in
      if called then (ok tt, (cancel p').1) else (ok tt, p')

  -- `self._navigation.set_relative_goal` of the waypoint as it is seen from the pose.
  unfoldable pub submit_relative : NavigationPose B → NavigationPose B → Step NavigationGoalHandle
  unfolding relative_goal
  submit_relative waypoint pose =
      let dx = B.sub waypoint.x_m pose.x_m in
      let dy = B.sub waypoint.y_m pose.y_m in
      let yaw = B.radians pose.yaw_degrees in
      of_result (
        relative_goal (record {
          forward_m = B.add (B.mul dx (B.cos yaw)) (B.mul dy (B.sin yaw));
          left_m = B.add (B.mul (B.neg dx) (B.sin yaw)) (B.mul dy (B.cos yaw));
          yaw_degrees =
              B.sub
                (B.mod_float (B.add (B.sub waypoint.yaw_degrees pose.yaw_degrees) (B.decimal 180 0))
                  (B.decimal 360 0))
                (B.decimal 180 0);
          require_final_yaw = true;
          max_duration_s = goal_timeout;
        }))
      >>= λ goal. on_navigation (nav.set_relative_goal goal)

  unfoldable pub submit_absolute : NavigationPose B → MapIdentity → Step NavigationGoalHandle
  unfolding absolute_goal
  submit_absolute waypoint identity =
      of_result (
        absolute_goal (record {
          pose = record waypoint { frame_id = identity.frame_id };
          map_id = identity.map_id;
          map_version = identity.version;
          max_duration_s = goal_timeout;
        }))
      >>= λ goal. on_navigation (nav.set_absolute_goal goal)

  unfoldable pub submit : NavigationPose B → Step NavigationGoalHandle
  unfolding submit_relative submit_absolute usable_for_persistent_memory
  submit waypoint = do
    localization ← on_navigation nav.get_localization_state
    p ← get_state
    let relative : Step NavigationGoalHandle =
        if_some localization.pose (λ pose. submit_relative waypoint pose)
          (throw "patrol localization unavailable")
    if nav.supports_absolute_goals p.outside && usable_for_persistent_memory localization
        then if_some localization.map_identity (λ identity. submit_absolute waypoint identity)
            relative
        else relative

  -- The loop of `_wait_terminal`: `none` if the fuel runs out.
  unfoldable pub wait_terminal : ℕ → Step (Option NavigationStatus)
  unfolding sleep terminal
  wait_terminal zero = pure none
  wait_terminal (suc fuel) = do
    p ← get_state
    if p.cancel_set then on_navigation (nav.cancel p.active_goal_id) >>= (λ _. pure tt) else pure tt
    state ← on_navigation nav.get_state
    if terminal state.status then pure (some state.status) else sleep >> wait_terminal fuel

  -- One waypoint.
  unfoldable pub leg : ℕ → Bool → NavigationPose B → Tally → Step Leg
  unfolding submit wait_terminal miss judge
  leg fuel continue_on_failure waypoint tally = do
    p ← get_state
    if p.cancel_set
        then pure (finishes true tally)
        else submit waypoint >>= (λ handle.
          let t : Tally = record tally { attempted = tally.attempted + 1 } in
          event (waypoint_command t.attempted (t.cycles_completed + 1) waypoint)
          >> (if not handle.accepted
              then pure (miss continue_on_failure t NavigationStatus.failed)
              else set_active (some handle.goal_id)
                >> (wait_terminal fuel >>= (λ waited.
                    if_some waited
                      (λ status.
                        event (waypoint_terminal t.attempted status)
                        >> set_active none
                        >> (get_state >>= λ p.
                            pure (judge continue_on_failure p.cancel_set t status)))
                      (pure waits_on)))))

  -- What follows as long as the patrol goes on.
  unfoldable pub and_then : Leg → (Tally → Step Leg) → Step Leg
  and_then (goes_on t) f = f t
  and_then (finishes was_canceled t) f = pure (finishes was_canceled t)
  and_then waits_on f = pure waits_on

  -- The loop over the waypoints, and the loop over the cycles.
  unfoldable pub legs : ℕ → Bool → List (NavigationPose B) → Tally → Step Leg
  unfolding leg and_then
  legs fuel continue_on_failure [] tally = pure (goes_on tally)
  legs fuel continue_on_failure (w ∷ ws) tally =
      leg fuel continue_on_failure w tally >>= λ l. and_then l (legs fuel continue_on_failure ws)

  unfoldable pub laps : ℕ → Bool → List (NavigationPose B) → ℕ → Tally → Step Leg
  unfolding legs and_then
  laps fuel continue_on_failure route zero tally = pure (goes_on tally)
  laps fuel continue_on_failure route (suc cycles) tally =
      legs fuel continue_on_failure route tally >>= λ l. and_then l (λ t.
        laps fuel continue_on_failure route cycles
          (record t { cycles_completed = t.cycles_completed + 1 }))

  unfoldable pub finish : Leg → Step (Option PatrolExecutionResult)
  unfolding result_of
  finish (goes_on t) =
      event (finished (result_of true false t)) >> pure (some (result_of true false t))
  finish (finishes was_canceled t) =
      event (finished (result_of false was_canceled t))
      >> pure (some (result_of false was_canceled t))
  finish waits_on = pure none

  -- `run`, with fuel for each wait; `cycles` below 1 acts as 0 does.
  unfoldable pub run : ℕ → List (NavigationPose B) → ℕ → Bool → Step (Option PatrolExecutionResult)
  unfolding laps finish
  run fuel [] cycles continue_on_failure =
      modify (λ p. record p { cancel_set = false }) >> finish (goes_on no_tally)
  run fuel (w ∷ ws) cycles continue_on_failure =
      modify (λ p. record p { cancel_set = false })
      >> (laps fuel continue_on_failure (w ∷ ws) cycles no_tally >>= finish)
