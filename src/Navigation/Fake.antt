-- ===== src/Navigation/Fake.antt =====
-- `FakeNavigationClient` of robot_brain/navigation/fake.py, and what a provider promises of its goals.
pub mod Promise
use robot_brain.Prelude.{
  ℕ, suc, ◌+◌, Bool, true, false, ℤ, pos, String, Option, none, some, List, [], ◌∷◌, ◌++◌, ◌&◌, not,
  ◌||◌, ◌&&◌, ◌==◌, string_eq, if◌then◌else◌, ◌≡◌,
}
use robot_brain.Core.Builtins.{Builtins}
use robot_brain.Core.Results.{Result, ok, raise}
use robot_brain.Core.Actions.{Action}
use robot_brain.Navigation.Base.{
  NavigationStatus, idle, active, succeeded, failed, canceled, timed_out, no_progress, unavailable,
  status_value, is_active, NavigationPose, LocalizationStatus, local, localized, MapIdentity,
  LocalizationState, RelativeNavigationGoal, AbsoluteNavigationGoal, NavigationGoalHandle,
  NavigationState, NavigationClient,
}

pub data Command (B : Builtins) : Type 0 where
  relative : String → RelativeNavigationGoal B → Command B
  absolute : String → AbsoluteNavigationGoal B → Command B
  cancellation : Option String → Bool → Command B

pub record FakeNavigationClient (B : Builtins) : Type 0 where
  pub outcomes : List NavigationStatus
  pub state : NavigationState B
  pub next_goal_number : ℕ
  pub map_identity : MapIdentity
  pub active_goal : Option (RelativeNavigationGoal B)
  pub active_absolute_goal : Option (AbsoluteNavigationGoal B)
  pub pending_outcome : Option NavigationStatus
  pub command_history : List (Command B)

-- `messages.get(status, status.value)`
unfoldable pub outcome_message : NavigationStatus → String
unfolding status_value
outcome_message succeeded = "relative goal reached"
outcome_message failed = "navigation failed"
outcome_message canceled = "navigation canceled"
outcome_message timed_out = "navigation timed out"
outcome_message no_progress = "navigation made no progress"
outcome_message unavailable = "navigation provider unavailable"
outcome_message status = status_value status

abbrev is_unavailable : NavigationStatus → Bool
is_unavailable unavailable = true
is_unavailable _ = false

abbrev pub is_succeeded : NavigationStatus → Bool
is_succeeded succeeded = true
is_succeeded _ = false

abbrev pub text_or_empty : Option String → String
text_or_empty none = ""
text_or_empty (some t) = t

abbrev version_differs : Option String → Option String → Bool
version_differs none _ = false
version_differs (some v) none = true
version_differs (some v) (some w) = not (v == w)

abbrev first_outcome : List NavigationStatus → NavigationStatus
first_outcome [] = succeeded
first_outcome (o ∷ os) = o

abbrev later_outcomes : List NavigationStatus → List NavigationStatus
later_outcomes [] = []
later_outcomes (o ∷ os) = os

-- `goal_id is not None and goal_id != active_id`
abbrev names_another : Option String → Option String → Bool
names_another none active_id = false
names_another (some g) none = true
names_another (some g) (some a) = not (g == a)

abbrev goal_name : Builtins → ℕ → String
goal_name B n = "fake-nav-" & B.show_int (pos n)

module _ {B : Builtins} where
  -- The pose after a relative goal.
  unfoldable pub moved : NavigationPose B → RelativeNavigationGoal B → NavigationPose B
  moved pose goal =
      let yaw = B.radians pose.yaw_degrees in
      record pose {
        x_m =
            B.add pose.x_m
              (B.sub (B.mul goal.forward_m (B.cos yaw)) (B.mul goal.left_m (B.sin yaw)));
        y_m =
            B.add pose.y_m
              (B.add (B.mul goal.forward_m (B.sin yaw)) (B.mul goal.left_m (B.cos yaw)));
        yaw_degrees =
            B.sub
              (B.mod_float (B.add (B.add pose.yaw_degrees goal.yaw_degrees) (B.decimal 180 0))
                (B.decimal 360 0))
              (B.decimal 180 0);
      }

  abbrev absolute_pose :
      Option (AbsoluteNavigationGoal B) → Option (NavigationPose B) → Option (NavigationPose B)
  absolute_pose none pose = pose
  absolute_pose (some goal) pose = some goal.pose

  abbrev pose_after :
      Option (RelativeNavigationGoal B)
      → Option (AbsoluteNavigationGoal B)
      → Option (NavigationPose B)
      → Option (NavigationPose B)
  pose_after (some goal) far (some pose) = some (moved pose goal)
  pose_after goal far pose = absolute_pose far pose

  unfoldable pub complete : NavigationStatus → FakeNavigationClient B → FakeNavigationClient B
  unfolding moved outcome_message status_value
  complete status c = record c {
    state = record c.state {
      status = status;
      ready = not (is_unavailable status);
      pose =
          if is_succeeded status
          then pose_after c.active_goal c.active_absolute_goal c.state.pose
          else c.state.pose;
      progress = if is_succeeded status then some (B.decimal 1 0) else c.state.progress;
      message = outcome_message status;
      error_code = if is_succeeded status then none else some (status_value status);
    };
    active_goal = none;
    active_absolute_goal = none;
  }

  unfoldable pub queue_outcome : NavigationStatus → FakeNavigationClient B → FakeNavigationClient B
  queue_outcome status c = record c { outcomes = c.outcomes ++ status ∷ [] }

  -- A poll of an active goal takes its pending outcome.
  unfoldable pub poll : Option NavigationStatus → FakeNavigationClient B → FakeNavigationClient B
  unfolding complete
  poll none c = c
  poll (some outcome) c =
      if is_active c.state.status
      then (if is_active outcome
          then record c { pending_outcome = none }
          else complete outcome (record c { pending_outcome = none }))
      else c

  unfoldable pub get_state : Action (FakeNavigationClient B) (NavigationState B)
  unfolding poll
  get_state c = let c' = poll c.pending_outcome c in (ok c'.state, c')

  -- A goal that is taken on.
  abbrev engaged : String → FakeNavigationClient B → FakeNavigationClient B
  engaged message c = record c {
    next_goal_number = suc c.next_goal_number;
    pending_outcome = some (first_outcome c.outcomes);
    outcomes = later_outcomes c.outcomes;
    state = record {
      provider = "fake";
      ready = true;
      status = active;
      goal_id = some (goal_name B c.next_goal_number);
      pose = c.state.pose;
      progress = some (B.decimal 0 0);
      message = message;
      error_code = none;
      path = [];
      replan_count = 0;
      stop_reason = none;
    };
  }

  abbrev refusal : FakeNavigationClient B → NavigationGoalHandle
  refusal c = record {
    goal_id = text_or_empty c.state.goal_id;
    accepted = false;
    message = "another navigation goal is active";
  }

  unfoldable pub set_relative_goal :
      RelativeNavigationGoal B → Action (FakeNavigationClient B) NavigationGoalHandle
  set_relative_goal goal c =
      let name = goal_name B c.next_goal_number in
      let e = engaged "relative goal accepted" c in
      if not c.state.ready
      then (raise "fake navigation provider is unavailable", c)
      else if is_active c.state.status
      then (ok (refusal c), c)
      else (
        ok (record { goal_id = name; accepted = true; message = "relative goal accepted" }),
        record e {
          active_goal = some goal;
          active_absolute_goal = none;
          command_history = c.command_history ++ Command.relative name goal ∷ [];
        },
      )

  unfoldable pub set_absolute_goal :
      AbsoluteNavigationGoal B → Action (FakeNavigationClient B) NavigationGoalHandle
  set_absolute_goal goal c =
      let name = goal_name B c.next_goal_number in
      let e = engaged "absolute goal accepted" c in
      if not c.state.ready
      then (raise "fake navigation provider is unavailable", c)
      else if not (goal.map_id == c.map_identity.map_id)
          || version_differs goal.map_version c.map_identity.version
      then (raise "absolute goal belongs to a different map", c)
      else if not (goal.pose.frame_id == c.map_identity.frame_id)
      then (raise "absolute goal frame does not match map frame", c)
      else if is_active c.state.status
      then (ok (refusal c), c)
      else (
        ok (record { goal_id = name; accepted = true; message = "absolute goal accepted" }),
        record e {
          active_goal = none;
          active_absolute_goal = some goal;
          command_history = c.command_history ++ Command.absolute name goal ∷ [];
        },
      )

  unfoldable pub cancel : Option String → Action (FakeNavigationClient B) (NavigationState B)
  unfolding complete
  cancel goal_id c =
      let ended = complete canceled (record c { pending_outcome = none }) in
      if not (is_active c.state.status)
      then (
        ok c.state,
        record c { command_history = c.command_history ++ Command.cancellation goal_id true ∷ [] },
      )
      else if names_another goal_id c.state.goal_id
      then (ok c.state, c)
      else (
        ok ended.state,
        record ended {
          command_history =
              ended.command_history ++ Command.cancellation c.state.goal_id false ∷ [];
        },
      )

  unfoldable pub get_localization_state : Action (FakeNavigationClient B) (LocalizationState B)
  get_localization_state c = (
    ok (record {
      status = if c.map_identity.persistent then localized else local;
      map_identity = some c.map_identity;
      pose = c.state.pose;
      confidence = some (B.decimal 1 0);
      message = "fake localization ready";
    }),
    c,
  )

  abbrev pub fake_navigation : NavigationClient B (FakeNavigationClient B)
  fake_navigation = record {
    get_state = get_state;
    set_relative_goal = set_relative_goal;
    cancel = cancel;
    supports_absolute_goals = λ c. c.map_identity.persistent;
    get_localization_state = get_localization_state;
    set_absolute_goal = set_absolute_goal;
  }
