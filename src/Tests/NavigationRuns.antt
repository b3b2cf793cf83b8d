-- ===== src/Tests/NavigationRuns.antt =====
-- Navigation at concrete inputs.
use robot_brain.Prelude.{
  ℕ, suc, ◌*◌, ◌≡◌, refl, ◌↔◌, Bool, true, false, none, some, List, [], ◌∷◌, pos, length, string_eq,
}
use robot_brain.Core.Results.{ok, raise}
use robot_brain.Core.Actions.{pure, ◌>>=◌, get_state, modify, if_some}
use robot_brain.Navigation.Base.{
  active, idle, succeeded, localized, NavigationPose, MapIdentity, NavigationState,
  NavigationClient, RelativeNavigationGoal,
}
use robot_brain.Navigation.Grid.{GridCell, cell_eq}
use robot_brain.Navigation.Frontier.{reachable_free, neighbors4}
use robot_brain.Navigation.Frontier.Reach.{Reachable, In, reachable_free_lem}
use robot_brain.Navigation.Fake.{FakeNavigationClient}
use robot_brain.Navigation.Fake.Promise.{
  Call, polls, submits_relative, cancels, Trace, serve, serve_refines, view,
}
use robot_brain.Navigation.Patrol.{
  PatrolEvent, PatrolExecutionResult, Patrol, run, submit, wait_terminal,
}
use robot_brain.Navigation.Patrol.Evidence.{run-evaluate}
use robot_brain.Navigation.Patrol.Ends.{RunEnds}
use robot_brain.Navigation.Fake.{fake_navigation}
use robot_brain.Navigation.Fake
use robot_brain.Navigation.Base.{failed, terminal, usable_for_persistent_memory}
use robot_brain.Navigation.Patrol.{leg, legs, laps, judge}
use robot_brain.Navigation.Patrol.Accounts.{Accounted, run_lem}
use robot_brain.Navigation.Topology.{TopologyLandmark}
use robot_brain.Navigation.Topology.Symmetry.{adds, removes, changed, IsGraph, changed-IsGraph}
use robot_brain.Navigation.Patrol.Trace.{patrol_route, rows_of, evaluate_patrol_trace}
use robot_brain.Tests.Samples.{naturals}

abbrev corner : List GridCell
corner = (pos 0, pos 0) ∷ (pos 1, pos 0) ∷ (pos 1, pos 1) ∷ (pos 3, pos 3) ∷ []

reachable_free_lem_example :
    (found : List GridCell) × (reachable_free corner (pos 0, pos 0) ≡ some found)
    × ((c : GridCell) → In c found ↔ Reachable neighbors4 corner (pos 0, pos 0) c)
reachable_free_lem_example = reachable_free_lem corner (pos 0, pos 0)

abbrev home : NavigationPose naturals
home = record { x_m = 0; y_m = 0; yaw_degrees = 0; frame_id = "map" }

abbrev house : MapIdentity
house = record { map_id = "house"; version = none; frame_id = "map"; persistent = true }

abbrev state_of_rest : NavigationState naturals
state_of_rest = record {
  provider = "fake";
  ready = true;
  status = idle;
  goal_id = none;
  pose = some home;
  progress = none;
  message = "";
  error_code = none;
  path = [];
  replan_count = 0;
  stop_reason = none;
}

abbrev fake : FakeNavigationClient naturals
fake = record {
  outcomes = active ∷ [];
  state = state_of_rest;
  next_goal_number = 1;
  map_identity = house;
  active_goal = none;
  active_absolute_goal = none;
  pending_outcome = none;
  command_history = [];
}

abbrev ahead : RelativeNavigationGoal naturals
ahead = record {
  forward_m = 1;
  left_m = 0;
  yaw_degrees = 0;
  require_final_yaw = true;
  max_duration_s = 30;
}

abbrev calls : List (Call naturals)
calls = submits_relative ahead ∷ polls ∷ cancels none ∷ []

serve_refines_example : Trace (view fake) (serve calls fake).0 (view (serve calls fake).1)
serve_refines_example = serve_refines calls fake

-- A provider that reaches every goal at once, and counts the goals.
abbrev swift : NavigationClient naturals ℕ
swift = record {
  get_state = λ t. (ok (record state_of_rest { status = succeeded }), t);
  set_relative_goal = λ goal t. (raise "absolute goals only", t);
  cancel = λ goal t. (ok state_of_rest, t);
  supports_absolute_goals = λ t. true;
  get_localization_state = λ t. (
    ok (record {
      status = localized;
      map_identity = some house;
      pose = some home;
      confidence = none;
      message = "";
    }),
    t,
  );
  set_absolute_goal =
      λ goal t. (ok (record { goal_id = "g"; accepted = true; message = "" }), suc t);
}

abbrev alone : ℕ → Bool × ℕ
alone t = (false, t)

abbrev fresh_patrol : Patrol naturals ℕ
fresh_patrol = record { cancel_set = false; active_goal_id = none; events = []; outside = 0 }

-- The fake client, which will fail the second goal.
abbrev fresh_fake : FakeNavigationClient naturals
fresh_fake = record fake { outcomes = succeeded ∷ failed ∷ [] }

abbrev undisturbed : FakeNavigationClient naturals → Bool × FakeNavigationClient naturals
undisturbed c = (false, c)

abbrev fake_patrol : Patrol naturals (FakeNavigationClient naturals)
fake_patrol = record {
  cancel_set = false;
  active_goal_id = none;
  events = [];
  outside = fresh_fake;
}

fake-RunEnds : RunEnds fake_navigation undisturbed 60 1 true (home ∷ home ∷ []) 2 fake_patrol
unfolding submit wait_terminal ◌>>=◌ pure get_state modify if_some leg legs laps judge
    Fake.get_localization_state Fake.set_absolute_goal Fake.get_state Fake.poll Fake.complete
    terminal usable_for_persistent_memory
fake-RunEnds = (
  ((_, refl, (_, refl)), ((_, refl, (_, refl)), tt)),
  (((_, refl, (_, refl)), ((_, refl, (_, refl)), tt)), tt),
)

run_lem_example :
    (r : PatrolExecutionResult) × ((run fake_navigation undisturbed 60 1
        (home ∷ home ∷ [])
        2
        true
        fake_patrol).0
      ≡ ok (some r))
    × Accounted true (2 * length (home ∷ home ∷ [])) 2 r
run_lem_example =
    run_lem fake_navigation undisturbed 60 1 true home (home ∷ []) 2 fake_patrol fake-RunEnds

run-evaluate_example :
    (r : PatrolExecutionResult) × ((run fake_navigation undisturbed 60 1
        (home ∷ home ∷ [])
        2
        true
        fake_patrol).0
      ≡ ok (some r))
    × ((evaluate_patrol_trace (
            patrol_route true
            ∷ rows_of
                (run fake_navigation undisturbed 60 1
                  (home ∷ home ∷ [])
                  2
                  true
                  fake_patrol).1.events)
          ≡ [])
        ↔ ((r.completed ≡ true) × (r.failed ≡ 0)))
run-evaluate_example =
    run-evaluate fake_navigation undisturbed 60 1 true home (home ∷ []) 2 fake_patrol fake-RunEnds
      refl

abbrev door : TopologyLandmark naturals
door = record {
  landmark_id = "door";
  name = "door";
  x_m = 1;
  y_m = 1;
  kind = "landmark";
  frame_id = "map";
  map_id = none;
}

abbrev dock : TopologyLandmark naturals
dock = record door { landmark_id = "dock"; name = "dock" }

changed-IsGraph_example :
    IsGraph (changed 8 (adds door ∷ adds dock ∷ removes "door" ∷ adds door ∷ []) [])
changed-IsGraph_example =
    changed-IsGraph 8 (adds door ∷ adds dock ∷ removes "door" ∷ adds door ∷ [])

-- The events of a patrol that reaches every goal are found good.
abbrev swift_events : List (PatrolEvent naturals)
swift_events = (run swift alone 60 1 (home ∷ home ∷ []) 3 false fresh_patrol).1.events

swift_trace : evaluate_patrol_trace (patrol_route true ∷ rows_of swift_events) ≡ []
unfolding run evaluate_patrol_trace ◌>>=◌ pure get_state modify if_some rows_of
swift_trace = refl
