-- ===== src/Navigation/Patrol/Trace.antt =====
-- `evaluate_patrol_trace` of robot_brain/navigation/patrol_controller.py, on the events of a patrol and
-- those of its route, with whether the evaluation of the route is there and good.
use robot_brain.Prelude.{
  ℕ, suc, Bool, false, String, Option, none, some, List, [], ◌∷◌, ◌++◌, not, ◌||◌, nat_beq,
  if◌then◌else◌,
}
use robot_brain.Core.Builtins.{Builtins}
use robot_brain.Navigation.Fake.{is_succeeded}
use robot_brain.Navigation.Patrol.{
  PatrolExecutionResult, PatrolEvent, waypoint_command, waypoint_terminal, finished,
}

pub data Row (B : Builtins) : Type 0 where
  patrol_route : Bool → Row B
  patrol : PatrolEvent B → Row B

abbrev pub route_failures : Option Bool → List String
route_failures none = "patrol_route_evidence_missing" ∷ []
route_failures (some good) = if good then [] else "patrol_route_semantics_not_verified" ∷ []

abbrev pub result_failures : Option PatrolExecutionResult → List String
result_failures none = "patrol_not_completed" ∷ []
result_failures (some r) =
    if not r.completed || not (nat_beq r.failed 0)
    then "patrol_not_completed" ∷ []
    else if not (nat_beq r.attempted r.reached)
    then "patrol_waypoint_count_mismatch" ∷ []
    else []

module _ {B : Builtins} where
  unfoldable pub commands : List (Row B) → ℕ
  commands [] = 0
  commands (patrol (waypoint_command _ _ _) ∷ rows) = suc (commands rows)
  commands (_ ∷ rows) = commands rows

  unfoldable pub terminals : List (Row B) → ℕ
  terminals [] = 0
  terminals (patrol (waypoint_terminal _ _) ∷ rows) = suc (terminals rows)
  terminals (_ ∷ rows) = terminals rows

  -- The rows of a log to which the controller alone has written.
  unfoldable pub rows_of : List (PatrolEvent B) → List (Row B)
  rows_of [] = []
  rows_of (e ∷ events) = patrol e ∷ rows_of events

  -- Whether a terminal event is not of a success.
  unfoldable pub any_failed : List (Row B) → Bool
  any_failed [] = false
  any_failed (patrol (waypoint_terminal _ status) ∷ rows) =
      not (is_succeeded status) || any_failed rows
  any_failed (_ ∷ rows) = any_failed rows

  -- The last rows of their kinds.
  unfoldable pub last_route : Option Bool → List (Row B) → Option Bool
  last_route found [] = found
  last_route found (patrol_route good ∷ rows) = last_route (some good) rows
  last_route found (patrol e ∷ rows) = last_route found rows

  unfoldable pub last_result :
      Option PatrolExecutionResult → List (Row B) → Option PatrolExecutionResult
  last_result found [] = found
  last_result found (patrol (finished r) ∷ rows) = last_result (some r) rows
  last_result found (_ ∷ rows) = last_result found rows

  unfoldable pub evaluate_patrol_trace : List (Row B) → List String
  unfolding commands terminals any_failed last_route last_result
  evaluate_patrol_trace rows =
      route_failures (last_route none rows)
      ++ ((if nat_beq (commands rows) (terminals rows)
            then []
            else "incomplete_patrol_waypoint_chain" ∷ [])
          ++ ((if any_failed rows then "patrol_waypoint_failed" ∷ [] else [])
              ++ result_failures (last_result none rows)))
