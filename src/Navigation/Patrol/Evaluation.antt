-- ===== src/Navigation/Patrol/Evaluation.antt =====
-- `evaluate_patrol_trace` on the events of a patrol that has an end
-- (robot_brain/navigation/patrol_controller.py).
use robot_brain.Prelude.{
  ℕ, ◌+◌, Bool, true, false, ◌≡◌, refl, Option, none, some, List, [], ◌∷◌, ◌++◌, ◌||◌, arith, subst,
  ◌↔◌, if◌then◌else◌, nat_beq_iff, nat_beq,
}
use robot_brain.Core.Builtins.{Builtins}
use robot_brain.Navigation.Base.{NavigationPose}
use robot_brain.Navigation.Patrol.{
  PatrolExecutionResult, PatrolEvent, waypoint_command, waypoint_terminal, finished,
}
use robot_brain.Navigation.Patrol.Trace.{
  Row, patrol_route, rows_of, commands, terminals, any_failed, last_route, last_result,
  evaluate_patrol_trace, result_failures, route_failures,
}

module _ {B : Builtins} where
  pub commands-snoc :
      (es : List (PatrolEvent B)) (e : PatrolEvent B)
      → commands (rows_of (es ++ e ∷ [])) ≡ commands (rows_of es) + commands (rows_of (e ∷ []))
  unfolding commands rows_of
  commands-snoc [] e = omega arith
  commands-snoc (waypoint_command _ _ _ ∷ es) e = omega (arith, commands-snoc es e)
  commands-snoc (waypoint_terminal _ _ ∷ es) e = commands-snoc es e
  commands-snoc (finished _ ∷ es) e = commands-snoc es e

  pub commands-command :
      (a cycle : ℕ) (w : NavigationPose B)
      → commands (rows_of (waypoint_command a cycle w ∷ [])) ≡ 1
  unfolding commands rows_of
  commands-command a cycle w = refl

  pub terminals-snoc :
      (es : List (PatrolEvent B)) (e : PatrolEvent B)
      → terminals (rows_of (es ++ e ∷ [])) ≡ terminals (rows_of es) + terminals (rows_of (e ∷ []))
  unfolding terminals rows_of
  terminals-snoc [] e = omega arith
  terminals-snoc (waypoint_command _ _ _ ∷ es) e = terminals-snoc es e
  terminals-snoc (waypoint_terminal _ _ ∷ es) e = omega (arith, terminals-snoc es e)
  terminals-snoc (finished _ ∷ es) e = terminals-snoc es e

  pub any_failed-snoc :
      (es : List (PatrolEvent B)) (e : PatrolEvent B)
      → any_failed (rows_of (es ++ e ∷ []))
        ≡ (any_failed (rows_of es) || any_failed (rows_of (e ∷ [])))
  unfolding any_failed rows_of
  any_failed-snoc [] e = refl
  any_failed-snoc (waypoint_command _ _ _ ∷ es) e = any_failed-snoc es e
  any_failed-snoc (waypoint_terminal _ status ∷ es) e = ground (arith, any_failed-snoc es e)
  any_failed-snoc (finished _ ∷ es) e = any_failed-snoc es e

  last_result-snoc :
      (found : Option PatrolExecutionResult) (es : List (PatrolEvent B)) (r : PatrolExecutionResult)
      → last_result found (rows_of (es ++ finished r ∷ [])) ≡ some r
  unfolding last_result rows_of
  last_result-snoc found [] r = refl
  last_result-snoc found (waypoint_command _ _ _ ∷ es) r = last_result-snoc found es r
  last_result-snoc found (waypoint_terminal _ _ ∷ es) r = last_result-snoc found es r
  last_result-snoc found (finished s ∷ es) r = last_result-snoc (some s) es r

  last_route-rows_of :
      (found : Option Bool) (es : List (PatrolEvent B)) → last_route found (rows_of es) ≡ found
  unfolding last_route rows_of
  last_route-rows_of found [] = refl
  last_route-rows_of found (e ∷ es) = last_route-rows_of found es

++-[] : {A : Type 0} (xs ys : List A) → xs ++ ys ≡ [] → ys ≡ []
++-[] [] ys h = h
++-[] (x ∷ xs) ys h = cc

result_failures-[] :
    (r : PatrolExecutionResult)
    → result_failures (some r) ≡ []
    → (r.completed ≡ true) × (r.failed ≡ 0)
result_failures-[] r h = (ground (arith, h), (nat_beq_iff r.failed 0).0 (ground (arith, h)))

result_failures-nil :
    (r : PatrolExecutionResult)
    → r.completed ≡ true
    → r.failed ≡ 0
    → r.attempted ≡ r.reached
    → result_failures (some r) ≡ []
result_failures-nil r done none_failed all =
    let a = (nat_beq_iff r.failed 0).1 none_failed in
    let b = (nat_beq_iff r.attempted r.reached).1 all in rw (done, a, b, result_failures) refl

module _ {B : Builtins} where
  -- What the evaluation of these events, after those of a good route, says of a result.
  abbrev pub Evaluated : PatrolExecutionResult → List (PatrolEvent B) → Type 0
  Evaluated r es =
      (evaluate_patrol_trace (patrol_route true ∷ rows_of es) ≡ [])
      ↔ ((r.completed ≡ true) × (r.failed ≡ 0))

  commands-finished :
      (es : List (PatrolEvent B)) (r : PatrolExecutionResult)
      → commands (rows_of (es ++ finished r ∷ [])) ≡ commands (rows_of es)
  unfolding commands rows_of
  commands-finished es r = omega (arith, commands-snoc es (finished r))

  terminals-finished :
      (es : List (PatrolEvent B)) (r : PatrolExecutionResult)
      → terminals (rows_of (es ++ finished r ∷ [])) ≡ terminals (rows_of es)
  unfolding terminals rows_of
  terminals-finished es r = omega (arith, terminals-snoc es (finished r))

  any_failed-finished :
      (es : List (PatrolEvent B)) (r : PatrolExecutionResult)
      → any_failed (rows_of es) ≡ false
      → any_failed (rows_of (es ++ finished r ∷ [])) ≡ false
  unfolding any_failed rows_of
  any_failed-finished es r h = ground (arith, h, any_failed-snoc es (finished r))

  evaluate-nil :
      (rows : List (Row B))
      → evaluate_patrol_trace (patrol_route true ∷ rows) ≡ []
      → result_failures (last_result none rows) ≡ []
  unfolding evaluate_patrol_trace last_result commands terminals any_failed last_route
  evaluate-nil rows e = ++-[] (if any_failed rows then "patrol_waypoint_failed" ∷ [] else []) _ (
      ++-[]
        (if nat_beq (commands rows) (terminals rows)
          then []
          else "incomplete_patrol_waypoint_chain" ∷ [])
        _ (++-[] (route_failures (last_route (some true) rows)) _ e))

  evaluate-good :
      (es : List (PatrolEvent B)) (r : PatrolExecutionResult)
      → nat_beq (commands (rows_of es)) (terminals (rows_of es)) ≡ true
      → any_failed (rows_of es) ≡ false
      → last_result none (rows_of es) ≡ some r
      → result_failures (some r) ≡ []
      → evaluate_patrol_trace (patrol_route true ∷ rows_of es) ≡ []
  unfolding evaluate_patrol_trace commands terminals any_failed last_result last_route
  evaluate-good es r same good found nil =
      let route = last_route-rows_of (some true) es in rw (route, same, good, found, nil) refl

  pub evaluate-finished :
      (es : List (PatrolEvent B)) (r : PatrolExecutionResult)
      → (r.completed ≡ true
          → r.failed ≡ 0
          → (commands (rows_of es) ≡ r.attempted)
            × (terminals (rows_of es) ≡ r.attempted)
            × (any_failed (rows_of es) ≡ false)
            × (r.attempted ≡ r.reached))
      → Evaluated r (es ++ finished r ∷ [])
  evaluate-finished es r h =
      let rows = rows_of (es ++ finished r ∷ []) in
      (
        (λ e. result_failures-[] r (
            subst (λ o. result_failures o ≡ []) (last_result-snoc none es r)
              (evaluate-nil rows e))),
        (λ c.
            let (a, b, f, g) = h c.0 c.1 in
            let same : nat_beq (commands rows) (terminals rows) ≡ true =
              (nat_beq_iff (commands rows) (terminals rows)).1
                (omega (arith, a, b, commands-finished es r, terminals-finished es r)) in
            let good : any_failed rows ≡ false = any_failed-finished es r f in
            evaluate-good (es ++ finished r ∷ []) r same good (last_result-snoc none es r)
              (result_failures-nil r c.0 c.1 g)),
      )
