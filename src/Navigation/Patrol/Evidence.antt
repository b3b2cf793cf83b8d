-- ===== src/Navigation/Patrol/Evidence.antt =====
-- The events of a run of a patrol, for `evaluate_patrol_trace`
-- (robot_brain/navigation/patrol_controller.py).
use robot_brain.Prelude.{
  ℕ, zero, suc, ◌+◌, Bool, true, false, ◌≡◌, refl, some, List, [], ◌∷◌, ◌++◌, ◌||◌, arith, inl, inr,
  Bool-cases, subst, sym, ◌↔◌,
}
use robot_brain.Core.Builtins.{Builtins}
use robot_brain.Core.Results.{ok}
use robot_brain.Core.Actions.{Action, pure, ◌>>=◌, get_state, modify}
use robot_brain.Navigation.Base.{NavigationStatus, NavigationPose, NavigationClient}
use robot_brain.Navigation.Fake.{is_succeeded}
use robot_brain.Navigation.Patrol.{
  PatrolExecutionResult, PatrolEvent, waypoint_command, waypoint_terminal, Patrol, Tally, Leg,
  goes_on, finishes, waits_on, no_tally, miss, judge, result_of, submit, wait_terminal, leg,
  and_then, legs, laps, finish, run, is_canceled,
}
use robot_brain.Prelude.{ap, ◌∙◌, ◌++◌, subst}
use robot_brain.Navigation.Patrol.Ends.{
  tried, leg-taken, leg-refused, IfOn, IfOn-goes_on, lapped, underway, command_of, WaitEnds,
  GoalEnds, LegEnds, LegsEnd, LapsEnd, RunEnds,
}
use robot_brain.Navigation.Patrol.Trace.{
  patrol_route, rows_of, commands, terminals, any_failed, evaluate_patrol_trace,
}
use robot_brain.Navigation.Patrol.Evaluation.{
  commands-command, commands-snoc, terminals-snoc, any_failed-snoc, Evaluated, evaluate-finished,
}
use robot_brain.Navigation.Patrol.Unlogged.{submit-At, wait-At}

module _ {B : Builtins} where
  -- The events of the waypoints that the counters count.
  record Traced (t : Tally) (es : List (PatrolEvent B)) : Type 0 where
    pub split : t.attempted ≡ t.reached + t.failed
    pub commanded : commands (rows_of es) ≡ t.attempted
    pub ended :
        t.failed ≡ 0 → (terminals (rows_of es) ≡ t.attempted) × (any_failed (rows_of es) ≡ false)

  no_tally-Traced : Traced no_tally []
  unfolding commands terminals any_failed rows_of
  no_tally-Traced = record { split = omega arith; commanded = refl; ended = λ e. (refl, refl) }

  abbrev LegTraced : Leg → List (PatrolEvent B) → Type 0
  LegTraced (goes_on t) es = Traced t es
  LegTraced (finishes was_canceled t) es = Unit
  LegTraced waits_on es = ⊥

  miss-Traced :
      (cont : Bool) (t : Tally) (status : NavigationStatus) (es : List (PatrolEvent B))
      → t.attempted ≡ t.reached + t.failed
      → commands (rows_of es) ≡ t.attempted + 1
      → LegTraced (miss cont (tried t) status) es
  unfolding miss
  miss-Traced true t status es b h = record {
    split = omega (arith, b);
    commanded = h;
    ended = λ z. absurd (omega arith);
  }
  miss-Traced false t status es b h = tt

  counted :
      (t : Tally) (c e : PatrolEvent B) (es : List (PatrolEvent B))
      → Traced t es
      → commands (rows_of (c ∷ [])) ≡ 1
      → commands (rows_of (e ∷ [])) ≡ 0
      → commands (rows_of ((es ++ c ∷ []) ++ e ∷ [])) ≡ t.attempted + 1
  counted t c e es h one nought =
      omega (arith, commands-snoc (es ++ c ∷ []) e, commands-snoc es c, h.commanded)

  judge-Traced :
      (cont cancel_set : Bool) (t : Tally) (status : NavigationStatus) (a cycle : ℕ)
      (w : NavigationPose B) (es : List (PatrolEvent B))
      → Traced t es
      → LegTraced
          (judge cont cancel_set (tried t) status)
          ((es ++ waypoint_command a cycle w ∷ []) ++ waypoint_terminal a status ∷ [])
  unfolding judge commands terminals any_failed rows_of
  judge-Traced cont cancel_set t status a cycle w es h =
      let e1 = es ++ waypoint_command a cycle w ∷ [] in
      let count =
        counted t (waypoint_command a cycle w) (waypoint_terminal a status) es h refl refl in
      elim (Bool-cases (cancel_set || is_canceled status)) [
        | inl e ↦ rw (e, judge) tt
        | inr e ↦ elim (Bool-cases (is_succeeded status)) [
          | inl f ↦
              rw (e, f, judge)
                (record {
                  split = omega (arith, h.split);
                  commanded = count;
                  ended = λ z. (
                    omega (
                      arith,
                      terminals-snoc e1 (waypoint_terminal a status),
                      terminals-snoc es (waypoint_command a cycle w),
                      (h.ended z).0,
                    ),
                    ground (
                      arith,
                      f,
                      any_failed-snoc e1 (waypoint_terminal a status),
                      any_failed-snoc es (waypoint_command a cycle w),
                      (h.ended z).1,
                    ),
                  );
                })
          | inr f ↦ rw (e, f, judge) (miss-Traced cont t status _ h.split count)
        ]
      ]

module _ {B : Builtins} {T : Type 0} (nav : NavigationClient B T) (others : T → Bool × T)
    (goal_timeout : B.Float) (fuel : ℕ) where
  module _ (cont : Bool) where
    abbrev Leaves : NavigationPose B → Tally → Patrol B T → Leg → List (PatrolEvent B) → Type 0
    Leaves w t p l es =
        ((leg nav others goal_timeout fuel cont w t p).0 ≡ ok l)
        × ((leg nav others goal_timeout fuel cont w t p).1.events ≡ es)

    leg-Traced :
        (w : NavigationPose B) (t : Tally) (p : Patrol B T)
        → LegEnds nav others goal_timeout fuel w t p
        → Traced t p.events
        → (l : Leg) × (es : List (PatrolEvent B)) × Leaves w t p l es × LegTraced l es
    unfolding leg ◌>>=◌ pure get_state
    leg-Traced w t p h b = elim (Bool-cases p.cancel_set) [
      | inl e ↦ (finishes true t, p.events, (ground (arith, e), ground (arith, e)), tt)
      | inr e ↦
          let (handle, submitted, ends) =
            subst (λ k. GoalEnds nav others goal_timeout fuel k w t p) e h in
          let command = command_of w t in
          let same =
            ap (λ es. es ++ command ∷ [])
              ((submit-At nav others goal_timeout w p.events).apply p refl) in
          elim (Bool-cases handle.accepted) [
            | inl a ↦
                let p2 = underway w t handle (submit nav others goal_timeout w p).1 in
                let (status, settled) =
                  subst (λ k. WaitEnds nav others goal_timeout fuel k p2) a ends in
                let p3 = (wait_terminal nav others goal_timeout fuel p2).1 in
                let waited = (wait-At nav others goal_timeout fuel p2.events).apply p2 refl in
                let last = waypoint_terminal (t.attempted + 1) status in
                let (result, at) =
                  leg-taken nav others goal_timeout fuel cont w t p handle status e submitted a
                    settled in
                (
                  judge cont p3.cancel_set (tried t) status,
                  (p.events ++ command ∷ []) ++ last ∷ [],
                  (result, at ∙ ap (λ es. es ++ last ∷ []) (waited ∙ same)),
                  judge-Traced cont p3.cancel_set t status _ _ w p.events b,
                )
            | inr a ↦
                let (result, at) =
                  leg-refused nav others goal_timeout fuel cont w t p handle e submitted a in
                (
                  miss cont (tried t) NavigationStatus.failed,
                  p.events ++ command ∷ [],
                  (result, at ∙ same),
                  miss-Traced cont t NavigationStatus.failed _ b.split (
                      omega (
                        arith,
                        commands-snoc p.events command,
                        b.commanded,
                        commands-command (t.attempted + 1) (t.cycles_completed + 1) w,
                      )),
                )
          ]
    ]

    abbrev Reaches : Action (Patrol B T) Leg → Patrol B T → Type 0
    Reaches m p = (l : Leg) × ((m p).0 ≡ ok l) × LegTraced l (m p).1.events

    and_then-Traced :
        (m : Action (Patrol B T) Leg) (f : Tally → Action (Patrol B T) Leg) (P : Tally → Type 0)
        (p : Patrol B T)
        → IfOn (m p).0 P
        → Reaches m p
        → ((t : Tally) → P t → Traced t (m p).1.events → Reaches (f t) (m p).1)
        → Reaches (m >>= λ x. and_then nav others goal_timeout x f) p
    unfolding ◌>>=◌ and_then pure
    and_then-Traced m f P p on (goes_on t, e, d) next =
        let (r, g, k) = next t (IfOn-goes_on (m p).0 t P e on) d in
        (r, ground (arith, e, g), ground (arith, e, k))
    and_then-Traced m f P p on (finishes was_canceled t, e, d) next =
        (finishes was_canceled t, ground (arith, e), tt)
    and_then-Traced m f P p on (waits_on, e, d) next = absurd d

    legs-Traced :
        (ws : List (NavigationPose B)) (t : Tally) (p : Patrol B T)
        → LegsEnd nav others goal_timeout fuel cont ws t p
        → Traced t p.events
        → Reaches (legs nav others goal_timeout fuel cont ws t) p
    unfolding legs pure
    legs-Traced [] t p h b = (goes_on t, refl, b)
    legs-Traced (w ∷ ws) t p h b =
        let q = (leg nav others goal_timeout fuel cont w t p).1 in
        let (l, es, (e, at), d) = leg-Traced w t p h.0 b in
        and_then-Traced (leg nav others goal_timeout fuel cont w t)
          (legs nav others goal_timeout fuel cont ws)
          (λ t'. LegsEnd nav others goal_timeout fuel cont ws t' q) p h.1
          (l, e, subst (λ x. LegTraced l x) (sym at) d) (λ t' h' b'. legs-Traced ws t' q h' b')

    laps-Traced :
        (route : List (NavigationPose B)) (cycles : ℕ) (t : Tally) (p : Patrol B T)
        → LapsEnd nav others goal_timeout fuel cont route cycles t p
        → Traced t p.events
        → Reaches (laps nav others goal_timeout fuel cont route cycles t) p
    unfolding laps pure
    laps-Traced route zero t p h b = (goes_on t, refl, b)
    laps-Traced route (suc cycles) t p h b =
        let q = (legs nav others goal_timeout fuel cont route t p).1 in
        and_then-Traced (legs nav others goal_timeout fuel cont route t)
          (λ t'. laps nav others goal_timeout fuel cont route cycles (lapped t'))
          (λ t'. LapsEnd nav others goal_timeout fuel cont route cycles (lapped t') q) p h.1
          (legs-Traced route t p h.0 b)
          (λ t' h' b'.
            laps-Traced route cycles (lapped t') q h'
              (record { split = b'.split; commanded = b'.commanded; ended = b'.ended }))

    finish-Evaluated :
        (l : Leg) (q : Patrol B T)
        → LegTraced l q.events
        → (r : PatrolExecutionResult) × ((finish nav others goal_timeout l q).0 ≡ ok (some r))
          × Evaluated r (finish nav others goal_timeout l q).1.events
    unfolding finish ◌>>=◌ pure modify result_of
    finish-Evaluated (goes_on t) q d = (
      result_of true false t,
      refl,
      evaluate-finished q.events (result_of true false t)
          (λ e f. (d.commanded, (d.ended f).0, (d.ended f).1, omega (arith, d.split, f))),
    )
    finish-Evaluated (finishes was_canceled t) q d = (
      result_of false was_canceled t,
      refl,
      evaluate-finished q.events (result_of false was_canceled t) (λ e f. cc),
    )
    finish-Evaluated waits_on q d = absurd d

    -- If the provider answers each goal of a run without raising, and each wait of the run for a goal
    -- that was taken on has an end within the fuel, the patrol over a route that is not empty, whose log
    -- was empty before it, returns a result. The evaluation of its events, after those of a good route, finds no failure exactly if the patrol was completed without
    -- a failed waypoint.
    pub run-evaluate :
        (w : NavigationPose B) (ws : List (NavigationPose B)) (cycles : ℕ) (p : Patrol B T)
        → RunEnds nav others goal_timeout fuel cont (w ∷ ws) cycles p
        → p.events ≡ []
        → (r : PatrolExecutionResult) × ((run nav others goal_timeout fuel (w ∷ ws) cycles cont p).0
            ≡ ok (some r))
          × ((evaluate_patrol_trace (
                  patrol_route true
                  ∷ rows_of (run nav others goal_timeout fuel (w ∷ ws) cycles cont p).1.events)
                ≡ [])
              ↔ ((r.completed ≡ true) × (r.failed ≡ 0)))
    unfolding run ◌>>=◌ pure modify
    run-evaluate w ws cycles p h clean =
        let p' : Patrol B T = record p { cancel_set = false } in
        let start : Traced no_tally p.events =
          subst (λ es. Traced no_tally es) (sym clean) no_tally-Traced in
        let (l, e, d) = laps-Traced (w ∷ ws) cycles no_tally p' h start in
        let q = (laps nav others goal_timeout fuel cont (w ∷ ws) cycles no_tally p').1 in
        let (r, f, a) = finish-Evaluated l q d in (r, ground (arith, e, f), ground (arith, e, a))
