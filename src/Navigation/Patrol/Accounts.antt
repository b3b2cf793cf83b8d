-- ===== src/Navigation/Patrol/Accounts.antt =====
-- The accounts of a patrol (robot_brain/navigation/patrol_controller.py).
use robot_brain.Prelude.{
  ℕ, zero, suc, ◌+◌, ◌*◌, ◌≤◌, Bool, true, false, ◌≡◌, refl, some, List, [], ◌∷◌, length, arith,
  inl, inr, Bool-cases, ◌||◌, subst,
}
use robot_brain.Core.Builtins.{Builtins}
use robot_brain.Core.Results.{ok}
use robot_brain.Core.Actions.{Action, pure, ◌>>=◌, modify}
use robot_brain.Navigation.Base.{NavigationStatus, NavigationPose, NavigationClient}
use robot_brain.Navigation.Fake.{is_succeeded}
use robot_brain.Navigation.Patrol.Ends.{
  tried, leg-canceled, leg-taken, leg-refused, IfOn, IfOn-goes_on, lapped, underway, WaitEnds,
  GoalEnds, LegEnds, LegsEnd, LapsEnd, RunEnds,
}
use robot_brain.Navigation.Patrol.{
  PatrolExecutionResult, Patrol, Tally, Leg, goes_on, finishes, waits_on, no_tally, miss, judge,
  result_of, submit, wait_terminal, leg, and_then, legs, laps, finish, run, is_canceled,
}

-- The counters after `n` waypoints, when the patrol goes on.
pub record Balanced (continue_on_failure : Bool) (n : ℕ) (t : Tally) : Type 0 where
  pub counted : t.attempted ≡ n
  pub split : t.attempted ≡ t.reached + t.failed
  pub strict : continue_on_failure ≡ false → t.failed ≡ 0

-- The counters at an early end: at most one attempt is without an outcome, and only if the patrol was
-- canceled.
abbrev pub Early : Bool → Tally → Type 0
Early was_canceled t =
    (t.reached + t.failed ≤ t.attempted)
    × (t.attempted ≤ t.reached + t.failed + 1)
    × (was_canceled ≡ false → (t.attempted ≡ t.reached + t.failed) × (1 ≤ t.failed))

abbrev pub Leads : Bool → ℕ → ℕ → Leg → Type 0
Leads cont n cycles (goes_on t) = Balanced cont n t × (t.cycles_completed ≡ cycles)
Leads cont n cycles (finishes was_canceled t) = Early was_canceled t
Leads cont n cycles waits_on = ⊥

-- The accounts of a result, for a patrol with `n` waypoints in all.
abbrev pub Accounted : Bool → ℕ → ℕ → PatrolExecutionResult → Type 0
Accounted cont n cycles r =
    (r.reached + r.failed ≤ r.attempted)
    × (r.attempted ≤ r.reached + r.failed + 1)
    × (r.canceled ≡ false → r.attempted ≡ r.reached + r.failed)
    × (r.completed ≡ true
        → (r.canceled ≡ false)
          × (r.attempted ≡ n)
          × (r.cycles_completed ≡ cycles)
          × (cont ≡ false → r.failed ≡ 0))
    × (r.completed ≡ false → r.canceled ≡ false → 1 ≤ r.failed)

zero-add : (n : ℕ) → 0 + n ≡ n
zero-add n = omega arith

miss-Leads :
    (cont : Bool) (n : ℕ) (t : Tally) (status : NavigationStatus)
    → Balanced cont n t
    → Leads cont (suc n) t.cycles_completed (miss cont (tried t) status)
unfolding miss
miss-Leads true n t status b = (
  record { counted = omega (arith, b.counted); split = omega (arith, b.split); strict = λ h. cc },
  refl,
)
miss-Leads false n t status b =
    (omega (arith, b.split), omega (arith, b.split), λ h. (omega (arith, b.split), omega arith))

judge-Leads :
    (cont cancel_set : Bool) (n : ℕ) (t : Tally) (status : NavigationStatus)
    → Balanced cont n t
    → Leads cont (suc n) t.cycles_completed (judge cont cancel_set (tried t) status)
unfolding judge
judge-Leads cont cancel_set n t status b = elim (Bool-cases (cancel_set || is_canceled status)) [
  | inl e ↦ rw (e, judge) (omega (arith, b.split), omega (arith, b.split), λ h. cc)
  | inr e ↦ elim (Bool-cases (is_succeeded status)) [
    | inl f ↦
        rw (e, f, judge)
          (
            record {
              counted = omega (arith, b.counted);
              split = omega (arith, b.split);
              strict = b.strict;
            },
            refl,
          )
    | inr f ↦ rw (e, f, judge) (miss-Leads cont n t status b)
  ]
]

module _ {B : Builtins} {T : Type 0} (nav : NavigationClient B T) (others : T → Bool × T)
    (goal_timeout : B.Float) (fuel : ℕ) where
  module _ (cont : Bool) where
    leg-Leads :
        (n : ℕ) (w : NavigationPose B) (t : Tally) (p : Patrol B T)
        → LegEnds nav others goal_timeout fuel w t p
        → Balanced cont n t
        → (l : Leg) × ((leg nav others goal_timeout fuel cont w t p).0 ≡ ok l)
          × Leads cont (suc n) t.cycles_completed l
    leg-Leads n w t p h b = elim (Bool-cases p.cancel_set) [
      | inl e ↦ (
        finishes true t,
        leg-canceled nav others goal_timeout fuel cont w t p e,
        (omega (arith, b.split), omega (arith, b.split), λ h. cc),
      )
      | inr e ↦
          let (handle, submitted, ends) =
            subst (λ k. GoalEnds nav others goal_timeout fuel k w t p) e h in
          elim (Bool-cases handle.accepted) [
            | inl a ↦
                let p2 = underway w t handle (submit nav others goal_timeout w p).1 in
                let (status, settled) =
                  subst (λ k. WaitEnds nav others goal_timeout fuel k p2) a ends in
                let p3 = (wait_terminal nav others goal_timeout fuel p2).1 in
                (
                  judge cont p3.cancel_set (tried t) status,
                  (leg-taken nav others goal_timeout fuel cont w t p handle status e submitted a
                      settled).0,
                  judge-Leads cont p3.cancel_set n t status b,
                )
            | inr a ↦ (
              miss cont (tried t) NavigationStatus.failed,
              (leg-refused nav others goal_timeout fuel cont w t p handle e submitted a).0,
              miss-Leads cont n t NavigationStatus.failed b,
            )
          ]
    ]

    -- A leg and what follows as long as the patrol goes on.
    and_then-Leads :
        (n k cycles laps_done : ℕ) (m : Action (Patrol B T) Leg)
        (f : Tally → Action (Patrol B T) Leg) (P : Tally → Type 0) (p : Patrol B T) (l : Leg)
        → IfOn (m p).0 P
        → (m p).0 ≡ ok l
        → Leads cont n cycles l
        → ((t : Tally)
            → P t
            → Balanced cont n t
            → t.cycles_completed ≡ cycles
            → (r : Leg) × ((f t (m p).1).0 ≡ ok r) × Leads cont k laps_done r)
        → (r : Leg) × (((m >>= λ x. and_then nav others goal_timeout x f) p).0 ≡ ok r)
          × Leads cont k laps_done r
    unfolding ◌>>=◌ and_then pure
    and_then-Leads n k cycles laps_done m f P p (goes_on t) on e d next =
        let (r, g, fits) = next t (IfOn-goes_on (m p).0 t P e on) d.0 d.1 in
        (r, ground (arith, e, g), fits)
    and_then-Leads n k cycles laps_done m f P p (finishes was_canceled t) on e d next =
        (finishes was_canceled t, ground (arith, e), d)
    and_then-Leads n k cycles laps_done m f P p waits_on on e d next = absurd d

    -- The waypoints of a route, from `n` attempts on.
    legs-Leads :
        (ws : List (NavigationPose B)) (n cycles : ℕ) (t : Tally) (p : Patrol B T)
        → LegsEnd nav others goal_timeout fuel cont ws t p
        → Balanced cont n t
        → t.cycles_completed ≡ cycles
        → (l : Leg) × ((legs nav others goal_timeout fuel cont ws t p).0 ≡ ok l)
          × Leads cont (n + length ws) cycles l
    unfolding legs pure
    legs-Leads [] n cycles t p h b c =
        (goes_on t, refl, (subst (λ k. Balanced cont k t) (omega arith) b, c))
    legs-Leads (w ∷ ws) n cycles t p h b c =
        let (l, e, d) = leg-Leads n w t p h.0 b in
        and_then-Leads (suc n) (n + length (w ∷ ws)) cycles cycles
          (leg nav others goal_timeout fuel cont w t) (legs nav others goal_timeout fuel cont ws)
          (λ t'.
            LegsEnd nav others goal_timeout fuel cont ws t'
              (leg nav others goal_timeout fuel cont w t p).1)
          p l h.1 e (subst (λ k. Leads cont (suc n) k l) c d)
          (λ t' h' b' c'.
            let (r, f, k) =
              legs-Leads ws (suc n) cycles t' (leg nav others goal_timeout fuel cont w t p).1 h' b'
                c' in
            (r, f, subst (λ j. Leads cont j cycles r) (omega arith) k))

    laps-Leads :
        (route : List (NavigationPose B)) (cycles n ran : ℕ) (t : Tally) (p : Patrol B T)
        → LapsEnd nav others goal_timeout fuel cont route cycles t p
        → Balanced cont n t
        → t.cycles_completed ≡ ran
        → (l : Leg) × ((laps nav others goal_timeout fuel cont route cycles t p).0 ≡ ok l)
          × Leads cont (n + cycles * length route) (ran + cycles) l
    unfolding laps pure
    laps-Leads route zero n ran t p h b c =
        (goes_on t, refl, (subst (λ k. Balanced cont k t) (omega arith) b, omega (arith, c)))
    laps-Leads route (suc cycles) n ran t p h b c =
        let q = (legs nav others goal_timeout fuel cont route t p).1 in
        let (l, e, d) = legs-Leads route n ran t p h.0 b c in
        and_then-Leads (n + length route) (n + suc cycles * length route) ran (ran + suc cycles)
          (legs nav others goal_timeout fuel cont route t)
          (λ t'. laps nav others goal_timeout fuel cont route cycles (lapped t'))
          (λ t'. LapsEnd nav others goal_timeout fuel cont route cycles (lapped t') q) p l h.1 e d
          (λ t' h' b' c'.
            let (r, f, k) =
              laps-Leads route cycles (n + length route) (suc ran) (lapped t') q h'
                (record { counted = b'.counted; split = b'.split; strict = b'.strict })
                (omega (arith, c')) in
            (
              r,
              f,
              subst (λ j. Leads cont j (ran + suc cycles) r) (grind arith)
                  (subst (λ j. Leads cont (n + length route + cycles * length route) j r)
                    (omega arith) k),
            ))

    finish-Accounted :
        (n cycles : ℕ) (l : Leg) (q : Patrol B T)
        → Leads cont n cycles l
        → (r : PatrolExecutionResult) × ((finish nav others goal_timeout l q).0 ≡ ok (some r))
          × Accounted cont n cycles r
    unfolding finish ◌>>=◌ pure modify result_of
    finish-Accounted n cycles (goes_on t) q d = (
      result_of true false t,
      refl,
      (
        omega (arith, d.0.split),
        omega (arith, d.0.split),
        λ e. d.0.split,
        λ e. (refl, d.0.counted, d.1, d.0.strict),
        λ e f. cc,
      ),
    )
    finish-Accounted n cycles (finishes was_canceled t) q d = (
      result_of false was_canceled t,
      refl,
      (d.0, d.1, λ e. (d.2 e).0, λ e. cc, λ e f. (d.2 f).1),
    )
    finish-Accounted n cycles waits_on q d = absurd d

    -- If the provider answers each goal of a run without raising, and each wait of the run for a goal
    -- that was taken on has an end within the fuel, the patrol over a route that is not empty returns a
    -- result. Every attempt reached its waypoint or failed, but for
    -- one at most that a cancellation cut short. A completed patrol was not canceled, has attempted
    -- every waypoint of the route in every cycle and counts the cycles, and has no failure unless it
    -- goes on after one; a patrol that is neither completed nor canceled has failed.
    pub run_lem :
        (w : NavigationPose B) (ws : List (NavigationPose B)) (cycles : ℕ) (p : Patrol B T)
        → RunEnds nav others goal_timeout fuel cont (w ∷ ws) cycles p
        → (r : PatrolExecutionResult) × ((run nav others goal_timeout fuel (w ∷ ws) cycles cont p).0
            ≡ ok (some r))
          × Accounted cont (cycles * length (w ∷ ws)) cycles r
    unfolding run ◌>>=◌ pure modify
    run_lem w ws cycles p h =
        let p' : Patrol B T = record p { cancel_set = false } in
        let start : Balanced cont 0 no_tally = record {
          counted = refl;
          split = omega arith;
          strict = λ e. refl;
        } in
        let (l, e, d) = laps-Leads (w ∷ ws) cycles 0 0 no_tally p' h start refl in
        let q = (laps nav others goal_timeout fuel cont (w ∷ ws) cycles no_tally p').1 in
        let n = cycles * length (w ∷ ws) in
        let d' : Leads cont n cycles l =
          subst (λ j. Leads cont n j l) (zero-add cycles)
            (subst (λ j. Leads cont j (0 + cycles) l) (zero-add n) d) in
        let (r, f, a) = finish-Accounted n cycles l q d' in (r, ground (arith, e, f), a)
