-- ===== src/Navigation/Fake/Promise.antt =====
-- What a provider promises of its goals (robot_brain/navigation/base.py), and the fake provider's steps
-- (robot_brain/navigation/fake.py).
use robot_brain.Prelude.{
  true, false, ◌≡◌, refl, String, Option, some, arith, not, ◌||◌, ◌==◌, string_eq, inl, inr,
  Bool-cases, Option-cases, List, [], ◌∷◌, if◌then◌else◌,
}
use robot_brain.Core.Builtins.{Builtins}
use robot_brain.Core.Results.{Result, ok, raise}
use robot_brain.Navigation.Base.{
  NavigationStatus, idle, active, succeeded, failed, canceled, timed_out, no_progress, unavailable,
  is_active, RelativeNavigationGoal, AbsoluteNavigationGoal, NavigationGoalHandle, NavigationState,
}
use robot_brain.Navigation.Fake.{
  FakeNavigationClient, get_state, set_relative_goal, set_absolute_goal, cancel, complete, poll,
  names_another, goal_name, text_or_empty, version_differs,
}

-- What a client knows of a provider: no goal is pursued, or one of this name.
pub data Pursuit : Type 0 where
  at_rest : Pursuit
  pursues : Option String → Pursuit

unfoldable pub pursuit : NavigationStatus → Option String → Pursuit
pursuit active goal = pursues goal
pursuit idle goal = at_rest
pursuit succeeded goal = at_rest
pursuit failed goal = at_rest
pursuit canceled goal = at_rest
pursuit timed_out goal = at_rest
pursuit no_progress goal = at_rest
pursuit unavailable goal = at_rest

pub data Call (B : Builtins) : Type 0 where
  polls : Call B
  submits_relative : RelativeNavigationGoal B → Call B
  submits_absolute : AbsoluteNavigationGoal B → Call B
  cancels : Option String → Call B

pub data Answer : Type 0 where
  shows : Pursuit → Answer
  takes : String → Answer
  refuses : String → Answer
  raises : Answer

abbrev pub IsSubmission : {B : Builtins} → Call B → Type 0
IsSubmission (submits_relative goal) = Unit
IsSubmission (submits_absolute goal) = Unit
IsSubmission _ = ⊥

-- The abstract provider: it pursues one goal at most. A goal is taken at rest only, and is otherwise
-- refused with the name of the one that is pursued; it ends by itself, which a poll shows, or by a
-- cancellation that does not name another.
pub data Promised {B : Builtins} (call : Call B) (p : Pursuit) (a : Answer) (q : Pursuit)
    : Type 0 where
  taken :
      (name : String)
      → IsSubmission call
      → p ≡ at_rest
      → a ≡ takes name
      → q ≡ pursues (some name)
      → Promised call p a q
  refused :
      (goal : Option String)
      → IsSubmission call
      → p ≡ pursues goal
      → a ≡ refuses (text_or_empty goal)
      → q ≡ p
      → Promised call p a q
  unready : IsSubmission call → a ≡ raises → q ≡ p → Promised call p a q
  going : call ≡ polls → a ≡ shows p → q ≡ p → Promised call p a q
  ended :
      (goal : Option String)
      → call ≡ polls
      → p ≡ pursues goal
      → a ≡ shows at_rest
      → q ≡ at_rest
      → Promised call p a q
  stopped :
      (goal named : Option String)
      → call ≡ cancels named
      → p ≡ pursues goal
      → names_another named goal ≡ false
      → a ≡ shows at_rest
      → q ≡ at_rest
      → Promised call p a q
  ignored :
      (goal named : Option String)
      → call ≡ cancels named
      → p ≡ pursues goal
      → names_another named goal ≡ true
      → a ≡ shows p
      → q ≡ p
      → Promised call p a q
  idles :
      (named : Option String)
      → call ≡ cancels named
      → p ≡ at_rest
      → a ≡ shows p
      → q ≡ p
      → Promised call p a q

abbrev handled : Result NavigationGoalHandle → Answer
handled (ok h) = if h.accepted then takes h.goal_id else refuses h.goal_id
handled (raise t) = raises

pursuit-active :
    (status : NavigationStatus) (goal : Option String)
    → is_active status ≡ true
    → pursuit status goal ≡ pursues goal
unfolding pursuit
pursuit-active active goal h = refl
pursuit-active _ goal h = cc

pursuit-rest :
    (status : NavigationStatus) (goal : Option String)
    → is_active status ≡ false
    → pursuit status goal ≡ at_rest
unfolding pursuit
pursuit-rest active goal h = cc
pursuit-rest _ goal h = refl

module _ {B : Builtins} where
  abbrev pub view : FakeNavigationClient B → Pursuit
  view c = pursuit c.state.status c.state.goal_id

  abbrev shown : Result (NavigationState B) → Answer
  shown (ok s) = shows (pursuit s.status s.goal_id)
  shown (raise t) = raises

  -- A call of the fake provider, and its answer as a client sees it.
  unfoldable pub answer : Call B → FakeNavigationClient B → Answer × FakeNavigationClient B
  answer polls c = let (r, c') = get_state c in (shown r, c')
  answer (submits_relative goal) c = let (r, c') = set_relative_goal goal c in (handled r, c')
  answer (submits_absolute goal) c = let (r, c') = set_absolute_goal goal c in (handled r, c')
  answer (cancels named) c = let (r, c') = cancel named c in (shown r, c')

  relative_lem :
      (goal : RelativeNavigationGoal B) (c : FakeNavigationClient B)
      → Promised
          (submits_relative goal)
          (view c)
          (answer (submits_relative goal) c).0
          (view (answer (submits_relative goal) c).1)
  unfolding answer set_relative_goal pursuit
  relative_lem goal c = elim (Bool-cases c.state.ready) [
    | inl r ↦ elim (Bool-cases (is_active c.state.status)) [
      | inl e ↦
          refused c.state.goal_id tt (pursuit-active _ _ e) (ground (arith, r, e))
            (ground (arith, r, e))
      | inr e ↦
          taken (goal_name B c.next_goal_number) tt (pursuit-rest _ _ e) (ground (arith, r, e))
            (ground (arith, r, e))
    ]
    | inr r ↦ unready tt (ground (arith, r)) (ground (arith, r))
  ]

  absolute_lem :
      (goal : AbsoluteNavigationGoal B) (c : FakeNavigationClient B)
      → Promised
          (submits_absolute goal)
          (view c)
          (answer (submits_absolute goal) c).0
          (view (answer (submits_absolute goal) c).1)
  unfolding answer set_absolute_goal pursuit
  absolute_lem goal c = elim (Bool-cases c.state.ready) [
    | inl r ↦
        elim (Bool-cases (
          not (goal.map_id == c.map_identity.map_id)
          || version_differs goal.map_version c.map_identity.version)) [
            | inl m ↦ unready tt (ground (arith, r, m)) (ground (arith, r, m))
            | inr m ↦ elim (Bool-cases (not (goal.pose.frame_id == c.map_identity.frame_id))) [
              | inl f ↦ unready tt (ground (arith, r, m, f)) (ground (arith, r, m, f))
              | inr f ↦ elim (Bool-cases (is_active c.state.status)) [
                | inl e ↦
                    refused c.state.goal_id tt (pursuit-active _ _ e) (ground (arith, r, m, f, e))
                      (ground (arith, r, m, f, e))
                | inr e ↦
                    taken (goal_name B c.next_goal_number) tt (pursuit-rest _ _ e)
                      (ground (arith, r, m, f, e)) (ground (arith, r, m, f, e))
              ]
            ]
          ]
    | inr r ↦ unready tt (ground (arith, r)) (ground (arith, r))
  ]

  cancel_lem :
      (named : Option String) (c : FakeNavigationClient B)
      → Promised {B = B}
          (cancels named)
          (view c)
          (answer (cancels named) c).0
          (view (answer (cancels named) c).1)
  unfolding answer cancel complete pursuit
  cancel_lem named c = elim (Bool-cases (is_active c.state.status)) [
    | inl e ↦ elim (Bool-cases (names_another named c.state.goal_id)) [
      | inl n ↦
          ignored c.state.goal_id named refl (pursuit-active _ _ e) n (ground (arith, e, n))
            (ground (arith, e, n))
      | inr n ↦
          stopped c.state.goal_id named refl (pursuit-active _ _ e) n (ground (arith, e, n))
            (ground (arith, e, n))
    ]
    | inr e ↦ idles named refl (pursuit-rest _ _ e) (ground (arith, e)) (ground (arith, e))
  ]

  poll_lem :
      (c : FakeNavigationClient B)
      → Promised {B = B} polls (view c) (answer polls c).0 (view (answer polls c).1)
  unfolding answer get_state poll complete pursuit
  poll_lem c = elim (Option-cases c.pending_outcome) [
    | inl n ↦ going refl (ground (arith, n)) (ground (arith, n))
    | inr (o, n) ↦ elim (Bool-cases (is_active c.state.status)) [
      | inl e ↦ elim (Bool-cases (is_active o)) [
        | inl a ↦ going refl (ground (arith, n, e, a)) (ground (arith, n, e, a))
        | inr a ↦
            ended c.state.goal_id refl (pursuit-active _ _ e)
              (ground (arith, n, e, a, pursuit-rest o c.state.goal_id a))
              (ground (arith, n, e, a, pursuit-rest o c.state.goal_id a))
      ]
      | inr e ↦ going refl (ground (arith, n, e)) (ground (arith, n, e))
    ]
  ]

  answer_lem :
      (call : Call B) (c : FakeNavigationClient B)
      → Promised call (view c) (answer call c).0 (view (answer call c).1)
  answer_lem polls c = poll_lem c
  answer_lem (submits_relative goal) c = relative_lem goal c
  answer_lem (submits_absolute goal) c = absolute_lem goal c
  answer_lem (cancels named) c = cancel_lem named c

  -- The calls of a client, each with its answer, as the abstract provider permits them.
  pub data Trace : Pursuit → List (Call B × Answer) → Pursuit → Type 0 where
    no_call : {p : Pursuit} → Trace p [] p
    then_call :
        {call : Call B} {a : Answer} {p q r : Pursuit} {trace : List (Call B × Answer)}
        → Promised call p a q
        → Trace q trace r
        → Trace p ((call, a) ∷ trace) r

  unfoldable pub serve :
      List (Call B) → FakeNavigationClient B → List (Call B × Answer) × FakeNavigationClient B
  unfolding answer
  serve [] c = ([], c)
  serve (call ∷ calls) c =
      let (a, c') = answer call c in let (trace, last) = serve calls c' in ((call, a) ∷ trace, last)

  -- Whatever calls a client makes of the fake provider in any order, polls, goals and cancellations:
  -- the answers and the goal that is pursued in the end are such as the abstract provider permits.
  pub serve_refines :
      (calls : List (Call B)) (c : FakeNavigationClient B)
      → Trace (view c) (serve calls c).0 (view (serve calls c).1)
  unfolding serve
  serve_refines [] c = no_call
  serve_refines (call ∷ calls) c =
      then_call (answer_lem call c) (serve_refines calls (answer call c).1)
