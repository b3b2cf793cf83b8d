-- ===== src/Orchestration/Graph/Rounds.antt =====
-- One round of the graph (robot_brain/orchestration/graph.py): what it keeps and how it ends.
use robot_brain.Prelude.{
  ◌+◌, ◌<◌, ◌≡◌, refl, subst, some, none, Bool, true, false, List, [], ◌∷◌, arith, ◌⊎◌, inl, inr,
  Bool-cases, string_eq, ltb,
}
use robot_brain.Core.Builtins.{Builtins}
use robot_brain.Core.Results.{ok, Result-cases}
use robot_brain.Core.Calls.{ToolCall}
use robot_brain.Safety.Validator.{ValidationResult, validate}
use robot_brain.Safety.Gate.{validate_sound}
use robot_brain.Orchestration.Context.{Context, Setup, pure, ◌>>=◌}
use robot_brain.Orchestration.Nodes.{
  GraphState, select_action, validate_node, check_call, judged, execute, execute_call, reflect,
  reflect_result, finish, perceived,
}
use robot_brain.Orchestration.Graph.{
  route, replan_turn, observe_and_reflect, judge, Turn, done, again, leave, act, turn,
}
use robot_brain.Orchestration.Hoare.{Holds-bind, Triple}
use robot_brain.Orchestration.Effects.{Start, perceive-Triple, decide_node-Triple, Decided}
use robot_brain.Orchestration.Graph.Careful.{asks, is_end, Final, Kept, Ended, Reflected, Careful}

module _ {B : Builtins} {E : Type 0} (setup : Setup B E) (Q : E → Type 0) where
  open setup use {settings, skills, adapters}

  abbrev Vetted : Bool → ToolCall B → ValidationResult B → Context B E → Type 0
  Vetted g call v c = validate settings skills call c.world (adapters.now c.env) g ≡ ok v

  abbrev Judged : GraphState B → ToolCall B → GraphState B → Context B E → Type 0
  Judged state call s c =
      (v : ValidationResult B) × (s ≡ judged setup state v)
      × Vetted state.confirmation_granted call v c

  check_call-Triple :
      (state : GraphState B) (call : ToolCall B)
      → Triple Q (Start setup Q) (check_call setup state call) (Judged state call)
  unfolding check_call
  check_call-Triple state call c q p =
      elim (Result-cases
        (validate settings skills call c.world (adapters.now c.env) state.confirmation_granted)) [
          | inl (v, k) ↦ rw (k, check_call) (q, (v, refl, k))
          | inr (t, k) ↦ rw (k, check_call) q
        ]

  module _ (careful : Careful setup Q) where
    execute_call-Triple :
        (state : GraphState B) (call : ToolCall B) (v : ValidationResult B)
        → v.allowed ≡ true
        → Triple Q (Vetted false call v) (execute_call setup state call v) (λ s c. Kept state s)
    unfolding execute_call
    execute_call-Triple state call v a c q p =
        let (skill, e, l, g) =
          validate_sound settings skills call c.world (adapters.now c.env) false v p a in
        elim (Result-cases (skill.parse_params v.normalized_parameters)) [
          | inl (params, k) ↦ ground (
            arith,
            e,
            k,
            g,
            careful.acts call skill v.normalized_parameters params c.world c.env e l
                (ground (arith, g)) k q,
          )
          | inr (t, k) ↦ ground (arith, e, k)
        ]

    leave-Triple :
        (state s : GraphState B)
        → Final s
        → Triple Q (Start setup Q) (leave setup s) (λ t c. Ended state t)
    unfolding finish
    leave-Triple state s f c q p = ground arith

    reflect-Triple :
        (state : GraphState B)
        → Triple Q (Start setup Q) (reflect setup state) (λ s c. Reflected state s)
    unfolding reflect reflect_result
    reflect-Triple state c q p = ground arith

    replan-Triple :
        (state s : GraphState B)
        → Kept state s
        → Triple Q (Start setup Q) (replan_turn setup s) (λ t c. Ended state t)
    unfolding replan_turn
    replan-Triple state s k c q p =
        Holds-bind Q (λ r c. r ≡ record s { status = perceived }) (λ t c. Ended state t) _ _ _
          (perceive-Triple setup Q careful.quiet s c q tt)
          λ r c q e.
            Holds-bind Q (λ d c. Decided setup Q careful.quiet r d) (λ t c. Ended state t)
              (λ d. pure (again d)) _ _ (decide_node-Triple setup Q careful.quiet r c q tt)
              λ d c q g. (q, ground (arith, g.iterations, g.granted, g.status, e))

    route-Triple :
        (state s : GraphState B)
        → Triple Q (λ c. Reflected state s) (route setup s) (λ t c. Ended state t)
    unfolding route
    route-Triple state s c q p = elim (Bool-cases (is_end s.status)) [
      | inl e ↦
          ground (arith, replan-Triple state s p.0 c q tt, leave-Triple state s (inl e) c q tt)
      | inr e ↦ ground (arith, replan-Triple state s p.0 c q tt)
    ]

    observe_and_reflect-Triple :
        (state s : GraphState B)
        → Triple Q (λ c. Kept state s) (observe_and_reflect setup s) (λ t c. Ended state t)
    unfolding observe_and_reflect
    observe_and_reflect-Triple state s c q k =
        Holds-bind Q (λ r c. r ≡ record s { status = perceived }) (λ t c. Ended state t)
          (λ r. reflect setup r >>= λ x. route setup x) _ _
          (perceive-Triple setup Q careful.quiet s c q tt)
          λ r c q e.
            Holds-bind Q (λ x c. Reflected r x) (λ t c. Ended state t) (route setup) _ _
              (reflect-Triple r c q tt) λ x c q f. route-Triple state x c q (ground (arith, e, k))

    execute-Triple :
        (state s : GraphState B) (call : ToolCall B) (v : ValidationResult B)
        → Kept state s
        → s.current_call ≡ some call
        → s.validation ≡ some v
        → v.allowed ≡ true
        → Triple Q (Vetted false call v) (execute setup s) (λ x c. Kept state x)
    unfolding execute
    execute-Triple state s call v k e f a c q p =
        ground (arith, execute_call-Triple s call v a c q p)

    act-Triple :
        (state s : GraphState B) (call : ToolCall B) (v : ValidationResult B)
        → Kept state s
        → s.current_call ≡ some call
        → s.validation ≡ some v
        → v.allowed ≡ true
        → Triple Q (Vetted false call v) (act setup s) (λ t c. Ended state t)
    unfolding act
    act-Triple state s call v k e f a c q p =
        Holds-bind Q (λ x c. Kept state x) (λ t c. Ended state t) (observe_and_reflect setup) _ _
          (execute-Triple state s call v k e f a c q p) (observe_and_reflect-Triple state)

    judge-Triple :
        (state s x : GraphState B) (call : ToolCall B)
        → Kept state s
        → s.current_call ≡ some call
        → s.confirmation_granted ≡ false
        → Triple Q (Judged s call x) (judge setup x) (λ t c. Ended state t)
    unfolding judge
    judge-Triple state s x call k e g c q (v, same, vetted) =
        let kx : Kept state x = ground (arith, same, k) in
        let ex : x.current_call ≡ some call = ground (arith, same) in
        let vx : x.validation ≡ some v = ground (arith, same) in
        elim (Bool-cases v.allowed) [
          | inl a ↦ ground (
            arith,
            vx,
            act-Triple state x call v kx ex vx a c q (subst (λ b. Vetted b call v c) g vetted),
          )
          | inr a ↦
              let f : Final x = elim (Bool-cases v.requires_confirmation) [
                | inl r ↦ inr (ground (arith, same), (call, ex), (v, vx, r))
                | inr r ↦ inl (ground (arith, same))
              ] in
              ground (arith, vx, leave-Triple state x f c q tt)
        ]

    -- What `select_action` makes of a state in which nothing is asked.
    abbrev Selected : GraphState B → GraphState B → Type 0
    Selected state s =
        ((s.current_call ≡ none) × (is_end s.status ≡ true))
        ⊎ ((call : ToolCall B) × (s.current_call ≡ some call)
            × (s.iterations ≡ state.iterations + 1)
            × (state.iterations < settings.max_loop_iterations)
            × (s.confirmation_granted ≡ state.confirmation_granted))

    Selected-queue :
        (state : GraphState B) (queue : List (ToolCall B))
        → asks state.status ≡ false
        → state.queue ≡ queue
        → ltb settings.max_loop_iterations (state.iterations + 1) ≡ false
        → Selected state (select_action setup state)
    unfolding select_action
    Selected-queue state [] n e b = inl (ground arith, ground arith)
    Selected-queue state (call ∷ calls) n e b =
        inr (call, ground arith, ground arith, ground arith, ground arith)

    select_action-Selected :
        (state : GraphState B)
        → asks state.status ≡ false
        → Selected state (select_action setup state)
    unfolding select_action
    select_action-Selected state n =
        elim (Bool-cases (ltb settings.max_loop_iterations (state.iterations + 1))) [
          | inl b ↦ inl (ground arith, ground arith)
          | inr b ↦ Selected-queue state state.queue n refl b
        ]

    -- How a round of the loop ends.
    abbrev pub Round : GraphState B → Turn B → Type 0
    Round state (again s) =
        (s.iterations ≡ state.iterations + 1)
        × (state.iterations < settings.max_loop_iterations)
        × (s.confirmation_granted ≡ state.confirmation_granted)
        × (asks s.status ≡ false)
    Round state (done s) = Final s

    -- From the validation of a selected call to the end of the round.
    checked_turn :
        (s : GraphState B) (call : ToolCall B)
        → s.current_call ≡ some call
        → s.confirmation_granted ≡ false
        → Triple Q
            (Start setup Q)
            (check_call setup s call >>= λ x. judge setup x)
            (λ t c. Ended s t)
    checked_turn s call e g c q p =
        Holds-bind Q (Judged s call) (λ t c. Ended s t) (judge setup) _ _
          (check_call-Triple s call c q tt) (λ x. judge-Triple s s x call (refl, refl) e g)

    pub turn-Triple :
        (state : GraphState B)
        → asks state.status ≡ false
        → state.confirmation_granted ≡ false
        → Triple Q (Start setup Q) (turn setup state) (λ t c. Round state t)
    unfolding turn validate_node
    turn-Triple state n g c q p =
        let s = select_action setup state in
        elim (select_action-Selected state n) [
          | inl (e, f) ↦ ground (arith, e, leave-Triple state s (inl f) c q tt)
          | inr (call, e, i, l, h) ↦
              ground (arith, e, i, l, h, checked_turn s call e (ground (arith, h, g)) c q tt)
        ]
