-- ===== src/Orchestration/Graph/Runs.antt =====
-- Whole runs of the graph (robot_brain/orchestration/graph.py): what they keep and how they end.
use robot_brain.Prelude.{
  ℕ, zero, suc, ◌-◌, ◌≤◌, ◌<◌, ◌≡◌, ap, ◌∙◌, Option, some, none, false, arith,
}
use robot_brain.Core.Builtins.{Builtins}
use robot_brain.Core.Results.{Result, ok, raise}
use robot_brain.Orchestration.Context.{Context, Setup, M, ◌>>=◌, pure}
use robot_brain.Orchestration.Nodes.{GraphState, perceived, decide_node}
use robot_brain.Orchestration.Graph.{Turn, done, again, loop, ainvoke}
use robot_brain.Orchestration.Graph.Careful.{asks, Final, Careful}
use robot_brain.Orchestration.Graph.Rounds.{Round, turn-Triple}
use robot_brain.Orchestration.Hoare.{Holds, Holds-bind, Holds-env, Triple, Triple-weaken}
use robot_brain.Orchestration.Effects.{Start, Decided, perceive-Triple, decide_node-Triple}

module _ {B : Builtins} {E : Type 0} (setup : Setup B E) (Q : E → Type 0) where
  open setup use {settings}

  -- A run out of fuel has not passed the limit; any other run has ended.
  abbrev Stopped : ℕ → GraphState B → Option (GraphState B) → Type 0
  Stopped fuel state none = fuel ≤ (settings.max_loop_iterations - state.iterations)
  Stopped fuel state (some s) = Final s

  module _ (careful : Careful setup Q) where
    Stopped-again :
        (fuel : ℕ) (state s : GraphState B)
        → Round setup Q careful state (again s)
        → (r : Option (GraphState B)) → Stopped fuel s r
        → Stopped (suc fuel) state r
    Stopped-again fuel state s (i, l, g, n) none h = ground (arith, i, l)
    Stopped-again fuel state s round (some x) h = h

    after_turn :
        (fuel : ℕ) (state : GraphState B)
        → state.confirmation_granted ≡ false
        → ((s : GraphState B)
            → asks s.status ≡ false
            → s.confirmation_granted ≡ false
            → Triple Q (Start setup Q) (loop setup fuel s) (λ r c. Stopped fuel s r))
        → (t : Turn B)
        → Triple Q
            (λ c. Round setup Q careful state t)
            (elim t as (λ _. M B E (Option (GraphState B))) [
              | done s ↦ pure (some s)
              | again s ↦ loop setup fuel s
            ])
            (λ r c. Stopped (suc fuel) state r)
    after_turn fuel state g rest (done s) c q f = (q, f)
    after_turn fuel state g rest (again s) c q (i, l, h, n) =
        Triple-weaken Q (λ r c. Stopped fuel s r) (λ r c. Stopped (suc fuel) state r)
          (loop setup fuel s) (λ r c. Stopped-again fuel state s (i, l, h, n) r) (rest s n (h ∙ g))
          c q tt

    Stopped-start :
        (fuel : ℕ) (state s : GraphState B)
        → s.iterations ≡ state.iterations
        → (r : Option (GraphState B)) (c : Context B E) → Stopped fuel s r
        → Stopped fuel state r
    Stopped-start fuel state s e none c h = ground (arith, e)
    Stopped-start fuel state s e (some x) c h = h

    loop-Triple :
        (fuel : ℕ) (state : GraphState B)
        → asks state.status ≡ false
        → state.confirmation_granted ≡ false
        → Triple Q (Start setup Q) (loop setup fuel state) (λ r c. Stopped fuel state r)
    unfolding loop
    loop-Triple zero state n g c q p = (q, ground arith)
    loop-Triple (suc fuel) state n g c q p =
        Holds-bind Q (λ t c. Round setup Q careful state t) (λ r c. Stopped (suc fuel) state r)
          (λ t. elim t [ done s ↦ pure (some s) | again s ↦ loop setup fuel s ]) _ _
          (turn-Triple setup Q careful state n g c q tt)
          (after_turn fuel state g (loop-Triple fuel))

    ainvoke-Triple :
        (fuel : ℕ) (initial : GraphState B)
        → initial.confirmation_granted ≡ false
        → Triple Q (Start setup Q) (ainvoke setup fuel initial) (λ r c. Stopped fuel initial r)
    unfolding ainvoke
    ainvoke-Triple fuel initial g c q p =
        Holds-bind Q (λ s c. s ≡ record initial { status = perceived })
          (λ r c. Stopped fuel initial r) (λ s. decide_node setup s >>= λ d. loop setup fuel d) _ _
          (perceive-Triple setup Q careful.quiet initial c q tt)
          λ s c q e.
            Holds-bind Q (λ d c. Decided setup Q careful.quiet s d) (λ r c. Stopped fuel initial r)
              (loop setup fuel) _ _ (decide_node-Triple setup Q careful.quiet s c q tt)
              λ d c q k.
                Triple-weaken Q (λ r c. Stopped fuel d r) (λ r c. Stopped fuel initial r)
                  (loop setup fuel d)
                  (Stopped-start fuel initial d (k.iterations ∙ ap (λ x. x.iterations) e))
                  (loop-Triple fuel d (ap asks k.status)
                    (k.granted ∙ (ap (λ x. x.confirmation_granted) e ∙ g)))
                  c q tt

-- How a run may end: in an exception, or in a final state.
abbrev pub Finished : {B : Builtins} → Result (Option (GraphState B)) → Type 0
Finished (ok none) = ⊥
Finished (ok (some s)) = Final s
Finished (raise t) = Unit

module _ {B : Builtins} {E : Type 0} (setup : Setup B E) where
  open setup use {settings}

  -- A property of the outside that the sensors and the planner keep, and that every execution keeps
  -- which the rules permit without a confirmation, holds after a run that was started without one
  -- if it held before, whatever the sensors, the planner and the skills return or raise.
  pub ainvoke_keeps :
      (Q : E → Type 0) (fuel : ℕ) (initial : GraphState B) (c : Context B E)
      → Careful setup Q
      → initial.confirmation_granted ≡ false
      → Q c.env
      → Q (ainvoke setup fuel initial c).1.env
  ainvoke_keeps Q fuel initial c careful g q =
      let (r, c') = ainvoke setup fuel initial c in
      Holds-env Q (λ r c. Stopped setup Q fuel initial r) r c'
        (ainvoke-Triple setup Q careful fuel initial g c q tt)

  always : Careful setup (λ _. Unit {0})
  always = record {
    quiet = record { senses = λ _ _. tt; plans = λ _ _ _ _ _ _ _. tt };
    acts = λ _ _ _ _ _ _ _ _ _ _ _. tt;
  }

  Finished-Stopped :
      (fuel : ℕ) (initial : GraphState B) (r : Result (Option (GraphState B))) (c : Context B E)
      → settings.max_loop_iterations < fuel
      → Holds (λ _. Unit {0}) (λ r c. Stopped setup (λ _. Unit {0}) fuel initial r) r c
      → Finished r
  Finished-Stopped fuel initial (ok none) c l h = ground (arith, l, h)
  Finished-Stopped fuel initial (ok (some s)) c l h = h.1
  Finished-Stopped fuel initial (raise t) c l h = tt

  -- A run that was started without a confirmation, with more fuel than the iteration limit, ends: it
  -- raises an exception of what it calls, or it returns a state that is completed, failed or
  -- blocked, or that awaits the confirmation which the validation of its current call asks for.
  pub ainvoke_ends :
      (fuel : ℕ) (initial : GraphState B) (c : Context B E)
      → initial.confirmation_granted ≡ false
      → settings.max_loop_iterations < fuel
      → Finished (ainvoke setup fuel initial c).0
  ainvoke_ends fuel initial c g l =
      let (r, c') = ainvoke setup fuel initial c in
      Finished-Stopped fuel initial r c' l
        (ainvoke-Triple setup (λ _. Unit {0}) always fuel initial g c tt tt)
