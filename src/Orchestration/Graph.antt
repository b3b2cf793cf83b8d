-- ===== src/Orchestration/Graph.antt =====
-- robot_brain/orchestration/graph.py and router.py: the fallback runner, which follows the edges that
-- the compiled graph has too. The rounds of its `while True` are counted down by fuel; `none` is the
-- end of the fuel.
pub mod Careful
pub mod Rounds
pub mod Runs
use robot_brain.Prelude.{
  ℕ, zero, suc, Bool, true, false, Option, none, some, List, [], ◌∷◌, if◌then◌else◌,
}
use robot_brain.Core.Builtins.{Builtins}
use robot_brain.Orchestration.Context.{M, Setup, pure, ◌>>=◌}
use robot_brain.Orchestration.Nodes.{
  GraphState, GraphStatus, replan, is_queued, perceive, decide_node, select_action, validate_node,
  execute, reflect, finish,
}

pub data Route : Type 0 where
  to_validate to_execute to_perceive to_select to_finish : Route

module _ {B : Builtins} where
  abbrev pub after_select : GraphState B → Route
  after_select state = elim state.current_call [ none ↦ to_finish | some _ ↦ to_validate ]

  abbrev pub after_validate : GraphState B → Route
  after_validate state = elim state.validation [
    | none ↦ to_finish
    | some v ↦ if v.allowed then to_execute else to_finish
  ]

  abbrev pub after_reflect : GraphState B → Route
  after_reflect state = elim state.status [
    | replan ↦ to_perceive
    | _ ↦ elim state.queue [ [] ↦ to_finish | _ ↦ to_select ]
  ]

-- The end of a round: leave with the state, or go round again.
pub data Turn (B : Builtins) : Type 0 where
  done again : GraphState B → Turn B

module _ {B : Builtins} {E : Type 0} (setup : Setup B E) where
  abbrev pub leave : GraphState B → M B E (Turn B)
  leave state = finish setup state >>= λ s. pure (done s)

  -- A new plan after a new look.
  unfoldable pub replan_turn : GraphState B → M B E (Turn B)
  replan_turn state = do
    perceived ← perceive setup state
    decided ← decide_node setup perceived
    pure (again decided)

  -- The edges behind `reflect`.
  unfoldable pub route : GraphState B → M B E (Turn B)
  unfolding replan_turn
  route reflected = elim (after_reflect reflected) [
    | to_perceive ↦ replan_turn reflected
    | to_finish ↦ leave reflected
    | _ ↦ pure (again reflected)
  ]

  unfoldable pub observe_and_reflect : GraphState B → M B E (Turn B)
  unfolding route
  observe_and_reflect executed = do
    observed ← perceive setup executed
    reflected ← reflect setup observed
    route reflected

  unfoldable pub act : GraphState B → M B E (Turn B)
  unfolding observe_and_reflect
  act state = execute setup state >>= λ executed. observe_and_reflect executed

  -- The edges behind `validate`.
  unfoldable pub judge : GraphState B → M B E (Turn B)
  unfolding act
  judge checked = elim (after_validate checked) [ to_finish ↦ leave checked | _ ↦ act checked ]

  unfoldable pub turn : GraphState B → M B E (Turn B)
  unfolding judge
  turn state =
      let selected = select_action setup state in
      elim (after_select selected) [
        | to_finish ↦ leave selected
        | _ ↦ validate_node setup selected >>= λ checked. judge checked
      ]

  unfoldable pub loop : ℕ → GraphState B → M B E (Option (GraphState B))
  unfolding turn
  loop zero state = pure none
  loop (suc fuel) state =
      turn state >>= λ t. elim t [ done s ↦ pure (some s) | again s ↦ loop fuel s ]

  unfoldable pub ainvoke : ℕ → GraphState B → M B E (Option (GraphState B))
  unfolding loop
  ainvoke fuel initial = do
    perceived ← perceive setup initial
    decided ← decide_node setup perceived
    loop fuel decided
