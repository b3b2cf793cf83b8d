-- ===== src/Orchestration/Effects.antt =====
-- What the nodes before and after the execution do to the outside and to the graph's state
-- (robot_brain/orchestration/nodes.py).
use robot_brain.Prelude.{◌≡◌, refl, String, Option, some, List, [], ◌∷◌, ◌++◌, map, arith}
use robot_brain.Core.Builtins.{Builtins}
use robot_brain.Core.World.{WorldState}
use robot_brain.Core.Calls.{ToolCall, Source}
use robot_brain.Cognition.FastReflex.{decide}
use robot_brain.Cognition.Planner.{planner_tools, validate_tool_calls}
use robot_brain.Orchestration.Context.{Context, Setup, Role, recent}
use robot_brain.Orchestration.Nodes.{
  GraphState, perceived, decided, notes, error_texts, sense, perceive, planned, plan, choose,
  dual_decide, begin, decide_node,
}
use robot_brain.Orchestration.Hoare.{Holds-bind, Triple, Triple-outside, Any}

module _ {B : Builtins} {E : Type 0} (setup : Setup B E) (Q : E → Type 0) where
  open setup use {settings, skills, adapters}

  -- The sensors and the language model keep what `Q` says.
  pub record Quiet : Type 0 where
    pub senses : (e : E) → Q e → Q (adapters.observe e).1
    pub plans :
        (command : String) (world : WorldState B) (tools memories : List String)
        (conversation : List (Role × String)) (e : E)
        → Q e
        → Q (adapters.plan command world tools memories conversation e).1

  abbrev pub Start : Context B E → Type 0
  Start c = Unit

  pub sense-Triple :
      (words reason : String) (thread_id : Option String)
      → ((e : E) → Q e → Q (adapters.observe e).1)
      → Triple Q Start (sense setup words reason thread_id) Any
  unfolding sense
  sense-Triple words reason thread_id senses c q p = ground (arith, senses c.env q)

  module _ (quiet : Quiet) where
    pub perceive-Triple :
        (state : GraphState B)
        → Triple Q Start (perceive setup state) (λ s c. s ≡ record state { status = perceived })
    unfolding perceive
    perceive-Triple state c q p =
        ground (
          arith,
          sense-Triple "observation: " "perceive" (some state.thread_id) quiet.senses c q tt,
        )

    notes-Triple : (es : List String) → Triple Q Start (notes setup es) Any
    notes-Triple [] c q p = (q, tt)
    notes-Triple (e ∷ es) c q p = notes-Triple es _ q tt

    planned-Triple :
        (command : String) (calls : List (ToolCall B))
        → Triple Q Start (planned setup command calls) Any
    unfolding planned
    planned-Triple command calls c q p =
        ground (arith, notes-Triple (error_texts (validate_tool_calls skills calls).1) c q tt)

    plan-Triple :
        (command : String) (conversation : List (Role × String))
        → Triple Q Start (plan setup command conversation) Any
    unfolding plan
    plan-Triple command conversation c q p =
        let tools = planner_tools skills settings.robot_backend in
        let memories =
          recent 10 c.short_term ++ map (λ e. e.summary) (adapters.search command 5 c.long_term) in
        Holds-bind Q Any Any (planned setup command) _ _
          (Triple-outside Q (adapters.plan command c.world tools memories conversation)
            (quiet.plans command c.world tools memories conversation) c q tt)
          (planned-Triple command)

    choose-Triple :
        (command : String) (conversation : List (Role × String)) (reflex : List (ToolCall B))
        → Triple Q Start (choose setup command conversation reflex) Any
    unfolding choose
    choose-Triple command conversation [] c q p =
        ground (arith, plan-Triple command conversation c q tt)
    choose-Triple command conversation (call ∷ calls) c q p = (q, tt)

    dual_decide-Triple :
        (command : String) (conversation : List (Role × String))
        → Triple Q Start (dual_decide setup command conversation) Any
    unfolding dual_decide
    dual_decide-Triple command conversation c q p =
        choose-Triple command conversation (decide settings c.world c.go2_error_streak).0 _ q tt

    -- The state after a decision, its new queue and source aside.
    pub record Decided (state s : GraphState B) : Type 0 where
      pub iterations : s.iterations ≡ state.iterations
      pub granted : s.confirmation_granted ≡ state.confirmation_granted
      pub status : s.status ≡ decided

    begin-Triple :
        (state : GraphState B) (decision : Source × List (ToolCall B))
        → Triple Q Start (begin setup state decision) (λ s c. Decided state s)
    unfolding begin
    begin-Triple state decision c q p =
        (q, record { iterations = refl; granted = refl; status = refl })

    pub decide_node-Triple :
        (state : GraphState B) → Triple Q Start (decide_node setup state) (λ s c. Decided state s)
    unfolding decide_node
    decide_node-Triple state c q p =
        Holds-bind Q Any (λ s c. Decided state s) (begin setup state) _ _
          (dual_decide-Triple state.command _ c q tt) (begin-Triple state)
