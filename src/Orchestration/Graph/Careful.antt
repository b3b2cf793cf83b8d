-- ===== src/Orchestration/Graph/Careful.antt =====
-- The states in which a round of the graph (robot_brain/orchestration/graph.py) goes on or ends, and
-- the executions that need no operator.
use robot_brain.Prelude.{◌≡◌, some, Bool, true, false, ◌||◌, List, ◌∷◌, ◌⊎◌, string_eq}
use robot_brain.Prelude.Dict.{get}
use robot_brain.Core.Builtins.{Builtins}
use robot_brain.Core.Results.{ok}
use robot_brain.Core.World.{WorldState}
use robot_brain.Core.Calls.{ToolCall, Params}
use robot_brain.Safety.Skills.{Skill}
use robot_brain.Safety.Validator.{ValidationResult}
use robot_brain.Safety.Gate.{Legal, needs_confirmation}
use robot_brain.Orchestration.Context.{Setup}
use robot_brain.Orchestration.Nodes.{
  GraphState, GraphStatus, awaiting_confirmation, blocked, failed, completed, replan, ready,
}
use robot_brain.Orchestration.Graph.{Turn, done, again}
use robot_brain.Orchestration.Effects.{Quiet}

-- Does the status ask the operator?
abbrev pub asks : GraphStatus → Bool
asks awaiting_confirmation = true
asks _ = false

-- A status that ends a run without a question.
abbrev pub is_end : GraphStatus → Bool
is_end completed = true
is_end failed = true
is_end blocked = true
is_end _ = false

module _ {B : Builtins} where
  -- What `reflect` leaves when it goes on.
  abbrev pub is_going : GraphStatus → List (ToolCall B) → Bool
  is_going replan queue = true
  is_going ready (call ∷ calls) = true
  is_going _ _ = false

  -- A final state: ended, or a question about a call whose validation asks it.
  abbrev pub Final : GraphState B → Type 0
  Final s =
      (is_end s.status ≡ true)
      ⊎ ((s.status ≡ awaiting_confirmation)
          × ((call : ToolCall B) × (s.current_call ≡ some call))
          × ((v : ValidationResult B) × (s.validation ≡ some v) × (v.requires_confirmation ≡ true)))

  -- What every node keeps of the state.
  abbrev pub Kept : GraphState B → GraphState B → Type 0
  Kept state s =
      (s.iterations ≡ state.iterations) × (s.confirmation_granted ≡ state.confirmation_granted)

  -- How a round ends: it goes on, or it leaves.
  abbrev pub Ended : GraphState B → Turn B → Type 0
  Ended state (again s) = Kept state s × (asks s.status ≡ false)
  Ended state (done s) = Final s

  abbrev pub Reflected : GraphState B → GraphState B → Type 0
  Reflected state s =
      Kept state s
      × (asks s.status ≡ false)
      × ((is_end s.status || is_going s.status s.queue) ≡ true)

module _ {B : Builtins} {E : Type 0} (setup : Setup B E) (Q : E → Type 0) where
  open setup use {settings, skills, adapters}

  -- Every execution that the rules permit, of a capability that needs no confirmation, keeps `Q`.
  pub record Careful : Type 0 where
    pub quiet : Quiet setup Q
    pub acts :
        (call : ToolCall B) (skill : Skill B E) (n params : Params B) (world : WorldState B) (e : E)
        → get call.skill_name skills ≡ some skill
        → Legal settings skill call world (adapters.now e) n
        → needs_confirmation settings skill.capability_metadata call.skill_name ≡ false
        → skill.parse_params n ≡ ok params
        → Q e
        → Q (skill.execute params (world, e)).2
