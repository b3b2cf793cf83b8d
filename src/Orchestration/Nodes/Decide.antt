-- ===== src/Orchestration/Nodes/Decide.antt =====
-- The nodes `perceive` and `decide` of robot_brain/orchestration/nodes.py, with `DualSystem.decide` of
-- cognition/dual_system.py and `Planner.plan` of cognition/planner.py.
use robot_brain.Prelude.{
  ◌+◌, ◌&◌, String, Option, some, List, [], ◌∷◌, ◌++◌, map, if◌then◌else◌, ◌==◌, string_eq,
}
use robot_brain.Core.Builtins.{Builtins}
use robot_brain.Core.World.{apply_observation}
use robot_brain.Core.Calls.{ToolCall, Source, fast, slow}
use robot_brain.Safety.Policy.{show_texts}
use robot_brain.Cognition.FastReflex.{decide}
use robot_brain.Cognition.Planner.{planner_tools, validate_tool_calls}
use robot_brain.Orchestration.Context.{
  Setup, M, Role, ConversationMessage, pure, ◌>>=◌, ◌>>◌, get_context, modify, note, save_world,
  set_world, outside, recent, recent_messages,
}
use robot_brain.Orchestration.Nodes.State.{
  perceived, decided, GraphState, error_texts, source_text, turns, names, start_task, notes,
}

module _ {B : Builtins} {E : Type 0} (setup : Setup B E) where
  open setup use {settings, skills, adapters}

  -- `perceive`, with the reason under which the world is saved, and the note's first words.
  unfoldable pub sense : String → String → Option String → M B E (Unit {0})
  sense words reason thread_id = do
    observation ← outside adapters.observe
    set_world (apply_observation observation (some settings.object_ttl_seconds))
    note setup (words & adapters.show_observation observation)
    save_world reason thread_id

  unfoldable pub perceive : GraphState B → M B E (GraphState B)
  unfolding sense
  perceive state = do
    sense "observation: " "perceive" (some state.thread_id)
    pure (record state { status = perceived })

  -- `Planner.plan`, from the answer of the language model on.
  unfoldable pub planned : String → List (ToolCall B) → M B E (List (ToolCall B))
  planned command calls = do
    let checked = validate_tool_calls skills calls
    notes setup (error_texts checked.1)
    note setup (
        "slow plan for "
        & (adapters.show_repr command & (": [" & (show_texts (names checked.0) & "]"))))
    pure checked.0

  unfoldable pub plan : String → List (Role × String) → M B E (List (ToolCall B))
  unfolding planned
  plan command conversation = do
    c ← get_context
    let experiences = adapters.search command 5 c.long_term
    let memories = recent 10 c.short_term ++ map (λ e. e.summary) experiences
    calls ← outside (
        adapters.plan command c.world (planner_tools skills settings.robot_backend) memories
          conversation)
    planned command calls

  -- `DualSystem.decide`, from the calls of the reflexes on: reflexes first.
  unfoldable pub choose :
      String → List (Role × String) → List (ToolCall B) → M B E (Source × List (ToolCall B))
  unfolding plan
  choose command conversation [] = plan command conversation >>= λ calls. pure (slow, calls)
  choose command conversation (call ∷ calls) = pure (fast, call ∷ calls)

  unfoldable pub dual_decide : String → List (Role × String) → M B E (Source × List (ToolCall B))
  unfolding choose
  dual_decide command conversation = do
    c ← get_context
    let reflex = decide settings c.world c.go2_error_streak
    modify (λ c. record c { go2_error_streak = reflex.1 })
    choose command conversation reflex.0

  -- `decide`, from the decision on.
  unfoldable pub begin : GraphState B → Source × List (ToolCall B) → M B E (GraphState B)
  unfolding start_task
  begin state decision = do
    set_world (start_task state.command)
    note setup (source_text decision.0 & (" decision: [" & (show_texts (names decision.1) & "]")))
    save_world "decide" (some state.thread_id)
    pure (record state {
      queue = decision.1;
      decision_source = some decision.0;
      plan_cycles = state.plan_cycles + 1;
      status = decided;
    })

  -- `_get_conversation_context`; the empty list stands for `None`.
  unfoldable pub conversation_context : String → List ConversationMessage → List (Role × String)
  conversation_context thread_id messages =
      if thread_id == ""
      then []
      else turns (recent_messages thread_id settings.max_conversation_context messages)

  unfoldable pub decide_node : GraphState B → M B E (GraphState B)
  unfolding dual_decide begin conversation_context
  decide_node state = do
    c ← get_context
    decision ← dual_decide state.command (conversation_context state.thread_id c.conversations)
    begin state decision
