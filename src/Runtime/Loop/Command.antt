-- ===== src/Runtime/Loop/Command.antt =====
-- `AgentRuntime.run_command` (robot_brain/runtime/loop.py). A fresh `uuid4` and the time that the run
-- takes are arguments. The graph runs on one more unit of fuel than its iteration limit.
use robot_brain.Prelude.{
  suc, Bool, true, false, String, Option, none, some, [], if◌then◌else◌, string_eq,
}
use robot_brain.Prelude.Dict.{put}
use robot_brain.Core.Builtins.{Builtins}
use robot_brain.Core.Results.{Result, ok, raise}
use robot_brain.Memory.TaskQueue.{or_text}
use robot_brain.Orchestration.Context.{Setup, M, user}
use robot_brain.Orchestration.Nodes.{GraphState, GraphStatus, unset, awaiting_confirmation}
use robot_brain.Orchestration.Graph.{ainvoke}
use robot_brain.Runtime.State.{PendingCheckpoint, RunResult, R, pure, within, ◌>>=◌, ◌>>◌, modify}
use robot_brain.Runtime.Records.{
  to_result, add_message, restore_thread_context, remember_result, save_execution_summary,
}

abbrev pub is_awaiting : GraphStatus → Bool
is_awaiting awaiting_confirmation = true
is_awaiting _ = false

module _ {B : Builtins} where
  abbrev pub initial : String → String → GraphState B
  initial command thread_id = record {
    command = command;
    thread_id = thread_id;
    queue = [];
    current_call = none;
    validation = none;
    last_result = none;
    results = [];
    status = unset;
    error = none;
    error_code = none;
    decision_source = none;
    confirmation_granted = false;
    iterations = 0;
    plan_cycles = 0;
  }

  -- The checkpoint that a final state leaves, if it does.
  unfoldable pub pending : String → String → GraphState B → Option (PendingCheckpoint B)
  pending thread_id command final =
      if is_awaiting final.status
      then elim final.current_call [
        | none ↦ none
        | some call ↦ some (record { thread_id = thread_id; command = command; tool_call = call })
      ]
      else none

module _ {B : Builtins} {E : Type 0} (setup : Setup B E) where
  open setup use {settings, skills, adapters}

  abbrev pub graph_result : Result (Option (GraphState B)) → Result (GraphState B)
  graph_result (ok none) = raise "out of fuel"
  graph_result (ok (some s)) = ok s
  graph_result (raise t) = raise t

  -- `self.graph.ainvoke(initial)`
  unfoldable pub run_graph : GraphState B → M B E (GraphState B)
  run_graph state c =
      let (r, c') = ainvoke setup (suc settings.max_loop_iterations) state c in (graph_result r, c')

  -- `checkpoints.save`
  unfoldable pub save_checkpoint : Option (PendingCheckpoint B) → R B E (Unit {0})
  save_checkpoint none = pure tt
  save_checkpoint (some p) = modify λ s. record s { checkpoints = put p.thread_id p s.checkpoints }

  -- The part of `run_command` behind the graph.
  unfoldable pub conclude : String → String → B.Float → GraphState B → R B E RunResult
  unfolding pending save_checkpoint
  conclude thread_id command duration final = do
    save_checkpoint (pending thread_id command final)
    let result = to_result final
    remember_result setup command result duration
    save_execution_summary setup command result duration
    pure result

  unfoldable pub run_command : String → B.Float → String → Option String → R B E RunResult
  unfolding conclude run_graph
  run_command uuid duration command given = do
    let thread_id = or_text given uuid
    restore_thread_context setup thread_id
    add_message setup thread_id user command "command"
    final ← within (run_graph (initial command thread_id))
    conclude thread_id command duration final
