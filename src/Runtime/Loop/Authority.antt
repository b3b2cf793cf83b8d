-- ===== src/Runtime/Loop/Authority.antt =====
-- What a command may do outside without the operator (`AgentRuntime.run_command`,
-- robot_brain/runtime/loop.py).
use robot_brain.Prelude.{◌≡◌, refl, ◌∙◌, sym, subst, suc, String, Option, some, none, arith}
use robot_brain.Core.Builtins.{Builtins}
use robot_brain.Core.Results.{Result, ok, raise}
use robot_brain.Memory.TaskQueue.{or_text}
use robot_brain.Orchestration.Context.{Context, Setup, M, user}
use robot_brain.Orchestration.Nodes.{GraphState}
use robot_brain.Orchestration.Graph.{ainvoke}
use robot_brain.Orchestration.Graph.Careful.{Careful}
use robot_brain.Orchestration.Graph.Runs.{ainvoke_keeps}
use robot_brain.Runtime.State.{Runtime, within, ◌>>=◌}
use robot_brain.Runtime.Records.{to_result, restore_thread_context, remember_result}
use robot_brain.Runtime.Records.Frame.{
  restore-IsRecord, add_message-IsRecord, remember_result-IsRecord, save_execution_summary-IsRecord,
}
use robot_brain.Runtime.Loop.{
  initial, pending, run_graph, graph_result, save_checkpoint, conclude, run_command,
}
use robot_brain.Runtime.Loop.Checkpoints.{started, run_command-graph}

module _ {B : Builtins} {E : Type 0} (setup : Setup B E) where
  save_checkpoint-env :
      (p : Option _) (s : Runtime B E)
      → ((save_checkpoint setup p s).0 ≡ ok tt)
        × ((save_checkpoint setup p s).1.context.env ≡ s.context.env)
  unfolding save_checkpoint
  save_checkpoint-env none s = (refl, refl)
  save_checkpoint-env (some p) s = (refl, refl)

  conclude-env :
      (thread_id command : String) (duration : B.Float) (final : GraphState B) (s : Runtime B E)
      → (conclude setup thread_id command duration final s).1.context.env ≡ s.context.env
  unfolding conclude
  conclude-env thread_id command duration final s =
      let s1 = (save_checkpoint setup (pending thread_id command final) s).1 in
      let s2 = (remember_result setup command (to_result final) duration s1).1 in
      ground (
        arith,
        save_checkpoint-env (pending thread_id command final) s,
        remember_result-IsRecord setup command (to_result final) duration s1,
        save_execution_summary-IsRecord setup command (to_result final) duration s2,
      )

  graph-env :
      (thread_id command : String) (duration : B.Float) (r : Result (GraphState B))
      (c : Context B E) (s : Runtime B E)
      → (let m : M B E (GraphState B) = λ _. (r, c) in
          ((within m >>= conclude setup thread_id command duration) s).1.context.env ≡ c.env)
  graph-env thread_id command duration (ok final) c s =
      conclude-env thread_id command duration final _
  graph-env thread_id command duration (raise t) c s = refl

  started-env :
      (thread_id command : String) (s : Runtime B E)
      → (started setup thread_id command s).context.env ≡ s.context.env
  started-env thread_id command s =
      let s1 = (restore_thread_context setup thread_id s).1 in
      (add_message-IsRecord setup thread_id user command "command" s1).1
      ∙ (restore-IsRecord setup thread_id s).1

  -- A property of the outside that the sensors and the planner keep, and that every execution keeps
  -- which the rules permit without a confirmation, is kept by a command, however it ends.
  pub run_command_keeps :
      (Q : E → Type 0) (uuid : String) (duration : B.Float) (command : String)
      (given : Option String) (s : Runtime B E)
      → Careful setup Q
      → Q s.context.env
      → Q (run_command setup uuid duration command given s).1.context.env
  unfolding run_graph
  run_command_keeps Q uuid duration command given s careful q =
      let thread_id = or_text given uuid in
      let s2 = started setup thread_id command s in
      let fuel = suc setup.settings.max_loop_iterations in
      let (r, c) = ainvoke setup fuel (initial command thread_id) s2.context in
      let before : Q s2.context.env = subst Q (sym (started-env thread_id command s)) q in
      rw (run_command-graph setup uuid duration command given s) (
        subst Q (sym (graph-env thread_id command duration (graph_result setup r) c s2))
          (ainvoke_keeps setup Q fuel (initial command thread_id) s2.context careful refl before))
