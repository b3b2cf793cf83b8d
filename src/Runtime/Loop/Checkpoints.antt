-- ===== src/Runtime/Loop/Checkpoints.antt =====
-- When a command leaves a checkpoint (robot_brain/runtime/loop.py, checkpoint.py).
use robot_brain.Prelude.{
  suc, ◌≡◌, refl, ◌∙◌, subst, String, Option, some, none, Bool, true, false, arith, inl, inr, ◌==◌,
  string_eq,
}
use robot_brain.Prelude.Dict.{Dict, put}
use robot_brain.Core.Builtins.{Builtins}
use robot_brain.Core.Results.{Result, ok, raise}
use robot_brain.Core.Calls.{ToolCall}
use robot_brain.Memory.TaskQueue.{or_text}
use robot_brain.Orchestration.Context.{Context, Setup, M, user}
use robot_brain.Orchestration.Nodes.{
  GraphState, GraphStatus, unset, perceived, decided, validated, awaiting_confirmation, blocked,
  executed, replan, ready, completed, failed,
}
use robot_brain.Orchestration.Graph.{ainvoke}
use robot_brain.Orchestration.Graph.Careful.{Final, is_end}
use robot_brain.Orchestration.Graph.Runs.{Finished, ainvoke_ends}
use robot_brain.Runtime.State.{Runtime, RunResult, PendingCheckpoint, within, ◌>>=◌}
use robot_brain.Runtime.Records.{
  to_result, status_text, restore_thread_context, add_message, remember_result,
}
use robot_brain.Runtime.Records.Frame.{
  restore-IsRecord, add_message-IsRecord, remember_result-IsRecord, save_execution_summary-IsRecord,
}
use robot_brain.Runtime.Loop.{
  initial, is_awaiting, pending, run_graph, save_checkpoint, conclude, run_command, graph_result,
}

is_end-text :
    (status : GraphStatus)
    → is_end status ≡ true
    → ((status_text status == "awaiting_confirmation") ≡ false) × (is_awaiting status ≡ false)
is_end-text completed e = (refl, refl)
is_end-text failed e = (refl, refl)
is_end-text blocked e = (refl, refl)
is_end-text unset e = ground arith
is_end-text perceived e = ground arith
is_end-text decided e = ground arith
is_end-text validated e = ground arith
is_end-text awaiting_confirmation e = ground arith
is_end-text executed e = ground arith
is_end-text replan e = ground arith
is_end-text ready e = ground arith

module _ {B : Builtins} where
  -- The checkpoints after a run: one more under the thread's id, or as they were.
  abbrev pub Kept :
      Bool
      → String
      → String
      → Dict String (PendingCheckpoint B)
      → Dict String (PendingCheckpoint B)
      → Type 0
  Kept false thread_id command before after = after ≡ before
  Kept true thread_id command before after =
      (call : ToolCall B) × (after
        ≡ put thread_id (record { thread_id = thread_id; command = command; tool_call = call })
            before)

module _ {B : Builtins} {E : Type 0} where
  -- A checkpoint is saved if and only if the result says so.
  abbrev pub Saved :
      String → String → Dict String (PendingCheckpoint B) → Result RunResult → Runtime B E → Type 0
  Saved thread_id command before (raise t) s' = s'.checkpoints ≡ before
  Saved thread_id command before (ok result) s' =
      Kept (result.status == "awaiting_confirmation") thread_id command before s'.checkpoints

module _ {B : Builtins} {E : Type 0} (setup : Setup B E) where
  save_checkpoint-ok :
      (p : Option (PendingCheckpoint B)) (s : Runtime B E) → (save_checkpoint setup p s).0 ≡ ok tt
  unfolding save_checkpoint
  save_checkpoint-ok none s = refl
  save_checkpoint-ok (some p) s = refl

  conclude-checkpoints :
      (thread_id command : String) (duration : B.Float) (final : GraphState B) (s : Runtime B E)
      → ((conclude setup thread_id command duration final s).0 ≡ ok (to_result final))
        × ((conclude setup thread_id command duration final s).1.checkpoints
            ≡ (save_checkpoint setup (pending thread_id command final) s).1.checkpoints)
  unfolding conclude
  conclude-checkpoints thread_id command duration final s =
      let s1 = (save_checkpoint setup (pending thread_id command final) s).1 in
      let s2 = (remember_result setup command (to_result final) duration s1).1 in
      ground (
        arith,
        save_checkpoint-ok (pending thread_id command final) s,
        remember_result-IsRecord setup command (to_result final) duration s1,
        save_execution_summary-IsRecord setup command (to_result final) duration s2,
      )

  to_result-status : (final : GraphState B) → (to_result final).status ≡ status_text final.status
  unfolding to_result
  to_result-status final = refl

  pending-Final :
      (thread_id command : String) (final : GraphState B) (s : Runtime B E)
      → Final final
      → Kept
          (status_text final.status == "awaiting_confirmation")
          thread_id
          command
          s.checkpoints
          (save_checkpoint setup (pending thread_id command final) s).1.checkpoints
  unfolding pending save_checkpoint
  pending-Final thread_id command final s (inl e) =
      let k = is_end-text final.status e in rw (k.0, k.1, pending) refl
  pending-Final thread_id command final s (inr (e, (call, c), v)) = rw (e, c, pending) (call, refl)

  conclude_lem :
      (thread_id command : String) (duration : B.Float) (final : GraphState B) (s : Runtime B E)
      → Final final
      → (let (r, s') = conclude setup thread_id command duration final s in
          Saved thread_id command s.checkpoints r s')
  unfolding to_result
  conclude_lem thread_id command duration final s f =
      let h = conclude-checkpoints thread_id command duration final s in
      rw (h.0, h.1) (pending-Final thread_id command final s f)

  -- The state in which the graph starts.
  abbrev pub started : String → String → Runtime B E → Runtime B E
  started thread_id command s =
      (add_message setup thread_id user command "command"
        (restore_thread_context setup thread_id s).1).1

  started-checkpoints :
      (thread_id command : String) (s : Runtime B E)
      → (started thread_id command s).checkpoints ≡ s.checkpoints
  started-checkpoints thread_id command s =
      let s1 = (restore_thread_context setup thread_id s).1 in
      (add_message-IsRecord setup thread_id user command "command" s1).2
      ∙ (restore-IsRecord setup thread_id s).2

  pub run_command-graph :
      (uuid : String) (duration : B.Float) (command : String) (given : Option String)
      (s : Runtime B E)
      → (let thread_id = or_text given uuid in
          run_command setup uuid duration command given s ≡ (
            (within (run_graph setup (initial command thread_id))
                >>= conclude setup thread_id command duration)
              (started thread_id command s)))
  unfolding run_command
  run_command-graph uuid duration command given s =
      let thread_id = or_text given uuid in
      let s1 = (restore_thread_context setup thread_id s).1 in
      ground (
        arith,
        restore-IsRecord setup thread_id s,
        add_message-IsRecord setup thread_id user command "command" s1,
      )

  graph_lem :
      (thread_id command : String) (duration : B.Float) (r : Result (Option (GraphState B)))
      (c : Context B E) (s : Runtime B E)
      → Finished r
      → (let m : M B E (GraphState B) = λ _. (graph_result setup r, c) in
          let (r', s') = (within m >>= conclude setup thread_id command duration) s in
          Saved thread_id command s.checkpoints r' s')
  graph_lem thread_id command duration (ok none) c s f = elim f [ ]
  graph_lem thread_id command duration (ok (some final)) c s f =
      conclude_lem thread_id command duration final (record s { context = c }) f
  graph_lem thread_id command duration (raise t) c s f = refl

  -- A command saves a checkpoint if and only if its result awaits a confirmation: then it stands under
  -- the thread's id and holds the command and a call, and all else is as it was. If the run
  -- raises, no checkpoint changes.
  pub run_command_lem :
      (uuid : String) (duration : B.Float) (command : String) (given : Option String)
      (s : Runtime B E)
      → (let (r, s') = run_command setup uuid duration command given s in
          Saved (or_text given uuid) command s.checkpoints r s')
  unfolding run_graph
  run_command_lem uuid duration command given s =
      let thread_id = or_text given uuid in
      let s2 = started thread_id command s in
      let fuel = suc setup.settings.max_loop_iterations in
      let (r, c) = ainvoke setup fuel (initial command thread_id) s2.context in
      let ends =
        ainvoke_ends setup fuel (initial command thread_id) s2.context refl (omega arith) in
      let m : M B E (GraphState B) = λ _. (graph_result setup r, c) in
      let (r', s') = (within m >>= conclude setup thread_id command duration) s2 in
      rw (run_command-graph uuid duration command given s) (
        subst (λ before. Saved thread_id command before r' s')
          (started-checkpoints thread_id command s)
          (graph_lem thread_id command duration r c s2 ends))
