-- ===== src/Orchestration/Nodes.antt =====
-- robot_brain/orchestration/nodes.py and state.py. A node takes the graph's state to the state with its
-- update applied.
mod State
mod Decide
mod Act
mod Reflect
pub use robot_brain.Orchestration.Nodes.State.{
  GraphStatus, unset, perceived, decided, validated, awaiting_confirmation, blocked, executed,
  replan, ready, completed, failed, value, is_halt, GraphState, error_texts, source_text, turns,
  names, set_task, notes, lift,
}
unfoldable pub use robot_brain.Orchestration.Nodes.State.{start_task}
unfoldable pub use robot_brain.Orchestration.Nodes.Decide.{
  sense, perceive, planned, plan, choose, dual_decide, begin, conversation_context, decide_node,
}
pub use robot_brain.Orchestration.Nodes.Act.{verdict, judged, run_skill}
unfoldable pub use robot_brain.Orchestration.Nodes.Act.{
  select_action, check_call, validate_node, execute_call, execute,
}
pub use robot_brain.Orchestration.Nodes.Reflect.{
  needs_replan, call_name, is_queued, finish_task, final_status,
}
unfoldable pub use robot_brain.Orchestration.Nodes.Reflect.{
  progress, reflect_result, reflect, finish,
}
