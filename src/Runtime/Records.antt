-- ===== src/Runtime/Records.antt =====
-- The helpers of `AgentRuntime` (robot_brain/runtime/loop.py) that write down what a run did.
pub mod Frame
use robot_brain.Prelude.{
  ℕ, ◌&◌, Bool, true, false, ◌||◌, String, Option, none, some, List, [], ◌∷◌, ◌++◌, map,
  if◌then◌else◌, ◌==◌, string_eq, contains, last,
}
use robot_brain.Core.Builtins.{Builtins}
use robot_brain.Core.Results.{ok}
use robot_brain.Core.Errors.{ErrorCode}
use robot_brain.Core.World.{TaskProgress}
use robot_brain.Core.Calls.{SkillResult}
use robot_brain.Cognition.FastReflex.{join}
use robot_brain.Safety.Policy.{show_texts}
use robot_brain.Orchestration.Context.{
  Context, Setup, Role, user, assistant, system, ConversationMessage, Experience, M, note,
  recent_messages,
}
use robot_brain.Orchestration.Nodes.{GraphState, GraphStatus, unset, source_text}
use robot_brain.Orchestration.Nodes as nodes
use robot_brain.Runtime.State.{
  Runtime, RunResult, R, pure, within, ◌>>=◌, ◌>>◌, get_runtime, modify, ExecutionSummary,
}

abbrev role_text : Role → String
role_text user = "user"
role_text assistant = "assistant"
role_text system = "system"

abbrev completed_skills : Option TaskProgress → List String
completed_skills none = []
completed_skills (some task) = task.completed_skills

abbrev last_message : List SkillResult → String → String
last_message [] default = default
last_message (r ∷ rs) default = elim rs [ [] ↦ r.message | _ ↦ last_message rs default ]

-- `state.get("error", state.get("status", ""))`
abbrev error_or_status : Option String → GraphStatus → String
error_or_status none status = nodes.value status
error_or_status (some error) status = error

-- `state.get("status", "completed")`
abbrev pub status_text : GraphStatus → String
status_text unset = "completed"
status_text status = nodes.value status

abbrev pub simple_result : String → String → String → Option ErrorCode → RunResult
simple_result status message thread_id error_code = record {
  status = status;
  message = message;
  error_code = error_code;
  thread_id = some thread_id;
  decision_source = "";
  results = [];
}

module _ {B : Builtins} where
  unfoldable pub to_result : GraphState B → RunResult
  to_result state = record {
    status = status_text state.status;
    message = last_message state.results (error_or_status state.error state.status);
    error_code = state.error_code;
    thread_id = some state.thread_id;
    decision_source = elim state.decision_source [ none ↦ "" | some s ↦ source_text s ];
    results = state.results;
  }

module _ {B : Builtins} {E : Type 0} (setup : Setup B E) where
  open setup use {adapters, capacity}

  -- `conversations.add`
  unfoldable pub add_message : String → Role → String → String → R B E (Unit {0})
  add_message thread_id role content message_type = within λ c. (
    ok tt,
    record c {
      conversations =
          c.conversations
          ++ record {
            thread_id = thread_id;
            role = role;
            content = content;
            message_type = message_type;
          }
            ∷ [];
    },
  )

  unfoldable pub add_notes : List ConversationMessage → M B E (Unit {0})
  add_notes [] c = (ok tt, c)
  add_notes (m ∷ ms) c =
      add_notes ms
        (note setup
          ("conversation " & (role_text m.role & ("/" & (m.message_type & (": " & m.content)))))
          c).1

  unfoldable pub restore_thread_context : String → R B E (Unit {0})
  unfolding add_notes
  restore_thread_context thread_id s =
      if contains s.restored_threads thread_id then (ok tt, s) else (
        ok tt,
        record s {
          context =
              (add_notes (recent_messages thread_id capacity s.context.conversations) s.context).1;
          restored_threads = thread_id ∷ s.restored_threads;
        },
      )

  unfoldable pub record_result : RunResult → R B E (Unit {0})
  unfolding add_message
  record_result result = elim result.thread_id [
    | none ↦ pure tt
    | some thread_id ↦ add_message thread_id assistant result.message "runtime_result"
  ]

  -- The text of the skills in a summary.
  abbrev skills_text : List String → String
  skills_text [] = "none"
  skills_text (s ∷ ss) = s & (elim ss [ [] ↦ "" | _ ↦ ", " & skills_text ss ])

  abbrev is_some_skill : List String → Bool
  is_some_skill [] = false
  is_some_skill (s ∷ ss) = true

  unfoldable pub summary_text : RunResult → List String → B.Float → String
  summary_text result skills_used duration =
      if is_some_skill skills_used || B.lt (B.decimal 0 0) duration
      then result.message
        & (" [skills: " & (skills_text skills_used & (", " & (B.show_1 duration & "s]"))))
      else result.message

  unfoldable pub remember_result : String → RunResult → B.Float → R B E (Unit {0})
  unfolding summary_text record_result
  remember_result command result duration = do
    s ← get_runtime
    within (
        note setup (
          "runtime result for "
          & (adapters.show_repr command
              & (": " & (result.status & (" (" & (result.message & ")")))))))
    within λ c. (
      ok tt,
      record c {
        long_term =
            c.long_term
            ++ record {
              objective = command;
              outcome = result.status;
              summary =
                  summary_text result (completed_skills s.context.world.current_task) duration;
            }
              ∷ [];
      },
    )
    record_result result

  abbrev failure_reason : RunResult → Option String
  failure_reason result =
      if result.status == "failed" || result.status == "blocked" then some result.message else none

  unfoldable pub save_execution_summary : String → RunResult → B.Float → R B E (Unit {0})
  save_execution_summary command result duration = elim result.thread_id [
    | none ↦ pure tt
    | some thread_id ↦ modify λ s. record s {
      summaries =
          s.summaries
          ++ record {
            thread_id = thread_id;
            objective = command;
            outcome = result.status;
            skills_executed = completed_skills s.context.world.current_task;
            duration_seconds = duration;
            failure_reason = failure_reason result;
            memory_refs = map (λ e. e.summary) (adapters.search command 3 s.context.long_term);
            decision_source = result.decision_source;
          }
            ∷ [];
    }
  ]
