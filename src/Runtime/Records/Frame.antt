-- ===== src/Runtime/Records/Frame.antt =====
-- What the helpers of robot_brain/runtime/loop.py that write records leave alone.
use robot_brain.Prelude.{◌≡◌, refl, String, List, [], ◌∷◌, arith, string_eq}
use robot_brain.Core.Builtins.{Builtins}
use robot_brain.Core.Results.{ok}
use robot_brain.Orchestration.Context.{Context, Setup, ConversationMessage, Role, recent_messages}
use robot_brain.Runtime.State.{Runtime, RunResult, R}
use robot_brain.Runtime.Records.{
  add_message, add_notes, restore_thread_context, record_result, remember_result,
  save_execution_summary,
}

module _ {B : Builtins} {E : Type 0} where
  -- Done, with the outside and the checkpoints as they were.
  abbrev pub IsRecord : R B E (Unit {0}) → Type 0
  IsRecord m =
      (s : Runtime B E)
      → ((m s).0 ≡ ok tt)
        × ((m s).1.context.env ≡ s.context.env)
        × ((m s).1.checkpoints ≡ s.checkpoints)

module _ {B : Builtins} {E : Type 0} (setup : Setup B E) where
  add_notes-env :
      (ms : List ConversationMessage) (c : Context B E) → (add_notes setup ms c).1.env ≡ c.env
  unfolding add_notes
  add_notes-env [] c = refl
  add_notes-env (m ∷ ms) c = add_notes-env ms _

  pub restore-IsRecord : (thread_id : String) → IsRecord (restore_thread_context setup thread_id)
  unfolding restore_thread_context
  restore-IsRecord thread_id s = ground (
    arith,
    add_notes-env (recent_messages thread_id setup.capacity s.context.conversations) s.context,
  )

  pub add_message-IsRecord :
      (thread_id : String) (role : Role) (content message_type : String)
      → IsRecord (add_message setup thread_id role content message_type)
  unfolding add_message
  add_message-IsRecord thread_id role content message_type s = (refl, refl, refl)

  pub record_result-IsRecord : (result : RunResult) → IsRecord (record_result setup result)
  unfolding record_result
  record_result-IsRecord result s = ground arith

  pub remember_result-IsRecord :
      (command : String) (result : RunResult) (duration : B.Float)
      → IsRecord (remember_result setup command result duration)
  unfolding remember_result
  remember_result-IsRecord command result duration s = ground (arith, record_result-IsRecord result)

  pub save_execution_summary-IsRecord :
      (command : String) (result : RunResult) (duration : B.Float)
      → IsRecord (save_execution_summary setup command result duration)
  unfolding save_execution_summary
  save_execution_summary-IsRecord command result duration s = ground arith
