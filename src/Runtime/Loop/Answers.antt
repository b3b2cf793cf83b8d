-- ===== src/Runtime/Loop/Answers.antt =====
-- The answers of the operator (`AgentRuntime.resume`, robot_brain/runtime/loop.py).
use robot_brain.Prelude.{
  ◌≡◌, refl, ◌∙◌, ap, String, Option, some, none, Bool, true, false, arith, inl, inr, string_eq,
  Option-cases,
}
use robot_brain.Prelude.Dict.{get, remove, get-remove_self}
use robot_brain.Core.Builtins.{Builtins}
use robot_brain.Core.Results.{ok, Result-cases}
use robot_brain.Core.Errors.{runtime_missing_checkpoint, runtime_skill_not_found}
use robot_brain.Core.World.{Observation}
use robot_brain.Core.Calls.{Params, SkillResult}
use robot_brain.Safety.Skills.{Skill}
use robot_brain.Safety.Validator.{ValidationResult}
use robot_brain.Orchestration.Context.{Setup, user, outside}
use robot_brain.Orchestration.Nodes.{sense, run_skill, lift}
use robot_brain.Runtime.State.{Runtime, RunResult, R, PendingCheckpoint, within, ◌>>=◌}
use robot_brain.Runtime.Records.{simple_result, restore_thread_context, add_message}
use robot_brain.Runtime.Records.Frame.{
  restore-IsRecord, add_message-IsRecord, remember_result-IsRecord, record_result-IsRecord,
}
use robot_brain.Runtime.Loop.{
  settle, reject, complete_pending, observe_pending, run_pending, recheck, execute_pending,
  approve_validated, approve, missing, answer, resume, text_of,
}

module _ {B : Builtins} {E : Type 0} where
  -- Code that leaves the checkpoints alone, whether it returns or raises.
  abbrev IsStill : {A : Type 0} → R B E A → Type 0
  IsStill m = (s : Runtime B E) → (m s).1.checkpoints ≡ s.checkpoints

  IsStill-bind :
      {A C : Type 0} (m : R B E A) (f : A → R B E C)
      → IsStill m
      → ((a : A) → IsStill (f a))
      → IsStill (m >>= f)
  IsStill-bind m f h k s = elim (Result-cases (m s).0) [
    | inl (a, e) ↦ ground (arith, e, k a (m s).1, h s)
    | inr (t, e) ↦ ground (arith, e, h s)
  ]

module _ {B : Builtins} {E : Type 0} (setup : Setup B E) where
  pub settle_lem :
      (checkpoint : PendingCheckpoint B) (result : RunResult) (s : Runtime B E)
      → ((settle setup checkpoint result s).0 ≡ ok result)
        × ((settle setup checkpoint result s).1.context.env ≡ s.context.env)
        × ((settle setup checkpoint result s).1.checkpoints ≡ s.checkpoints)
  settle_lem checkpoint result s =
      ground (arith, remember_result-IsRecord setup checkpoint.command result (B.decimal 0 0) s)

  settle-IsStill :
      (checkpoint : PendingCheckpoint B) (result : RunResult)
      → IsStill (settle setup checkpoint result)
  settle-IsStill checkpoint result s = (settle_lem checkpoint result s).2

  reject-IsStill :
      (thread_id : String) (checkpoint : PendingCheckpoint B)
      → IsStill (reject setup thread_id checkpoint)
  unfolding reject
  reject-IsStill thread_id checkpoint s = settle-IsStill checkpoint _ _

  complete_pending-IsStill :
      (thread_id : String) (checkpoint : PendingCheckpoint B) (r : SkillResult) (o : Observation B)
      → IsStill (complete_pending setup thread_id checkpoint r o)
  unfolding complete_pending
  complete_pending-IsStill thread_id checkpoint r o s = settle-IsStill checkpoint _ _

  observe_pending-IsStill :
      (thread_id : String) (checkpoint : PendingCheckpoint B) (r : SkillResult)
      → IsStill (observe_pending setup thread_id checkpoint r)
  unfolding observe_pending
  observe_pending-IsStill thread_id checkpoint r s =
      IsStill-bind (within (outside setup.adapters.observe))
        (complete_pending setup thread_id checkpoint r) (λ _. refl)
        (complete_pending-IsStill thread_id checkpoint r) _

  run_pending-IsStill :
      (thread_id : String) (checkpoint : PendingCheckpoint B) (skill : Skill B E)
      (params : Params B)
      → IsStill (run_pending setup thread_id checkpoint skill params)
  unfolding run_pending
  run_pending-IsStill thread_id checkpoint skill params =
      IsStill-bind (within (run_skill skill params)) (observe_pending setup thread_id checkpoint)
        (λ _. refl) (observe_pending-IsStill thread_id checkpoint)

  execute_pending-IsStill :
      (thread_id : String) (checkpoint : PendingCheckpoint B) (skill : Skill B E)
      (validation : ValidationResult B)
      → IsStill (execute_pending setup thread_id checkpoint skill validation)
  unfolding execute_pending
  execute_pending-IsStill thread_id checkpoint skill validation =
      IsStill-bind (within (lift (skill.parse_params validation.normalized_parameters)))
        (run_pending setup thread_id checkpoint skill) (λ _. refl)
        (run_pending-IsStill thread_id checkpoint skill)

  approve_validated-IsStill :
      (thread_id : String) (checkpoint : PendingCheckpoint B) (validation : ValidationResult B)
      → IsStill (approve_validated setup thread_id checkpoint validation)
  unfolding approve_validated
  approve_validated-IsStill thread_id checkpoint validation s =
      elim (Option-cases (get checkpoint.tool_call.skill_name setup.skills)) [
        | inl e ↦ ground (
          arith,
          e,
          settle-IsStill checkpoint
              (simple_result "blocked" "skill disappeared from registry" thread_id
                (some runtime_skill_not_found))
              s,
          settle-IsStill checkpoint
              (simple_result "blocked" validation.reason thread_id validation.error_code) s,
        )
        | inr (skill, e) ↦ ground (
          arith,
          e,
          execute_pending-IsStill thread_id checkpoint skill validation s,
          settle-IsStill checkpoint
              (simple_result "blocked" validation.reason thread_id validation.error_code) s,
        )
      ]

  approve-IsStill :
      (thread_id : String) (checkpoint : PendingCheckpoint B)
      → IsStill (approve setup thread_id checkpoint)
  unfolding approve
  approve-IsStill thread_id checkpoint s =
      IsStill-bind (within (sense setup "resume observation: " "resume:perceive" (some thread_id)))
        (λ _. within (recheck setup checkpoint) >>= approve_validated setup thread_id checkpoint)
        (λ _. refl)
        (λ _.
          IsStill-bind (within (recheck setup checkpoint))
            (approve_validated setup thread_id checkpoint) (λ _. refl)
            (approve_validated-IsStill thread_id checkpoint))
        s

  pub missing_lem :
      (thread_id : String) (s : Runtime B E)
      → ((missing setup thread_id s).0
          ≡ ok (
              simple_result "missing_checkpoint" "no pending checkpoint" thread_id
                (some runtime_missing_checkpoint)))
        × ((missing setup thread_id s).1.context.env ≡ s.context.env)
        × ((missing setup thread_id s).1.checkpoints ≡ s.checkpoints)
  unfolding missing
  missing_lem thread_id s = ground (
    arith,
    record_result-IsRecord setup
        (simple_result "missing_checkpoint" "no pending checkpoint" thread_id
          (some runtime_missing_checkpoint))
        s,
  )

  answer-IsStill :
      (thread_id : String) (approved : Bool) (checkpoint : Option (PendingCheckpoint B))
      → IsStill (answer setup thread_id approved checkpoint)
  answer-IsStill thread_id approved none s = (missing_lem thread_id s).2
  answer-IsStill thread_id true (some checkpoint) s = approve-IsStill thread_id checkpoint s
  answer-IsStill thread_id false (some checkpoint) s = reject-IsStill thread_id checkpoint s

  -- The runtime when the checkpoint is looked up.
  abbrev pub asked : String → Bool → Runtime B E → Runtime B E
  asked thread_id approved s =
      (add_message setup thread_id user (text_of approved) "confirmation"
        (restore_thread_context setup thread_id s).1).1

  pub asked-IsRecord :
      (thread_id : String) (approved : Bool) (s : Runtime B E)
      → ((asked thread_id approved s).context.env ≡ s.context.env)
        × ((asked thread_id approved s).checkpoints ≡ s.checkpoints)
  asked-IsRecord thread_id approved s =
      let s1 = (restore_thread_context setup thread_id s).1 in
      let (_, e, k) =
        add_message-IsRecord setup thread_id user (text_of approved) "confirmation" s1 in
      let (_, f, l) = restore-IsRecord setup thread_id s in (e ∙ f, k ∙ l)

  pub resume-answer :
      (thread_id : String) (approved : Bool) (s : Runtime B E)
      → (let s2 = asked thread_id approved s in
          resume setup thread_id approved s
          ≡ answer setup thread_id approved
              (get thread_id s2.checkpoints)
              (record s2 { checkpoints = remove thread_id s2.checkpoints }))
  unfolding resume
  resume-answer thread_id approved s =
      let s1 = (restore_thread_context setup thread_id s).1 in
      ground (
        arith,
        restore-IsRecord setup thread_id s,
        add_message-IsRecord setup thread_id user (text_of approved) "confirmation" s1,
      )

  -- An answer takes the thread's checkpoint, whatever comes of it, and leaves the other threads'.
  resume-checkpoints :
      (thread_id : String) (approved : Bool) (s : Runtime B E)
      → (resume setup thread_id approved s).1.checkpoints ≡ remove thread_id s.checkpoints
  resume-checkpoints thread_id approved s =
      let s2 = asked thread_id approved s in
      rw (resume-answer thread_id approved s) (
        answer-IsStill thread_id approved (get thread_id s2.checkpoints) _
        ∙ ap (λ d. remove thread_id d) (asked-IsRecord thread_id approved s).1)

  resume-none :
      (thread_id : String) (approved : Bool) (s : Runtime B E)
      → get thread_id s.checkpoints ≡ none
      → ((resume setup thread_id approved s).0
          ≡ ok (
              simple_result "missing_checkpoint" "no pending checkpoint" thread_id
                (some runtime_missing_checkpoint)))
        × ((resume setup thread_id approved s).1.context.env ≡ s.context.env)
  resume-none thread_id approved s e =
      let s2 = asked thread_id approved s in
      let (f, k) = asked-IsRecord thread_id approved s in
      let s3 = record s2 { checkpoints = remove thread_id s2.checkpoints } in
      let found : get thread_id s2.checkpoints ≡ none = ap (λ d. get thread_id d) k ∙ e in
      let (g, h, _) = missing_lem thread_id s3 in
      rw (resume-answer thread_id approved s, found) (g, h ∙ f)

  -- A pending action is answered once: after an answer, whatever came of it, a second one finds
  -- no checkpoint and does nothing outside.
  pub resume_twice :
      (thread_id : String) (first second : Bool) (s : Runtime B E)
      → (let s' = (resume setup thread_id first s).1 in
          ((resume setup thread_id second s').0
            ≡ ok (
                simple_result "missing_checkpoint" "no pending checkpoint" thread_id
                  (some runtime_missing_checkpoint)))
          × ((resume setup thread_id second s').1.context.env ≡ s'.context.env))
  resume_twice thread_id first second s =
      resume-none thread_id second (resume setup thread_id first s).1 (
        ap (λ d. get thread_id d) (resume-checkpoints thread_id first s)
        ∙ get-remove_self thread_id s.checkpoints)

  abbrev pub rejection : String → RunResult
  rejection thread_id = simple_result "rejected" "operator rejected pending action" thread_id none

  pub reject_lem :
      (thread_id : String) (checkpoint : PendingCheckpoint B) (s : Runtime B E)
      → ((reject setup thread_id checkpoint s).0 ≡ ok (rejection thread_id))
        × ((reject setup thread_id checkpoint s).1.context.env ≡ s.context.env)
  unfolding reject
  reject_lem thread_id checkpoint s =
      let (e, f, _) = settle_lem checkpoint (rejection thread_id) _ in (e, f)

  -- A rejected action is not executed: with a checkpoint a rejection always returns `rejected`, and it
  -- does nothing outside.
  pub resume_rejects :
      (thread_id : String) (checkpoint : PendingCheckpoint B) (s : Runtime B E)
      → get thread_id s.checkpoints ≡ some checkpoint
      → ((resume setup thread_id false s).0 ≡ ok (rejection thread_id))
        × ((resume setup thread_id false s).1.context.env ≡ s.context.env)
  resume_rejects thread_id checkpoint s e =
      let s2 = asked thread_id false s in
      let (f, k) = asked-IsRecord thread_id false s in
      let s3 = record s2 { checkpoints = remove thread_id s2.checkpoints } in
      let found : get thread_id s2.checkpoints ≡ some checkpoint =
        ap (λ d. get thread_id d) k ∙ e in
      let (g, h) = reject_lem thread_id checkpoint s3 in
      rw (resume-answer thread_id false s, found) (g, h ∙ f)
