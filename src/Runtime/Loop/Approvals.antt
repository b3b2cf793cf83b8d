-- ===== src/Runtime/Loop/Approvals.antt =====
-- What an answer of the operator may do outside (`AgentRuntime.resume`, robot_brain/runtime/loop.py).
use robot_brain.Prelude.{
  ◌≡◌, sym, subst, String, Option, some, none, Bool, true, false, arith, Bool-cases, inl, inr,
  string_eq,
}
use robot_brain.Prelude.Dict.{get}
use robot_brain.Core.Builtins.{Builtins}
use robot_brain.Core.Results.{ok, Result-cases}
use robot_brain.Core.World.{WorldState, Observation}
use robot_brain.Core.Calls.{ToolCall, Params, SkillResult}
use robot_brain.Safety.Skills.{Skill}
use robot_brain.Safety.Validator.{ValidationResult, validate}
use robot_brain.Safety.Gate.{Legal, validate_sound}
use robot_brain.Orchestration.Context.{Setup, outside}
use robot_brain.Orchestration.Nodes.{sense, run_skill, lift}
use robot_brain.Orchestration.Hoare.{Any, Holds-env}
use robot_brain.Orchestration.Effects.{sense-Triple}
use robot_brain.Runtime.State.{Runtime, RunResult, R, PendingCheckpoint, within, ◌>>=◌}
use robot_brain.Runtime.Records.{simple_result}
use robot_brain.Runtime.Loop.{
  settle, complete_pending, observe_pending, run_pending, execute_pending, approve_validated,
  recheck, approve, answer, resume,
}
use robot_brain.Runtime.Loop.Answers.{
  settle_lem, reject_lem, missing_lem, asked, asked-IsRecord, resume-answer,
}

module _ {B : Builtins} {E : Type 0} (Q : E → Type 0) where
  abbrev Keeps : {A : Type 0} → R B E A → Type 0
  Keeps m = (s : Runtime B E) → Q s.context.env → Q (m s).1.context.env

  -- The rest of the code keeps `Q` of the outside if what comes before has.
  bind-keeps :
      {A C : Type 0} (m : R B E A) (f : A → R B E C) (s : Runtime B E)
      → Q (m s).1.context.env
      → ((a : A) → (m s).0 ≡ ok a → Q (f a (m s).1).1.context.env)
      → Q ((m >>= f) s).1.context.env
  bind-keeps m f s q k = elim (Result-cases (m s).0) [
    | inl (a, e) ↦ ground (arith, e, k a e)
    | inr (t, e) ↦ ground (arith, e, q)
  ]

module _ {B : Builtins} {E : Type 0} (setup : Setup B E) (Q : E → Type 0) where
  open setup use {settings, skills, adapters}

  -- The sensors keep `Q`, and so does every execution that the rules permit.
  pub record Guarded : Type 0 where
    pub senses : (e : E) → Q e → Q (adapters.observe e).1
    pub acts :
        (call : ToolCall B) (skill : Skill B E) (n params : Params B) (world : WorldState B) (e : E)
        → get call.skill_name skills ≡ some skill
        → Legal settings skill call world (adapters.now e) n
        → skill.parse_params n ≡ ok params
        → Q e
        → Q (skill.execute params (world, e)).2

  module _ (guarded : Guarded) where
    settle-Keeps :
        (checkpoint : PendingCheckpoint B) (result : RunResult)
        → Keeps Q (settle setup checkpoint result)
    settle-Keeps checkpoint result s q = subst Q (sym (settle_lem setup checkpoint result s).1) q

    complete_pending-Keeps :
        (thread_id : String) (checkpoint : PendingCheckpoint B) (r : SkillResult)
        (o : Observation B)
        → Keeps Q (complete_pending setup thread_id checkpoint r o)
    unfolding complete_pending
    complete_pending-Keeps thread_id checkpoint r o s q = settle-Keeps checkpoint _ _ q

    observe_pending-Keeps :
        (thread_id : String) (checkpoint : PendingCheckpoint B) (r : SkillResult)
        → Keeps Q (observe_pending setup thread_id checkpoint r)
    unfolding observe_pending
    observe_pending-Keeps thread_id checkpoint r s q =
        let p = guarded.senses s.context.env q in
        bind-keeps Q (within (outside adapters.observe))
          (complete_pending setup thread_id checkpoint r) _ p
          (λ o e. complete_pending-Keeps thread_id checkpoint r o _ p)

    run_pending-keeps :
        (thread_id : String) (checkpoint : PendingCheckpoint B) (skill : Skill B E)
        (params : Params B) (s : Runtime B E)
        → Q (skill.execute params (s.context.world, s.context.env)).2
        → Q (run_pending setup thread_id checkpoint skill params s).1.context.env
    unfolding run_pending
    run_pending-keeps thread_id checkpoint skill params s p =
        bind-keeps Q (within (run_skill skill params)) (observe_pending setup thread_id checkpoint)
          s p (λ r e. observe_pending-Keeps thread_id checkpoint r _ p)

    approve_validated-keeps :
        (thread_id : String) (checkpoint : PendingCheckpoint B) (v : ValidationResult B)
        (s : Runtime B E)
        → validate settings skills checkpoint.tool_call s.context.world
            (adapters.now s.context.env)
            true
          ≡ ok v
        → Q s.context.env
        → Q (approve_validated setup thread_id checkpoint v s).1.context.env
    unfolding approve_validated execute_pending
    approve_validated-keeps thread_id checkpoint v s e q = elim (Bool-cases v.allowed) [
      | inl a ↦
          let call = checkpoint.tool_call in
          let (skill, f, l, _) =
            validate_sound settings skills call s.context.world (adapters.now s.context.env) true v
              e a in
          let n = v.normalized_parameters in
          let done =
            bind-keeps Q (within (lift (skill.parse_params n)))
              (run_pending setup thread_id checkpoint skill) s q
              (λ params k.
                run_pending-keeps thread_id checkpoint skill params s
                  (guarded.acts call skill n params s.context.world s.context.env f l k q)) in
          ground (arith, a, f, done)
      | inr a ↦ ground (
        arith,
        a,
        settle-Keeps checkpoint (simple_result "blocked" v.reason thread_id v.error_code) s q,
      )
    ]

    approve-Keeps :
        (thread_id : String) (checkpoint : PendingCheckpoint B)
        → Keeps Q (approve setup thread_id checkpoint)
    unfolding approve
    approve-Keeps thread_id checkpoint s q =
        let look = sense setup "resume observation: " "resume:perceive" (some thread_id) in
        let p = Holds-env Q Any _ _ (
          sense-Triple setup Q "resume observation: " "resume:perceive" (some thread_id)
            guarded.senses s.context q tt) in
        bind-keeps Q (within look)
          (λ _. within (recheck setup checkpoint) >>= approve_validated setup thread_id checkpoint)
          s p
          (λ _ _.
            bind-keeps Q (within (recheck setup checkpoint))
              (approve_validated setup thread_id checkpoint) _ p
              (λ v e. approve_validated-keeps thread_id checkpoint v _ e p))

    answer-Keeps :
        (thread_id : String) (approved : Bool) (checkpoint : Option (PendingCheckpoint B))
        → Keeps Q (answer setup thread_id approved checkpoint)
    answer-Keeps thread_id approved none s q = subst Q (sym (missing_lem setup thread_id s).1) q
    answer-Keeps thread_id true (some checkpoint) s q = approve-Keeps thread_id checkpoint s q
    answer-Keeps thread_id false (some checkpoint) s q =
        subst Q (sym (reject_lem setup thread_id checkpoint s).1) q

-- An answer of the operator acts only within the rules: a property of the outside that the sensors
-- keep, and that every execution keeps which the rules permit, is kept by an answer, whatever it
-- is and however it ends. A confirmation puts no other rule out of force.
pub resume_keeps :
    {B : Builtins} {E : Type 0} (setup : Setup B E) (Q : E → Type 0) (thread_id : String)
    (approved : Bool) (s : Runtime B E)
    → Guarded setup Q
    → Q s.context.env
    → Q (resume setup thread_id approved s).1.context.env
resume_keeps setup Q thread_id approved s guarded q =
    let s2 = asked setup thread_id approved s in
    rw (resume-answer setup thread_id approved s) (
      answer-Keeps setup Q guarded thread_id approved (get thread_id s2.checkpoints) _
        (subst Q (sym (asked-IsRecord setup thread_id approved s).0) q))
