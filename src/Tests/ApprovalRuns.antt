-- ===== src/Tests/ApprovalRuns.antt =====
-- The answer to a checkpoint whose call the backend hides.
use robot_brain.Prelude.{
  ℕ, ◌≡◌, refl, ◌∙◌, ap, sym, subst, some, none, true, [], ◌∷◌, arith, Bool-cases, inl, inr,
  string_eq, ◌==◌, eq_sound,
}
use robot_brain.Prelude.Dict.{get}
use robot_brain.Core.Calls.{ToolCall}
use robot_brain.Safety.Skills.{Skill, SkillRegistry}
use robot_brain.Safety.Gate.{runs_on}
use robot_brain.Orchestration.Context.{Setup}
use robot_brain.Runtime.State.{Runtime}
use robot_brain.Runtime.Loop.{resume}
use robot_brain.Runtime.Loop.Approvals.{Guarded, resume_keeps}
use robot_brain.Tests.Samples.{
  naturals, settings_sample, setup_sample, runtime_sample, wave_checkpoint, report_skill,
  wave_skill, call_of, Still, skill_or,
}

-- On the backend of a Go2 the skill `dock` is hidden; here it would wave.
abbrev hidden_skills : SkillRegistry naturals ℕ
hidden_skills = ("report", report_skill) ∷ ("dock", wave_skill) ∷ []

abbrev hidden_setup : Setup naturals ℕ
hidden_setup = record setup_sample {
  settings = record settings_sample { robot_backend = "unitree" };
  skills = hidden_skills;
}

abbrev hidden_runtime : Runtime naturals ℕ
hidden_runtime = record runtime_sample {
  checkpoints = ("t", record wave_checkpoint { tool_call = call_of "dock" }) ∷ [];
}

dock_hidden :
    (call : ToolCall naturals) (skill : Skill naturals ℕ)
    → get call.skill_name hidden_skills ≡ some skill
    → runs_on skill.capability_metadata "unitree" call.skill_name ≡ true
    → report_skill ≡ skill
unfolding get
dock_hidden call skill e r = elim (Bool-cases ("report" == call.skill_name)) [
  | inl a ↦
      let found : get call.skill_name hidden_skills ≡ some report_skill = rw (a, get) refl in
      ap skill_or (sym found ∙ e)
  | inr a ↦ elim (Bool-cases ("dock" == call.skill_name)) [
    | inl b ↦
        let found : get call.skill_name hidden_skills ≡ some wave_skill = rw (a, b, get) refl in
        let same : wave_skill ≡ skill = ap skill_or (sym found ∙ e) in
        let runs =
          subst
            (λ (x : Skill naturals ℕ).
              runs_on x.capability_metadata "unitree" call.skill_name ≡ true)
            (sym same) r in
        let dock : runs_on none "unitree" "dock" ≡ true =
          subst (λ name. runs_on none "unitree" name ≡ true)
            (sym (eq_sound "dock" call.skill_name b)) runs in
        absurd (ground (arith, dock))
    | inr b ↦
        let missing : get call.skill_name hidden_skills ≡ none = rw (a, b, get) refl in
        absurd (ground (arith, sym missing ∙ e))
  ]
]

guarded_sample : Guarded hidden_setup Still
guarded_sample = record {
  senses = λ e q. q;
  acts = λ call skill n params world e found legal parsed q.
      subst (λ (s : Skill naturals ℕ). Still (s.execute params (world, e)).2)
        (dock_hidden call skill found legal.backend) q;
}

resume_keeps_example : Still (resume hidden_setup "t" true hidden_runtime).1.context.env
resume_keeps_example = resume_keeps hidden_setup Still "t" true hidden_runtime guarded_sample refl
