-- ===== src/Tests/RuntimeRuns.antt =====
-- The graph, the runtime and the scheduler at concrete inputs.
use robot_brain.Prelude.{ℕ, ◌≡◌, refl, some, true, false, [], ◌∷◌, arith, string_eq}
use robot_brain.Prelude.Dict.{get}
use robot_brain.Core.Results.{ok}
use robot_brain.Core.Errors.{runtime_missing_checkpoint}
use robot_brain.Core.Tasks.{TaskStatus, ScheduledTask}
use robot_brain.Prelude.{pos}
use robot_brain.Orchestration.Graph.{ainvoke}
use robot_brain.Orchestration.Graph.Runs.{ainvoke_keeps, ainvoke_ends, Finished}
use robot_brain.Runtime.Records.{simple_result}
use robot_brain.Runtime.Loop.{initial, run_command, resume}
use robot_brain.Runtime.Loop.Checkpoints.{Saved, run_command_lem}
use robot_brain.Runtime.Loop.Answers.{rejection, resume_twice, resume_rejects}
use robot_brain.Runtime.Scheduler.{Scheduler, run_task, run_until_idle}
use robot_brain.Runtime.Scheduler.Settled.{Settled, run_task_lem}
use robot_brain.Runtime.Scheduler.Authority.{run_until_idle_keeps}
use robot_brain.Tests.Samples.{
  naturals, setup_sample, context_sample, runtime_sample, wave_checkpoint, Still, careful_sample,
}

ainvoke_keeps_example : Still (ainvoke setup_sample 3 (initial "greet" "t") context_sample).1.env
ainvoke_keeps_example =
    ainvoke_keeps setup_sample Still 3 (initial "greet" "t") context_sample careful_sample refl refl

ainvoke_ends_example : Finished (ainvoke setup_sample 3 (initial "greet" "t") context_sample).0
ainvoke_ends_example =
    ainvoke_ends setup_sample 3 (initial "greet" "t") context_sample refl (omega arith)

run_command_lem_example :
    (let (r, s') = run_command setup_sample "u" 1 "greet" (some "t") runtime_sample in
      Saved "t" "greet" runtime_sample.checkpoints r s')
run_command_lem_example = run_command_lem setup_sample "u" 1 "greet" (some "t") runtime_sample

resume_twice_example :
    (let s' = (resume setup_sample "t" true runtime_sample).1 in
      ((resume setup_sample "t" true s').0
        ≡ ok (
            simple_result "missing_checkpoint" "no pending checkpoint" "t"
              (some runtime_missing_checkpoint)))
      × ((resume setup_sample "t" true s').1.context.env ≡ s'.context.env))
resume_twice_example = resume_twice setup_sample "t" true true runtime_sample

found : get "t" runtime_sample.checkpoints ≡ some wave_checkpoint
unfolding get
found = refl

resume_rejects_example :
    ((resume setup_sample "t" false runtime_sample).0 ≡ ok (rejection setup_sample "t"))
    × ((resume setup_sample "t" false runtime_sample).1.context.env ≡ 0)
resume_rejects_example = resume_rejects setup_sample "t" wave_checkpoint runtime_sample found

abbrev greeting : ScheduledTask
greeting = record {
  task_id = "a";
  thread_id = "t";
  objective = "greet";
  priority = pos 0;
  status = TaskStatus.queued;
  attempts = 0;
  max_attempts = 3;
  source = "command";
  last_message = "";
  created_at = 1;
  updated_at = 1;
}

abbrev scheduler_sample : Scheduler naturals ℕ
scheduler_sample = record { runtime = runtime_sample; tasks = ("a", greeting) ∷ [] }

run_until_idle_keeps_example :
    Still
      (run_until_idle setup_sample
        (("u", 1, 2, 3) ∷ ("v", 1, 4, 5) ∷ [])
        scheduler_sample).1.runtime.context.env
run_until_idle_keeps_example =
    run_until_idle_keeps setup_sample Still (("u", 1, 2, 3) ∷ ("v", 1, 4, 5) ∷ []) scheduler_sample
      careful_sample refl

run_task_lem_example :
    (let (r, s') = run_task setup_sample "u" 1 3 greeting scheduler_sample in
      Settled greeting scheduler_sample r s')
run_task_lem_example = run_task_lem setup_sample "u" 1 3 greeting scheduler_sample refl
