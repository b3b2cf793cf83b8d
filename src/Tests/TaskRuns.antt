-- ===== src/Tests/TaskRuns.antt =====
-- The task queue at a concrete store.
use mathlib.Core.Option
use mathlib.Core.List.{Perm}
use robot_brain.Prelude.{
  ◌≡◌, refl, String, some, none, [], ◌∷◌, arith, string_eq, pos, if◌then◌else◌, ◌==◌, keep,
}
use robot_brain.Prelude.Dict.{get, has}
use robot_brain.Core.Tasks.{TaskStatus, ScheduledTask}
use robot_brain.Memory.TaskQueue.{
  Store, list, next_queued, recover_running, pause_running, resume_paused, cancel, enqueue,
}
use robot_brain.Memory.TaskQueue.Listing.{IsStore}
use robot_brain.Memory.TaskQueue.Order.{Chosen, next_queued_lem, list-InOrder, Before, is_wanted}
use robot_brain.Prelude.Dict.{values}
use robot_brain.Prelude.Sort.{InOrder}
use robot_brain.Memory.TaskQueue.Bulk.{
  recover_running_lem, requeue_after_restart, resume_paused-pause_running, requeue_after_reset,
}
use robot_brain.Memory.TaskQueue.Single.{cancel_lem, cancel_one, enqueue_lem}

abbrev task_of : String → TaskStatus → ScheduledTask
task_of id status = record {
  task_id = id;
  thread_id = id;
  objective = "greet";
  priority = pos 0;
  status = status;
  attempts = 1;
  max_attempts = 3;
  source = "command";
  last_message = "";
  created_at = 1;
  updated_at = 1;
}

abbrev store_sample : Store
store_sample =
    ("a", task_of "a" TaskStatus.running)
    ∷ ("b", task_of "b" TaskStatus.queued)
    ∷ ("c", task_of "c" TaskStatus.queued)
    ∷ []

store_sample-IsStore : IsStore store_sample
unfolding has
store_sample-IsStore = record {
  unique = (refl, (refl, (refl, tt)));
  keyed = (refl, (refl, (refl, tt)));
}

list-InOrder_example :
    InOrder Before (list none store_sample)
    × Perm (list none store_sample) (keep (λ t. is_wanted none t.status) (values store_sample))
list-InOrder_example = list-InOrder none store_sample

next_queued_lem_example : Chosen store_sample (next_queued store_sample)
next_queued_lem_example = next_queued_lem store_sample store_sample-IsStore

recover_running_lem_example :
    ((j : String)
      → get j (recover_running 5 store_sample).1
        ≡ Option.map (requeue_after_restart 5) (get j store_sample))
    × IsStore (recover_running 5 store_sample).1
recover_running_lem_example = recover_running_lem 5 store_sample store_sample-IsStore

resume_paused-pause_running_example :
    get "a" (resume_paused 6 (pause_running 5 "stop" store_sample).1).1
    ≡ Option.map (requeue_after_reset 5 "stop" 6) (get "a" store_sample)
resume_paused-pause_running_example =
    resume_paused-pause_running 5 6 "stop" store_sample "a" store_sample-IsStore

cancel_lem_example :
    ((j : String)
      → get j (cancel 5 "b" store_sample).1 ≡ Option.map (cancel_one 5 "b") (get j store_sample))
    × ((cancel 5 "b" store_sample).0 ≡ get "b" (cancel 5 "b" store_sample).1)
    × IsStore (cancel 5 "b" store_sample).1
cancel_lem_example = cancel_lem 5 "b" store_sample store_sample-IsStore

abbrev task_d : ScheduledTask
task_d = record {
  task_id = "d";
  thread_id = "task-d";
  objective = "greet";
  priority = pos 2;
  status = TaskStatus.queued;
  attempts = 0;
  max_attempts = 3;
  source = "command";
  last_message = "";
  created_at = 5;
  updated_at = 5;
}

enqueue_lem_example :
    (s' : Store) × (enqueue "d" 5 "greet" (pos 2) 3 "command" none store_sample ≡ some (task_d, s'))
    × Perm (list none s') (task_d ∷ list none store_sample)
    × ((j : String) → get j s' ≡ (if "d" == j then some task_d else get j store_sample))
    × IsStore s'
    × (enqueue "d" 5 "greet" (pos 2) 0 "command" none store_sample ≡ none)
unfolding has
enqueue_lem_example =
    enqueue_lem "d" 5 "greet" (pos 2) 3 "command" none store_sample store_sample-IsStore refl
      (omega arith)
