-- ===== src/Memory/TaskQueue/Bulk.antt =====
-- The operations on all tasks of a status (robot_brain/memory/task_queue.py).
use mathlib.Core.Option
use robot_brain.Prelude.{
  ℕ, ◌≡◌, refl, ◌||◌, String, some, List, [], ◌∷◌, arith, if◌then◌else◌, string_eq,
}
use robot_brain.Prelude.Dict.{get, put, put-IsDict}
use robot_brain.Core.Tasks.{ScheduledTask, TaskStatus, queued, running, paused, status_beq}
use robot_brain.Memory.TaskQueue.{
  Store, Changes, updated, update, update_each, save_task, recover_running, pause_running,
  resume_paused, to_status,
}
use robot_brain.Memory.TaskQueue.Listing.{IsStore, Keyed, get-update_each-list}

put-Keyed : (t : ScheduledTask) (s : Store) → Keyed s → Keyed (put t.task_id t s)
unfolding put
put-Keyed t [] k = (refl, tt)
put-Keyed t ((i, x) ∷ s) k = ground (arith, string_eq.beq_iff i t.task_id, put-Keyed t s k.1)

pub save_task-IsStore : (t : ScheduledTask) (s : Store) → IsStore s → IsStore (save_task t s)
unfolding save_task
save_task-IsStore t s v = record {
  unique = put-IsDict t.task_id t s v.unique;
  keyed = put-Keyed t s v.keyed;
}

update_each-IsStore :
    (now : ℕ) (c : Changes) (xs : List ScheduledTask) (s : Store)
    → IsStore s
    → IsStore (update_each now c xs s).1
unfolding update_each update
update_each-IsStore now c [] s v = v
update_each-IsStore now c (x ∷ xs) s v =
    update_each-IsStore now c xs _ (save_task-IsStore (updated now c x) s v)

-- A task after `to_status`, at a time.
abbrev pub moved : ℕ → TaskStatus → String → ScheduledTask → ScheduledTask
moved now status message t = record t { status = status; last_message = message; updated_at = now }

abbrev pub requeue_after_restart : ℕ → ScheduledTask → ScheduledTask
requeue_after_restart now t =
    if status_beq running t.status then moved now queued "requeued after runtime restart" t else t

-- In a well-formed store, `recover_running` queues every running task again with the message of the
-- restart, touches no other task, and keeps the store well-formed.
pub recover_running_lem :
    (now : ℕ) (s : Store)
    → IsStore s
    → ((j : String)
        → get j (recover_running now s).1 ≡ Option.map (requeue_after_restart now) (get j s))
      × IsStore (recover_running now s).1
unfolding recover_running updated
recover_running_lem now s v = (
  λ j. ground (
    arith,
    get-update_each-list now (to_status queued "requeued after runtime restart")
        (some (running ∷ [])) s j v,
  ),
  update_each-IsStore now _ _ s v,
)

abbrev pub requeue_after_reset : ℕ → String → ℕ → ScheduledTask → ScheduledTask
requeue_after_reset now reason later t =
    if status_beq running t.status || status_beq paused t.status
    then moved later queued "resumed after operator reset" t
    else t

-- In a well-formed store, the pause of the running tasks and the resumption after it leave exactly the
-- tasks queued that were running or paused before, and touch no other.
pub resume_paused-pause_running :
    (now later : ℕ) (reason : String) (s : Store) (j : String)
    → IsStore s
    → get j (resume_paused later (pause_running now reason s).1).1
      ≡ Option.map (requeue_after_reset now reason later) (get j s)
unfolding resume_paused pause_running updated
resume_paused-pause_running now later reason s j v =
    let r = pause_running now reason s in
    ground (
      arith,
      get-update_each-list now (to_status paused reason) (some (running ∷ [])) s j v,
      get-update_each-list later (to_status queued "resumed after operator reset")
          (some (paused ∷ [])) r.1 j (update_each-IsStore now _ _ s v),
    )
