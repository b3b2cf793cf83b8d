-- ===== src/Memory/TaskQueue/Single.antt =====
-- The operations on one task (robot_brain/memory/task_queue.py).
use mathlib.Core.Option
use robot_brain.Prelude.{
  ℕ, ◌≡◌, refl, inl, inr, not, ◌&&◌, String, Option, some, [], ◌∷◌, arith, ℤ, if◌then◌else◌, ◌==◌,
  string_eq, contains, Bool-cases, Option-cases, ◌<◌, ◌&◌,
}
use mathlib.Core.List.{Perm}
use mathlib.Core.List.Perm
use robot_brain.Prelude.Dict.{get, put, has, values, get-put, get-put_self}
use robot_brain.Prelude.{◌++◌, none, false, List, keep, subst, sym, true}
use robot_brain.Memory.TaskQueue.{list}
use robot_brain.Memory.TaskQueue.Order.{list-InOrder}
use robot_brain.Core.Tasks.{ScheduledTask, queued, cancelled, status_eq}
use robot_brain.Memory.TaskQueue.{
  Store, updated, update, save_task, get_task, cancel, enqueue, terminal_task_statuses, or_text,
  to_status,
}
use robot_brain.Memory.TaskQueue.Listing.{IsStore, Keyed}
use robot_brain.Memory.TaskQueue.Bulk.{save_task-IsStore, moved}

pub Keyed-get :
    (j : String) (s : Store) (t : ScheduledTask) → Keyed s → get j s ≡ some t → t.task_id ≡ j
unfolding get
Keyed-get j [] t k e = cc
Keyed-get j ((i, x) ∷ s) t k e = ground (arith, string_eq.beq_iff i j, Keyed-get j s t k.1)

abbrev pub cancel_one : ℕ → String → ScheduledTask → ScheduledTask
cancel_one now task_id t =
    if (t.task_id == task_id) && not (contains terminal_task_statuses t.status)
    then moved now cancelled "cancelled by operator" t
    else t

module _ (now : ℕ) (task_id : String) (s : Store) (v : IsStore s) where
  after : ScheduledTask → ScheduledTask
  after = updated now (to_status cancelled "cancelled by operator")

  get-cancel :
      (j : String) → get j (cancel now task_id s).1 ≡ Option.map (cancel_one now task_id) (get j s)
  unfolding cancel update updated get_task save_task after
  get-cancel j = elim (Option-cases (get task_id s)) [
    | inl e ↦ elim (Option-cases (get j s)) [
      | inl n ↦ ground arith
      | inr (x, f) ↦ ground (arith, Keyed-get j s x v.keyed f, string_eq.beq_iff x.task_id task_id)
    ]
    | inr (t, e) ↦ elim (Option-cases (get j s)) [
      | inl n ↦ ground (
        arith,
        Keyed-get task_id s t v.keyed e,
        get-put t.task_id j (after t) s,
        string_eq.beq_iff t.task_id j,
      )
      | inr (x, f) ↦ ground (
        arith,
        Keyed-get task_id s t v.keyed e,
        Keyed-get j s x v.keyed f,
        get-put t.task_id j (after t) s,
        string_eq.beq_iff t.task_id j,
        string_eq.beq_iff x.task_id task_id,
      )
    ]
  ]

  cancel-result : (cancel now task_id s).0 ≡ get task_id (cancel now task_id s).1
  unfolding cancel update updated get_task save_task after
  cancel-result = elim (Option-cases (get task_id s)) [
    | inl e ↦ ground arith
    | inr (t, e) ↦
        ground (arith, Keyed-get task_id s t v.keyed e, get-put_self t.task_id (after t) s)
  ]

  cancel-IsStore : IsStore (cancel now task_id s).1
  unfolding cancel update get_task after
  cancel-IsStore = elim (Option-cases (get task_id s)) [
    | inl e ↦ rw (e, cancel) v
    | inr (t, e) ↦ elim (Bool-cases (contains terminal_task_statuses t.status)) [
      | inl ended ↦ rw (e, cancel, ended) v
      | inr live ↦ rw (e, cancel, live) (save_task-IsStore (after t) s v)
    ]
  ]

-- In a well-formed store, `cancel` marks the named task as cancelled if it is stored and has not
-- ended, touches nothing else, returns what is stored under the id afterwards, and keeps the store
-- well-formed.
pub cancel_lem :
    (now : ℕ) (task_id : String) (s : Store)
    → IsStore s
    → ((j : String)
        → get j (cancel now task_id s).1 ≡ Option.map (cancel_one now task_id) (get j s))
      × ((cancel now task_id s).0 ≡ get task_id (cancel now task_id s).1)
      × IsStore (cancel now task_id s).1
cancel_lem now task_id s v =
    (get-cancel now task_id s v, cancel-result now task_id s v, cancel-IsStore now task_id s v)

module _ (uuid : String) (now : ℕ) (objective : String) (priority : ℤ) (max_attempts : ℕ)
    (source : String) (thread_id : Option String) (s : Store) where
  abbrev new_task : ScheduledTask
  new_task = record {
    task_id = uuid;
    thread_id = or_text thread_id ("task-" & uuid);
    objective = objective;
    priority = priority;
    status = queued;
    attempts = 0;
    max_attempts = max_attempts;
    source = source;
    last_message = "";
    created_at = now;
    updated_at = now;
  }

put-fresh :
    (k : String) (t : ScheduledTask) (s : Store)
    → has k s ≡ false
    → values (put k t s) ≡ values s ++ t ∷ []
unfolding has put
put-fresh k t [] h = refl
put-fresh k t ((j, x) ∷ s) h = ground (arith, h, put-fresh k t s)

last-first : {A : Type 0} (xs : List A) (x : A) → Perm (xs ++ x ∷ []) (x ∷ xs)
last-first [] x = Perm.refl (x ∷ [])
last-first (y ∷ ys) x = Perm.trans (Perm.cons y (last-first ys x)) (Perm.swap x y ys)

keep-all : {A : Type 0} (xs : List A) → keep (λ _. true) xs ≡ xs
keep-all [] = refl
keep-all (x ∷ xs) = ground (arith, keep-all xs)

all_listed : (s : Store) → Perm (list none s) (values s)
all_listed s =
    subst (λ tasks. Perm (list none s) tasks) (keep-all (values s)) (list-InOrder none s).1

one_more :
    (k : String) (t : ScheduledTask) (s : Store)
    → has k s ≡ false
    → Perm (list none (put k t s)) (t ∷ list none s)
one_more k t s h =
    let more : Perm (values (put k t s)) (t ∷ values s) =
      subst (λ tasks. Perm tasks (t ∷ values s)) (sym (put-fresh k t s h))
        (last-first (values s) t) in
    Perm.trans (all_listed (put k t s)) (Perm.trans more (Perm.cons t (Perm.symm (all_listed s))))

-- In a well-formed store, with a positive limit of attempts and an id that is not taken, `enqueue`
-- stores this task under the id: with the given objective, priority, source and limit, in the given
-- thread or in one named for the id if none or an empty one is given, queued, with no attempt made, of
-- now. The listing of all tasks has exactly one more, this one, nothing under other ids is touched, and
-- the store stays well-formed. With a limit of zero it does nothing.
pub enqueue_lem :
    (uuid : String) (now : ℕ) (objective : String) (priority : ℤ) (max_attempts : ℕ)
    (source : String) (thread_id : Option String) (s : Store)
    → IsStore s
    → has uuid s ≡ false
    → 0 < max_attempts
    → (let task = new_task uuid now objective priority max_attempts source thread_id s in
        (s' : Store) × (enqueue uuid now objective priority max_attempts source thread_id s
          ≡ some (task, s'))
        × Perm (list none s') (task ∷ list none s)
        × ((j : String) → get j s' ≡ (if uuid == j then some task else get j s))
        × IsStore s'
        × (enqueue uuid now objective priority 0 source thread_id s ≡ none))
unfolding enqueue save_task
enqueue_lem uuid now objective priority max_attempts source thread_id s v fresh h =
    let task = new_task uuid now objective priority max_attempts source thread_id s in
    (
      save_task task s,
      ground arith,
      one_more uuid task s fresh,
      λ j. get-put uuid j task s,
      save_task-IsStore task s v,
      refl,
    )
