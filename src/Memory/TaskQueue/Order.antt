-- ===== src/Memory/TaskQueue/Order.antt =====
-- The order in which tasks are listed and taken (robot_brain/memory/task_queue.py).
use robot_brain.Prelude.{
  ◌≡◌, ◌≢◌, true, ◌||◌, String, Option, none, some, List, [], ◌∷◌, arith, string_eq, keep, any, All,
  head?, ltb_ℤ, beq_ℤ_iff, ◌⊎◌, inl, inr, ◌<◌, ltb, Bool-cases, contains, refl, subst, Bool,
}
use mathlib.Core.List.{Perm}
use robot_brain.Prelude.Dict.{get, values}
use robot_brain.Prelude.Sort.{
  IsSorted, sorted-IsSorted, sorted-perm, InOrder, IsSorted-InOrder, text_le, text_le_total,
  text_le_trans,
}
use robot_brain.Core.Tasks.{ScheduledTask, TaskStatus, queued, status_eq}
use robot_brain.Memory.TaskQueue.{Store, list_tasks, list, selected, task_le, next_queued}
use robot_brain.Memory.TaskQueue.Listing.{
  IsStore, IsStored, list-IsStored, any-list, has_id, holds, All-keep_test, All-sorted,
}

task_le_total : (a b : ScheduledTask) → (task_le a b || task_le b a) ≡ true
unfolding task_le
task_le_total a b = ground (arith, text_le_total a.task_id b.task_id)

task_le_trans :
    (a b c : ScheduledTask) → task_le a b ≡ true → task_le b c ≡ true → task_le a c ≡ true
unfolding task_le
task_le_trans a b c h k = ground (arith, text_le_trans a.task_id b.task_id c.task_id)

-- A task comes before another: it has the higher priority, or the same one and was created earlier, or
-- at the same time and its id is not the greater text.
abbrev pub Before : ScheduledTask → ScheduledTask → Type 0
Before a b =
    (ltb_ℤ b.priority a.priority ≡ true)
    ⊎ ((a.priority ≡ b.priority)
        × ((a.created_at < b.created_at)
            ⊎ ((a.created_at ≡ b.created_at) × (text_le a.task_id b.task_id ≡ true))))

task_le-Before : (a b : ScheduledTask) → task_le a b ≡ true → Before a b
unfolding task_le
task_le-Before a b h = elim (Bool-cases (ltb_ℤ b.priority a.priority)) [
  | inl e ↦ inl e
  | inr e ↦
      let same = (beq_ℤ_iff a.priority b.priority).0 (ground (arith, e, h)) in
      elim (Bool-cases (ltb a.created_at b.created_at)) [
        | inl f ↦ inr (same, inl (ground (arith, f)))
        | inr f ↦ inr (same, inr (ground (arith, e, f, h), ground (arith, e, f, h)))
      ]
]

-- The statuses name this one, or there are none to choose by.
abbrev pub is_wanted : Option (List TaskStatus) → TaskStatus → Bool
is_wanted none status = true
is_wanted (some statuses) status = contains statuses status

selected-is_wanted :
    (statuses : Option (List TaskStatus)) (tasks : List ScheduledTask)
    → keep (selected statuses) tasks ≡ keep (λ t. is_wanted statuses t.status) tasks
selected-is_wanted none tasks = refl
selected-is_wanted (some statuses) tasks = refl

-- `list` returns the stored tasks of the wanted statuses, each as often as it is stored, by falling
-- priority, then by time of creation, then by id.
pub list-InOrder :
    (statuses : Option (List TaskStatus)) (s : Store)
    → InOrder Before (list statuses s)
      × Perm (list statuses s) (keep (λ t. is_wanted statuses t.status) (values s))
unfolding list list_tasks
list-InOrder statuses s = (
  IsSorted-InOrder task_le Before task_le-Before (list statuses s)
      (sorted-IsSorted task_le task_le_total task_le_trans _),
  subst (λ tasks. Perm (list statuses s) tasks) (selected-is_wanted statuses (values s))
      (sorted-perm task_le _),
)

list-IsSorted :
    (statuses : Option (List TaskStatus)) (s : Store) → IsSorted task_le (list statuses s)
unfolding list
list-IsSorted statuses s = sorted-IsSorted task_le task_le_total task_le_trans _

task_le_refl : (a : ScheduledTask) → task_le a a ≡ true
task_le_refl a = ground (arith, task_le_total a a)

-- An element that some test singles out is at least the head of a sorted list.
head-least :
    (j : String) (b : ScheduledTask) (xs : List ScheduledTask) (t : ScheduledTask) (s : Store)
    → get j s ≡ some t
    → All (IsStored s) (b ∷ xs)
    → All (λ y. task_le b y ≡ true) xs
    → any (has_id j) (b ∷ xs) ≡ true
    → task_le b t ≡ true
head-least j b [] t s e st le h = ground (arith, string_eq.beq_iff b.task_id j, task_le_refl b)
head-least j b (x ∷ xs) t s e st le h = ground (
  arith,
  string_eq.beq_iff b.task_id j,
  string_eq.beq_iff x.task_id j,
  task_le_refl b,
  head-least j b xs t s e,
)

-- What `next_queued` promises of its result.
abbrev pub Chosen : Store → Option ScheduledTask → Type 0
Chosen s none = (j : String) (t : ScheduledTask) → get j s ≡ some t → t.status ≢ queued
Chosen s (some b) =
    (get b.task_id s ≡ some b)
    × (b.status ≡ queued)
    × ((j : String) (t : ScheduledTask) → get j s ≡ some t → t.status ≡ queued → task_le b t ≡ true)

Chosen-head :
    (s : Store) (xs : List ScheduledTask)
    → IsSorted task_le xs
    → All (IsStored s) xs
    → All (λ t. selected (some (queued ∷ [])) t ≡ true) xs
    → ((j : String) → any (has_id j) xs ≡ holds (selected (some (queued ∷ []))) (get j s))
    → Chosen s (head? xs)
Chosen-head s [] sr st q a = λ j t e h. ground (arith, a j)
Chosen-head s (b ∷ xs) sr st q a =
    (st.0, ground arith, λ j t e h. head-least j b xs t s e st sr.0 (ground (arith, a j)))

-- In a well-formed store, `next_queued` returns a stored queued task that no queued task precedes,
-- and `none` only if no stored task is queued.
pub next_queued_lem : (s : Store) → IsStore s → Chosen s (next_queued s)
unfolding next_queued list
next_queued_lem s v =
    Chosen-head s (list (some (queued ∷ [])) s) (list-IsSorted (some (queued ∷ [])) s)
      (list-IsStored (some (queued ∷ [])) s v)
      (All-sorted _ task_le _ (All-keep_test (selected (some (queued ∷ []))) (list_tasks s)))
      (any-list (some (queued ∷ [])) s v)
