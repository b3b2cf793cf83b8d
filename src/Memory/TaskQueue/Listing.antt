-- ===== src/Memory/TaskQueue/Listing.antt =====
-- What a listing of the store holds, and what the loop over a listing leaves in the
-- store (robot_brain/memory/task_queue.py).
use robot_brain.Prelude.{
  ℕ, ◌≡◌, refl, inl, inr, ◌∙◌, Bool, true, false, ◌||◌, String, Option, none, some, List, [], ◌∷◌,
  arith, ◌==◌, string_eq, if◌then◌else◌, keep, any, All, Bool-cases,
}
use robot_brain.Prelude.Dict.{get, put, values, has, IsDict, get-put, get-has}
use robot_brain.Prelude.Sort.{sorted, insort}
use robot_brain.Core.Tasks.{ScheduledTask, TaskStatus}
use robot_brain.Memory.TaskQueue.{
  Store, Changes, updated, update, update_each, save_task, list_tasks, list, selected, task_le,
}
use mathlib.Core.Option

-- Every task is stored under its own id, and no id twice.
abbrev pub Keyed : Store → Type 0
Keyed [] = Unit
Keyed ((k, t) ∷ d) = (t.task_id ≡ k) × Keyed d

pub record IsStore (s : Store) : Type 0 where
  pub unique : IsDict s
  pub keyed : Keyed s

abbrev pub has_id : String → ScheduledTask → Bool
has_id j t = t.task_id == j

module _ {ℓ} {A : Type ℓ} where
  any-insort :
      (le : A → A → Bool) (p : A → Bool) (x : A) (xs : List A)
      → any p (insort le x xs) ≡ (p x || any p xs)
  unfolding insort
  any-insort le p x [] = refl
  any-insort le p x (y ∷ ys) = ground (arith, any-insort le p x ys)

  pub any-sorted :
      (le : A → A → Bool) (p : A → Bool) (xs : List A) → any p (sorted le xs) ≡ any p xs
  unfolding sorted
  any-sorted le p [] = refl
  any-sorted le p (x ∷ xs) = ground (arith, any-insort le p x (sorted le xs), any-sorted le p xs)

  module _ (P : A → Type 0) where
    All-of-insort :
        (le : A → A → Bool) (x : A) (xs : List A) → All P (insort le x xs) → P x × All P xs
    unfolding insort
    All-of-insort le x [] h = h
    All-of-insort le x (y ∷ ys) h = elim (Bool-cases (le x y)) [
      | inl e ↦ rw (e, insort) at h
      | inr e ↦
          let h' : P y × All P (insort le x ys) = rw (e, insort) at h in
          let r : P x × All P ys = All-of-insort le x ys h'.1 in (r.0, (h'.0, r.1))
    ]

    pub All-of-sorted : (le : A → A → Bool) (xs : List A) → All P (sorted le xs) → All P xs
    unfolding sorted
    All-of-sorted le [] h = tt
    All-of-sorted le (x ∷ xs) h =
        let r : P x × All P (sorted le xs) = All-of-insort le x (sorted le xs) h in
        (r.0, All-of-sorted le xs r.1)

    All-insort : (le : A → A → Bool) (x : A) (xs : List A) → P x → All P xs → All P (insort le x xs)
    unfolding insort
    All-insort le x [] h hs = (h, tt)
    All-insort le x (y ∷ ys) h hs = elim (Bool-cases (le x y)) [
      | inl e ↦ rw e (h, hs)
      | inr e ↦ rw e (hs.0, All-insort le x ys h hs.1)
    ]

    pub All-sorted : (le : A → A → Bool) (xs : List A) → All P xs → All P (sorted le xs)
    unfolding sorted
    All-sorted le [] h = tt
    All-sorted le (x ∷ xs) h = All-insort le x (sorted le xs) h.0 (All-sorted le xs h.1)

    pub All-keep : (p : A → Bool) (xs : List A) → All P xs → All P (keep p xs)
    All-keep p [] h = tt
    All-keep p (x ∷ xs) h = elim (Bool-cases (p x)) [
      | inl e ↦ rw e (h.0, All-keep p xs h.1)
      | inr e ↦ rw e (All-keep p xs h.1)
    ]

  pub All-keep_test : (p : A → Bool) (xs : List A) → All (λ x. p x ≡ true) (keep p xs)
  All-keep_test p [] = tt
  All-keep_test p (x ∷ xs) = elim (Bool-cases (p x)) [
    | inl e ↦ rw e (e, All-keep_test p xs)
    | inr e ↦ rw e (All-keep_test p xs)
  ]

-- The test of an optional task.
abbrev pub holds : (ScheduledTask → Bool) → Option ScheduledTask → Bool
holds p none = false
holds p (some t) = p t

-- An id is listed under a test exactly when it is stored and its task passes.
any-keep-values :
    (p : ScheduledTask → Bool) (j : String) (s : Store)
    → IsDict s
    → Keyed s
    → any (has_id j) (keep p (values s)) ≡ holds p (get j s)
unfolding get
any-keep-values p j [] u k = refl
any-keep-values p j ((i, t) ∷ s) u k = elim (Bool-cases (i == j)) [
  | inl e ↦ ground (
    arith,
    any-keep-values p j s u.1 k.1,
    get-has i s u.0,
    string_eq.beq_iff i j,
    string_eq.beq_iff t.task_id j,
  )
  | inr e ↦
      ground
        (arith, any-keep-values p j s u.1 k.1, string_eq.beq_iff i j, string_eq.beq_iff t.task_id j)
]

pub All-imp₂ {ℓ} :
    {A : Type ℓ} {P Q R : A → Type 0} (xs : List A)
    → ((x : A) → P x → Q x → R x)
    → All P xs
    → All Q xs
    → All R xs
All-imp₂ [] f h k = tt
All-imp₂ (x ∷ xs) f h k = (f x h.0 k.0, All-imp₂ xs f h.1 k.1)

All-has :
    (i : String) (s : Store)
    → has i s ≡ false
    → Keyed s
    → All (λ t. (i == t.task_id) ≡ false) (values s)
unfolding has
All-has i [] h k = tt
All-has i ((j, t) ∷ s) h k = (
  ground
      (arith, string_eq.beq_iff i t.task_id, string_eq.beq_iff j i, string_eq.beq_iff t.task_id j),
  All-has i s (ground arith) k.1,
)

abbrev pub IsStored : Store → ScheduledTask → Type 0
IsStored s t = get t.task_id s ≡ some t

IsStored-later :
    (i : String) (t : ScheduledTask) (s : Store) (x : ScheduledTask)
    → (i == x.task_id) ≡ false
    → IsStored s x
    → IsStored ((i, t) ∷ s) x
unfolding get
IsStored-later i t s x h k = rw (h, get) k

-- Every value of the dictionary is the one stored under its id.
All-values : (s : Store) → IsDict s → Keyed s → All (IsStored s) (values s)
unfolding get
All-values [] u k = tt
All-values ((i, t) ∷ s) u k = (
  ground (arith, string_eq.beq_iff i t.task_id),
  All-imp₂ (values s) (IsStored-later i t s) (All-has i s u.0 k.1) (All-values s u.1 k.1),
)

module _ (statuses : Option (List TaskStatus)) (s : Store) (v : IsStore s) where
  pub any-list :
      (j : String) → any (has_id j) (list statuses s) ≡ holds (selected statuses) (get j s)
  unfolding list list_tasks
  any-list j =
      any-sorted task_le (has_id j) (keep (selected statuses) (values s))
      ∙ any-keep-values (selected statuses) j s v.unique v.keyed

  pub list-IsStored : All (IsStored s) (list statuses s)
  unfolding list list_tasks
  list-IsStored =
      All-sorted (IsStored s) task_le _
        (All-keep (IsStored s) (selected statuses) _ (All-values s v.unique v.keyed))

module _ (now : ℕ) (changes : Changes) (s : Store) where
  -- The loop of `update` over tasks of the store `s`, begun in a store `r`.
  get-update_each :
      (j : String) (xs : List ScheduledTask) (r : Store)
      → All (IsStored s) xs
      → get j (update_each now changes xs r).1
        ≡ (if any (has_id j) xs then Option.map (updated now changes) (get j s) else get j r)
  unfolding update_each update save_task updated
  get-update_each j [] r h = refl
  get-update_each j (x ∷ xs) r h = ground (
    arith,
    get-update_each j xs (put x.task_id (updated now changes x) r) h.1,
    get-put x.task_id j (updated now changes x) r,
    string_eq.beq_iff x.task_id j,
    h.0,
  )

-- What the three loops do to each stored task.
pub get-update_each-list :
    (now : ℕ) (changes : Changes) (statuses : Option (List TaskStatus)) (s : Store) (j : String)
    → IsStore s
    → get j (update_each now changes (list statuses s) s).1
      ≡ Option.map (λ t. if selected statuses t then updated now changes t else t) (get j s)
get-update_each-list now changes statuses s j v = ground (
  arith,
  get-update_each now changes s j (list statuses s) s (list-IsStored statuses s v),
  any-list statuses s v j,
)
