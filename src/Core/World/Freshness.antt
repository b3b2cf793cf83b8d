-- ===== src/Core/World/Freshness.antt =====
-- Which objects an observation leaves in the world (robot_brain/core/world_state.py).
use robot_brain.Prelude.{
  ℕ, ◌≡◌, refl, Bool, false, String, Option, none, some, List, [], ◌∷◌, arith, string_eq,
  if◌then◌else◌, contains, ◌==◌, true, ap, ◌∙◌, inl, inr, Option-cases,
}
use robot_brain.Prelude.{sub_ℕ}
use robot_brain.Prelude.Dict.{
  Dict, get, remove, IsDict, get-remove, get-has, put-IsDict, put, get-put,
}
use robot_brain.Core.Builtins.{Builtins}
use robot_brain.Core.World.{
  DetectedObject, Observation, WorldState, remove_all, is_stale, stale_ids, expire_stale_objects,
  see, apply_observation,
}

get-remove_all {ℓ} :
    {V : Type ℓ} (k : String) (ks : List String) (d : Dict String V)
    → get k (remove_all ks d) ≡ (if contains ks k then none else get k d)
unfolding remove_all
get-remove_all k [] d = refl
get-remove_all k (j ∷ ks) d = ground (arith, get-remove j k d, get-remove_all k ks (remove j d))

module _ {B : Builtins} where
  -- Was the object never seen, or at least `ttl` seconds ago?
  abbrev pub was_lost : B.Float → ℕ → DetectedObject B → Bool
  was_lost ttl now item = elim item.last_seen_at [
    | none ↦ true
    | some seen ↦ B.le ttl (B.total_seconds (sub_ℕ now seen))
  ]

  abbrev pub unless_lost : B.Float → ℕ → Option (DetectedObject B) → Option (DetectedObject B)
  unless_lost ttl now none = none
  unless_lost ttl now (some item) = if was_lost ttl now item then none else some item

  -- The last item with an id.
  abbrev pub last_with : String → List (DetectedObject B) → Option (DetectedObject B)
  last_with k [] = none
  last_with k (item ∷ items) = elim (last_with k items) [
    | none ↦ if item.object_id == k then some item else none
    | some later ↦ some later
  ]

  -- An item that has been perceived now, or else what was known.
  abbrev pub perceived_or :
      ℕ → Option (DetectedObject B) → Option (DetectedObject B) → Option (DetectedObject B)
  perceived_or now none known = known
  perceived_or now (some item) known = some (record item { last_seen_at = some now })

  abbrev stale? : B.Float → ℕ → Option (DetectedObject B) → Bool
  stale? ttl now none = false
  stale? ttl now (some item) = is_stale ttl now item

  contains-stale_ids :
      (ttl : B.Float) (now : ℕ) (k : String) (d : Dict String (DetectedObject B))
      → IsDict d
      → contains (stale_ids ttl now d) k ≡ stale? ttl now (get k d)
  unfolding stale_ids get
  contains-stale_ids ttl now k [] u = refl
  contains-stale_ids ttl now k ((j, item) ∷ d) u =
      ground (arith, contains-stale_ids ttl now k d u.1, get-has j d u.0, string_eq.beq_iff j k)

  see-IsDict :
      (at : ℕ) (items : List (DetectedObject B)) (d : Dict String (DetectedObject B))
      → IsDict d
      → IsDict (see at items d)
  unfolding see
  see-IsDict at [] d u = u
  see-IsDict at (item ∷ items) d u = see-IsDict at items _ (put-IsDict item.object_id _ d u)

  get-see :
      (now : ℕ) (k : String) (items : List (DetectedObject B)) (d : Dict String (DetectedObject B))
      → get k (see now items d) ≡ perceived_or now (last_with k items) (get k d)
  unfolding see
  get-see now k [] d = refl
  get-see now k (item ∷ items) d = elim (Option-cases (last_with k items)) [
    | inl e ↦ ground (
      arith,
      e,
      get-see now k items (put item.object_id (record item { last_seen_at = some now }) d),
      get-put item.object_id k (record item { last_seen_at = some now }) d,
    )
    | inr (later, e) ↦ ground (
      arith,
      e,
      get-see now k items (put item.object_id (record item { last_seen_at = some now }) d),
    )
  ]

  is_stale-was_lost :
      (ttl : B.Float) (now : ℕ) (item : DetectedObject B)
      → is_stale ttl now item ≡ was_lost ttl now item
  unfolding is_stale
  is_stale-was_lost ttl now item = refl

  unless_stale-lost :
      (ttl : B.Float) (now : ℕ) (known : Option (DetectedObject B))
      → (if stale? ttl now known then none else known) ≡ unless_lost ttl now known
  unless_stale-lost ttl now none = refl
  unless_stale-lost ttl now (some item) = rw (is_stale-was_lost ttl now item) refl

  -- In a world that stores no object twice, an observation with a time to live leaves this under each
  -- id: the last item of the observation with the id, as seen at the time of the observation, or what
  -- was known if there is none; and nothing if that was never seen, or so long before the observation
  -- that the time to live has passed.
  pub get-apply_observation :
      (o : Observation B) (ttl : B.Float) (w : WorldState B) (k : String)
      → IsDict w.known_objects
      → get k (apply_observation o (some ttl) w).known_objects
        ≡ unless_lost ttl o.observed_at
            (perceived_or o.observed_at (last_with k o.detected_objects) (get k w.known_objects))
  unfolding apply_observation expire_stale_objects
  get-apply_observation o ttl w k u =
      let d = see o.observed_at o.detected_objects w.known_objects in
      get-remove_all k (stale_ids ttl o.observed_at d) d
      ∙ (ap (λ b. if b then none else get k d)
            (contains-stale_ids ttl o.observed_at k d
              (see-IsDict o.observed_at o.detected_objects w.known_objects u))
          ∙ (unless_stale-lost ttl o.observed_at (get k d)
              ∙ ap (unless_lost ttl o.observed_at)
                  (get-see o.observed_at k o.detected_objects w.known_objects)))
