-- ===== src/Core/World.antt =====
-- robot_brain/core/world_state.py, with the `Observation` of perception/base.py and the self-state of
-- core/robot_self_state.py. Times are microseconds since the epoch. Fields that no modelled code
-- reads (attributes of objects, velocity, IMU, odometry and ultrasonic readings, the passability
-- hint) are left out.
pub mod Freshness
use robot_brain.Prelude.{
  ℕ, Bool, true, false, not, ◌||◌, ◌&&◌, String, Option, none, some, List, [], ◌∷◌, ℤ, sub_ℕ, pos,
  string_eq, if◌then◌else◌, keep, ◌==◌,
}
use robot_brain.Prelude.Dict.{Dict, get, put, remove, keys}
use robot_brain.Core.Builtins.{Builtins}

pub record Position (B : Builtins) : Type 0 where
  pub x : B.Float
  pub y : B.Float

pub record DetectedObject (B : Builtins) : Type 0 where
  pub object_id : String
  pub kind : String
  pub position : Position B
  pub confidence : B.Float
  pub last_seen_at : Option ℕ

pub data ProgressStatus : Type 0 where
  idle running paused completed failed : ProgressStatus

pub record TaskProgress : Type 0 where
  pub objective : String
  pub status : ProgressStatus
  pub completed_skills : List String
  pub last_message : String

pub record RobotSelfState (B : Builtins) : Type 0 where
  pub source : String
  pub is_standing : Option Bool
  pub is_moving : Option Bool
  pub sport_mode : Option ℤ
  pub error_code : Option ℤ
  pub state_age_seconds : Option B.Float

pub record WorldState (B : Builtins) : Type 0 where
  pub position : Position B
  pub heading_degrees : B.Float
  pub battery_level : B.Float
  pub payload : Option String
  pub known_objects : Dict String (DetectedObject B)
  pub alerts : List String
  pub current_task : Option TaskProgress
  pub estop_active : Bool
  pub robot_self_state : Option (RobotSelfState B)

pub record Observation (B : Builtins) : Type 0 where
  pub observed_at : ℕ
  pub position : Option (Position B)
  pub heading_degrees : Option B.Float
  pub battery_level : Option B.Float
  pub payload : Option String
  pub detected_objects : List (DetectedObject B)
  pub alerts : List String
  pub self_state : Option (RobotSelfState B)

abbrev pub or_else {ℓ} : {A : Type ℓ} → Option A → A → A
or_else none default = default
or_else (some a) default = a

abbrev pub or_keep {ℓ} : {A : Type ℓ} → Option A → Option A → Option A
or_keep none old = old
or_keep (some a) old = some a

-- `list(dict.fromkeys(xs))`: each text once, at its first place.
unfoldable pub from_keys : List String → Dict String (Unit {0}) → Dict String (Unit {0})
from_keys [] d = d
from_keys (x ∷ xs) d = from_keys xs (put x tt d)

-- `for k in ks: del d[k]`
unfoldable pub remove_all {ℓ} : {V : Type ℓ} → List String → Dict String V → Dict String V
remove_all [] d = d
remove_all (k ∷ ks) d = remove_all ks (remove k d)

module _ {B : Builtins} where
  unfoldable pub distance_to : Position B → Position B → B.Float
  distance_to a b = B.root (B.add (B.square (B.sub a.x b.x)) (B.square (B.sub a.y b.y)))

  -- `(now - seen).total_seconds() >= ttl`, and the loss of an object that was never seen.
  unfoldable pub is_stale : B.Float → ℕ → DetectedObject B → Bool
  is_stale ttl_seconds now item = elim item.last_seen_at [
    | none ↦ true
    | some seen ↦ B.le ttl_seconds (B.total_seconds (sub_ℕ now seen))
  ]

  unfoldable pub stale_ids : B.Float → ℕ → Dict String (DetectedObject B) → List String
  unfolding is_stale
  stale_ids ttl_seconds now [] = []
  stale_ids ttl_seconds now ((object_id, item) ∷ d) =
      if is_stale ttl_seconds now item
      then object_id ∷ stale_ids ttl_seconds now d
      else stale_ids ttl_seconds now d

  unfoldable pub expire_stale_objects : B.Float → ℕ → WorldState B → List String × WorldState B
  unfolding stale_ids remove_all
  expire_stale_objects ttl_seconds now world =
      let expired = stale_ids ttl_seconds now world.known_objects in
      (expired, record world { known_objects = remove_all expired world.known_objects })

  unfoldable pub see :
      ℕ → List (DetectedObject B) → Dict String (DetectedObject B) → Dict String (DetectedObject B)
  see observed_at [] known = known
  see observed_at (item ∷ items) known =
      see observed_at items
        (put item.object_id (record item { last_seen_at = some observed_at }) known)

  unfoldable pub apply_observation : Observation B → Option B.Float → WorldState B → WorldState B
  unfolding see expire_stale_objects from_keys
  apply_observation observation object_ttl_seconds world =
      let seen : WorldState B = record world {
        position = or_else observation.position world.position;
        heading_degrees = or_else observation.heading_degrees world.heading_degrees;
        battery_level = or_else observation.battery_level world.battery_level;
        payload = or_keep observation.payload world.payload;
        robot_self_state = or_keep observation.self_state world.robot_self_state;
        known_objects =
            see observation.observed_at observation.detected_objects world.known_objects;
      } in
      let kept : WorldState B = elim object_ttl_seconds [
        | none ↦ seen
        | some ttl ↦ (expire_stale_objects ttl observation.observed_at seen).1
      ] in
      record kept { alerts = keys (from_keys observation.alerts []) }

  -- A missing or never seen object is not fresh; otherwise `(now - seen).total_seconds() < ttl`.
  unfoldable pub is_object_fresh : String → B.Float → ℕ → WorldState B → Bool
  is_object_fresh object_id ttl_seconds now world = elim (get object_id world.known_objects) [
    | none ↦ false
    | some item ↦ elim item.last_seen_at [
      | none ↦ false
      | some seen ↦ B.lt (B.total_seconds (sub_ℕ now seen)) ttl_seconds
    ]
  ]
