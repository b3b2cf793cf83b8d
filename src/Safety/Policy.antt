-- ===== src/Safety/Policy.antt =====
-- robot_brain/safety/policy.py, with the metadata of robot_brain/tools/base.py.
use robot_brain.Prelude.{
  Bool, true, false, not, ◌||◌, ◌&&◌, ◌&◌, String, Option, none, some, List, [], ◌∷◌, string_eq,
  if◌then◌else◌, contains,
}
use robot_brain.Core.Builtins.{Builtins}
use robot_brain.Core.Errors.{
  ErrorCode, safety_not_whitelisted, safety_estop_active, safety_battery_critical,
  safety_confirmation_required,
}
use robot_brain.Core.World.{WorldState}
use robot_brain.Core.Settings.{Settings}

pub data RiskLevel : Type 0 where
  read_only low medium high critical : RiskLevel

-- The `NONE` of the source is `no_motion`.
pub data MotionKind : Type 0 where
  no_motion stop linear yaw posture : MotionKind

pub record CapabilityMetadata : Type 0 where
  pub risk_level : RiskLevel
  pub motion_kind : MotionKind
  pub requires_confirmation : Bool
  pub backend_allowlist : Option (List String)
  pub planner_visible : Bool

pub record PolicyDecision : Type 0 where
  pub allowed : Bool
  pub reason : String
  pub error_code : Option ErrorCode
  pub requires_confirmation : Bool

abbrev pub is_stop : MotionKind → Bool
is_stop stop = true
is_stop _ = false

abbrev pub is_no_motion : MotionKind → Bool
is_no_motion no_motion = true
is_no_motion _ = false

abbrev pub is_read_only : RiskLevel → Bool
is_read_only read_only = true
is_read_only _ = false

abbrev pub allow : PolicyDecision
allow = record { allowed = true; reason = ""; error_code = none; requires_confirmation = false }

abbrev pub deny : String → ErrorCode → PolicyDecision
deny reason code = record {
  allowed = false;
  reason = reason;
  error_code = some code;
  requires_confirmation = false;
}

-- `str(list(texts))`: each text in quotes, parted by a comma and a blank. Names of backends hold no
-- quote or backslash, which Python would escape.
unfoldable pub show_texts : List String → String
show_texts [] = ""
show_texts (t ∷ ts) = elim ts [ [] ↦ "'" & (t & "'") | _ ↦ "'" & (t & ("', " & show_texts ts)) ]

-- `none` in the allowlist means that every backend will do.
abbrev pub allows_backend : Option (List String) → String → Bool
allows_backend none backend = true
allows_backend (some backends) backend = contains backends backend

unfoldable pub check_backend : CapabilityMetadata → String → PolicyDecision
check_backend metadata backend =
    if allows_backend metadata.backend_allowlist backend
    then allow
    else deny
        ("capability unsupported on backend '"
          & (backend
              & ("' (allowlist: ["
                  & (elim metadata.backend_allowlist [ none ↦ "" | some l ↦ show_texts l ]
                      & "])"))))
        safety_not_whitelisted

unfoldable pub check_confirmation : CapabilityMetadata → Bool → PolicyDecision
check_confirmation metadata confirmation_granted =
    if metadata.requires_confirmation && not confirmation_granted
    then record {
      allowed = false;
      reason = "capability requires operator confirmation";
      error_code = some safety_confirmation_required;
      requires_confirmation = true;
    }
    else allow

-- The loop of `evaluate`: the first denial, or leave.
abbrev pub first_denial : List PolicyDecision → PolicyDecision
first_denial [] = allow
first_denial (d ∷ ds) = if not d.allowed then d else first_denial ds

module _ {B : Builtins} where
  unfoldable pub check_state : Settings B → CapabilityMetadata → WorldState B → PolicyDecision
  check_state settings metadata world =
      if world.estop_active
        && not (is_stop metadata.motion_kind)
        && not (is_read_only metadata.risk_level)
      then deny "emergency stop is active" safety_estop_active
      else (if B.le world.battery_level settings.critical_battery_threshold
            && not (is_stop metadata.motion_kind || is_no_motion metadata.motion_kind)
            && not (is_read_only metadata.risk_level)
          then deny "critical battery only permits stop, dock, or report" safety_battery_critical
          else allow)

  unfoldable pub evaluate :
      Settings B → CapabilityMetadata → WorldState B → String → Bool → PolicyDecision
  unfolding check_backend check_state check_confirmation
  evaluate settings metadata world backend confirmation_granted = first_denial (
      check_backend metadata backend
      ∷ check_state settings metadata world
      ∷ check_confirmation metadata confirmation_granted
      ∷ [])
