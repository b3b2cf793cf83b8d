-- ===== src/Tests/SafetyRuns.antt =====
-- The validator, the motion checks and the observations at concrete inputs.
use robot_brain.Prelude.{
  ℕ, ◌≡◌, refl, ltb, some, none, true, false, List, [], ◌∷◌, arith, string_eq,
}
use robot_brain.Prelude.Dict.{get}
use robot_brain.Core.Results.{ok}
use robot_brain.Core.Errors.{safety_confirmation_required}
use robot_brain.Core.World.{Position, DetectedObject, Observation, apply_observation}
use robot_brain.Core.World.Freshness.{get-apply_observation}
use robot_brain.Core.Calls.{Params, number, points}
use robot_brain.Safety.Motion.{
  validate_backend, validate_motion, patrol_motion, patrol_steps, passes,
}
use robot_brain.Safety.Motion.Bounds.{validate_motion_patrol, Hops}
use robot_brain.Safety.Validator.{
  ValidationResult, validate, accept, backend_stage, state_stage, confirmation_stage,
}
use robot_brain.Safety.Skills.{Skill}
use robot_brain.Safety.Gate.{
  Legal, needs_confirmation, validate_sound, validate_complete, validate_asks,
}
use robot_brain.Tests.Samples.{
  naturals, settings_sample, skills_sample, quiet_world, call_of, wave_skill, origin, nothing_seen,
}

abbrev wave_question : ValidationResult naturals
wave_question = record {
  allowed = false;
  reason = "wave requires operator confirmation";
  error_code = some safety_confirmation_required;
  requires_confirmation = true;
  normalized_parameters = [];
}

wave_granted :
    validate settings_sample skills_sample (call_of "wave") quiet_world 1 true ≡ ok (accept [])
unfolding validate get backend_stage validate_backend state_stage validate_motion confirmation_stage
wave_granted = refl

wave_asked :
    validate settings_sample skills_sample (call_of "wave") quiet_world 1 false ≡ ok wave_question
unfolding validate get backend_stage validate_backend state_stage validate_motion confirmation_stage
wave_asked = refl

validate_sound_example :
    (skill : Skill naturals ℕ) × (get "wave" skills_sample ≡ some skill)
    × Legal settings_sample skill (call_of "wave") quiet_world 1 []
    × (needs_confirmation settings_sample skill.capability_metadata "wave" ≡ true → true ≡ true)
validate_sound_example =
    validate_sound settings_sample skills_sample (call_of "wave") quiet_world 1 true (accept [])
      wave_granted refl

wave_found : get "wave" skills_sample ≡ some wave_skill
unfolding get
wave_found = refl

wave_Legal : Legal settings_sample wave_skill (call_of "wave") quiet_world 1 []
unfolding validate_motion
wave_Legal = record {
  backend = refl;
  parsed = refl;
  estop = λ e. ground (arith, e);
  battery = λ e. ground (arith, e);
  ready = refl;
  motion = refl;
}

validate_complete_example :
    validate settings_sample skills_sample (call_of "wave") quiet_world 1 true ≡ ok (accept [])
validate_complete_example =
    validate_complete settings_sample skills_sample (call_of "wave") quiet_world 1 true wave_skill
      [] wave_found wave_Legal (λ _. refl)

validate_asks_example :
    (false ≡ false)
    × (validate settings_sample skills_sample (call_of "wave") quiet_world 1 true ≡ ok (accept []))
validate_asks_example =
    validate_asks settings_sample skills_sample (call_of "wave") quiet_world 1 false wave_question
      wave_asked refl

abbrev patrol_params : Params naturals
patrol_params = ("speed", number 3) ∷ ("waypoints", points (origin ∷ origin ∷ [])) ∷ []

patrol_passes : validate_motion settings_sample "patrol" patrol_params 1 quiet_world ≡ passes
unfolding validate_motion patrol_motion patrol_steps get
patrol_passes = refl

validate_motion_patrol_example :
    (speed : ℕ) × (waypoints : List (Position naturals)) × (get "speed" patrol_params
      ≡ some (number speed))
    × (get "waypoints" patrol_params ≡ some (points waypoints))
    × (ltb 5 speed ≡ false)
    × Hops settings_sample origin waypoints
validate_motion_patrol_example =
    validate_motion_patrol settings_sample patrol_params 1 quiet_world patrol_passes

abbrev cup : DetectedObject naturals
cup = record {
  object_id = "cup";
  kind = "cup";
  position = origin;
  confidence = 1;
  last_seen_at = none;
}

abbrev cup_seen : Observation naturals
cup_seen = record nothing_seen { detected_objects = cup ∷ [] }

get-apply_observation_example :
    get "cup" (apply_observation cup_seen (some 60) quiet_world).known_objects
    ≡ some (record cup { last_seen_at = some 1 })
get-apply_observation_example = get-apply_observation cup_seen 60 quiet_world "cup" tt
