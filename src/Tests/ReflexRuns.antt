-- ===== src/Tests/ReflexRuns.antt =====
-- The reflexes and the filter of the planned calls at concrete inputs.
use robot_brain.Prelude.{
  ◌+◌, ◌≡◌, refl, some, none, true, false, [], ◌∷◌, arith, string_eq, pos, head?, keep, length,
}
use robot_brain.Core.World.{WorldState, RobotSelfState}
use robot_brain.Cognition.Go2Rules.{stop_call}
use robot_brain.Cognition.FastReflex.{decide}
use robot_brain.Cognition.FastReflex.Priority.{
  are_still, first_skill, streak_after, without_error, decide-still, decide-critical,
  decide-debounce, decide-early,
}
use robot_brain.Cognition.Planner.{validate_tool_calls}
use robot_brain.Cognition.Planner.Filter.{is_callable, validate_tool_calls_lem}
use robot_brain.Tests.Samples.{naturals, settings_sample, skills_sample, quiet_world, call_of}

abbrev erring_state : RobotSelfState naturals
erring_state = record {
  source = "go2";
  is_standing = some true;
  is_moving = some false;
  sport_mode = none;
  error_code = some (pos 1);
  state_age_seconds = some 1;
}

abbrev erring : WorldState naturals
erring = record quiet_world { robot_self_state = some erring_state }

abbrev empty_battery : WorldState naturals
empty_battery = record quiet_world { battery_level = 5 }

decide-still_example : are_still (decide settings_sample erring 1).0 ≡ true
decide-still_example = decide-still settings_sample erring 1 refl

decide-critical_example : first_skill (decide settings_sample empty_battery 0).0 ≡ some "dock"
decide-critical_example = decide-critical settings_sample empty_battery 0 refl (λ ss e. cc)

decide-debounce_example :
    head? (decide settings_sample erring (streak_after settings_sample (erring ∷ []) 0)).0
    ≡ some (stop_call "error_code=1")
decide-debounce_example =
    decide-debounce settings_sample (erring ∷ []) erring erring_state
      ((refl, (erring_state, refl, refl)), tt) (refl, (erring_state, refl, refl)) refl (omega arith)

decide-early_example :
    (decide settings_sample erring (streak_after settings_sample [] 0)).0
    ≡ (decide settings_sample (without_error erring erring_state) 0).0
decide-early_example =
    decide-early settings_sample [] erring erring_state tt (refl, (erring_state, refl, refl)) refl
      (omega arith)

validate_tool_calls_lem_example :
    (let calls = call_of "wave" ∷ call_of "fly" ∷ [] in
      ((validate_tool_calls skills_sample calls).0 ≡ keep (is_callable skills_sample) calls)
      × (length (validate_tool_calls skills_sample calls).1
            + length (keep (is_callable skills_sample) calls)
          ≡ 2))
validate_tool_calls_lem_example =
    validate_tool_calls_lem skills_sample (call_of "wave" ∷ call_of "fly" ∷ [])
