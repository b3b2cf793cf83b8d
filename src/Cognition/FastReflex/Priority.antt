-- ===== src/Cognition/FastReflex/Priority.antt =====
-- What the rules of robot_brain/cognition/fast_reflex.py and go2_reflex_rules.py may answer, and the
-- debouncing of error codes over a sequence of observations.
use robot_brain.Prelude.{
  ℕ, ◌+◌, ◌≤◌, ◌<◌, ◌≡◌, refl, Bool, true, false, none, some, List, [], ◌∷◌, length, if◌then◌else◌,
  ltb, String, Option, ◌==◌, string_eq, All, arith, Option-cases, head?, ◌&◌, inl, inr, ◌||◌, ◌&&◌,
}
use robot_brain.Core.Builtins.{Builtins}
use robot_brain.Core.World.{WorldState, RobotSelfState}
use robot_brain.Core.Calls.{ToolCall}
use robot_brain.Core.Settings.{Settings}
use robot_brain.Cognition.Go2Rules.{
  is_error, is_false, stop_call, show_code, go2_rules, decide_go2_reflex,
}
use robot_brain.Cognition.FastReflex.{
  decide, critical_alert_calls, unitree_battery_calls, generic_calls, or_next, calls_of,
}

module _ {B : Builtins} where
  -- Calls that do not set the robot in motion.
  abbrev pub are_still : List (ToolCall B) → Bool
  are_still [] = true
  are_still (call ∷ calls) =
      (call.skill_name == "stop" || call.skill_name == "report") && are_still calls

  -- Is the world a Go2's: with its own state, or by the configured backend?
  abbrev pub is_go2 : Settings B → WorldState B → Bool
  is_go2 settings world = elim world.robot_self_state [
    | some _ ↦ true
    | none ↦ settings.robot_backend == "unitree"
  ]

  abbrev pub first_skill : List (ToolCall B) → Option String
  first_skill [] = none
  first_skill (call ∷ calls) = some call.skill_name

  -- The robot's own state does not say that it is not standing.
  abbrev pub MayStand : WorldState B → Type 0
  MayStand world =
      (ss : RobotSelfState B) → world.robot_self_state ≡ some ss → is_false ss.is_standing ≡ false

  critical_alert_calls-still :
      (world : WorldState B) → are_still (critical_alert_calls world) ≡ true
  unfolding critical_alert_calls
  critical_alert_calls-still world = ground arith

  go2_rules-critical :
      (world : WorldState B) (ss : RobotSelfState B) (settings : Settings B) (skip : Bool)
      → B.le world.battery_level settings.critical_battery_threshold ≡ true
      → is_false ss.is_standing ≡ false
      → first_skill (calls_of (go2_rules world ss settings skip)) ≡ some "stop"
  unfolding go2_rules
  go2_rules-critical world ss settings skip h stands = ground (arith, h, stands)

  or_next-first :
      (calls next : List (ToolCall B)) (name : String)
      → first_skill calls ≡ some name
      → first_skill (or_next calls next) ≡ some name
  or_next-first [] next name h = ground arith
  or_next-first (call ∷ calls) next name h = h

  or_next-still :
      (calls next : List (ToolCall B))
      → are_still calls ≡ true
      → are_still next ≡ true
      → are_still (or_next calls next) ≡ true
  or_next-still [] next h k = k
  or_next-still (call ∷ calls) next h k = h

  go2_rules-still :
      (world : WorldState B) (ss : RobotSelfState B) (settings : Settings B) (skip : Bool)
      → are_still (calls_of (go2_rules world ss settings skip)) ≡ true
  unfolding go2_rules
  go2_rules-still world ss settings skip = ground arith

  unitree-still :
      (world : WorldState B) (settings : Settings B)
      → are_still (unitree_battery_calls world settings) ≡ true
  unfolding unitree_battery_calls
  unitree-still world settings = ground arith

  -- On a Go2, by its own state or by the configured backend, the reflexes only stop the robot and
  -- report.
  pub decide-still :
      (settings : Settings B) (world : WorldState B) (streak : ℕ)
      → is_go2 settings world ≡ true
      → are_still (decide settings world streak).0 ≡ true
  unfolding decide decide_go2_reflex
  decide-still settings world streak g =
      let alerts = critical_alert_calls-still world in
      elim (Option-cases world.robot_self_state) [
        | inl e ↦ ground (
          arith,
          e,
          g,
          or_next-still (unitree_battery_calls world settings) (critical_alert_calls world)
              (unitree-still world settings) alerts,
        )
        | inr (ss, e) ↦
            let streak' = if is_error ss.error_code then streak + 1 else 0 in
            let skip = ltb streak' settings.go2_reflex_error_debounce in
            ground (
              arith,
              e,
              or_next-still (calls_of (go2_rules world ss settings skip))
                  (critical_alert_calls world) (go2_rules-still world ss settings skip) alerts,
            )
      ]

  -- If the battery is critically low, and the robot's own state does not say that it is not standing,
  -- the first call of the reflexes stops the robot if an emergency stop is active or it is a Go2, by its
  -- own state or by the configured backend, and sends it to its dock otherwise.
  pub decide-critical :
      (settings : Settings B) (world : WorldState B) (streak : ℕ)
      → B.le world.battery_level settings.critical_battery_threshold ≡ true
      → MayStand world
      → first_skill (decide settings world streak).0
        ≡ some (if world.estop_active || is_go2 settings world then "stop" else "dock")
  unfolding decide decide_go2_reflex generic_calls unitree_battery_calls
  decide-critical settings world streak h stands = elim (Option-cases world.robot_self_state) [
    | inl e ↦ ground (arith, e, h)
    | inr (ss, e) ↦
        let streak' = if is_error ss.error_code then streak + 1 else 0 in
        let skip = ltb streak' settings.go2_reflex_error_debounce in
        ground (
          arith,
          e,
          or_next-first (calls_of (go2_rules world ss settings skip)) (critical_alert_calls world)
              "stop" (go2_rules-critical world ss settings skip h (stands ss e)),
        )
  ]

  -- The streak after a sequence of observed worlds.
  abbrev pub streak_after : Settings B → List (WorldState B) → ℕ → ℕ
  streak_after settings [] streak = streak
  streak_after settings (world ∷ worlds) streak =
      streak_after settings worlds (decide settings world streak).1

  -- A world in which the robot reports an error, and no emergency stop is active.
  abbrev pub IsErring : WorldState B → Type 0
  IsErring world =
      (world.estop_active ≡ false)
      × ((ss : RobotSelfState B) × (world.robot_self_state ≡ some ss)
          × (is_error ss.error_code ≡ true))

  decide-streak :
      (settings : Settings B) (world : WorldState B) (streak : ℕ)
      → IsErring world
      → (decide settings world streak).1 ≡ streak + 1
  unfolding decide
  decide-streak settings world streak (n, (ss, e, k)) = rw (n, e, k) refl

  streak_after-length :
      (settings : Settings B) (worlds : List (WorldState B)) (streak : ℕ)
      → All IsErring worlds
      → streak_after settings worlds streak ≡ streak + length worlds
  streak_after-length settings [] streak h = omega arith
  streak_after-length settings (world ∷ worlds) streak (h, hs) = omega (
    arith,
    decide-streak settings world streak h,
    streak_after-length settings worlds (decide settings world streak).1 hs,
  )

  IsErring-is_error :
      (world : WorldState B) (ss : RobotSelfState B)
      → IsErring world
      → world.robot_self_state ≡ some ss
      → is_error ss.error_code ≡ true
  IsErring-is_error world ss (n, (x, e, k)) f = ground (arith, e, k, f)

  -- The same world with no error code.
  abbrev pub without_error : WorldState B → RobotSelfState B → WorldState B
  without_error world ss = record world {
    robot_self_state = some (record ss { error_code = none });
  }

  -- Once the observations in a row with an error reach the threshold, and no emergency stop is active
  -- in any of them, the first call stops the robot and names the error code of the last of them.
  pub decide-debounce :
      (settings : Settings B) (worlds : List (WorldState B)) (world : WorldState B)
      (ss : RobotSelfState B)
      → All IsErring worlds
      → IsErring world
      → world.robot_self_state ≡ some ss
      → settings.go2_reflex_error_debounce ≤ length worlds + 1
      → head? (decide settings world (streak_after settings worlds 0)).0
        ≡ some (stop_call ("error_code=" & show_code B ss.error_code))
  unfolding decide decide_go2_reflex go2_rules
  decide-debounce settings worlds world ss hs h e l =
      ground
        (arith, h.0, e, IsErring-is_error world ss h e, streak_after-length settings worlds 0 hs, l)

  -- As long as the observations in a row with an error stay below the threshold, and no emergency stop
  -- is active in any of them, the error code changes none of the calls for the last of them.
  pub decide-early :
      (settings : Settings B) (worlds : List (WorldState B)) (world : WorldState B)
      (ss : RobotSelfState B)
      → All IsErring worlds
      → IsErring world
      → world.robot_self_state ≡ some ss
      → length worlds + 1 < settings.go2_reflex_error_debounce
      → (decide settings world (streak_after settings worlds 0)).0
        ≡ (decide settings (without_error world ss) 0).0
  unfolding decide decide_go2_reflex go2_rules
  decide-early settings worlds world ss hs h e l =
      ground
        (arith, h.0, e, IsErring-is_error world ss h e, streak_after-length settings worlds 0 hs, l)
