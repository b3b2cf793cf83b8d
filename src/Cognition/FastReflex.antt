-- ===== src/Cognition/FastReflex.antt =====
-- robot_brain/cognition/fast_reflex.py. The state of `FastReflex` is the length of the streak of
-- error codes.
pub mod Priority
use robot_brain.Prelude.{
  ℕ, suc, ◌+◌, Bool, true, false, ◌&◌, String, Option, none, some, List, [], ◌∷◌, if◌then◌else◌,
  keep, ltb, ◌==◌, string_eq, starts_with,
}
use robot_brain.Core.Builtins.{Builtins}
use robot_brain.Core.World.{WorldState, RobotSelfState}
use robot_brain.Core.Calls.{text, ToolCall, Params, fast}
use robot_brain.Core.Settings.{Settings}
use robot_brain.Cognition.Go2Rules.{is_error, decide_go2_reflex}

-- `"; ".join(texts)`
unfoldable pub join : List String → String
join [] = ""
join (t ∷ ts) = elim ts [ [] ↦ t | _ ↦ t & ("; " & join ts) ]

abbrev pub critical_alerts : Builtins → List String → List String
critical_alerts B = keep (λ alert. starts_with (B.lower alert) "critical:")

module _ {B : Builtins} where
  abbrev pub fast_call : String → Params B → String → ToolCall B
  fast_call name parameters reason = record {
    skill_name = name;
    parameters = parameters;
    reason = reason;
    source = fast;
  }

  abbrev pub alert_report : List String → List (ToolCall B)
  alert_report [] = []
  alert_report (a ∷ as_) =
      fast_call "report" (("message", text (join (a ∷ as_))) ∷ ("severity", text "critical") ∷ [])
        "critical perception alert"
      ∷ []

  unfoldable pub critical_alert_calls : WorldState B → List (ToolCall B)
  unfolding join
  critical_alert_calls world = alert_report (critical_alerts B world.alerts)

  unfoldable pub unitree_battery_calls : WorldState B → Settings B → List (ToolCall B)
  unitree_battery_calls world settings =
      if B.le world.battery_level settings.critical_battery_threshold
      then fast_call "stop" (("reason", text "critical battery") ∷ []) "critical battery"
        ∷ fast_call "report"
            (("message", text "Go2 critical battery") ∷ ("severity", text "critical") ∷ [])
            "critical battery"
        ∷ []
      else (if B.le world.battery_level settings.low_battery_threshold
          then fast_call "report"
              (("message", text ("Go2 low battery (" & (B.show_0 world.battery_level & "%)")))
                ∷ ("severity", text "warning")
                ∷ [])
              "low battery"
            ∷ []
          else [])

  -- `if calls: return calls`, and the next rule otherwise. An optional list that is empty is false.
  abbrev pub or_next : List (ToolCall B) → List (ToolCall B) → List (ToolCall B)
  or_next [] next = next
  or_next (c ∷ cs) next = c ∷ cs

  abbrev pub calls_of : Option (List (ToolCall B)) → List (ToolCall B)
  calls_of none = []
  calls_of (some calls) = calls

  -- The generic path.
  unfoldable pub generic_calls : WorldState B → Settings B → List (ToolCall B)
  unfolding critical_alert_calls
  generic_calls world settings =
      if B.le world.battery_level settings.critical_battery_threshold
      then fast_call "dock" [] "critical battery" ∷ []
      else (if B.le world.battery_level settings.low_battery_threshold
          then fast_call "dock" [] "low battery" ∷ []
          else critical_alert_calls world)

  -- `decide`, from the streak to the calls and the new streak.
  unfoldable pub decide : Settings B → WorldState B → ℕ → List (ToolCall B) × ℕ
  unfolding decide_go2_reflex critical_alert_calls unitree_battery_calls generic_calls
  decide settings world streak =
      if world.estop_active
      then (fast_call "stop" (("reason", text "emergency stop active") ∷ []) "" ∷ [], streak)
      else elim world.robot_self_state [
        | some ss ↦
            let streak' = if is_error ss.error_code then streak + 1 else 0 in
            let skip_error = ltb streak' settings.go2_reflex_error_debounce in
            (
              or_next (calls_of (decide_go2_reflex world settings skip_error))
                  (critical_alert_calls world),
              streak',
            )
        | none ↦
            if settings.robot_backend == "unitree"
            then (
              or_next (unitree_battery_calls world settings) (critical_alert_calls world),
              streak,
            )
            else (generic_calls world settings, streak)
      ]
