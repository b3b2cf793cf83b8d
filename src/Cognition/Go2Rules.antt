-- ===== src/Cognition/Go2Rules.antt =====
-- robot_brain/cognition/go2_reflex_rules.py.
use robot_brain.Prelude.{
  Bool, true, false, not, ◌&&◌, ◌&◌, String, Option, none, some, List, [], ◌∷◌, if◌then◌else◌, ℤ,
  pos, beq_ℤ,
}
use robot_brain.Core.Builtins.{Builtins}
use robot_brain.Core.World.{WorldState, RobotSelfState, TaskProgress, ProgressStatus}
use robot_brain.Core.Calls.{text, ToolCall, fast}
use robot_brain.Core.Settings.{Settings}

abbrev pub is_running : Option TaskProgress → Bool
is_running none = false
is_running (some task) = elim task.status [ ProgressStatus.running ↦ true | _ ↦ false ]

-- `code is not None and code != 0`
abbrev pub is_error : Option ℤ → Bool
is_error none = false
is_error (some code) = not (beq_ℤ code (pos 0))

-- An optional truth value as a condition, and `x is not None and not x`.
abbrev pub is_true : Option Bool → Bool
is_true none = false
is_true (some b) = b

abbrev pub is_false : Option Bool → Bool
is_false none = false
is_false (some b) = not b

-- The texts of numbers that are there whenever they are shown.
abbrev pub show_code : Builtins → Option ℤ → String
show_code B none = "None"
show_code B (some code) = B.show_int code

abbrev pub show_age : (B : Builtins) → Option B.Float → String
show_age B none = ""
show_age B (some age) = B.show_1 age

module _ {B : Builtins} where
  abbrev pub stop_call : String → ToolCall B
  stop_call reason = record {
    skill_name = "stop";
    parameters = ("reason", text reason) ∷ [];
    reason = "";
    source = fast;
  }

  abbrev pub report_call : String → String → ToolCall B
  report_call message severity = record {
    skill_name = "report";
    parameters = ("message", text message) ∷ ("severity", text severity) ∷ [];
    reason = "";
    source = fast;
  }

  abbrev pub is_stale_state : Settings B → Option B.Float → Bool
  is_stale_state settings none = false
  is_stale_state settings (some age) = B.lt settings.unitree_state_max_age_seconds age

  -- The rules after the one on the self-state, in their order; `none` is no rule.
  unfoldable pub go2_rules :
      WorldState B → RobotSelfState B → Settings B → Bool → Option (List (ToolCall B))
  go2_rules world ss settings skip_error_check =
      if not skip_error_check && is_error ss.error_code
      then some (
          stop_call ("error_code=" & show_code B ss.error_code)
          ∷ report_call ("Go2 error_code=" & show_code B ss.error_code) "critical"
          ∷ [])
      else (if is_stale_state settings ss.state_age_seconds
          then some (
              stop_call ("state stale (" & (show_age B ss.state_age_seconds & "s)"))
              ∷ report_call ("Go2 state stale: " & (show_age B ss.state_age_seconds & "s"))
                  "warning"
              ∷ [])
          else (if is_false ss.is_standing
              then some (report_call "Go2 is not standing" "warning" ∷ [])
              else (if is_true ss.is_moving && not (is_running world.current_task)
                  then some (stop_call "moving without active task" ∷ [])
                  else (if B.le world.battery_level settings.critical_battery_threshold
                      then some (
                          stop_call "critical battery"
                          ∷ report_call "Go2 critical battery" "critical"
                          ∷ [])
                      else (if B.le world.battery_level settings.low_battery_threshold
                          then some (
                              report_call
                                ("Go2 low battery (" & (B.show_0 world.battery_level & "%)"))
                                "warning"
                              ∷ [])
                          else none)))))

  unfoldable pub decide_go2_reflex : WorldState B → Settings B → Bool → Option (List (ToolCall B))
  unfolding go2_rules
  decide_go2_reflex world settings skip_error_check = elim world.robot_self_state [
    | none ↦ none
    | some ss ↦ go2_rules world ss settings skip_error_check
  ]
