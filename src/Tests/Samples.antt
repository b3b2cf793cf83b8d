-- ===== src/Tests/Samples.antt =====
-- A small robot: floats are natural numbers, and the state outside is the number of times that it has
-- waved, for which it asks the operator.
use robot_brain.Prelude.{
  ℕ, suc, ◌+◌, ◌-◌, ◌*◌, ◌≡◌, refl, ◌∙◌, ap, sym, subst, String, Option, some, none, true, false,
  [], ◌∷◌, arith, ltb, leb, ℤ, pos, nat_beq, negsuc, Bool-cases, inl, inr, string_eq, ◌==◌,
}
use robot_brain.Prelude.Dict.{get}
use robot_brain.Core.Builtins.{Builtins}
use robot_brain.Core.Results.{ok}
use robot_brain.Core.World.{Position, WorldState, Observation}
use robot_brain.Core.Calls.{ToolCall, SkillResult, slow}
use robot_brain.Core.Settings.{Settings}
use robot_brain.Safety.Skills.{Skill, SkillRegistry}
use robot_brain.Safety.Gate.{needs_confirmation}
use robot_brain.Orchestration.Context.{Context, Setup, Adapters}
use robot_brain.Orchestration.Graph.Careful.{Careful}
use robot_brain.Runtime.State.{Runtime, PendingCheckpoint}

abbrev seconds : ℤ → ℕ
seconds (pos n) = n
seconds (negsuc n) = 0

abbrev pub naturals : Builtins
naturals = record {
  Float = ℕ;
  decimal = λ m k. m;
  neg = λ x. 0;
  add = λ x y. x + y;
  sub = λ x y. x - y;
  mul = λ x y. x * y;
  div = λ x y. x;
  mod_float = λ x y. x;
  cos = λ x. 1;
  sin = λ x. 0;
  radians = λ x. x;
  degrees = λ x. x;
  hypot = λ x y. x + y;
  is_zero = λ x. nat_beq x 0;
  of_int = λ n. seconds n;
  truncate = λ x. pos x;
  floor_div = λ x y. some (pos x);
  square = λ x. x * x;
  root = λ x. x;
  lt = ltb;
  le = leb;
  total_seconds = seconds;
  show_0 = λ x. "0";
  show_1 = λ x. "0.0";
  show_2 = λ x. "0.00";
  show_int = λ x. "1";
  lower = λ t. t;
}

abbrev pub settings_sample : Settings naturals
settings_sample = record {
  robot_backend = "mock";
  low_battery_threshold = 20;
  critical_battery_threshold = 10;
  max_linear_speed = 5;
  max_step_distance = 100;
  require_confirmation_for = "wave" ∷ [];
  object_ttl_seconds = 60;
  max_loop_iterations = 2;
  default_task_max_attempts = 3;
  max_conversation_context = 10;
  unitree_state_max_age_seconds = 5;
  explore_max_steps = pos 10;
  go2_reflex_error_debounce = 2;
  unitree_dry_run = false;
  unitree_max_speed = 3;
  unitree_max_step = 50;
  unitree_max_yaw_speed = 2;
  unitree_max_drive_duration = 4;
  teleop_deadman_ms = pos 3;
  teleop_lease_ttl_ms = pos 20;
  teleop_chunk_seconds = 1;
}

abbrev pub origin : Position naturals
origin = record { x = 0; y = 0 }

abbrev pub quiet_world : WorldState naturals
quiet_world = record {
  position = origin;
  heading_degrees = 0;
  battery_level = 80;
  payload = none;
  known_objects = [];
  alerts = [];
  current_task = none;
  estop_active = false;
  robot_self_state = none;
}

abbrev pub nothing_seen : Observation naturals
nothing_seen = record {
  observed_at = 1;
  position = none;
  heading_degrees = none;
  battery_level = none;
  payload = none;
  detected_objects = [];
  alerts = [];
  self_state = none;
}

abbrev pub success : SkillResult
success = record { success = true; message = "done" }

abbrev pub report_skill : Skill naturals ℕ
report_skill = record {
  name = "report";
  capability_metadata = none;
  parse_params = λ p. ok p;
  preconditions = λ w. true;
  execute = λ p s. (ok success, s.0, s.1);
  is_done = λ w. true;
}

abbrev pub wave_skill : Skill naturals ℕ
wave_skill = record {
  name = "wave";
  capability_metadata = none;
  parse_params = λ p. ok p;
  preconditions = λ w. true;
  execute = λ p s. (ok success, s.0, suc s.1);
  is_done = λ w. true;
}

abbrev pub skills_sample : SkillRegistry naturals ℕ
skills_sample = ("report", report_skill) ∷ ("wave", wave_skill) ∷ []

abbrev pub call_of : String → ToolCall naturals
call_of name = record { skill_name = name; parameters = []; reason = ""; source = slow }

abbrev pub adapters_sample : Adapters naturals ℕ
adapters_sample = record {
  observe = λ e. (ok nothing_seen, e);
  plan = λ command world tools memories conversation e.
      (ok (call_of "report" ∷ call_of "wave" ∷ []), e);
  search = λ query limit experiences. experiences;
  now = λ e. 1;
  show_observation = λ o. "nothing";
  show_repr = λ t. t;
}

abbrev pub setup_sample : Setup naturals ℕ
setup_sample = record {
  settings = settings_sample;
  skills = skills_sample;
  adapters = adapters_sample;
  capacity = 20;
}

abbrev pub context_sample : Context naturals ℕ
context_sample = record {
  world = quiet_world;
  env = 0;
  short_term = [];
  long_term = [];
  conversations = [];
  world_states = [];
  go2_error_streak = 0;
}

abbrev pub wave_checkpoint : PendingCheckpoint naturals
wave_checkpoint = record { thread_id = "t"; command = "greet"; tool_call = call_of "wave" }

abbrev pub runtime_sample : Runtime naturals ℕ
runtime_sample = record {
  context = context_sample;
  checkpoints = ("t", wave_checkpoint) ∷ [];
  estop = record { active = false; reason = "" };
  summaries = [];
  restored_threads = [];
}

abbrev pub Still : ℕ → Type 0
Still waves = waves ≡ 0

abbrev pub skill_or : Option (Skill naturals ℕ) → Skill naturals ℕ
skill_or none = report_skill
skill_or (some s) = s

-- Without the operator only `report` runs.
report-only :
    (call : ToolCall naturals) (skill : Skill naturals ℕ)
    → get call.skill_name skills_sample ≡ some skill
    → needs_confirmation settings_sample skill.capability_metadata call.skill_name ≡ false
    → report_skill ≡ skill
unfolding get
report-only call skill e g = elim (Bool-cases ("report" == call.skill_name)) [
  | inl a ↦
      let found : get call.skill_name skills_sample ≡ some report_skill = rw (a, get) refl in
      ap skill_or (sym found ∙ e)
  | inr a ↦ elim (Bool-cases ("wave" == call.skill_name)) [
    | inl b ↦
        let found : get call.skill_name skills_sample ≡ some wave_skill = rw (a, b, get) refl in
        let same : wave_skill ≡ skill = ap skill_or (sym found ∙ e) in
        let asked =
          subst
            (λ (x : Skill naturals ℕ).
              needs_confirmation settings_sample x.capability_metadata call.skill_name ≡ false)
            (sym same) g in
        absurd (ground (arith, b, asked))
    | inr b ↦
        let missing : get call.skill_name skills_sample ≡ none = rw (a, b, get) refl in
        absurd (ground (arith, sym missing ∙ e))
  ]
]

pub careful_sample : Careful setup_sample Still
careful_sample = record {
  quiet = record { senses = λ e q. q; plans = λ _ _ _ _ _ e q. q };
  acts = λ call skill n params world e found legal g parsed q.
      subst (λ (s : Skill naturals ℕ). Still (s.execute params (world, e)).2)
        (report-only call skill found g) q;
}
