-- ===== src/Safety/Gate.antt =====
-- What the validator lets through, against a description of it condition by condition
-- (robot_brain/safety/validator.py).
use robot_brain.Prelude.{
  ℕ, ◌≡◌, refl, ◌∙◌, ap, sym, subst, inl, inr, Bool, true, false, not, ◌||◌, ◌&&◌, String, Option,
  none, some, arith, string_eq, ◌==◌, contains, Option-cases,
}
use robot_brain.Prelude.Dict.{get}
use robot_brain.Core.Builtins.{Builtins}
use robot_brain.Core.Results.{ok, Result-cases}
use robot_brain.Core.World.{WorldState}
use robot_brain.Core.Calls.{Params, ToolCall}
use robot_brain.Core.Settings.{Settings}
use robot_brain.Safety.Policy.{
  CapabilityMetadata, is_stop, is_no_motion, is_read_only, allows_backend, check_backend,
  check_state, check_confirmation,
}
use robot_brain.Safety.Skills.{Skill, SkillRegistry, unitree_hidden_skills}
use robot_brain.Safety.Motion.{passes, validate_motion, validate_backend}
use robot_brain.Safety.Validator.{
  ValidationResult, always_allowed, accept, backend_stage, state_stage, confirmation_stage, checked,
  validate,
}

-- May the capability act while the emergency stop is active?
abbrev pub allowed_in_estop : Option CapabilityMetadata → String → Bool
allowed_in_estop none skill_name = contains always_allowed skill_name
allowed_in_estop (some m) skill_name = is_stop m.motion_kind || is_read_only m.risk_level

-- May it act at a critical battery?
abbrev pub allowed_at_critical : Option CapabilityMetadata → String → Bool
allowed_at_critical none skill_name = contains always_allowed skill_name
allowed_at_critical (some m) skill_name =
    is_stop m.motion_kind || is_no_motion m.motion_kind || is_read_only m.risk_level

abbrev pub runs_on : Option CapabilityMetadata → String → String → Bool
runs_on none backend skill_name =
    not ((backend == "unitree") && contains unitree_hidden_skills skill_name)
runs_on (some m) backend skill_name = allows_backend m.backend_allowlist backend

module _ {B : Builtins} where
  abbrev pub needs_confirmation : Settings B → Option CapabilityMetadata → String → Bool
  needs_confirmation settings none skill_name =
      contains settings.require_confirmation_for skill_name
  needs_confirmation settings (some m) skill_name = m.requires_confirmation

  backend_stage-runs_on :
      (settings : Settings B) (m : Option CapabilityMetadata) (name : String)
      → (backend_stage settings m name ≡ none → runs_on m settings.robot_backend name ≡ true)
        × (runs_on m settings.robot_backend name ≡ true → backend_stage settings m name ≡ none)
  unfolding backend_stage check_backend validate_backend
  backend_stage-runs_on settings none name = (λ h. ground arith, λ h. ground arith)
  backend_stage-runs_on settings (some m) name = (λ h. ground arith, λ h. ground arith)

  state_stage-allows :
      (settings : Settings B) (m : Option CapabilityMetadata) (name : String) (world : WorldState B)
      → (state_stage settings m name world ≡ none
          → (world.estop_active ≡ true → allowed_in_estop m name ≡ true)
            × (B.le world.battery_level settings.critical_battery_threshold ≡ true
                → allowed_at_critical m name ≡ true))
        × ((world.estop_active ≡ true → allowed_in_estop m name ≡ true)
            → (B.le world.battery_level settings.critical_battery_threshold ≡ true
                → allowed_at_critical m name ≡ true)
            → state_stage settings m name world ≡ none)
  unfolding state_stage check_state
  state_stage-allows settings none name world =
      (λ h. (λ e. ground arith, λ e. ground arith), λ h k. ground arith)
  state_stage-allows settings (some m) name world =
      (λ h. (λ e. ground arith, λ e. ground arith), λ h k. ground arith)

  confirmation_stage_cases :
      (settings : Settings B) (m : Option CapabilityMetadata) (name : String) (g : Bool)
      (n : Params B)
      → ((confirmation_stage settings m name g n).allowed
          ≡ not (needs_confirmation settings m name && not g))
        × ((confirmation_stage settings m name g n).requires_confirmation
            ≡ (needs_confirmation settings m name && not g))
        × ((confirmation_stage settings m name g n).normalized_parameters ≡ n)
        × ((needs_confirmation settings m name && not g) ≡ false
            → confirmation_stage settings m name g n ≡ accept n)
  unfolding confirmation_stage check_confirmation
  confirmation_stage_cases settings none name g n =
      (ground arith, ground arith, ground arith, λ h. ground arith)
  confirmation_stage_cases settings (some m) name g n =
      (ground arith, ground arith, ground arith, λ h. ground arith)

  -- A refusal before the confirmation asks for none.
  abbrev Final : Option (ValidationResult B) → Type 0
  Final none = Unit
  Final (some r) = (r.allowed ≡ false) × (r.requires_confirmation ≡ false)

  state_stage-Final :
      (settings : Settings B) (m : Option CapabilityMetadata) (name : String) (world : WorldState B)
      → Final (state_stage settings m name world)
  unfolding state_stage
  state_stage-Final settings none name world = ground arith
  state_stage-Final settings (some m) name world = ground arith

  backend_stage-Final :
      (settings : Settings B) (m : Option CapabilityMetadata) (name : String)
      → Final (backend_stage settings m name)
  unfolding backend_stage
  backend_stage-Final settings none name = ground arith
  backend_stage-Final settings (some m) name = ground arith

module _ {B : Builtins} {E : Type 0} where
  -- All that an executable call has to meet, confirmation aside.
  pub record Legal (settings : Settings B) (skill : Skill B E) (call : ToolCall B)
      (world : WorldState B) (now : ℕ) (normalized : Params B) : Type 0 where
    pub backend : runs_on skill.capability_metadata settings.robot_backend call.skill_name ≡ true
    pub parsed : skill.parse_params call.parameters ≡ ok normalized
    pub estop :
        world.estop_active ≡ true
        → allowed_in_estop skill.capability_metadata call.skill_name ≡ true
    pub battery :
        B.le world.battery_level settings.critical_battery_threshold ≡ true
        → allowed_at_critical skill.capability_metadata call.skill_name ≡ true
    pub ready : skill.preconditions world ≡ true
    pub motion : validate_motion settings call.skill_name normalized now world ≡ passes

  module _ (settings : Settings B) (world : WorldState B) (now : ℕ) (g : Bool) where
    -- The stages from the state on, when they neither raise nor refuse for good.
    checked-Legal :
        (skill : Skill B E) (call : ToolCall B) (n : Params B) (r : ValidationResult B)
        → checked settings skill call.skill_name world now g n ≡ ok r
        → (r.allowed || r.requires_confirmation) ≡ true
        → (state_stage settings skill.capability_metadata call.skill_name world ≡ none)
          × (skill.preconditions world ≡ true)
          × (validate_motion settings call.skill_name n now world ≡ passes)
          × (r ≡ confirmation_stage settings skill.capability_metadata call.skill_name g n)
    unfolding checked
    checked-Legal skill call n r h a =
        ground (arith, state_stage-Final settings skill.capability_metadata call.skill_name world)

    module _ (skills : SkillRegistry B E) (call : ToolCall B) where
      validate-Legal :
          (r : ValidationResult B)
          → validate settings skills call world now g ≡ ok r
          → (r.allowed || r.requires_confirmation) ≡ true
          → (skill : Skill B E) × (n : Params B) × (get call.skill_name skills ≡ some skill)
            × Legal settings skill call world now n
            × (r ≡ confirmation_stage settings skill.capability_metadata call.skill_name g n)
      unfolding validate
      validate-Legal r h a = elim (Option-cases (get call.skill_name skills)) [
        | inl e ↦ absurd (ground arith)
        | inr (skill, e) ↦ elim (Result-cases (skill.parse_params call.parameters)) [
          | inl (n, p) ↦
              let c : checked settings skill call.skill_name world now g n ≡ ok r =
                ground
                  (arith, backend_stage-Final settings skill.capability_metadata call.skill_name) in
              let b : backend_stage settings skill.capability_metadata call.skill_name ≡ none =
                ground
                  (arith, backend_stage-Final settings skill.capability_metadata call.skill_name) in
              let f = checked-Legal skill call n r c a in
              let st =
                (state_stage-allows settings skill.capability_metadata call.skill_name world).0
                  f.0 in
              (
                skill,
                n,
                e,
                record {
                  backend =
                      (backend_stage-runs_on settings skill.capability_metadata call.skill_name).0
                        b;
                  parsed = p;
                  estop = st.0;
                  battery = st.1;
                  ready = f.1;
                  motion = f.2;
                },
                f.3,
              )
          | inr (t, p) ↦ absurd (
              ground
                (arith, backend_stage-Final settings skill.capability_metadata call.skill_name))
        ]
      ]

      Legal-validate :
          (skill : Skill B E) (n : Params B)
          → get call.skill_name skills ≡ some skill
          → Legal settings skill call world now n
          → validate settings skills call world now g
            ≡ ok (confirmation_stage settings skill.capability_metadata call.skill_name g n)
      unfolding validate checked
      Legal-validate skill n e l =
          let b =
            (backend_stage-runs_on settings skill.capability_metadata call.skill_name).1
              l.backend in
          let st =
            (state_stage-allows settings skill.capability_metadata call.skill_name world).1 l.estop
              l.battery in
          rw (e, validate, b, l.parsed, checked, st, l.ready, l.motion)

-- A call that the validator allows names a registered skill and meets every condition: the backend
-- runs it, its parameters parse to the normalised ones of the result, an active emergency stop and a
-- critical battery permit it, its preconditions and the motion checks hold, and it is confirmed if
-- it has to be.
pub validate_sound :
    {B : Builtins} {E : Type 0} (settings : Settings B) (skills : SkillRegistry B E)
    (call : ToolCall B) (world : WorldState B) (now : ℕ) (granted : Bool) (r : ValidationResult B)
    → validate settings skills call world now granted ≡ ok r
    → r.allowed ≡ true
    → (skill : Skill B E) × (get call.skill_name skills ≡ some skill)
      × Legal settings skill call world now r.normalized_parameters
      × (needs_confirmation settings skill.capability_metadata call.skill_name ≡ true
          → granted ≡ true)
validate_sound {B} settings skills call world now g r h a =
    let (skill, n, e, l, c) = validate-Legal settings world now g skills call r h (ground arith) in
    let p = confirmation_stage_cases settings skill.capability_metadata call.skill_name g n in
    let same = ap (λ (x : ValidationResult B). x.normalized_parameters) c ∙ p.2 in
    (
      skill,
      e,
      subst (Legal settings skill call world now) (sym same) l,
      λ q. ground (arith, ap (λ (x : ValidationResult B). x.allowed) c, p.0),
    )

-- A call of a registered skill that meets every condition is allowed, with the parsed
-- parameters.
pub validate_complete :
    {B : Builtins} {E : Type 0} (settings : Settings B) (skills : SkillRegistry B E)
    (call : ToolCall B) (world : WorldState B) (now : ℕ) (granted : Bool) (skill : Skill B E)
    (n : Params B)
    → get call.skill_name skills ≡ some skill
    → Legal settings skill call world now n
    → (needs_confirmation settings skill.capability_metadata call.skill_name ≡ true
        → granted ≡ true)
    → validate settings skills call world now granted ≡ ok (accept n)
validate_complete settings skills call world now g skill n e l c =
    let p = confirmation_stage_cases settings skill.capability_metadata call.skill_name g n in
    Legal-validate settings world now g skills call skill n e l ∙ ap ok (p.3 (ground (arith, c)))

-- The operator is asked to confirm only what is legal otherwise: if a validation asks, confirmation
-- was not granted, and the same call with it granted is allowed with the same parameters.
pub validate_asks :
    {B : Builtins} {E : Type 0} (settings : Settings B) (skills : SkillRegistry B E)
    (call : ToolCall B) (world : WorldState B) (now : ℕ) (granted : Bool) (r : ValidationResult B)
    → validate settings skills call world now granted ≡ ok r
    → r.requires_confirmation ≡ true
    → (granted ≡ false)
      × (validate settings skills call world now true ≡ ok (accept r.normalized_parameters))
validate_asks {B} settings skills call world now g r h a =
    let (skill, n, e, l, c) = validate-Legal settings world now g skills call r h (ground arith) in
    let p = confirmation_stage_cases settings skill.capability_metadata call.skill_name g n in
    let same = ap (λ (x : ValidationResult B). x.normalized_parameters) c ∙ p.2 in
    let asks = ap (λ (x : ValidationResult B). x.requires_confirmation) c ∙ p.1 in
    (
      ground (arith, asks),
      validate_complete settings skills call world now true skill n e l (λ _. refl)
          ∙ ap (λ x. ok (accept x)) (sym same),
    )
