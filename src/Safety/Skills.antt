-- ===== src/Safety/Skills.antt =====
-- The `Skill` of robot_brain/skills/base.py as a record of its methods, and the registry of
-- robot_brain/skills/registry.py. `E` is the state of the robot and of all else outside the process
-- that an execution may read and change; it may also change the world, and may raise.
use robot_brain.Prelude.{Bool, ◌&◌, String, Option, List, [], ◌∷◌, string_eq, if◌then◌else◌}
use robot_brain.Prelude.Dict.{Dict, put, has}
use robot_brain.Core.Builtins.{Builtins}
use robot_brain.Core.Results.{Result, ok, raise, ◌>>=◌}
use robot_brain.Core.World.{WorldState}
use robot_brain.Core.Calls.{Params, SkillResult}
use robot_brain.Safety.Policy.{CapabilityMetadata}

-- `parse_params` returns the parameters as `model_dump(mode="json")` of the parsed model gives them,
-- or raises the `ValidationError`. A legacy skill has no metadata.
pub record Skill (B : Builtins) (E : Type 0) : Type 0 where
  pub name : String
  pub capability_metadata : Option CapabilityMetadata
  pub parse_params : Params B → Result (Params B)
  pub preconditions : WorldState B → Bool
  pub execute : Params B → WorldState B × E → Result SkillResult × WorldState B × E
  pub is_done : WorldState B → Bool

abbrev pub unitree_hidden_skills : List String
unitree_hidden_skills = "navigate" ∷ "patrol" ∷ "follow" ∷ "dock" ∷ []

abbrev pub unitree_llm_skills : List String
unitree_llm_skills =
    "nudge" ∷ "scan" ∷ "retreat" ∷ "recognize" ∷ "report" ∷ "stop" ∷ "explore" ∷ "go2_local_nav"
    ∷ []

abbrev pub SkillRegistry : Builtins → Type 0 → Type 0
SkillRegistry B E = Dict String (Skill B E)

module _ {B : Builtins} {E : Type 0} where
  -- A second skill of one name is the `ValueError`.
  unfoldable pub register : Skill B E → SkillRegistry B E → Result (SkillRegistry B E)
  register skill skills =
      if has skill.name skills
      then raise ("skill already registered: " & skill.name)
      else ok (put skill.name skill skills)

  unfoldable pub register_all : List (Skill B E) → SkillRegistry B E → Result (SkillRegistry B E)
  unfolding register
  register_all [] skills = ok skills
  register_all (s ∷ ss) skills = register s skills >>= register_all ss
