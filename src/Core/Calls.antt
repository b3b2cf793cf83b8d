-- ===== src/Core/Calls.antt =====
-- The tool calls of robot_brain/llm/base.py, and the results of robot_brain/skills/base.py.
use robot_brain.Prelude.{Bool, String, List, ℤ}
use robot_brain.Prelude.Dict.{Dict}
use robot_brain.Core.Builtins.{Builtins}
use robot_brain.Core.World.{Position}

-- A JSON value, as far as the parameters of the skills hold such: `other` is a value of a kind that
-- no modelled code reads.
pub data Value (B : Builtins) : Type 0 where
  number : B.Float → Value B
  integer : ℤ → Value B
  text : String → Value B
  point : Position B → Value B
  points : List (Position B) → Value B
  other : Value B

abbrev pub Params : Builtins → Type 0
Params B = Dict String (Value B)

pub data Source : Type 0 where
  fast slow : Source

pub record ToolCall (B : Builtins) : Type 0 where
  pub skill_name : String
  pub parameters : Params B
  pub reason : String
  pub source : Source

-- The result's `data`, which no modelled code reads, is left out.
pub record SkillResult : Type 0 where
  pub success : Bool
  pub message : String
