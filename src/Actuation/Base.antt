-- ===== src/Actuation/Base.antt =====
-- robot_brain/actuation/base.py: what the program reads of a robot.
use robot_brain.Prelude.{Bool, String, Option}
use robot_brain.Core.Builtins.{Builtins}
use robot_brain.Core.World.{Position}

pub record RobotState (B : Builtins) : Type 0 where
  pub position : Position B
  pub heading_degrees : B.Float
  pub battery_level : B.Float
  pub payload : Option String
  pub stopped : Bool
  pub docked : Bool
