-- ===== src/Safety/Estop.antt =====
-- robot_brain/safety/estop.py. `stop` is the robot's method, which may raise; the flags are set
-- before it is called.
use robot_brain.Prelude.{Bool, true, false, String}
use robot_brain.Core.Builtins.{Builtins}
use robot_brain.Core.Results.{Result}
use robot_brain.Core.World.{WorldState}

pub record EmergencyStop : Type 0 where
  pub active : Bool
  pub reason : String

module _ {B : Builtins} {E : Type 0} where
  unfoldable pub activate :
      (String → E → Result (Unit {0}) × E)
      → String
      → WorldState B × E
      → Result (Unit {0}) × EmergencyStop × WorldState B × E
  activate stop reason (world, robot) =
      let (result, robot') = stop reason robot in
      (
        result,
        record { active = true; reason = reason },
        record world { estop_active = true },
        robot',
      )

module _ {B : Builtins} where
  unfoldable pub reset : WorldState B → EmergencyStop × WorldState B
  reset world = (record { active = false; reason = "" }, record world { estop_active = false })
