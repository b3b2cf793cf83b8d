-- ===== src/Actuation/Unitree/Limits.antt =====
-- The requests to `UnitreeRobot`, in any order, and the commands that they may send
-- (robot_brain/actuation/unitree.py).
use robot_brain.Prelude.{true, false, ◌≡◌, arith, contains, string_eq}
use robot_brain.Core.Builtins.{Builtins}
use robot_brain.Core.Settings.{Settings}
use robot_brain.Actuation.Transport.{Velocity, UnitreeCommand}
use robot_brain.Actuation.State.{min, max, clamp, max_lin, clamped, allowed_postures}

-- The laws of `<` on floats that the limits rest on; IEEE floats have them, NaN included.
pub record Order (B : Builtins) : Type 0 where
  pub asym : (x y : B.Float) → B.lt x y ≡ true → B.lt y x ≡ false
  pub trans : (x y z : B.Float) → B.lt x y ≡ true → B.lt y z ≡ true → B.lt x z ≡ true

module _ (B : Builtins) where
  -- `x <= limit` and `-limit <= x`, but for NaN.
  abbrev pub AtMost : B.Float → B.Float → Type 0
  AtMost limit x = B.lt limit x ≡ false

  abbrev pub Band : B.Float → B.Float → Type 0
  Band limit x = (B.lt limit x ≡ false) × (B.lt x (B.neg limit) ≡ false)

module _ {B : Builtins} (settings : Settings B) where
  -- No limit of the settings is negative, nor are 45 degrees.
  pub record IsSensible : Type 0 where
    pub speed : B.lt (max_lin settings) (B.neg (max_lin settings)) ≡ false
    pub yaw : B.lt settings.unitree_max_yaw_speed (B.neg settings.unitree_max_yaw_speed) ≡ false
    pub duration : B.lt settings.unitree_max_drive_duration (B.decimal 0 0) ≡ false
    pub heading : B.lt (B.decimal 45 0) (B.neg (B.decimal 45 0)) ≡ false

  abbrev pub IsSlow : Velocity B → Type 0
  IsSlow v =
      Band B (max_lin settings) v.vx
      × Band B (max_lin settings) v.vy
      × Band B settings.unitree_max_yaw_speed v.vyaw

  abbrev pub InLimits : UnitreeCommand B → Type 0
  InLimits (UnitreeCommand.stop _) = Unit
  InLimits (UnitreeCommand.release _) = Unit
  InLimits (UnitreeCommand.move _ speed) =
      AtMost B settings.unitree_max_speed speed × AtMost B settings.max_linear_speed speed
  InLimits (UnitreeCommand.turn heading) = Band B (B.decimal 45 0) heading
  InLimits (UnitreeCommand.posture name) = contains allowed_postures name ≡ true
  InLimits (UnitreeCommand.drive v duration) =
      IsSlow v
      × AtMost B settings.unitree_max_drive_duration duration
      × (B.lt duration (B.decimal 0 0) ≡ false)

module _ {B : Builtins} (o : Order B) where
  min-AtMost : (x y : B.Float) → AtMost B x (min B x y) × AtMost B y (min B x y)
  unfolding min
  min-AtMost x y = ground (arith, o.asym y x, o.asym x x, o.asym y y)

  min-AtMost_left : (l x y : B.Float) → AtMost B l x → AtMost B l (min B x y)
  unfolding min
  min-AtMost_left l x y h = ground (arith, o.trans l y x)

  pub clamp-Band :
      (limit x : B.Float) → B.lt limit (B.neg limit) ≡ false → Band B limit (clamp B limit x)
  unfolding clamp max min
  clamp-Band limit x h = ground (
    arith,
    o.asym x limit,
    o.asym limit limit,
    o.asym (B.neg limit) (B.neg limit),
    o.asym (B.neg limit) x,
    o.asym (B.neg limit) limit,
  )

  pub clamped-IsSlow :
      (settings : Settings B) (v : Velocity B)
      → IsSensible settings
      → IsSlow settings (clamped settings v)
  unfolding clamped
  clamped-IsSlow settings v h = (
    clamp-Band (max_lin settings) v.vx h.speed,
    clamp-Band (max_lin settings) v.vy h.speed,
    clamp-Band settings.unitree_max_yaw_speed v.vyaw h.yaw,
  )

  pub duration_bounds :
      (limit x : B.Float)
      → B.lt limit (B.decimal 0 0) ≡ false
      → AtMost B limit (max B (B.decimal 0 0) (min B limit x))
        × (B.lt (max B (B.decimal 0 0) (min B limit x)) (B.decimal 0 0) ≡ false)
  unfolding max min
  duration_bounds limit x h =
      let zero = B.decimal 0 0 in
      ground (
        arith,
        o.asym x limit,
        o.asym limit limit,
        o.asym zero zero,
        o.asym zero x,
        o.asym zero limit,
      )

  pub slow_enough :
      (settings : Settings B) (x : B.Float)
      → (let speed = min B (min B x settings.unitree_max_speed) settings.max_linear_speed in
          AtMost B settings.unitree_max_speed speed × AtMost B settings.max_linear_speed speed)
  slow_enough settings x =
      let inner = min B x settings.unitree_max_speed in
      (
        min-AtMost_left settings.unitree_max_speed inner settings.max_linear_speed
            (min-AtMost x settings.unitree_max_speed).1,
        (min-AtMost inner settings.max_linear_speed).1,
      )
