-- ===== src/Core/Builtins.antt =====
-- What the model takes from Python as it is: floats, and the printing and case mapping of texts. No
-- law is assumed, so that what is proved holds for NaN, infinities and rounding too; a theorem that
-- needs a law takes it as a hypothesis.
use robot_brain.Prelude.{ℕ, Bool, String, ℤ, Option}

pub record Builtins : Type 1 where
  pub Float : Type 0
  -- The literal m / 10 ^ k.
  pub decimal : ℕ → ℕ → Float
  pub neg : Float → Float
  pub add : Float → Float → Float
  pub sub : Float → Float → Float
  pub mul : Float → Float → Float
  -- `x / y` for a `y` that is not zero, and Python's `%`.
  pub div : Float → Float → Float
  pub mod_float : Float → Float → Float
  -- `math.cos`, `math.sin`, `math.radians`, `math.degrees` and `math.hypot`.
  pub cos : Float → Float
  pub sin : Float → Float
  pub radians : Float → Float
  pub degrees : Float → Float
  pub hypot : Float → Float → Float
  -- `not x` and `float(n)`.
  pub is_zero : Float → Bool
  pub of_int : ℤ → Float
  -- `int(x)` of a finite number; `math.floor(x / y)`, where `none` is its exception: a division by
  -- zero, an infinity or NaN.
  pub truncate : Float → ℤ
  pub floor_div : Float → Float → Option ℤ
  -- `x ** 2` and `x ** 0.5`.
  pub square : Float → Float
  pub root : Float → Float
  -- `<` and `<=`.
  pub lt : Float → Float → Bool
  pub le : Float → Float → Bool
  -- `timedelta.total_seconds` of a number of microseconds.
  pub total_seconds : ℤ → Float
  -- The formats `:.0f`, `:.1f` and `:.2f`, `str` of an integer and `str.lower`.
  pub show_0 : Float → String
  pub show_1 : Float → String
  pub show_2 : Float → String
  pub show_int : ℤ → String
  pub lower : String → String
