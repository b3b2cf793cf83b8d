-- ===== src/Safety/Motion/Bounds.antt =====
-- The bounds that a motion which passes the check keeps (robot_brain/safety/validator.py).
use robot_brain.Prelude.{
  ℕ, ◌≡◌, false, some, List, [], ◌∷◌, arith, string_eq, inl, inr, Option-cases,
}
use robot_brain.Prelude.Dict.{get}
use robot_brain.Core.Builtins.{Builtins}
use robot_brain.Core.World.{Position, WorldState, distance_to}
use robot_brain.Core.Calls.{number, points, Params}
use robot_brain.Core.Settings.{Settings}
use robot_brain.Safety.Motion.{passes, patrol_steps, patrol_motion, validate_motion}

module _ {B : Builtins} where
  -- No step from one position to the next exceeds the longest that the settings permit.
  abbrev pub Hops : Settings B → Position B → List (Position B) → Type 0
  Hops settings previous [] = Unit
  Hops settings previous (waypoint ∷ waypoints) =
      (B.lt settings.max_step_distance (distance_to previous waypoint) ≡ false)
      × Hops settings waypoint waypoints

  patrol_steps-Hops :
      (settings : Settings B) (p : Position B) (ws : List (Position B))
      → patrol_steps settings p ws ≡ passes
      → Hops settings p ws
  unfolding patrol_steps
  patrol_steps-Hops settings p [] h = tt
  patrol_steps-Hops settings p (w ∷ ws) h = ground (arith, patrol_steps-Hops settings w ws)

  -- A patrol that passes has a speed within the limit, and its waypoints, from the position of the
  -- robot on, are no longer steps apart than permitted.
  pub validate_motion_patrol :
      (settings : Settings B) (params : Params B) (now : ℕ) (world : WorldState B)
      → validate_motion settings "patrol" params now world ≡ passes
      → (speed : B.Float) × (waypoints : List (Position B)) × (get "speed" params
          ≡ some (number speed))
        × (get "waypoints" params ≡ some (points waypoints))
        × (B.lt settings.max_linear_speed speed ≡ false)
        × Hops settings world.position waypoints
  unfolding validate_motion patrol_motion
  validate_motion_patrol settings params now world h = elim (Option-cases (get "speed" params)) [
    | inl e ↦ absurd (ground arith)
    | inr (number speed, e) ↦ elim (Option-cases (get "waypoints" params)) [
      | inl f ↦ absurd (ground arith)
      | inr (points ws, f) ↦ (
        speed,
        ws,
        e,
        f,
        ground arith,
        patrol_steps-Hops settings world.position ws (ground arith),
      )
      | inr (v, f) ↦ absurd (ground arith)
    ]
    | inr (v, e) ↦ absurd (ground arith)
  ]
