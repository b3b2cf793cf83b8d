-- ===== src/Navigation/Grid.antt =====
-- The cells and the grid of robot_brain/navigation/grid.py. A frozen set is the list of its elements;
-- the costs of the cells are left out.
use robot_brain.Prelude.{
  ◌+◌, Bool, true, ◌≡◌, ◌↔◌, ℤ, pos, String, List, not, ◌&&◌, ◌||◌, Eq, int_eq, beq_ℤ, beq_ℤ_iff,
  leb_ℤ, ltb_ℤ, contains, arith, sub_ℕ, pos_part, neg_part,
}
use robot_brain.Core.Builtins.{Builtins}

abbrev pub GridCell : Type 0
GridCell = ℤ × ℤ

abbrev pub cell_beq : GridCell → GridCell → Bool
cell_beq (a, b) (c, d) = beq_ℤ a c && beq_ℤ b d

pub cell_beq_iff : (p q : GridCell) → (cell_beq p q ≡ true) ↔ (p ≡ q)
cell_beq_iff (a, b) (c, d) = ground (arith, beq_ℤ_iff a c, beq_ℤ_iff b d)

instance abbrev pub cell_eq : Eq GridCell
cell_eq = record { beq = cell_beq; beq_iff = cell_beq_iff }

-- `a + b` of integers.
abbrev pub add_ℤ : ℤ → ℤ → ℤ
add_ℤ a b = sub_ℕ (pos_part a + pos_part b) (neg_part a + neg_part b)

pub record OccupancyGrid2D (B : Builtins) : Type 0 where
  pub resolution_m : B.Float
  pub width : ℤ
  pub height : ℤ
  pub origin_x_m : B.Float
  pub origin_y_m : B.Float
  pub occupied : List GridCell
  pub raw_occupied : List GridCell
  pub known_free : List GridCell
  pub frame_id : String

module _ {B : Builtins} (grid : OccupancyGrid2D B) where
  abbrev pub inside : GridCell → Bool
  inside (col, row) =
      leb_ℤ (pos 0) col && ltb_ℤ col grid.width && (leb_ℤ (pos 0) row && ltb_ℤ row grid.height)

  unfoldable pub blocked : GridCell → Bool
  blocked cell = not (inside cell) || contains grid.occupied cell

  unfoldable pub cell_to_world : GridCell → B.Float × B.Float
  cell_to_world (col, row) = (
    B.add grid.origin_x_m (B.mul (B.add (B.of_int col) (B.decimal 5 1)) grid.resolution_m),
    B.add grid.origin_y_m (B.mul (B.add (B.of_int row) (B.decimal 5 1)) grid.resolution_m),
  )
