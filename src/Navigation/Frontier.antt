-- ===== src/Navigation/Frontier.antt =====
-- The flood fill and the components of robot_brain/navigation/frontier.py, over any cells with
-- neighbours. A queue is a list that grows at its end; a set is a list without order.
pub mod Reach
use robot_brain.Prelude.{
  ℕ, zero, suc, ◌+◌, Bool, true, false, ℤ, pos, negsuc, Option, none, some, List, [], ◌∷◌, ◌++◌,
  not, ◌||◌, ◌&&◌, Eq, if◌then◌else◌, contains, length, any, keep,
}
use robot_brain.Core.Builtins.{Builtins}
use robot_brain.Navigation.Grid.{GridCell, cell_eq, add_ℤ, OccupancyGrid2D, blocked}

module _ {A : Type 0} ⦃e : Eq A⦄ where
  -- The loop over the neighbours of a cell.
  unfoldable pub visit : List A → List A → List A → List A → List A × List A
  visit free [] reached queue = (reached, queue)
  visit free (neighbor ∷ neighbors) reached queue =
      let old = contains reached neighbor || not (contains free neighbor) in
      visit free neighbors (if old then reached else neighbor ∷ reached)
        (if old then queue else queue ++ neighbor ∷ [])

  -- The loop over the queue: `none` if the fuel runs out.
  unfoldable pub flood : (A → List A) → ℕ → List A → List A → List A → Option (List A)
  unfolding visit
  flood neighbors zero free reached queue = none
  flood neighbors (suc fuel) free reached [] = some reached
  flood neighbors (suc fuel) free reached (cell ∷ queue) =
      let (r, q) = visit free (neighbors cell) reached queue in flood neighbors fuel free r q

abbrev one : ℤ
one = pos 1

abbrev minus_one : ℤ
minus_one = negsuc 0

unfoldable pub neighbors4 : GridCell → List GridCell
neighbors4 (x, y) =
    (add_ℤ x minus_one, y) ∷ (add_ℤ x one, y) ∷ (x, add_ℤ y minus_one) ∷ (x, add_ℤ y one) ∷ []

-- Each cell enters the queue once: this is enough fuel.
unfoldable pub reachable_free : List GridCell → GridCell → Option (List GridCell)
unfolding flood neighbors4
reachable_free free start = flood neighbors4 (length free + 2) free (start ∷ []) (start ∷ [])

-- The reached cells beside an unknown one, which begin a frontier.
unfoldable pub candidates : {B : Builtins} → OccupancyGrid2D B → List GridCell → List GridCell
unfolding neighbors4 blocked
candidates grid reachable =
    keep
      (λ cell.
        any
          (λ neighbor.
            not (contains grid.known_free neighbor)
            && (not (contains grid.occupied neighbor) && not (blocked grid neighbor)))
          (neighbors4 cell))
      reachable
