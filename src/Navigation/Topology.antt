-- ===== src/Navigation/Topology.antt =====
-- `TopologyGraph` of robot_brain/navigation/topology.py: landmarks with the distances to their
-- neighbours.
pub mod Keys
pub mod Symmetry
use robot_brain.Prelude.{
  Bool, true, false, String, Option, none, some, List, [], ◌∷◌, ◌&&◌, ◌==◌, string_eq,
  if◌then◌else◌,
}
use robot_brain.Prelude.Dict.{Dict, get, put, remove}
use robot_brain.Core.Builtins.{Builtins}

pub record TopologyLandmark (B : Builtins) : Type 0 where
  pub landmark_id : String
  pub name : String
  pub x_m : B.Float
  pub y_m : B.Float
  pub kind : String
  pub frame_id : String
  pub map_id : Option String

pub record TopologyNode (B : Builtins) : Type 0 where
  pub landmark : TopologyLandmark B
  pub neighbors : Dict String B.Float

abbrev pub Nodes : Builtins → Type 0
Nodes B = Dict String (TopologyNode B)

-- `==` on texts that may be missing.
unfoldable pub same_text : Option String → Option String → Bool
same_text none none = true
same_text (some a) (some b) = a == b
same_text _ _ = false

module _ {B : Builtins} where
  unfoldable pub same_space : TopologyLandmark B → TopologyLandmark B → Bool
  unfolding same_text
  same_space left right = left.frame_id == right.frame_id && same_text left.map_id right.map_id

  unfoldable pub distance : TopologyLandmark B → TopologyLandmark B → B.Float
  distance new old = B.hypot (B.sub new.x_m old.x_m) (B.sub new.y_m old.y_m)

  -- Whether the new landmark is joined to another.
  unfoldable pub joins : B.Float → TopologyLandmark B → TopologyLandmark B → Bool
  unfolding same_space distance
  joins max_edge new old = same_space new old && B.lt (distance new old) max_edge

  -- A change of every node.
  unfoldable pub map_nodes : (TopologyNode B → TopologyNode B) → Nodes B → Nodes B
  map_nodes f [] = []
  map_nodes f ((k, n) ∷ nodes) = (k, f n) ∷ map_nodes f nodes

  abbrev pub forget : String → TopologyNode B → TopologyNode B
  forget id node = record node { neighbors = remove id node.neighbors }

  unfoldable pub remove_landmark : String → Nodes B → Nodes B
  unfolding map_nodes
  remove_landmark id nodes = map_nodes (forget id) (remove id nodes)

  -- What the loop of `add` writes into an existing node, and into the new one.
  abbrev pub join : B.Float → TopologyLandmark B → TopologyNode B → TopologyNode B
  join max_edge new node =
      if joins max_edge new node.landmark
      then record node {
        neighbors = put new.landmark_id (distance new node.landmark) node.neighbors;
      }
      else node

  unfoldable pub links :
      B.Float → TopologyLandmark B → Nodes B → Dict String B.Float → Dict String B.Float
  links max_edge new [] found = found
  links max_edge new ((k, node) ∷ nodes) found = links max_edge new nodes (
      if joins max_edge new node.landmark
      then put node.landmark.landmark_id (distance new node.landmark) found
      else found)

  unfoldable pub add : B.Float → TopologyLandmark B → Nodes B → Nodes B
  unfolding remove_landmark map_nodes links joins distance
  add max_edge landmark nodes =
      let others = remove_landmark landmark.landmark_id nodes in
      put landmark.landmark_id
        (record { landmark = landmark; neighbors = links max_edge landmark others [] })
        (map_nodes (join max_edge landmark) others)

  unfoldable pub rebuild : B.Float → List (TopologyLandmark B) → Nodes B → Nodes B
  unfolding add
  rebuild max_edge [] nodes = nodes
  rebuild max_edge (l ∷ ls) nodes = rebuild max_edge ls (add max_edge l nodes)
