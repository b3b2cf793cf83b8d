-- ===== src/Navigation/Topology/Symmetry.antt =====
-- The edges of the graph of robot_brain/navigation/topology.py.
use robot_brain.Prelude.{
  true, false, ◌≡◌, refl, String, Option, none, some, List, [], ◌∷◌, ◌==◌, string_eq, if◌then◌else◌,
  arith, Bool-cases, Option-cases, inl, inr, eq_sound, sym, subst,
}
use robot_brain.Prelude.Dict.{Dict, get, put, remove, get-put, get-remove, get-has}
use robot_brain.Core.Builtins.{Builtins}
use robot_brain.Navigation.Topology.{
  TopologyLandmark, TopologyNode, Nodes, distance, joins, map_nodes, forget, join, remove_landmark,
  links, add,
}
use robot_brain.Navigation.Topology.Keys.{
  get-map_nodes, Keyed, map_nodes-Keyed, put-Keyed, join-landmark, remove_landmark-Keyed,
  get-remove_landmark,
}

-- A change of the graph.
pub data Change (B : Builtins) : Type 0 where
  adds : TopologyLandmark B → Change B
  removes : String → Change B

module _ {B : Builtins} where
  -- The distance that the first landmark's node gives for the second.
  abbrev neighbor : String → Option (TopologyNode B) → Option B.Float
  neighbor b none = none
  neighbor b (some n) = get b n.neighbors

  abbrev pub edge : String → String → Nodes B → Option B.Float
  edge a b nodes = neighbor b (get a nodes)

  -- The edges go both ways with one distance, so that the node of every neighbour is there.
  pub record IsGraph (nodes : Nodes B) : Type 0 where
    pub keyed : Keyed nodes
    pub symmetric : (a b : String) → edge a b nodes ≡ edge b a nodes

  edge-remove_landmark :
      (id a b : String) (nodes : Nodes B)
      → edge a b (remove_landmark id nodes)
        ≡ (if id == a then none else if id == b then none else edge a b nodes)
  unfolding remove_landmark
  edge-remove_landmark id a b nodes = elim (Bool-cases (id == a)) [
    | inl e ↦
        ground (arith, e, get-map_nodes (forget id) a (remove id nodes), get-remove id a nodes)
    | inr e ↦ elim (Option-cases (get a nodes)) [
      | inl f ↦
          ground (arith, e, f, get-map_nodes (forget id) a (remove id nodes), get-remove id a nodes)
      | inr (n, f) ↦ ground (
        arith,
        e,
        f,
        get-map_nodes (forget id) a (remove id nodes),
        get-remove id a nodes,
        get-remove id b n.neighbors,
      )
    ]
  ]

  -- The distance to a node that the new landmark is joined to, if it is.
  abbrev link :
      B.Float → TopologyLandmark B → Option (TopologyNode B) → Option B.Float → Option B.Float
  link max_edge new none other = other
  link max_edge new (some n) other =
      if joins max_edge new n.landmark then some (distance new n.landmark) else other

  get-links :
      (max_edge : B.Float) (new : TopologyLandmark B) (b : String) (nodes : Nodes B)
      (found : Dict String B.Float)
      → Keyed nodes
      → get b (links max_edge new nodes found) ≡ link max_edge new (get b nodes) (get b found)
  unfolding links get
  get-links max_edge new b [] found h = refl
  get-links max_edge new b ((k, n) ∷ nodes) found h =
      let d = distance new n.landmark in
      let found' : Dict String B.Float =
        if joins max_edge new n.landmark then put n.landmark.landmark_id d found else found in
      let step = get-links max_edge new b nodes found' h.2 in
      elim (Bool-cases (k == b)) [
        | inl e ↦
            let gone : get b nodes ≡ none =
              subst (λ x. get x nodes ≡ none) (eq_sound k b e) (get-has k nodes h.1) in
            let here : (n.landmark.landmark_id == b) ≡ true =
              subst (λ x. (x == b) ≡ true) (sym h.0) e in
            ground (arith, e, gone, here, step, get-put n.landmark.landmark_id b d found)
        | inr e ↦
            let away : (n.landmark.landmark_id == b) ≡ false =
              subst (λ x. (x == b) ≡ false) (sym h.0) e in
            ground (arith, e, away, step, get-put n.landmark.landmark_id b d found)
      ]

  module _ (max_edge : B.Float) (new : TopologyLandmark B) where
    abbrev id : String
    id = new.landmark_id

    edge-add :
        (a b : String) (nodes : Nodes B)
        → Keyed nodes
        → (let others = remove_landmark id nodes in
            edge a b (add max_edge new nodes) ≡ (
              if id == a
              then (if id == b then none else link max_edge new (get b others) none)
              else if id == b
              then link max_edge new (get a others) none
              else edge a b others))
    unfolding add get
    edge-add a b nodes h =
        let others = remove_landmark id nodes in
        let node : TopologyNode B = record {
          landmark = new;
          neighbors = links max_edge new others [];
        } in
        let stored = get-put id a node (map_nodes (join max_edge new) others) in
        let mapped = get-map_nodes (join max_edge new) a others in
        let linked = get-links max_edge new b others [] (remove_landmark-Keyed id nodes h) in
        let removed = edge-remove_landmark id a b nodes in
        elim (Bool-cases (id == a)) [
          | inl e ↦ elim (Bool-cases (id == b)) [
            | inl f ↦ ground (arith, e, f, stored, linked, get-remove_landmark id b nodes)
            | inr f ↦ ground (arith, e, f, stored, linked)
          ]
          | inr e ↦ elim (Option-cases (get a others)) [
            | inl g ↦ ground (arith, e, g, stored, mapped)
            | inr (n, g) ↦ ground (
              arith,
              e,
              g,
              stored,
              mapped,
              removed,
              get-put id b (distance new n.landmark) n.neighbors,
            )
          ]
        ]

    add-Keyed : (nodes : Nodes B) → Keyed nodes → Keyed (add max_edge new nodes)
    unfolding add
    add-Keyed nodes h =
        put-Keyed id _ (map_nodes (join max_edge new) (remove_landmark id nodes)) refl (
          map_nodes-Keyed (join max_edge new) (remove_landmark id nodes)
            (join-landmark max_edge new) (remove_landmark-Keyed id nodes h))

    add-IsGraph : (nodes : Nodes B) → IsGraph nodes → IsGraph (add max_edge new nodes)
    add-IsGraph nodes g = record {
      keyed = add-Keyed nodes g.keyed;
      symmetric = λ a b.
          let others = remove_landmark id nodes in
          ground (
            arith,
            edge-add a b nodes g.keyed,
            edge-add b a nodes g.keyed,
            edge-remove_landmark id a b nodes,
            edge-remove_landmark id b a nodes,
            g.symmetric a b,
          );
    }

  remove_landmark-IsGraph :
      (id : String) (nodes : Nodes B) → IsGraph nodes → IsGraph (remove_landmark id nodes)
  remove_landmark-IsGraph id nodes g = record {
    keyed = remove_landmark-Keyed id nodes g.keyed;
    symmetric = λ a b. ground (
      arith,
      edge-remove_landmark id a b nodes,
      edge-remove_landmark id b a nodes,
      g.symmetric a b,
    );
  }

  unfoldable pub changed : B.Float → List (Change B) → Nodes B → Nodes B
  changed max_edge [] nodes = nodes
  changed max_edge (adds l ∷ cs) nodes = changed max_edge cs (add max_edge l nodes)
  changed max_edge (removes id ∷ cs) nodes = changed max_edge cs (remove_landmark id nodes)

  empty : IsGraph []
  unfolding get
  empty = record { keyed = tt; symmetric = λ a b. refl }

  changed_from-IsGraph :
      (max_edge : B.Float) (cs : List (Change B)) (nodes : Nodes B)
      → IsGraph nodes
      → IsGraph (changed max_edge cs nodes)
  unfolding changed
  changed_from-IsGraph max_edge [] nodes g = g
  changed_from-IsGraph max_edge (adds l ∷ cs) nodes g =
      changed_from-IsGraph max_edge cs (add max_edge l nodes) (add-IsGraph max_edge l nodes g)
  changed_from-IsGraph max_edge (removes id ∷ cs) nodes g =
      changed_from-IsGraph max_edge cs (remove_landmark id nodes)
        (remove_landmark-IsGraph id nodes g)

  -- However a graph is built up from nothing by adding and removing landmarks: each node stands under
  -- the id of its landmark, once, and what it gives as the distance to a neighbour, the neighbour's
  -- node, which is there, gives too.
  pub changed-IsGraph :
      (max_edge : B.Float) (cs : List (Change B)) → IsGraph (changed max_edge cs [])
  changed-IsGraph max_edge cs = changed_from-IsGraph max_edge cs [] empty
