-- ===== src/Navigation/Topology/Keys.antt =====
-- The nodes under their ids (robot_brain/navigation/topology.py).
use robot_brain.Prelude.{
  true, false, ◌≡◌, refl, String, Option, none, some, [], ◌∷◌, ◌==◌, string_eq, arith, Bool-cases,
  inl, inr, eq_sound, sym, ◌∙◌, ap,
}
use robot_brain.Prelude.Dict.{get, put, remove, has, get-remove, has-put}
use robot_brain.Core.Builtins.{Builtins}
use robot_brain.Navigation.Topology.{
  TopologyLandmark, TopologyNode, Nodes, map_nodes, forget, join, remove_landmark,
}

module _ {B : Builtins} where
  abbrev pub map_option :
      (TopologyNode B → TopologyNode B) → Option (TopologyNode B) → Option (TopologyNode B)
  map_option f none = none
  map_option f (some n) = some (f n)

  pub get-map_nodes :
      (f : TopologyNode B → TopologyNode B) (k : String) (nodes : Nodes B)
      → get k (map_nodes f nodes) ≡ map_option f (get k nodes)
  unfolding map_nodes get
  get-map_nodes f k [] = refl
  get-map_nodes f k ((j, n) ∷ nodes) = elim (Bool-cases (j == k)) [
    | inl e ↦ ground (arith, e)
    | inr e ↦ ground (arith, e, get-map_nodes f k nodes)
  ]

  -- Every node stands under the id of its landmark, once.
  abbrev pub Keyed : Nodes B → Type 0
  Keyed [] = Unit
  Keyed ((k, n) ∷ nodes) = (n.landmark.landmark_id ≡ k) × (has k nodes ≡ false) × Keyed nodes

  has-remove :
      (k j : String) (nodes : Nodes B) → has k nodes ≡ false → has k (remove j nodes) ≡ false
  unfolding has remove
  has-remove k j [] h = refl
  has-remove k j ((i, n) ∷ nodes) h = ground (arith, has-remove k j nodes)

  has-map_nodes :
      (f : TopologyNode B → TopologyNode B) (k : String) (nodes : Nodes B)
      → has k (map_nodes f nodes) ≡ has k nodes
  unfolding has map_nodes
  has-map_nodes f k [] = refl
  has-map_nodes f k ((i, n) ∷ nodes) = ground (arith, has-map_nodes f k nodes)

  pub remove-Keyed : (j : String) (nodes : Nodes B) → Keyed nodes → Keyed (remove j nodes)
  unfolding remove
  remove-Keyed j [] h = tt
  remove-Keyed j ((i, n) ∷ nodes) h = elim (Bool-cases (i == j)) [
    | inl e ↦ rw (e, remove) (remove-Keyed j nodes h.2)
    | inr e ↦ rw (e, remove) (h.0, has-remove i j nodes h.1, remove-Keyed j nodes h.2)
  ]

  pub map_nodes-Keyed :
      (f : TopologyNode B → TopologyNode B) (nodes : Nodes B)
      → ((n : TopologyNode B) → (f n).landmark ≡ n.landmark)
      → Keyed nodes
      → Keyed (map_nodes f nodes)
  unfolding map_nodes
  map_nodes-Keyed f [] same h = tt
  map_nodes-Keyed f ((i, n) ∷ nodes) same h = (
    ap (λ l. l.landmark_id) (same n) ∙ h.0,
    has-map_nodes f i nodes ∙ h.1,
    map_nodes-Keyed f nodes same h.2,
  )

  pub put-Keyed :
      (k : String) (v : TopologyNode B) (nodes : Nodes B)
      → v.landmark.landmark_id ≡ k
      → Keyed nodes
      → Keyed (put k v nodes)
  unfolding put has
  put-Keyed k v [] e h = (e, refl, tt)
  put-Keyed k v ((i, n) ∷ nodes) e h = elim (Bool-cases (i == k)) [
    | inl f ↦ rw (f, put) (e ∙ sym (eq_sound i k f), h.1, h.2)
    | inr f ↦
        rw (f, put)
          (
            h.0,
            ground
                (arith, has-put k i v nodes, h.1, f, string_eq.beq_iff i k, string_eq.beq_iff k i),
            put-Keyed k v nodes e h.2,
          )
  ]

  pub join-landmark :
      (max_edge : B.Float) (new : TopologyLandmark B) (n : TopologyNode B)
      → (join max_edge new n).landmark ≡ n.landmark
  join-landmark max_edge new n = ground arith

  pub get-remove_landmark :
      (id b : String) (nodes : Nodes B) → (id == b) ≡ true → get b (remove_landmark id nodes) ≡ none
  unfolding remove_landmark
  get-remove_landmark id b nodes e =
      ground (arith, e, get-map_nodes (forget id) b (remove id nodes), get-remove id b nodes)

  pub remove_landmark-Keyed :
      (id : String) (nodes : Nodes B) → Keyed nodes → Keyed (remove_landmark id nodes)
  unfolding remove_landmark
  remove_landmark-Keyed id nodes h =
      map_nodes-Keyed (forget id) (remove id nodes) (λ n. refl) (remove-Keyed id nodes h)
