-- ===== src/Navigation/Frontier/Reach.antt =====
-- The cells that the flood fill of robot_brain/navigation/frontier.py reaches.
use robot_brain.Prelude.{
  ℕ, zero, suc, ◌+◌, ◌<◌, ◌≤◌, true, false, ◌≡◌, refl, some, List, [], ◌∷◌, ◌++◌, not, ◌||◌, ◌⊎◌,
  inl, inr, ◌↔◌, Eq, ◌==◌, contains, length, keep, arith, length-append, Bool-cases, eq_self,
  eq_sound, subst, sym,
}
use robot_brain.Navigation.Grid.{GridCell, cell_eq}
use robot_brain.Navigation.Frontier.{visit, flood, neighbors4, reachable_free}

module _ {A : Type 0} ⦃e : Eq A⦄ where
  abbrev pub In : A → List A → Type 0
  In a xs = contains xs a ≡ true

  In-append_left : (a : A) (xs ys : List A) → In a xs → In a (xs ++ ys)
  In-append_left a [] ys h = cc
  In-append_left a (x ∷ xs) ys h = ground (arith, In-append_left a xs ys)

  In-append_last : (a : A) (xs : List A) → In a (xs ++ a ∷ [])
  In-append_last a [] = ground (arith, eq_self a)
  In-append_last a (x ∷ xs) = ground (arith, In-append_last a xs)

  In-append-cases : (a x : A) (xs : List A) → In a (xs ++ x ∷ []) → In a xs ⊎ (x ≡ a)
  In-append-cases a x [] h = inr (eq_sound x a (ground arith))
  In-append-cases a x (y ∷ ys) h = elim (Bool-cases (y == a)) [
    | inl p ↦ inl (ground (arith, p))
    | inr p ↦ elim (In-append-cases a x ys (ground (arith, p))) [
      | inl q ↦ inl (ground (arith, q))
      | inr q ↦ inr q
    ]
  ]

  -- The free cells, as often as listed, that are not reached.
  abbrev unseen : List A → List A → ℕ
  unseen reached free = length (keep (λ c. not (contains reached c)) free)

  unseen-cons : (a : A) (reached free : List A) → unseen (a ∷ reached) free ≤ unseen reached free
  unseen-cons a reached [] = omega arith
  unseen-cons a reached (x ∷ xs) = ground (arith, unseen-cons a reached xs)

  unseen-new :
      (a : A) (reached free : List A)
      → In a free
      → contains reached a ≡ false
      → unseen (a ∷ reached) free < unseen reached free
  unseen-new a reached [] h k = cc
  unseen-new a reached (x ∷ xs) h k = elim (Bool-cases (x == a)) [
    | inl p ↦
        subst (λ y. unseen (a ∷ reached) (y ∷ xs) < unseen reached (y ∷ xs)) (sym (eq_sound x a p))
          (ground (arith, eq_self a, unseen-cons a reached xs))
    | inr p ↦ ground (arith, p, unseen-new a reached xs)
  ]

  -- What the loop over the neighbours does.
  pub record Visited (free neighbors reached queue r q : List A) : Type 0 where
    pub grows : (c : A) → In c reached → In c r
    pub queues : (c : A) → In c queue → In c q
    pub covers : (c : A) → In c neighbors → In c free → In c r
    pub new : (c : A) → In c r → In c reached ⊎ In c q
    pub sound : (c : A) → In c r → In c reached ⊎ (In c neighbors × In c free)
    pub held : (c : A) → In c q → In c queue ⊎ In c r
    pub measure : unseen r free + length q ≤ unseen reached free + length queue

  module _ {free ns reached queue r q : List A} (n : A) where
    old-Visited :
        (contains reached n || not (contains free n)) ≡ true
        → Visited free ns reached queue r q
        → Visited free (n ∷ ns) reached queue r q
    old-Visited old v = record {
      grows = v.grows;
      queues = v.queues;
      covers = λ c h k. elim (Bool-cases (n == c)) [
        | inl p ↦
            let there : contains free n ≡ true = subst (λ x. In x free) (sym (eq_sound n c p)) k in
            v.grows c (subst (λ x. In x reached) (eq_sound n c p) (ground (arith, old, there)))
        | inr p ↦ v.covers c (ground (arith, h, p)) k
      ];
      new = v.new;
      sound = λ c h. elim (v.sound c h) [ inl k ↦ inl k | inr (k, l) ↦ inr (ground (arith, k), l) ];
      held = v.held;
      measure = v.measure;
    }

    new-Visited :
        contains reached n ≡ false
        → In n free
        → Visited free ns (n ∷ reached) (queue ++ n ∷ []) r q
        → Visited free (n ∷ ns) reached queue r q
    new-Visited fresh there v = record {
      grows = λ c h. v.grows c (ground (arith, h));
      queues = λ c h. v.queues c (In-append_left c queue (n ∷ []) h);
      covers = λ c h k. elim (Bool-cases (n == c)) [
        | inl p ↦ v.grows c (ground (arith, p))
        | inr p ↦ v.covers c (ground (arith, h, p)) k
      ];
      new = λ c h. elim (v.new c h) [
        | inl k ↦ elim (Bool-cases (n == c)) [
          | inl p ↦ inr (
              v.queues c
                (subst (λ x. In x (queue ++ n ∷ [])) (eq_sound n c p) (In-append_last n queue)))
          | inr p ↦ inl (ground (arith, k, p))
        ]
        | inr k ↦ inr k
      ];
      sound = λ c h. elim (v.sound c h) [
        | inl k ↦ elim (Bool-cases (n == c)) [
          | inl p ↦ inr (ground (arith, p), subst (λ x. In x free) (eq_sound n c p) there)
          | inr p ↦ inl (ground (arith, k, p))
        ]
        | inr (k, l) ↦ inr (ground (arith, k), l)
      ];
      held = λ c h. elim (v.held c h) [
        | inl k ↦ elim (In-append-cases c n queue k) [
          | inl l ↦ inl l
          | inr l ↦ inr (v.grows c (subst (λ x. In x (n ∷ reached)) l (ground (arith, eq_self n))))
        ]
        | inr k ↦ inr k
      ];
      measure = omega (
        arith,
        v.measure,
        unseen-new n reached free there fresh,
        length-append {0} queue (n ∷ []),
      );
    }

  visit-Visited :
      (free neighbors reached queue : List A)
      → (let (r, q) = visit free neighbors reached queue in
          Visited free neighbors reached queue r q)
  unfolding visit
  visit-Visited free [] reached queue = record {
    grows = λ c h. h;
    queues = λ c h. h;
    covers = λ c h k. cc;
    new = λ c h. inl h;
    sound = λ c h. inl h;
    held = λ c h. inl h;
    measure = omega arith;
  }
  visit-Visited free (n ∷ ns) reached queue =
      elim (Bool-cases (contains reached n || not (contains free n))) [
        | inl old ↦ rw (old, visit) (old-Visited n old (visit-Visited free ns reached queue))
        | inr new ↦
            rw (new, visit)
              (new-Visited n (ground (arith, new)) (ground (arith, new))
                (visit-Visited free ns (n ∷ reached) (queue ++ n ∷ [])))
      ]

  -- The cells that chains of free neighbours lead to.
  pub data Reachable (neighbors : A → List A) (free : List A) (start : A) : A → Type 0 where
    origin : Reachable neighbors free start start
    along :
        {c d : A}
        → Reachable neighbors free start c
        → In d (neighbors c)
        → In d free
        → Reachable neighbors free start d

  module _ (neighbors : A → List A) (free : List A) (start : A) where
    -- The free neighbours of a cell are all reached.
    abbrev IsClosed : List A → A → Type 0
    IsClosed reached c = (d : A) → In d (neighbors c) → In d free → In d reached

    -- Between two turns of the loop.
    record IsSound (reached queue : List A) : Type 0 where
      pub reaches : (c : A) → In c reached → Reachable neighbors free start c
      pub begins : In start reached
      pub closes : (c : A) → In c reached → In c queue ⊎ IsClosed reached c
      pub held : (c : A) → In c queue → In c reached

    turn-IsSound :
        (cell : A) (reached queue r q : List A)
        → Visited free (neighbors cell) reached queue r q
        → IsSound reached (cell ∷ queue)
        → IsSound r q
    turn-IsSound cell reached queue r q v s = record {
      reaches = λ c h. elim (v.sound c h) [
        | inl k ↦ s.reaches c k
        | inr (k, l) ↦ along (s.reaches cell (s.held cell (ground (arith, eq_self cell)))) k l
      ];
      begins = v.grows start s.begins;
      closes = λ c h. elim (v.new c h) [
        | inl k ↦ elim (s.closes c k) [
          | inl l ↦ elim (Bool-cases (cell == c)) [
            | inl p ↦ inr (subst (IsClosed r) (eq_sound cell c p) v.covers)
            | inr p ↦ inl (v.queues c (ground (arith, l, p)))
          ]
          | inr l ↦ inr (λ d m n. v.grows d (l d m n))
        ]
        | inr k ↦ inl k
      ];
      held =
          λ c h. elim (v.held c h) [ inl k ↦ v.grows c (s.held c (ground (arith, k))) | inr k ↦ k ];
    }

    flood-IsSound :
        (fuel : ℕ) (reached queue : List A)
        → IsSound reached queue
        → unseen reached free + length queue < fuel
        → (found : List A) × (flood neighbors fuel free reached queue ≡ some found)
          × IsSound found []
    unfolding flood
    flood-IsSound zero reached queue s h = absurd (omega arith)
    flood-IsSound (suc fuel) reached [] s h = (reached, refl, s)
    flood-IsSound (suc fuel) reached (cell ∷ queue) s h =
        let v = visit-Visited free (neighbors cell) reached queue in
        flood-IsSound fuel _ _ (turn-IsSound cell reached queue _ _ v s) (omega (arith, v.measure))

    found-all :
        {found : List A} {c : A} → IsSound found [] → Reachable neighbors free start c → In c found
    found-all s origin = s.begins
    found-all s (along {c} {d} r h k) = elim (s.closes c (found-all s r)) [
      | inl l ↦ cc
      | inr closed ↦ closed d h k
    ]

    unseen-le-length : (reached xs : List A) → unseen reached xs ≤ length xs
    unseen-le-length reached [] = omega arith
    unseen-le-length reached (x ∷ xs) = ground (arith, unseen-le-length reached xs)

    first-IsSound : IsSound (start ∷ []) (start ∷ [])
    first-IsSound = record {
      reaches = λ c h.
          subst (Reachable neighbors free start) (eq_sound start c (ground (arith, h))) origin;
      begins = ground (arith, eq_self start);
      closes = λ c h. inl h;
      held = λ c h. h;
    }

    flood_lem :
        (found : List A) × (flood neighbors (length free + 2) free (start ∷ []) (start ∷ [])
          ≡ some found)
        × ((c : A) → In c found ↔ Reachable neighbors free start c)
    flood_lem =
        let (found, e, s) =
          flood-IsSound (length free + 2) (start ∷ []) (start ∷ []) first-IsSound
            (omega (arith, unseen-le-length (start ∷ []) free)) in
        (found, e, λ c. (s.reaches c, found-all s))

-- The flood fill ends within its fuel, and finds exactly the cells to which chains of known free cells,
-- each beside the one before, lead from the start.
pub reachable_free_lem :
    (free : List GridCell) (start : GridCell)
    → (found : List GridCell) × (reachable_free free start ≡ some found)
      × ((c : GridCell) → In c found ↔ Reachable neighbors4 free start c)
unfolding reachable_free
reachable_free_lem free start = flood_lem neighbors4 free start
