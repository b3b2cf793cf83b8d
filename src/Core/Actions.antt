-- ===== src/Core/Actions.antt =====
-- Code over a state that may raise: an exception leaves the state as it is when it is raised.
use robot_brain.Prelude.{
  Bool, Option, some, none, true, false, ◌≡◌, String, inl, inr, arith, refl, if◌then◌else◌,
}
use robot_brain.Core.Results.{Result, ok, raise, Result-cases}

abbrev pub Action : Type 0 → Type 0 → Type 0
Action S A = S → Result A × S

module _ {S A : Type 0} where
  unfoldable pub pure : A → Action S A
  pure a s = (ok a, s)

  unfoldable pub throw : String → Action S A
  throw t s = (raise t, s)

module _ {S A C : Type 0} where
  infixl 5 ◌>>=◌
  unfoldable pub ◌>>=◌ : Action S A → (A → Action S C) → Action S C
  ◌>>=◌ m f s = let (r, s') = m s in elim r [ ok a ↦ f a s' | raise t ↦ (raise t, s') ]

  -- `try: m` with a handler for its exception, and what follows otherwise.
  unfoldable pub try : Action S A → (A → Action S C) → (String → Action S C) → Action S C
  try m f handler s = let (r, s') = m s in elim r [ ok a ↦ f a s' | raise t ↦ handler t s' ]

module _ {S C : Type 0} where
  infixl 5 ◌>>◌
  abbrev pub ◌>>◌ : Action S (Unit {0}) → Action S C → Action S C
  m >> n = m >>= λ _. n

module _ {S F A : Type 0} where
  -- What is done with a value that may be missing.
  unfoldable pub if_some : Option F → (F → Action S A) → Action S A → Action S A
  if_some none f otherwise = otherwise
  if_some (some x) f otherwise = f x

module _ {S : Type 0} where
  unfoldable pub get_state : Action S S
  get_state s = (ok s, s)

  unfoldable pub modify : (S → S) → Action S (Unit {0})
  modify f s = (ok tt, f s)

-- Code that keeps a property of the state, whether it returns or raises.
pub record Keeps {S : Type 0} (Q : S → Type 0) {A : Type 0} (m : Action S A) : Type 0 where
  pub apply : (s : S) → Q s → Q (m s).1

-- One run of `try`.
pub try-run :
    {S A C : Type 0} (Q : S → Type 0) (m : Action S A) (f : A → Action S C)
    (handler : String → Action S C) (s : S)
    → ((a : A) → (m s).0 ≡ ok a → Q (f a (m s).1).1)
    → ((t : String) → (m s).0 ≡ raise t → Q (handler t (m s).1).1)
    → Q (try m f handler s).1
unfolding try
try-run Q m f handler s h k = elim (Result-cases (m s).0) [
  | inl (a, e) ↦ ground (arith, e, h a e)
  | inr (t, e) ↦ ground (arith, e, k t e)
]

module _ {S : Type 0} {Q : S → Type 0} where
  pub try-Keeps :
      {A C : Type 0} {m : Action S A} {f : A → Action S C} {handler : String → Action S C}
      → Keeps Q m
      → ((a : A) → Keeps Q (f a))
      → ((t : String) → Keeps Q (handler t))
      → Keeps Q (try m f handler)
  unfolding try
  try-Keeps {m} h k l = record {
    apply = λ s q. elim (Result-cases (m s).0) [
      | inl (a, e) ↦ ground (arith, e, (k a).apply (m s).1 (h.apply s q))
      | inr (t, e) ↦ ground (arith, e, (l t).apply (m s).1 (h.apply s q))
    ];
  }

  pub bind-Keeps :
      {A C : Type 0} {m : Action S A} {f : A → Action S C}
      → Keeps Q m
      → ((a : A) → Keeps Q (f a))
      → Keeps Q (m >>= f)
  unfolding ◌>>=◌
  bind-Keeps {m} h k = record {
    apply = λ s q. elim (Result-cases (m s).0) [
      | inl (a, e) ↦ ground (arith, e, (k a).apply (m s).1 (h.apply s q))
      | inr (t, e) ↦ ground (arith, e, h.apply s q)
    ];
  }

  pub seq-Keeps :
      {A C : Type 0} {m : Action S A} {n : Action S C}
      → Keeps Q m
      → Keeps Q n
      → Keeps Q (m >>= λ _. n)
  seq-Keeps h k = bind-Keeps h (λ _. k)

  pub pure-Keeps : {A : Type 0} (a : A) → Keeps Q (pure a)
  unfolding pure
  pure-Keeps a = record { apply = λ s q. q }

  pub throw-Keeps : {A : Type 0} (t : String) → Keeps Q (throw {A = A} t)
  unfolding throw
  throw-Keeps t = record { apply = λ s q. q }

  pub get_state-Keeps : Keeps Q get_state
  unfolding get_state
  get_state-Keeps = record { apply = λ s q. q }

  pub modify-Keeps : (f : S → S) → ((s : S) → Q s → Q (f s)) → Keeps Q (modify f)
  unfolding modify
  modify-Keeps f h = record { apply = h }

  -- A test of the code, whose answer each branch may use.
  pub if-Keeps :
      {A : Type 0} (b : Bool) {m n : Action S A}
      → (b ≡ true → Keeps Q m)
      → (b ≡ false → Keeps Q n)
      → Keeps Q (if b then m else n)
  if-Keeps true h k = h refl
  if-Keeps false h k = k refl

  pub if_some-Keeps :
      {F A : Type 0} {o : Option F} {f : F → Action S A} {n : Action S A}
      → ((x : F) → o ≡ some x → Keeps Q (f x))
      → (o ≡ none → Keeps Q n)
      → Keeps Q (if_some o f n)
  unfolding if_some
  if_some-Keeps {o = none} h k = k refl
  if_some-Keeps {o = some x} h k = h x refl
