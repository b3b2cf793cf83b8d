-- ===== src/Orchestration/Hoare.antt =====
-- Triples for the code over `Context`: `Q` holds of the outside before and after, also when the code
-- raises; `P` before and `R` of the result after. The clauses leave out what cannot be raised from.
use robot_brain.Prelude.{arith}
use robot_brain.Core.Builtins.{Builtins}
use robot_brain.Core.Results.{Result, ok, raise}
use robot_brain.Orchestration.Context.{Context, M, ◌>>=◌, outside}

-- Nothing is said of the result.
module _ {B : Builtins} {E A : Type 0} where
  abbrev pub Any : A → Context B E → Type 0
  Any a c = Unit

module _ {B : Builtins} {E : Type 0} (Q : E → Type 0) where
  abbrev pub Holds : {A : Type 0} → (A → Context B E → Type 0) → Result A → Context B E → Type 0
  Holds R (ok a) c = Q c.env × R a c
  Holds R (raise t) c = Q c.env

  abbrev pub Triple :
      {A : Type 0} → (Context B E → Type 0) → M B E A → (A → Context B E → Type 0) → Type 0
  Triple P m R = (c : Context B E) → Q c.env → P c → Holds R (m c).0 (m c).1

  pub Holds-bind :
      {A C : Type 0} (R : A → Context B E → Type 0) (S : C → Context B E → Type 0) (f : A → M B E C)
      (r : Result A) (c : Context B E)
      → Holds R r c
      → ((a : A) → Triple (R a) (f a) S)
      → (let m : M B E A = λ _. (r, c) in Holds S ((m >>= f) c).0 ((m >>= f) c).1)
  Holds-bind R S f (ok a) c h k = k a c h.0 h.1
  Holds-bind R S f (raise t) c h k = h

  pub Triple-bind :
      {A C : Type 0} {P : Context B E → Type 0} (R : A → Context B E → Type 0)
      (S : C → Context B E → Type 0) (m : M B E A) (f : A → M B E C)
      → Triple P m R
      → ((a : A) → Triple (R a) (f a) S)
      → Triple P (m >>= f) S
  Triple-bind R S m f h k c q p = Holds-bind R S f (m c).0 (m c).1 (h c q p) k

  Holds-weaken :
      {A : Type 0} (R S : A → Context B E → Type 0) (r : Result A) (c : Context B E)
      → ((a : A) → R a c → S a c)
      → Holds R r c
      → Holds S r c
  Holds-weaken R S (ok a) c f h = (h.0, f a h.1)
  Holds-weaken R S (raise t) c f h = h

  pub Triple-weaken :
      {A : Type 0} {P : Context B E → Type 0} (R S : A → Context B E → Type 0) (m : M B E A)
      → ((a : A) (c : Context B E) → R a c → S a c)
      → Triple P m R
      → Triple P m S
  Triple-weaken R S m f h c q p = Holds-weaken R S (m c).0 (m c).1 (λ a r. f a (m c).1 r) (h c q p)

  pub Triple-outside :
      {A : Type 0} (action : E → Result A × E)
      → ((e : E) → Q e → Q (action e).1)
      → Triple (λ _. Unit) (outside action) Any
  Triple-outside action k c q p = ground (arith, k c.env q)

  -- The final state of a run that keeps `Q`, whatever it returns.
  pub Holds-env :
      {A : Type 0} (R : A → Context B E → Type 0) (r : Result A) (c : Context B E)
      → Holds R r c
      → Q c.env
  Holds-env R (ok a) c h = h.0
  Holds-env R (raise t) c h = h
