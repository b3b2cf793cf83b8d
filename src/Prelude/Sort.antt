-- ===== src/Prelude/Sort.antt =====
-- `sorted(xs, key=...)`: a stable insertion sort by a Boolean order, and the order of texts, which
-- Python compares by code point.
use Prim.Native.Char.{code}
use Prim.Native.String.{String}
use mathlib.Core.Path.{◌≡◌, refl}
use mathlib.Core.Logic.{inl, inr}
use mathlib.Core.Bool.{Bool, true, false, ◌||◌, ◌&&◌}
use mathlib.Core.List.{List, [], ◌∷◌, Perm}
use mathlib.Core.List.Perm
use native.Mathlib.Omega.{arith}
use robot_brain.Prelude.Tests.{if◌then◌else◌, ltb, nat_beq, Bool-cases}
use robot_brain.Prelude.Lists.{All}

unfoldable pub text_le : String → String → Bool
text_le String.[] t = true
text_le (String.◌∷◌ c s) String.[] = false
text_le (String.◌∷◌ c s) (String.◌∷◌ d t) =
    ltb (code c) (code d) || (nat_beq (code c) (code d) && text_le s t)

pub text_le_total : (s t : String) → (text_le s t || text_le t s) ≡ true
unfolding text_le
text_le_total String.[] t = refl
text_le_total (String.◌∷◌ c s) String.[] = refl
text_le_total (String.◌∷◌ c s) (String.◌∷◌ d t) = ground (arith, text_le_total s t)

pub text_le_trans : (s t u : String) → text_le s t ≡ true → text_le t u ≡ true → text_le s u ≡ true
unfolding text_le
text_le_trans String.[] t u h k = refl
text_le_trans (String.◌∷◌ c s) String.[] u h k = ground arith
text_le_trans (String.◌∷◌ c s) (String.◌∷◌ d t) String.[] h k = ground arith
text_le_trans (String.◌∷◌ c s) (String.◌∷◌ d t) (String.◌∷◌ x u) h k =
    ground (arith, text_le_trans s t u)

module _ {ℓ} {A : Type ℓ} where
  unfoldable pub insort : (A → A → Bool) → A → List A → List A
  insort le x [] = x ∷ []
  insort le x (y ∷ ys) = if le x y then x ∷ y ∷ ys else y ∷ insort le x ys

  unfoldable pub sorted : (A → A → Bool) → List A → List A
  unfolding insort
  sorted le [] = []
  sorted le (x ∷ xs) = insort le x (sorted le xs)

  insort-perm : (le : A → A → Bool) (x : A) (xs : List A) → Perm (insort le x xs) (x ∷ xs)
  unfolding insort
  insort-perm le x [] = Perm.refl (x ∷ [])
  insort-perm le x (y ∷ ys) = elim (Bool-cases (le x y)) [
    | inl e ↦ rw e (Perm.refl (x ∷ y ∷ ys))
    | inr e ↦ rw e (Perm.trans (Perm.cons y (insort-perm le x ys)) (Perm.swap x y ys))
  ]

  pub sorted-perm : (le : A → A → Bool) (xs : List A) → Perm (sorted le xs) xs
  unfolding sorted
  sorted-perm le [] = Perm.nil
  sorted-perm le (x ∷ xs) =
      Perm.trans (insort-perm le x (sorted le xs)) (Perm.cons x (sorted-perm le xs))

  -- Every element is at most every later one.
  abbrev pub IsSorted : (A → A → Bool) → List A → Type 0
  IsSorted le [] = Unit
  IsSorted le (x ∷ xs) = All (λ y. le x y ≡ true) xs × IsSorted le xs

  All-insort :
      (le : A → A → Bool) (P : A → Type 0) (x : A) (xs : List A)
      → P x
      → All P xs
      → All P (insort le x xs)
  unfolding insort
  All-insort le P x [] h hs = (h, tt)
  All-insort le P x (y ∷ ys) h hs = elim (Bool-cases (le x y)) [
    | inl e ↦ rw e (h, hs)
    | inr e ↦ rw e (hs.0, All-insort le P x ys h hs.1)
  ]

module _ {ℓ} {A : Type ℓ} (le : A → A → Bool) (total : (a b : A) → (le a b || le b a) ≡ true)
    (trans : (a b c : A) → le a b ≡ true → le b c ≡ true → le a c ≡ true) where
  All-le_trans :
      (x y : A) (ys : List A)
      → le x y ≡ true
      → All (λ z. le y z ≡ true) ys
      → All (λ z. le x z ≡ true) ys
  All-le_trans x y [] h hs = tt
  All-le_trans x y (z ∷ zs) h hs = (trans x y z h hs.0, All-le_trans x y zs h hs.1)

  le_of_not : (x y : A) → le x y ≡ false → le y x ≡ true
  le_of_not x y h = ground (arith, total x y)

  insort-IsSorted : (x : A) (xs : List A) → IsSorted le xs → IsSorted le (insort le x xs)
  unfolding insort
  insort-IsSorted x [] h = (tt, tt)
  insort-IsSorted x (y ∷ ys) h = elim (Bool-cases (le x y)) [
    | inl e ↦ rw e ((e, All-le_trans x y ys e h.0), h)
    | inr e ↦ rw e (All-insort le _ x ys (le_of_not x y e) h.0, insort-IsSorted x ys h.1)
  ]

  pub sorted-IsSorted : (xs : List A) → IsSorted le (sorted le xs)
  unfolding sorted
  sorted-IsSorted [] = tt
  sorted-IsSorted (x ∷ xs) = insort-IsSorted x (sorted le xs) (sorted-IsSorted xs)

-- Every element stands in a relation to every later one.
abbrev pub InOrder {ℓ} : {A : Type ℓ} → (A → A → Type 0) → List A → Type 0
InOrder R [] = Unit
InOrder R (x ∷ xs) = All (R x) xs × InOrder R xs

module _ {ℓ} {A : Type ℓ} (le : A → A → Bool) (R : A → A → Type 0)
    (h : (a b : A) → le a b ≡ true → R a b) where
  All-related : (x : A) (xs : List A) → All (λ y. le x y ≡ true) xs → All (R x) xs
  All-related x [] hs = tt
  All-related x (y ∷ ys) hs = (h x y hs.0, All-related x ys hs.1)

  pub IsSorted-InOrder : (xs : List A) → IsSorted le xs → InOrder R xs
  IsSorted-InOrder [] hs = tt
  IsSorted-InOrder (x ∷ xs) hs = (All-related x xs hs.0, IsSorted-InOrder xs hs.1)
