-- ===== src/Base/HashSet.antt =====
-- A hash set as a list of its members, in order of insertion. What is proved reads a set through
-- `contains`.
use unifieddataruntime.Base.Tests.{Eq, ◌==◌, if◌then◌else◌}
use mathlib.Core.Path.{◌≡◌, refl}
use mathlib.Core.Bool.{Bool, false, not, ◌&&◌, ◌||◌}
use mathlib.Core.List.{List, [], ◌∷◌}
use native.Mathlib.Omega.{arith}

abbrev pub HashSet {ℓ} : Type ℓ → Type ℓ
HashSet A = List A

module _ {ℓ} {A : Type ℓ} ⦃e : Eq A⦄ where
  abbrev pub contains : A → HashSet A → Bool
  contains a [] = false
  contains a (x ∷ s) = (x == a) || contains a s

  abbrev pub insert : A → HashSet A → HashSet A
  insert a s = if contains a s then s else a ∷ s

  -- `collect()` of an iterator.
  abbrev pub of_list : List A → HashSet A
  of_list [] = []
  of_list (x ∷ xs) = insert x (of_list xs)

  abbrev pub union : HashSet A → HashSet A → HashSet A
  union [] t = t
  union (x ∷ s) t = insert x (union s t)

  abbrev pub intersection : HashSet A → HashSet A → HashSet A
  intersection [] t = []
  intersection (x ∷ s) t = let rest = intersection s t in if contains x t then x ∷ rest else rest

  abbrev pub difference : HashSet A → HashSet A → HashSet A
  difference [] t = []
  difference (x ∷ s) t = let rest = difference s t in if contains x t then rest else x ∷ rest

  -- The same members.
  abbrev pub SameSet : HashSet A → HashSet A → Type ℓ
  SameSet s t = (x : A) → contains x s ≡ contains x t

  pub contains-insert :
      (a x : A) (s : HashSet A) → contains x (insert a s) ≡ ((a == x) || contains x s)
  contains-insert a x s = ground (arith, e.beq_iff a x)

  pub contains-of_list : (x : A) (xs : List A) → contains x (of_list xs) ≡ contains x xs
  contains-of_list x [] = refl
  contains-of_list x (y ∷ ys) =
      ground (arith, contains-insert y x (of_list ys), contains-of_list x ys)

  pub contains-union :
      (x : A) (s t : HashSet A) → contains x (union s t) ≡ (contains x s || contains x t)
  contains-union x [] t = refl
  contains-union x (y ∷ s) t = ground (arith, contains-insert y x (union s t), contains-union x s t)

  pub contains-intersection :
      (x : A) (s t : HashSet A) → contains x (intersection s t) ≡ (contains x s && contains x t)
  contains-intersection x [] t = refl
  contains-intersection x (y ∷ s) t = ground (arith, contains-intersection x s t, e.beq_iff y x)

  pub contains-difference :
      (x : A) (s t : HashSet A) → contains x (difference s t) ≡ (contains x s && not (contains x t))
  contains-difference x [] t = refl
  contains-difference x (y ∷ s) t = ground (arith, contains-difference x s t, e.beq_iff y x)
