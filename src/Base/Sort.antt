-- ===== src/Base/Sort.antt =====
-- Sorting by a text changes neither what a map holds nor what a set contains.
use unifieddataruntime.Base.Tests.{leb, eqb, nat_eq, ◌==◌, if◌then◌else◌, string_eq}
use unifieddataruntime.Base.Text.{insert_sorted, sort_by_text}
use unifieddataruntime.Base.Dict
use unifieddataruntime.Base.Dict.{Dict}
use unifieddataruntime.Base.HashSet
use Prim.Native.Nat.{ℕ}
use Prim.Native.String.{String}
use mathlib.Core.Path.{◌≡◌, refl, ◌∙◌}
use mathlib.Core.Bool.{◌||◌}
use mathlib.Core.Option.{none, some}
use mathlib.Core.List.{List, [], ◌∷◌}
use native.Mathlib.Omega.{arith}
use text.Mathlib.TextEquality.{eq_iff}

module _ {V : Type 0} where
  -- The entries of a map in the order of their keys.
  abbrev pub sort_entries : Dict String V → Dict String V
  sort_entries = sort_by_text (λ (e : String × V). e.0)

  lookup-insert_sorted :
      (k j : String) (v : V) (m : Dict String V)
      → Dict.lookup k m ≡ none
      → Dict.lookup j (insert_sorted (λ (e : String × V). e.0) (k, v) m)
        ≡ (if k == j then some v else Dict.lookup j m)
  lookup-insert_sorted k j v [] u = refl
  lookup-insert_sorted k j v ((i, w) ∷ m) u =
      ground (arith, eq_iff k j, eq_iff i k, eq_iff i j, lookup-insert_sorted k j v m)

  pub lookup-sort_entries :
      (k : String) (m : Dict String V)
      → Dict.Unique m
      → Dict.lookup k (sort_entries m) ≡ Dict.lookup k m
  lookup-sort_entries k [] u = refl
  lookup-sort_entries k ((j, v) ∷ m) u =
      let gone : Dict.lookup j (sort_entries m) ≡ none = rw (lookup-sort_entries j m u.1) (u.0) in
      rw (lookup-insert_sorted j k v (sort_entries m) gone, lookup-sort_entries k m u.1) refl

  insert_sorted-Unique :
      (k : String) (v : V) (m : Dict String V)
      → Dict.lookup k m ≡ none
      → Dict.Unique m
      → Dict.Unique (insert_sorted (λ (e : String × V). e.0) (k, v) m)
  insert_sorted-Unique k v [] u n = (refl, tt)
  insert_sorted-Unique k v ((i, w) ∷ m) u n =
      ground
        (arith, eq_iff i k, eq_iff k i, insert_sorted-Unique k v m, lookup-insert_sorted k i v m)

  pub sort_entries-Unique : (m : Dict String V) → Dict.Unique m → Dict.Unique (sort_entries m)
  sort_entries-Unique [] u = tt
  sort_entries-Unique ((j, v) ∷ m) u =
      insert_sorted-Unique j v (sort_entries m) (lookup-sort_entries j m u.1 ∙ u.0)
        (sort_entries-Unique m u.1)

abbrev pub sort_texts : List String → List String
sort_texts = sort_by_text (λ (s : String). s)

contains-insert_sorted :
    (x y : String) (s : List String)
    → HashSet.contains x (insert_sorted (λ (t : String). t) y s)
      ≡ ((y == x) || HashSet.contains x s)
contains-insert_sorted x y [] = ground arith
contains-insert_sorted x y (z ∷ s) =
    ground (arith, eq_iff z x, eq_iff y x, contains-insert_sorted x y s)

pub contains-sort_texts :
    (x : String) (s : List String) → HashSet.contains x (sort_texts s) ≡ HashSet.contains x s
contains-sort_texts x [] = refl
contains-sort_texts x (y ∷ s) =
    rw (contains-insert_sorted x y (sort_texts s), contains-sort_texts x s) refl

-- `sort` of numbers.
abbrev pub insert_number : ℕ → List ℕ → List ℕ
insert_number n [] = n ∷ []
insert_number n (m ∷ ms) = if leb n m then n ∷ m ∷ ms else m ∷ insert_number n ms

abbrev pub sort_numbers : List ℕ → List ℕ
sort_numbers [] = []
sort_numbers (n ∷ ns) = insert_number n (sort_numbers ns)

contains-insert_number :
    (n m : ℕ) (ms : List ℕ)
    → HashSet.contains n (insert_number m ms) ≡ (eqb m n || HashSet.contains n ms)
contains-insert_number n m [] = ground arith
contains-insert_number n m (k ∷ ms) = ground (arith, contains-insert_number n m ms)

pub contains-sort_numbers :
    (n : ℕ) (ms : List ℕ) → HashSet.contains n (sort_numbers ms) ≡ HashSet.contains n ms
contains-sort_numbers n [] = refl
contains-sort_numbers n (m ∷ ms) =
    rw (contains-insert_number n m (sort_numbers ms), contains-sort_numbers n ms) refl

-- The members of the list of keys.
pub contains-keys {ℓ} :
    {V : Type ℓ} (k : String) (m : Dict String V)
    → HashSet.contains k (Dict.keys m) ≡ Dict.contains_key k m
contains-keys k [] = refl
contains-keys k ((j, v) ∷ m) = ground (arith, contains-keys k m, eq_iff j k)

pub contains-keys_ℕ {ℓ} :
    {V : Type ℓ} (k : ℕ) (m : Dict ℕ V) → HashSet.contains k (Dict.keys m) ≡ Dict.contains_key k m
contains-keys_ℕ k [] = refl
contains-keys_ℕ k ((j, v) ∷ m) = ground (arith, contains-keys_ℕ k m)
