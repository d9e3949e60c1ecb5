-- ===== src/Algebra/Groups/Semilattice.antt =====
-- Maximum, minimum, union and intersection: any grouping gives the same value, or each gives none.
use unifieddataruntime.Base.{◌≡◌, ◌||◌, ◌&&◌, Bool, true, arith, string_eq}
use unifieddataruntime.Base.Int.{ℤ, int_eq, max_ℤ, min_ℤ}
use unifieddataruntime.Base.HashSet.{contains-union, contains-intersection}
use unifieddataruntime.Algebra.Types.{OpType, is_semilattice, F64, AlgebraicValue}
use unifieddataruntime.Algebra.Merger.{
  merge_union, merge_intersect, merge_max, merge_min, dispatch, merge,
}
use unifieddataruntime.Algebra.Same.{IsExact, SameOption}
use unifieddataruntime.Algebra.Groups.Three.{
  left, right, assoc_null_first, assoc_null_second, assoc_null_third,
}

max_ℤ_assoc : (a b c : ℤ) → max_ℤ (max_ℤ a b) c ≡ max_ℤ a (max_ℤ b c)
unfolding max_ℤ
max_ℤ_assoc a b c = ground arith

min_ℤ_assoc : (a b c : ℤ) → min_ℤ (min_ℤ a b) c ≡ min_ℤ a (min_ℤ b c)
unfolding min_ℤ
min_ℤ_assoc a b c = ground arith

or_assoc : (a b c : Bool) → ((a || b) || c) ≡ (a || (b || c))
or_assoc a b c = ground arith

and_assoc : (a b c : Bool) → ((a && b) && c) ≡ (a && (b && c))
and_assoc a b c = ground arith

module _ {Float : Type 0} ⦃f : F64 Float⦄ where
  max_assoc :
      (a b c : AlgebraicValue Float)
      → IsExact a
      → IsExact b
      → IsExact c
      → SameOption (left OpType.semilattice_max a b c) (right OpType.semilattice_max a b c)
  unfolding merge dispatch merge_max
  max_assoc AlgebraicValue.null b c h k l = assoc_null_first OpType.semilattice_max b c
  max_assoc a AlgebraicValue.null c h k l = assoc_null_second OpType.semilattice_max a c
  max_assoc a b AlgebraicValue.null h k l = assoc_null_third OpType.semilattice_max a b
  max_assoc (AlgebraicValue.integer a) (AlgebraicValue.integer b) (AlgebraicValue.integer c) h k l =
      max_ℤ_assoc a b c
  max_assoc (AlgebraicValue.boolean a) (AlgebraicValue.boolean b) (AlgebraicValue.boolean c) h k l =
      or_assoc a b c
  max_assoc (AlgebraicValue.float _) b c h k l = absurd h
  max_assoc a (AlgebraicValue.float _) c h k l = absurd k
  max_assoc a b (AlgebraicValue.float _) h k l = absurd l
  max_assoc a b c h k l = tt

  min_assoc :
      (a b c : AlgebraicValue Float)
      → IsExact a
      → IsExact b
      → IsExact c
      → SameOption (left OpType.semilattice_min a b c) (right OpType.semilattice_min a b c)
  unfolding merge dispatch merge_min
  min_assoc AlgebraicValue.null b c h k l = assoc_null_first OpType.semilattice_min b c
  min_assoc a AlgebraicValue.null c h k l = assoc_null_second OpType.semilattice_min a c
  min_assoc a b AlgebraicValue.null h k l = assoc_null_third OpType.semilattice_min a b
  min_assoc (AlgebraicValue.integer a) (AlgebraicValue.integer b) (AlgebraicValue.integer c) h k l =
      min_ℤ_assoc a b c
  min_assoc (AlgebraicValue.boolean a) (AlgebraicValue.boolean b) (AlgebraicValue.boolean c) h k l =
      and_assoc a b c
  min_assoc (AlgebraicValue.float _) b c h k l = absurd h
  min_assoc a (AlgebraicValue.float _) c h k l = absurd k
  min_assoc a b (AlgebraicValue.float _) h k l = absurd l
  min_assoc a b c h k l = tt

  union_assoc :
      (a b c : AlgebraicValue Float)
      → SameOption (left OpType.semilattice_union a b c) (right OpType.semilattice_union a b c)
  unfolding merge dispatch merge_union
  union_assoc AlgebraicValue.null b c = assoc_null_first OpType.semilattice_union b c
  union_assoc a AlgebraicValue.null c = assoc_null_second OpType.semilattice_union a c
  union_assoc a b AlgebraicValue.null = assoc_null_third OpType.semilattice_union a b
  union_assoc (AlgebraicValue.string_set a) (AlgebraicValue.string_set b)
        (AlgebraicValue.string_set c) =
      λ x. simp (contains-union, or_assoc)
  union_assoc (AlgebraicValue.int_set a) (AlgebraicValue.int_set b) (AlgebraicValue.int_set c) =
      λ x. simp (contains-union, or_assoc)
  union_assoc (AlgebraicValue.boolean a) (AlgebraicValue.boolean b) (AlgebraicValue.boolean c) =
      or_assoc a b c
  union_assoc a b c = tt

  intersect_assoc :
      (a b c : AlgebraicValue Float)
      → SameOption
          (left OpType.semilattice_intersect a b c)
          (right OpType.semilattice_intersect a b c)
  unfolding merge dispatch merge_intersect
  intersect_assoc AlgebraicValue.null b c = assoc_null_first OpType.semilattice_intersect b c
  intersect_assoc a AlgebraicValue.null c = assoc_null_second OpType.semilattice_intersect a c
  intersect_assoc a b AlgebraicValue.null = assoc_null_third OpType.semilattice_intersect a b
  intersect_assoc (AlgebraicValue.string_set a) (AlgebraicValue.string_set b)
        (AlgebraicValue.string_set c) =
      λ x. simp (contains-intersection, and_assoc)
  intersect_assoc (AlgebraicValue.int_set a) (AlgebraicValue.int_set b) (AlgebraicValue.int_set c) =
      λ x. simp (contains-intersection, and_assoc)
  intersect_assoc (AlgebraicValue.boolean a) (AlgebraicValue.boolean b) (AlgebraicValue.boolean c) =
      and_assoc a b c
  intersect_assoc a b c = tt

  -- For a semilattice operation and values without floats, both groupings of three values merge to
  -- the same value, or neither merges.
  pub merge-assoc_semilattice :
      (op : OpType) (a b c : AlgebraicValue Float)
      → is_semilattice op ≡ true
      → IsExact a
      → IsExact b
      → IsExact c
      → SameOption (left op a b c) (right op a b c)
  unfolding is_semilattice
  merge-assoc_semilattice OpType.semilattice_max a b c s h k l = max_assoc a b c h k l
  merge-assoc_semilattice OpType.semilattice_min a b c s h k l = min_assoc a b c h k l
  merge-assoc_semilattice OpType.semilattice_union a b c s h k l = union_assoc a b c
  merge-assoc_semilattice OpType.semilattice_intersect a b c s h k l = intersect_assoc a b c
  merge-assoc_semilattice _ a b c s h k l = absurd (cc s)
