-- ===== src/Algebra/Groups/Idempotent.antt =====
-- Merging a value with itself, and the kinds of values that an operation is defined on.
use unifieddataruntime.Base.{
  ◌≡◌, refl, ◌||◌, ◌&&◌, Bool, true, false, if◌then◌else◌, arith, string_eq,
}
use unifieddataruntime.Base.Int.{ℤ, int_eq, max_ℤ, min_ℤ}
use unifieddataruntime.Base.HashSet.{contains-union, contains-intersection}
use unifieddataruntime.Algebra.Types.{OpType, is_semilattice, is_null, F64, AlgebraicValue}
use unifieddataruntime.Algebra.Merger.{
  MergeResult, mismatch, merge_union, merge_intersect, merge_max, merge_min, dispatch, merge,
}
use unifieddataruntime.Algebra.Same.{IsExact, SameResult}

-- The kinds of values that the merges tell apart.
pub data Kind : Type 0 where
  an_integer a_float a_string_set an_int_set a_boolean a_null : Kind

module _ {Float : Type 0} where
  abbrev pub kind : AlgebraicValue Float → Kind
  kind (AlgebraicValue.integer _) = Kind.an_integer
  kind (AlgebraicValue.float _) = Kind.a_float
  kind (AlgebraicValue.string_set _) = Kind.a_string_set
  kind (AlgebraicValue.int_set _) = Kind.an_int_set
  kind (AlgebraicValue.boolean _) = Kind.a_boolean
  kind AlgebraicValue.null = Kind.a_null

-- The kinds on which a semilattice operation merges two values of the kind to a third: integers for MAX
-- and MIN, sets for UNION and INTERSECT, truth values for all four. No other operation is one: not ADD
-- and not MULTIPLY, which merge numbers as well, unless they overflow. Floats are left out.
abbrev pub lattice_supports : OpType → Kind → Bool
lattice_supports OpType.semilattice_max Kind.an_integer = true
lattice_supports OpType.semilattice_min Kind.an_integer = true
lattice_supports OpType.semilattice_union Kind.a_string_set = true
lattice_supports OpType.semilattice_union Kind.an_int_set = true
lattice_supports OpType.semilattice_intersect Kind.a_string_set = true
lattice_supports OpType.semilattice_intersect Kind.an_int_set = true
lattice_supports OpType.semilattice_max Kind.a_boolean = true
lattice_supports OpType.semilattice_min Kind.a_boolean = true
lattice_supports OpType.semilattice_union Kind.a_boolean = true
lattice_supports OpType.semilattice_intersect Kind.a_boolean = true
lattice_supports _ _ = false

max_ℤ_idem : (a : ℤ) → max_ℤ a a ≡ a
unfolding max_ℤ
max_ℤ_idem a = ground arith

min_ℤ_idem : (a : ℤ) → min_ℤ a a ≡ a
unfolding min_ℤ
min_ℤ_idem a = ground arith

or_idem : (a : Bool) → (a || a) ≡ a
or_idem a = ground arith

and_idem : (a : Bool) → (a && a) ≡ a
and_idem a = ground arith

module _ {Float : Type 0} ⦃f : F64 Float⦄ where
  pub joins_itself :
      (op : OpType) (v : AlgebraicValue Float)
      → lattice_supports op (kind v) ≡ true
      → SameResult (merge op v v) (MergeResult.merged v)
  unfolding merge dispatch merge_max merge_min merge_union merge_intersect
  joins_itself OpType.semilattice_max (AlgebraicValue.integer a) h = max_ℤ_idem a
  joins_itself OpType.semilattice_min (AlgebraicValue.integer a) h = min_ℤ_idem a
  joins_itself OpType.semilattice_union (AlgebraicValue.string_set a) h =
      λ x. simp (contains-union, or_idem)
  joins_itself OpType.semilattice_union (AlgebraicValue.int_set a) h =
      λ x. simp (contains-union, or_idem)
  joins_itself OpType.semilattice_intersect (AlgebraicValue.string_set a) h =
      λ x. simp (contains-intersection, and_idem)
  joins_itself OpType.semilattice_intersect (AlgebraicValue.int_set a) h =
      λ x. simp (contains-intersection, and_idem)
  joins_itself OpType.semilattice_max (AlgebraicValue.boolean a) h = or_idem a
  joins_itself OpType.semilattice_min (AlgebraicValue.boolean a) h = and_idem a
  joins_itself OpType.semilattice_union (AlgebraicValue.boolean a) h = or_idem a
  joins_itself OpType.semilattice_intersect (AlgebraicValue.boolean a) h = and_idem a
  joins_itself op v h = absurd (cc h)

  -- Under MAX, MIN, UNION and INTERSECT a value that is not a float, merged with itself, gives itself,
  -- as a set by its members, where it is null or the operation supports its kind (MAX and MIN support
  -- integers, UNION and INTERSECT sets, all four truth values), and a type mismatch elsewhere.
  pub merge_idem :
      (op : OpType) (v : AlgebraicValue Float)
      → is_semilattice op ≡ true
      → IsExact v
      → SameResult (merge op v v) (
          if is_null v || lattice_supports op (kind v)
          then MergeResult.merged v
          else mismatch op v v)
  unfolding is_semilattice merge dispatch merge_max merge_min merge_union merge_intersect
  merge_idem op AlgebraicValue.null h x = tt
  merge_idem OpType.semilattice_max (AlgebraicValue.integer a) h x =
      joins_itself OpType.semilattice_max (AlgebraicValue.integer a) refl
  merge_idem OpType.semilattice_max (AlgebraicValue.boolean a) h x =
      joins_itself OpType.semilattice_max (AlgebraicValue.boolean a) refl
  merge_idem OpType.semilattice_min (AlgebraicValue.integer a) h x =
      joins_itself OpType.semilattice_min (AlgebraicValue.integer a) refl
  merge_idem OpType.semilattice_min (AlgebraicValue.boolean a) h x =
      joins_itself OpType.semilattice_min (AlgebraicValue.boolean a) refl
  merge_idem OpType.semilattice_union (AlgebraicValue.string_set a) h x =
      joins_itself OpType.semilattice_union (AlgebraicValue.string_set a) refl
  merge_idem OpType.semilattice_union (AlgebraicValue.int_set a) h x =
      joins_itself OpType.semilattice_union (AlgebraicValue.int_set a) refl
  merge_idem OpType.semilattice_union (AlgebraicValue.boolean a) h x =
      joins_itself OpType.semilattice_union (AlgebraicValue.boolean a) refl
  merge_idem OpType.semilattice_intersect (AlgebraicValue.string_set a) h x =
      joins_itself OpType.semilattice_intersect (AlgebraicValue.string_set a) refl
  merge_idem OpType.semilattice_intersect (AlgebraicValue.int_set a) h x =
      joins_itself OpType.semilattice_intersect (AlgebraicValue.int_set a) refl
  merge_idem OpType.semilattice_intersect (AlgebraicValue.boolean a) h x =
      joins_itself OpType.semilattice_intersect (AlgebraicValue.boolean a) refl
  merge_idem OpType.semilattice_max (AlgebraicValue.string_set a) h x = refl
  merge_idem OpType.semilattice_max (AlgebraicValue.int_set a) h x = refl
  merge_idem OpType.semilattice_min (AlgebraicValue.string_set a) h x = refl
  merge_idem OpType.semilattice_min (AlgebraicValue.int_set a) h x = refl
  merge_idem OpType.semilattice_union (AlgebraicValue.integer a) h x = refl
  merge_idem OpType.semilattice_intersect (AlgebraicValue.integer a) h x = refl
  merge_idem op (AlgebraicValue.float _) h x = absurd x
  merge_idem op v h x = absurd (cc h)

  -- Two values of one kind that the operation is defined on merge to a value of that kind.
  pub merge-lattice_supports :
      (op : OpType) (v w : AlgebraicValue Float)
      → lattice_supports op (kind v) ≡ true
      → kind w ≡ kind v
      → (u : AlgebraicValue Float) × (merge op v w ≡ MergeResult.merged u) × (kind u ≡ kind v)
  unfolding merge dispatch merge_max merge_min merge_union merge_intersect
  merge-lattice_supports OpType.semilattice_max (AlgebraicValue.integer a)
        (AlgebraicValue.integer b) h e =
      (_, refl, refl)
  merge-lattice_supports OpType.semilattice_min (AlgebraicValue.integer a)
        (AlgebraicValue.integer b) h e =
      (_, refl, refl)
  merge-lattice_supports OpType.semilattice_union (AlgebraicValue.string_set a)
        (AlgebraicValue.string_set b) h e =
      (_, refl, refl)
  merge-lattice_supports OpType.semilattice_union (AlgebraicValue.int_set a)
        (AlgebraicValue.int_set b) h e =
      (_, refl, refl)
  merge-lattice_supports OpType.semilattice_intersect (AlgebraicValue.string_set a)
        (AlgebraicValue.string_set b) h e =
      (_, refl, refl)
  merge-lattice_supports OpType.semilattice_intersect (AlgebraicValue.int_set a)
        (AlgebraicValue.int_set b) h e =
      (_, refl, refl)
  merge-lattice_supports OpType.semilattice_max (AlgebraicValue.boolean a)
        (AlgebraicValue.boolean b) h e =
      (_, refl, refl)
  merge-lattice_supports OpType.semilattice_min (AlgebraicValue.boolean a)
        (AlgebraicValue.boolean b) h e =
      (_, refl, refl)
  merge-lattice_supports OpType.semilattice_union (AlgebraicValue.boolean a)
        (AlgebraicValue.boolean b) h e =
      (_, refl, refl)
  merge-lattice_supports OpType.semilattice_intersect (AlgebraicValue.boolean a)
        (AlgebraicValue.boolean b) h e =
      (_, refl, refl)
  merge-lattice_supports op v w h e = first_of (ground arith, cc)
