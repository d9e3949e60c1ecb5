-- ===== src/Algebra/Commutes.antt =====
-- The merge of two values does not depend on which side they stand on.
use unifieddataruntime.Base.{
  ◌≡◌, refl, ◌||◌, ◌&&◌, Bool, not, true, false, some, none, Option, arith, string_eq,
  if◌then◌else◌,
}
use unifieddataruntime.Base.Int.{
  ℤ, int_eq, max_ℤ, min_ℤ, checked_add, checked_mul, +ℤ_comm, *ℤ_comm,
}
use unifieddataruntime.Base.HashSet.{contains-union, contains-intersection}
use unifieddataruntime.Algebra.Types.{OpType, is_conflict_free, F64, AlgebraicValue}
use unifieddataruntime.Algebra.Merger.{
  Reason, MergeResult, or_overflow, merge_union, merge_intersect, merge_max, merge_min, merge_add,
  merge_multiply, dispatch, merge,
}
use unifieddataruntime.Algebra.Same.{IsExact, SameValue-refl, swap_reason, swap, SameResult}

pub max_ℤ_comm : (a b : ℤ) → max_ℤ a b ≡ max_ℤ b a
unfolding max_ℤ
max_ℤ_comm a b = ground arith

pub min_ℤ_comm : (a b : ℤ) → min_ℤ a b ≡ min_ℤ b a
unfolding min_ℤ
min_ℤ_comm a b = ground arith

checked_add_comm : (a b : ℤ) → checked_add a b ≡ checked_add b a
unfolding checked_add
checked_add_comm a b = rw (+ℤ_comm a b)

checked_mul_comm : (a b : ℤ) → checked_mul a b ≡ checked_mul b a
unfolding checked_mul
checked_mul_comm a b = rw (*ℤ_comm a b)

or_comm : (a b : Bool) → (a || b) ≡ (b || a)
or_comm a b = ground arith

and_comm : (a b : Bool) → (a && b) ≡ (b && a)
and_comm a b = ground arith

module _ {Float : Type 0} where
  merge_union_comm :
      (v w : AlgebraicValue Float) → SameResult (merge_union v w) (swap (merge_union w v))
  unfolding merge_union
  merge_union_comm (AlgebraicValue.string_set a) (AlgebraicValue.string_set b) =
      λ x. ground (arith, contains-union x a b, contains-union x b a)
  merge_union_comm (AlgebraicValue.int_set a) (AlgebraicValue.int_set b) =
      λ x. ground (arith, contains-union x a b, contains-union x b a)
  merge_union_comm (AlgebraicValue.boolean a) (AlgebraicValue.boolean b) = or_comm a b
  merge_union_comm v AlgebraicValue.null = refl
  merge_union_comm v w = refl

  merge_intersect_comm :
      (v w : AlgebraicValue Float) → SameResult (merge_intersect v w) (swap (merge_intersect w v))
  unfolding merge_intersect
  merge_intersect_comm (AlgebraicValue.string_set a) (AlgebraicValue.string_set b) =
      λ x. ground (arith, contains-intersection x a b, contains-intersection x b a)
  merge_intersect_comm (AlgebraicValue.int_set a) (AlgebraicValue.int_set b) =
      λ x. ground (arith, contains-intersection x a b, contains-intersection x b a)
  merge_intersect_comm (AlgebraicValue.boolean a) (AlgebraicValue.boolean b) = and_comm a b
  merge_intersect_comm v AlgebraicValue.null = refl
  merge_intersect_comm v w = refl

or_overflow-swap :
    {Float : Type 0} (v w : AlgebraicValue Float) (r : Reason) {s t : Option ℤ}
    → s ≡ t
    → swap_reason (swap_reason r) ≡ r
    → SameResult (or_overflow v w r s) (swap (or_overflow w v (swap_reason r) t))
or_overflow-swap v w r {s = some s} {t = some t} e h = ground arith
or_overflow-swap v w r {s = none} {t = none} e h = rw h
or_overflow-swap v w r {s = some s} {t = none} e h = absurd (cc e)
or_overflow-swap v w r {s = none} {t = some t} e h = absurd (cc e)

module _ {Float : Type 0} ⦃f : F64 Float⦄ where
  merge_max_comm :
      (v w : AlgebraicValue Float)
      → IsExact v
      → IsExact w
      → SameResult (merge_max v w) (swap (merge_max w v))
  unfolding merge_max
  merge_max_comm (AlgebraicValue.integer a) (AlgebraicValue.integer b) _ _ = max_ℤ_comm a b
  merge_max_comm (AlgebraicValue.boolean a) (AlgebraicValue.boolean b) _ _ = or_comm a b
  merge_max_comm (AlgebraicValue.float a) w h k = absurd h
  merge_max_comm v (AlgebraicValue.float b) h k = absurd k
  merge_max_comm v w _ _ = refl

  merge_min_comm :
      (v w : AlgebraicValue Float)
      → IsExact v
      → IsExact w
      → SameResult (merge_min v w) (swap (merge_min w v))
  unfolding merge_min
  merge_min_comm (AlgebraicValue.integer a) (AlgebraicValue.integer b) _ _ = min_ℤ_comm a b
  merge_min_comm (AlgebraicValue.boolean a) (AlgebraicValue.boolean b) _ _ = and_comm a b
  merge_min_comm (AlgebraicValue.float a) w h k = absurd h
  merge_min_comm v (AlgebraicValue.float b) h k = absurd k
  merge_min_comm v w _ _ = refl

  merge_add_comm :
      (v w : AlgebraicValue Float)
      → IsExact v
      → IsExact w
      → SameResult (merge_add v w) (swap (merge_add w v))
  unfolding merge_add
  merge_add_comm (AlgebraicValue.integer a) (AlgebraicValue.integer b) _ _ =
      or_overflow-swap _ _ (Reason.add_overflow a b) (checked_add_comm a b) refl
  merge_add_comm (AlgebraicValue.float a) w h k = absurd h
  merge_add_comm v (AlgebraicValue.float b) h k = absurd k
  merge_add_comm v w _ _ = refl

  merge_multiply_comm :
      (v w : AlgebraicValue Float)
      → IsExact v
      → IsExact w
      → SameResult (merge_multiply v w) (swap (merge_multiply w v))
  unfolding merge_multiply
  merge_multiply_comm (AlgebraicValue.integer a) (AlgebraicValue.integer b) _ _ =
      or_overflow-swap _ _ (Reason.mul_overflow a b) (checked_mul_comm a b) refl
  merge_multiply_comm (AlgebraicValue.float a) w h k = absurd h
  merge_multiply_comm v (AlgebraicValue.float b) h k = absurd k
  merge_multiply_comm v w _ _ = refl

  dispatch_comm :
      (op : OpType) (v w : AlgebraicValue Float)
      → IsExact v
      → IsExact w
      → SameResult (dispatch op v w) (swap (dispatch op w v))
  unfolding dispatch
  dispatch_comm OpType.semilattice_max v w h k = merge_max_comm v w h k
  dispatch_comm OpType.semilattice_min v w h k = merge_min_comm v w h k
  dispatch_comm OpType.semilattice_union v w h k = merge_union_comm v w
  dispatch_comm OpType.semilattice_intersect v w h k = merge_intersect_comm v w
  dispatch_comm OpType.abelian_add v w h k = merge_add_comm v w h k
  dispatch_comm OpType.abelian_multiply v w h k = merge_multiply_comm v w h k
  dispatch_comm op v w h k = refl

  -- For values without floats, the merge with the sides exchanged is the same merged value, or the
  -- same conflict or type mismatch with its sides exchanged.
  pub merge_comm :
      (op : OpType) (v w : AlgebraicValue Float)
      → IsExact v
      → IsExact w
      → SameResult (merge op v w) (swap (merge op w v))
  unfolding merge
  merge_comm op AlgebraicValue.null AlgebraicValue.null h k = tt
  merge_comm op AlgebraicValue.null w h k = SameValue-refl w
  merge_comm op v AlgebraicValue.null h k = SameValue-refl v
  merge_comm op v w h k =
      elim (is_conflict_free op)
        as (λ b.
          SameResult
            (if not b
              then MergeResult.conflict v w (Reason.not_conflict_free op)
              else dispatch op v w)
            (swap (
              if not b
              then MergeResult.conflict w v (Reason.not_conflict_free op)
              else dispatch op w v))) [ true ↦ dispatch_comm op v w h k | false ↦ refl ]
