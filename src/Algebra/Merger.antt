-- ===== src/Algebra/Merger.antt =====
-- rhizo_core/src/algebraic/merge.rs: the merge of two values under an operation type.
use unifieddataruntime.Base.{
  String, Bool, true, false, not, ◌&&◌, ◌||◌, Option, none, some, string_eq, if◌then◌else◌,
}
use unifieddataruntime.Base.Int.{ℤ, int_eq, max_ℤ, min_ℤ, checked_add, checked_mul}
use unifieddataruntime.Base.HashSet
use unifieddataruntime.Algebra.Types.{
  OpType, is_conflict_free, F64, AlgebraicValue, type_name, is_null, is_exact_integer,
}

-- The text of a conflict's reason, kept as the data that it is formatted from.
pub data Reason : Type 0 where
  not_conflict_free : OpType → Reason
  unexpected : OpType → Reason
  add_overflow mul_overflow : ℤ → ℤ → Reason

pub data MergeResult (Float : Type 0) : Type 0 where
  merged : AlgebraicValue Float → MergeResult Float
  conflict : AlgebraicValue Float → AlgebraicValue Float → Reason → MergeResult Float
  type_mismatch : String → String → OpType → MergeResult Float

module _ {Float : Type 0} where
  abbrev pub is_merged : MergeResult Float → Bool
  is_merged (MergeResult.merged _) = true
  is_merged _ = false

  abbrev pub is_conflict : MergeResult Float → Bool
  is_conflict (MergeResult.conflict _ _ _) = true
  is_conflict _ = false

  abbrev pub is_type_mismatch : MergeResult Float → Bool
  is_type_mismatch (MergeResult.type_mismatch _ _ _) = true
  is_type_mismatch _ = false

  abbrev pub ok : MergeResult Float → Option (AlgebraicValue Float)
  ok (MergeResult.merged v) = some v
  ok _ = none

  abbrev pub mismatch : OpType → AlgebraicValue Float → AlgebraicValue Float → MergeResult Float
  mismatch op v w = MergeResult.type_mismatch (type_name v) (type_name w) op

  -- The result of checked arithmetic: on overflow a conflict.
  abbrev pub or_overflow :
      AlgebraicValue Float → AlgebraicValue Float → Reason → Option ℤ → MergeResult Float
  or_overflow v w r (some s) = MergeResult.merged (AlgebraicValue.integer s)
  or_overflow v w r none = MergeResult.conflict v w r

  unfoldable pub merge_union : AlgebraicValue Float → AlgebraicValue Float → MergeResult Float
  merge_union (AlgebraicValue.string_set a) (AlgebraicValue.string_set b) =
      MergeResult.merged (AlgebraicValue.string_set (HashSet.union a b))
  merge_union (AlgebraicValue.int_set a) (AlgebraicValue.int_set b) =
      MergeResult.merged (AlgebraicValue.int_set (HashSet.union a b))
  merge_union (AlgebraicValue.boolean a) (AlgebraicValue.boolean b) =
      MergeResult.merged (AlgebraicValue.boolean (a || b))
  merge_union v w = mismatch OpType.semilattice_union v w

  unfoldable pub merge_intersect : AlgebraicValue Float → AlgebraicValue Float → MergeResult Float
  merge_intersect (AlgebraicValue.string_set a) (AlgebraicValue.string_set b) =
      MergeResult.merged (AlgebraicValue.string_set (HashSet.intersection a b))
  merge_intersect (AlgebraicValue.int_set a) (AlgebraicValue.int_set b) =
      MergeResult.merged (AlgebraicValue.int_set (HashSet.intersection a b))
  merge_intersect (AlgebraicValue.boolean a) (AlgebraicValue.boolean b) =
      MergeResult.merged (AlgebraicValue.boolean (a && b))
  merge_intersect v w = mismatch OpType.semilattice_intersect v w

module _ {Float : Type 0} ⦃f : F64 Float⦄ where
  -- An integer where the float is exactly one.
  abbrev pub numeric_result : Float → AlgebraicValue Float
  numeric_result v =
      if is_exact_integer v then AlgebraicValue.integer (f.to_i64 v) else AlgebraicValue.float v

  unfoldable pub merge_max : AlgebraicValue Float → AlgebraicValue Float → MergeResult Float
  merge_max (AlgebraicValue.integer a) (AlgebraicValue.integer b) =
      MergeResult.merged (AlgebraicValue.integer (max_ℤ a b))
  merge_max (AlgebraicValue.float a) (AlgebraicValue.float b) =
      MergeResult.merged (AlgebraicValue.float (f.fmax a b))
  merge_max (AlgebraicValue.integer a) (AlgebraicValue.float b) =
      MergeResult.merged (numeric_result (f.fmax (f.of_i64 a) b))
  merge_max (AlgebraicValue.float a) (AlgebraicValue.integer b) =
      MergeResult.merged (numeric_result (f.fmax a (f.of_i64 b)))
  merge_max (AlgebraicValue.boolean a) (AlgebraicValue.boolean b) =
      MergeResult.merged (AlgebraicValue.boolean (a || b))
  merge_max v w = mismatch OpType.semilattice_max v w

  unfoldable pub merge_min : AlgebraicValue Float → AlgebraicValue Float → MergeResult Float
  merge_min (AlgebraicValue.integer a) (AlgebraicValue.integer b) =
      MergeResult.merged (AlgebraicValue.integer (min_ℤ a b))
  merge_min (AlgebraicValue.float a) (AlgebraicValue.float b) =
      MergeResult.merged (AlgebraicValue.float (f.fmin a b))
  merge_min (AlgebraicValue.integer a) (AlgebraicValue.float b) =
      MergeResult.merged (numeric_result (f.fmin (f.of_i64 a) b))
  merge_min (AlgebraicValue.float a) (AlgebraicValue.integer b) =
      MergeResult.merged (numeric_result (f.fmin a (f.of_i64 b)))
  merge_min (AlgebraicValue.boolean a) (AlgebraicValue.boolean b) =
      MergeResult.merged (AlgebraicValue.boolean (a && b))
  merge_min v w = mismatch OpType.semilattice_min v w

  unfoldable pub merge_add : AlgebraicValue Float → AlgebraicValue Float → MergeResult Float
  merge_add (AlgebraicValue.integer a) (AlgebraicValue.integer b) =
      or_overflow (AlgebraicValue.integer a) (AlgebraicValue.integer b) (Reason.add_overflow a b)
        (checked_add a b)
  merge_add (AlgebraicValue.float a) (AlgebraicValue.float b) =
      MergeResult.merged (AlgebraicValue.float (f.add a b))
  merge_add (AlgebraicValue.integer a) (AlgebraicValue.float b) =
      MergeResult.merged (numeric_result (f.add (f.of_i64 a) b))
  merge_add (AlgebraicValue.float a) (AlgebraicValue.integer b) =
      MergeResult.merged (numeric_result (f.add a (f.of_i64 b)))
  merge_add v w = mismatch OpType.abelian_add v w

  unfoldable pub merge_multiply : AlgebraicValue Float → AlgebraicValue Float → MergeResult Float
  merge_multiply (AlgebraicValue.integer a) (AlgebraicValue.integer b) =
      or_overflow (AlgebraicValue.integer a) (AlgebraicValue.integer b) (Reason.mul_overflow a b)
        (checked_mul a b)
  merge_multiply (AlgebraicValue.float a) (AlgebraicValue.float b) =
      MergeResult.merged (AlgebraicValue.float (f.mul a b))
  merge_multiply (AlgebraicValue.integer a) (AlgebraicValue.float b) =
      MergeResult.merged (numeric_result (f.mul (f.of_i64 a) b))
  merge_multiply (AlgebraicValue.float a) (AlgebraicValue.integer b) =
      MergeResult.merged (numeric_result (f.mul a (f.of_i64 b)))
  merge_multiply v w = mismatch OpType.abelian_multiply v w

  -- The last match of `merge`.
  unfoldable pub dispatch : OpType → AlgebraicValue Float → AlgebraicValue Float → MergeResult Float
  dispatch OpType.semilattice_max v w = merge_max v w
  dispatch OpType.semilattice_min v w = merge_min v w
  dispatch OpType.semilattice_union v w = merge_union v w
  dispatch OpType.semilattice_intersect v w = merge_intersect v w
  dispatch OpType.abelian_add v w = merge_add v w
  dispatch OpType.abelian_multiply v w = merge_multiply v w
  dispatch op v w = MergeResult.conflict v w (Reason.unexpected op)

  -- `AlgebraicMerger::merge`
  unfoldable pub merge : OpType → AlgebraicValue Float → AlgebraicValue Float → MergeResult Float
  unfolding is_conflict_free
  merge op v w =
      if is_null v
      then MergeResult.merged w
      else if is_null w
      then MergeResult.merged v
      else if not (is_conflict_free op)
      then MergeResult.conflict v w (Reason.not_conflict_free op)
      else dispatch op v w
