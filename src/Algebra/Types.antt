-- ===== src/Algebra/Types.antt =====
-- rhizo_core/src/algebraic/types.rs: operation types and values. `f64` is not a type of this
-- development: a value is generic in it, and what the code calls is the interface `F64`.
use unifieddataruntime.Base.{
  ℕ, String, Bool, true, false, ◌&&◌, Option, none, some, eqb, if◌then◌else◌, ◌↔◌, ◌≡◌, arith, Eq,
}
use unifieddataruntime.Base.Int.{ℤ, i64_min, i64_max, eqb_ℤ}
use unifieddataruntime.Base.HashSet.{HashSet}

pub data OpType : Type 0 where
  semilattice_max semilattice_min semilattice_union semilattice_intersect : OpType
  abelian_add abelian_multiply : OpType
  generic_overwrite generic_conditional unknown : OpType

unfoldable pub is_conflict_free : OpType → Bool
is_conflict_free OpType.semilattice_max = true
is_conflict_free OpType.semilattice_min = true
is_conflict_free OpType.semilattice_union = true
is_conflict_free OpType.semilattice_intersect = true
is_conflict_free OpType.abelian_add = true
is_conflict_free OpType.abelian_multiply = true
is_conflict_free _ = false

unfoldable pub is_semilattice : OpType → Bool
is_semilattice OpType.semilattice_max = true
is_semilattice OpType.semilattice_min = true
is_semilattice OpType.semilattice_union = true
is_semilattice OpType.semilattice_intersect = true
is_semilattice _ = false

unfoldable pub is_abelian : OpType → Bool
is_abelian OpType.abelian_add = true
is_abelian OpType.abelian_multiply = true
is_abelian _ = false

-- The position of a variant, by which the derived `==` compares.
abbrev pub op_index : OpType → ℕ
op_index OpType.semilattice_max = 0
op_index OpType.semilattice_min = 1
op_index OpType.semilattice_union = 2
op_index OpType.semilattice_intersect = 3
op_index OpType.abelian_add = 4
op_index OpType.abelian_multiply = 5
op_index OpType.generic_overwrite = 6
op_index OpType.generic_conditional = 7
op_index OpType.unknown = 8

abbrev pub op_eqb : OpType → OpType → Bool
op_eqb a b = eqb (op_index a) (op_index b)

pub op_eqb_iff : (a b : OpType) → (op_eqb a b ≡ true) ↔ (a ≡ b)
op_eqb_iff a b = ground arith

instance abbrev pub op_eq : Eq OpType
op_eq = record { beq = op_eqb; beq_iff = op_eqb_iff }

unfoldable pub can_merge_with : OpType → OpType → Bool
unfolding is_conflict_free
can_merge_with a b = op_eqb a b && is_conflict_free a

unfoldable pub identity_hint : OpType → Option String
identity_hint OpType.abelian_add = some "0"
identity_hint OpType.abelian_multiply = some "1"
identity_hint OpType.semilattice_union = some "empty_set"
identity_hint _ = none

-- `impl Default for OpType`
abbrev pub default_op : OpType
default_op = OpType.unknown

-- The operations of `f64` that the code calls: `+`, `*`, `max`, `min`, the casts `as f64` and
-- `as i64`, `is_finite`, `trunc`, `==` and `<=`.
pub record F64 (Float : Type 0) : Type 0 where
  pub add : Float → Float → Float
  pub mul : Float → Float → Float
  pub fmax : Float → Float → Float
  pub fmin : Float → Float → Float
  pub of_i64 : ℤ → Float
  pub to_i64 : Float → ℤ
  pub is_finite : Float → Bool
  pub trunc : Float → Float
  pub feq : Float → Float → Bool
  pub fle : Float → Float → Bool

pub data AlgebraicValue (Float : Type 0) : Type 0 where
  integer : ℤ → AlgebraicValue Float
  float : Float → AlgebraicValue Float
  string_set : HashSet String → AlgebraicValue Float
  int_set : HashSet ℤ → AlgebraicValue Float
  boolean : Bool → AlgebraicValue Float
  null : AlgebraicValue Float

module _ {Float : Type 0} where
  abbrev pub type_name : AlgebraicValue Float → String
  type_name (AlgebraicValue.integer _) = "Integer"
  type_name (AlgebraicValue.float _) = "Float"
  type_name (AlgebraicValue.string_set _) = "StringSet"
  type_name (AlgebraicValue.int_set _) = "IntSet"
  type_name (AlgebraicValue.boolean _) = "Boolean"
  type_name AlgebraicValue.null = "Null"

  abbrev pub is_numeric : AlgebraicValue Float → Bool
  is_numeric (AlgebraicValue.integer _) = true
  is_numeric (AlgebraicValue.float _) = true
  is_numeric _ = false

  abbrev pub is_set : AlgebraicValue Float → Bool
  is_set (AlgebraicValue.string_set _) = true
  is_set (AlgebraicValue.int_set _) = true
  is_set _ = false

  abbrev pub is_null : AlgebraicValue Float → Bool
  is_null AlgebraicValue.null = true
  is_null _ = false

module _ {Float : Type 0} ⦃f : F64 Float⦄ where
  -- Whether a float is an integer in the range of `i64`.
  abbrev pub is_exact_integer : Float → Bool
  is_exact_integer v =
      f.is_finite v
      && (f.feq v (f.trunc v) && (f.fle (f.of_i64 i64_min) v && f.fle v (f.of_i64 i64_max)))

  unfoldable pub as_integer : AlgebraicValue Float → Option ℤ
  as_integer (AlgebraicValue.integer v) = some v
  as_integer (AlgebraicValue.float v) = if is_exact_integer v then some (f.to_i64 v) else none
  as_integer _ = none

  -- `i64::MAX` rounds up and saturates back, so it is excluded by name.
  unfoldable pub as_float : AlgebraicValue Float → Option Float
  as_float (AlgebraicValue.float v) = some v
  as_float (AlgebraicValue.integer v) =
      let r = f.of_i64 v in
      if eqb_ℤ v i64_max then none else if eqb_ℤ (f.to_i64 r) v then some r else none
  as_float _ = none
