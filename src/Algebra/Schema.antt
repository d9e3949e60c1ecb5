-- ===== src/Algebra/Schema.antt =====
-- rhizo_core/src/algebraic/schema.rs: the operation type of each column of a table, and the registry
-- of the tables' schemas.
pub mod Columns
use unifieddataruntime.Base.{
  String, Bool, true, false, not, ◌&&◌, Option, none, some, List, [], ◌∷◌, map, all, select,
  string_eq, if◌then◌else◌,
}
use unifieddataruntime.Base.Int.{pos}
use unifieddataruntime.Base.Dict
use unifieddataruntime.Base.Dict.{Dict}
use unifieddataruntime.Algebra.Types.{OpType, is_conflict_free, AlgebraicValue}

pub record ColumnAlgebraic (Float : Type 0) : Type 0 where
  pub column : String
  pub op_type : OpType
  pub identity : Option (AlgebraicValue Float)
  pub description : Option String

pub record TableAlgebraicSchema (Float : Type 0) : Type 0 where
  pub table : String
  pub columns : Dict String (ColumnAlgebraic Float)
  pub default_op_type : OpType
  pub description : Option String

pub record AlgebraicSchemaRegistry (Float : Type 0) : Type 0 where
  pub schemas : Dict String (TableAlgebraicSchema Float)

module _ {Float : Type 0} where
  unfoldable pub default_identity : OpType → Option (AlgebraicValue Float)
  default_identity OpType.abelian_add = some (AlgebraicValue.integer (pos 0))
  default_identity OpType.abelian_multiply = some (AlgebraicValue.integer (pos 1))
  default_identity OpType.semilattice_union = some (AlgebraicValue.string_set [])
  default_identity _ = none

  -- `ColumnAlgebraic::new`
  abbrev pub new_column : String → OpType → ColumnAlgebraic Float
  new_column c op = record {
    column = c;
    op_type = op;
    identity = default_identity op;
    description = none;
  }

  -- `ColumnAlgebraic::with_description`
  abbrev pub describe_column : ColumnAlgebraic Float → String → ColumnAlgebraic Float
  describe_column c d = record c { description = some d }

  abbrev pub with_identity : ColumnAlgebraic Float → AlgebraicValue Float → ColumnAlgebraic Float
  with_identity c v = record c { identity = some v }

  -- `TableAlgebraicSchema::new`
  abbrev pub new_schema : String → TableAlgebraicSchema Float
  new_schema t = record {
    table = t;
    columns = [];
    default_op_type = OpType.unknown;
    description = none;
  }

  abbrev pub all_additive : String → TableAlgebraicSchema Float
  all_additive t = record {
    table = t;
    columns = [];
    default_op_type = OpType.abelian_add;
    description = some "All columns use additive merge";
  }

  abbrev pub all_max : String → TableAlgebraicSchema Float
  all_max t = record {
    table = t;
    columns = [];
    default_op_type = OpType.semilattice_max;
    description = some "All columns use max merge";
  }

  -- `TableAlgebraicSchema::with_description`
  abbrev pub describe_schema : TableAlgebraicSchema Float → String → TableAlgebraicSchema Float
  describe_schema s d = record s { description = some d }

  abbrev pub set_default : TableAlgebraicSchema Float → OpType → TableAlgebraicSchema Float
  set_default s op = record s { default_op_type = op }

  unfoldable pub add_column :
      TableAlgebraicSchema Float → String → OpType → TableAlgebraicSchema Float
  add_column s c op = record s { columns = Dict.insert c (new_column c op) s.columns }

  unfoldable pub add_column_annotation :
      TableAlgebraicSchema Float → ColumnAlgebraic Float → TableAlgebraicSchema Float
  add_column_annotation s a = record s { columns = Dict.insert a.column a s.columns }

  unfoldable pub get_op_type : TableAlgebraicSchema Float → String → OpType
  get_op_type s c = elim (Dict.lookup c s.columns) [ none ↦ s.default_op_type | some a ↦ a.op_type ]

  abbrev pub get_column : TableAlgebraicSchema Float → String → Option (ColumnAlgebraic Float)
  get_column s c = Dict.lookup c s.columns

  unfoldable pub is_fully_conflict_free : TableAlgebraicSchema Float → Bool
  is_fully_conflict_free s =
      is_conflict_free s.default_op_type
      && all (λ (a : ColumnAlgebraic Float). is_conflict_free a.op_type) (Dict.values s.columns)

  abbrev pub annotated_columns : TableAlgebraicSchema Float → List String
  annotated_columns s = Dict.keys s.columns

  unfoldable pub conflict_free_columns : TableAlgebraicSchema Float → List String
  conflict_free_columns s =
      map (λ e. e.0)
        (select (λ (e : String × ColumnAlgebraic Float). is_conflict_free e.1.op_type) s.columns)

  unfoldable pub conflicting_columns : TableAlgebraicSchema Float → List String
  conflicting_columns s =
      map (λ e. e.0)
        (select (λ (e : String × ColumnAlgebraic Float). not (is_conflict_free e.1.op_type))
          s.columns)

  unfoldable pub can_auto_merge : TableAlgebraicSchema Float → List String → Bool
  unfolding get_op_type
  can_auto_merge s cs = all (λ c. is_conflict_free (get_op_type s c)) cs

  abbrev pub new_registry : AlgebraicSchemaRegistry Float
  new_registry = record { schemas = [] }

  abbrev pub register :
      AlgebraicSchemaRegistry Float → TableAlgebraicSchema Float → AlgebraicSchemaRegistry Float
  register r s = record r { schemas = Dict.insert s.table s r.schemas }

  abbrev pub get_schema :
      AlgebraicSchemaRegistry Float → String → Option (TableAlgebraicSchema Float)
  get_schema r t = Dict.lookup t r.schemas

  -- `AlgebraicSchemaRegistry::get_op_type`
  unfoldable pub column_op_type : AlgebraicSchemaRegistry Float → String → String → OpType
  unfolding get_op_type
  column_op_type r t c = elim (Dict.lookup t r.schemas) [
    | none ↦ OpType.unknown
    | some s ↦ get_op_type s c
  ]

  abbrev pub clear : AlgebraicSchemaRegistry Float → AlgebraicSchemaRegistry Float
  clear r = record r { schemas = [] }

  abbrev pub has_table : AlgebraicSchemaRegistry Float → String → Bool
  has_table r t = Dict.contains_key t r.schemas

  abbrev pub unregister :
      AlgebraicSchemaRegistry Float
      → String
      → Option (TableAlgebraicSchema Float) × AlgebraicSchemaRegistry Float
  unregister r t = (Dict.lookup t r.schemas, record r { schemas = Dict.remove t r.schemas })
