-- ===== src/Algebra/Schema/Columns.antt =====
-- What a schema says of a column: the answers for a table follow from the answers for its columns.
use unifieddataruntime.Base.{
  String, ◌≡◌, refl, Bool, true, false, not, ◌&&◌, Option, none, some, List, [], ◌∷◌, map, all,
  select, string_eq, ◌==◌, if◌then◌else◌, arith,
}
use unifieddataruntime.Base.Dict
use unifieddataruntime.Base.Dict.{Dict, lookup-insert}
use unifieddataruntime.Base.HashSet
use unifieddataruntime.Algebra.Types.{OpType, is_conflict_free}
use unifieddataruntime.Algebra.Schema.{
  default_identity, ColumnAlgebraic, TableAlgebraicSchema, AlgebraicSchemaRegistry, add_column,
  get_op_type, is_fully_conflict_free, conflict_free_columns, conflicting_columns, can_auto_merge,
  register, column_op_type,
}
use text.Mathlib.TextEquality.{eq_iff}

module _ {Float : Type 0} where
  abbrev free : ColumnAlgebraic Float → Bool
  free a = is_conflict_free a.op_type

  lookup-all :
      (c : String) (a : ColumnAlgebraic Float) (m : Dict String (ColumnAlgebraic Float))
      → all free (Dict.values m) ≡ true
      → Dict.lookup c m ≡ some a
      → free a ≡ true
  lookup-all c a [] h e = absurd (cc e)
  lookup-all c a ((d, b) ∷ m) h e = ground (arith, lookup-all c a m)

  -- A table that is fully conflict free can merge any selection of columns automatically.
  pub is_fully_conflict_free-can_auto_merge :
      (s : TableAlgebraicSchema Float) (cs : List String)
      → is_fully_conflict_free s ≡ true
      → can_auto_merge s cs ≡ true
  unfolding is_fully_conflict_free can_auto_merge get_op_type
  is_fully_conflict_free-can_auto_merge s [] h = refl
  is_fully_conflict_free-can_auto_merge s (c ∷ cs) h =
      let ih = is_fully_conflict_free-can_auto_merge s cs h in go (Dict.lookup c s.columns) refl ih
    where
      go :
          (o : Option (ColumnAlgebraic Float))
          → Dict.lookup c s.columns ≡ o
          → can_auto_merge s cs ≡ true
          → can_auto_merge s (c ∷ cs) ≡ true
      go none e ih = ground arith
      go (some a) e ih = ground (arith, lookup-all c a s.columns)

  contains-columns :
      (p : ColumnAlgebraic Float → Bool) (c : String) (m : Dict String (ColumnAlgebraic Float))
      → Dict.Unique m
      → HashSet.contains c
          (map (λ e. e.0) (select (λ (e : String × ColumnAlgebraic Float). p e.1) m))
        ≡ elim (Dict.lookup c m) [ none ↦ false | some a ↦ p a ]
  contains-columns p c [] u = refl
  contains-columns p c ((d, b) ∷ m) u = ground (arith, contains-columns p c m u.1, eq_iff d c)

  -- The columns of the schema are a map. Each annotated column stands in one of the two lists of columns, the one its operation says, and
  -- no other column stands in either.
  pub columns_partition :
      (s : TableAlgebraicSchema Float) (c : String)
      → Dict.Unique s.columns
      → (HashSet.contains c (conflict_free_columns s)
          ≡ (Dict.contains_key c s.columns && is_conflict_free (get_op_type s c)))
        × (HashSet.contains c (conflicting_columns s)
            ≡ (Dict.contains_key c s.columns && not (is_conflict_free (get_op_type s c))))
  unfolding conflict_free_columns conflicting_columns get_op_type
  columns_partition s c u = (
    ground (arith, contains-columns free c s.columns u),
    ground (arith, contains-columns (λ a. not (free a)) c s.columns u),
  )

  -- After a column is added to a schema and the schema is registered, the registry answers the new
  -- operation for that column of the table, the schema's old answer for every other column, and its
  -- own old answer for every other table.
  pub column_op_type-register :
      (r : AlgebraicSchemaRegistry Float) (s : TableAlgebraicSchema Float) (c d t : String)
      (op : OpType)
      → column_op_type (register r (add_column s c op)) t d
        ≡ (if s.table == t then if c == d then op else get_op_type s d else column_op_type r t d)
  unfolding column_op_type add_column get_op_type
  column_op_type-register r s c d t op =
      let s' = add_column s c op in
      ground (
        arith,
        eq_iff s.table t,
        eq_iff c d,
        lookup-insert s.table t s' r.schemas,
        lookup-insert c d
            (record {
              column = c;
              op_type = op;
              identity = default_identity op;
              description = none;
            })
            s.columns,
      )
