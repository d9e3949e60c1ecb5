-- ===== src/Cluster/Discipline.antt =====
-- The discipline that convergence asks of a program. It is an assumption on the updates that a program
-- makes: the code does not check it.
use unifieddataruntime.Base.{
  String, ◌≡◌, refl, sym, ◌∙◌, true, Option, none, some, string_eq, ◌==◌, if◌then◌else◌, arith,
}
use unifieddataruntime.Base.Dict
use unifieddataruntime.Base.Dict.{lookup-insert}
use unifieddataruntime.Algebra.Types.{OpType, F64, AlgebraicValue}
use unifieddataruntime.Algebra.Merger.{MergeResult, merge}
use unifieddataruntime.Algebra.Groups.{Kind, kind, lattice_supports, joined, merge-joined}
use unifieddataruntime.Commit.{AlgebraicOperation}
use unifieddataruntime.Cluster.{State, apply_op}
use text.Mathlib.TextEquality.{eq_iff}

-- A lattice schema: each key has one semilattice operation (MAX, MIN, UNION or INTERSECT) and one kind of
-- values that it supports: integers or truth values under MAX and MIN, sets or truth values under UNION
-- and INTERSECT. ADD and MULTIPLY are left out, since an update whose sum overflows is skipped and the
-- order decides which one does; so are floats.
pub record LatticeSchema : Type 0 where
  pub op_of : String → OpType
  pub kind_of : String → Kind
  pub supported : (k : String) → lattice_supports (op_of k) (kind_of k) ≡ true

module _ {Float : Type 0} (s : LatticeSchema) where
  abbrev pub Conforms : AlgebraicOperation Float → Type 0
  Conforms o = (o.op_type ≡ s.op_of o.key) × (kind o.value ≡ s.kind_of o.key)

  -- An entry of a node's state under a key.
  abbrev pub EntryConforms : String → Option (OpType × AlgebraicValue Float) → Type 0
  EntryConforms k none = Unit
  EntryConforms k (some (t, v)) = (t ≡ s.op_of k) × (kind v ≡ s.kind_of k)

  abbrev pub StateConforms : State Float → Type 0
  StateConforms st = (k : String) → EntryConforms k (Dict.lookup k st)

module _ {Float : Type 0} ⦃f : F64 Float⦄ where
  -- What an operation makes of the entry of its key.
  abbrev pub entry_step :
      Option (OpType × AlgebraicValue Float)
      → AlgebraicOperation Float
      → Option (OpType × AlgebraicValue Float)
  entry_step none o = some (o.op_type, o.value)
  entry_step (some (t, v)) o = some (t, joined o.op_type v o.value)

  -- An operation that conforms changes the entry of its key alone, by `entry_step`.
  pub lookup-apply_op :
      (s : LatticeSchema) (st : State Float) (o : AlgebraicOperation Float) (k : String)
      → StateConforms s st
      → Conforms s o
      → Dict.lookup k (apply_op st o)
        ≡ (if o.key == k then entry_step (Dict.lookup k st) o else Dict.lookup k st)
  unfolding apply_op
  lookup-apply_op s st o k g h = go (Dict.lookup o.key st) refl (g o.key)
    where
      go :
          (e : Option (OpType × AlgebraicValue Float))
          → Dict.lookup o.key st ≡ e
          → EntryConforms s o.key e
          → Dict.lookup k (apply_op st o)
            ≡ (if o.key == k then entry_step (Dict.lookup k st) o else Dict.lookup k st)
      go none e c = ground (arith, lookup-insert o.key k (o.op_type, o.value) st, eq_iff o.key k)
      go (some (t, v)) e c =
          let m =
            merge-joined (s.op_of o.key) (s.kind_of o.key) (s.supported o.key) v o.value c.1 h.1 in
          let w = joined o.op_type v o.value in
          let m' : merge o.op_type v o.value ≡ MergeResult.merged w = rw h.0 m in
          let same : t ≡ o.op_type = c.0 ∙ sym h.0 in
          ground (arith, m', lookup-insert o.key k (o.op_type, w) st, eq_iff o.key k)
