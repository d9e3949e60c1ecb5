-- ===== src/Algebra/Groups/Joined.antt =====
-- The merge as a total function, which keeps the first value where the two do not merge; on the
-- values of one kind that the operation is defined on it is a join.
use unifieddataruntime.Base.{◌≡◌, refl, sym, ◌∙◌, Bool, true, arith, string_eq, ap, String}
use unifieddataruntime.Base.Int.{ℤ, int_eq}
use unifieddataruntime.Base.HashSet.{HashSet, SameSet, contains-union, contains-intersection}
use unifieddataruntime.Algebra.Types.{OpType, is_semilattice, F64, AlgebraicValue}
use unifieddataruntime.Algebra.Merger.{
  MergeResult, merge, dispatch, merge_max, merge_min, merge_union, merge_intersect,
}
use unifieddataruntime.Algebra.Same.{
  IsExact, SameValue, SameValue-refl, SameValue-sym, SameValue-trans,
}
use unifieddataruntime.Algebra.Commutes.{merge_comm}
use unifieddataruntime.Algebra.Groups.Three.{left, right}
use unifieddataruntime.Algebra.Groups.Semilattice.{merge-assoc_semilattice}
use unifieddataruntime.Algebra.Groups.Idempotent.{
  Kind, kind, lattice_supports, joins_itself, merge-lattice_supports,
}

lattice_supports-is_semilattice :
    (op : OpType) (k : Kind) → lattice_supports op k ≡ true → is_semilattice op ≡ true
unfolding is_semilattice
lattice_supports-is_semilattice op k h = ground arith

module _ {Float : Type 0} where
  lattice_supports-IsExact :
      (op : OpType) (v : AlgebraicValue Float) → lattice_supports op (kind v) ≡ true → IsExact v
  lattice_supports-IsExact op (AlgebraicValue.float _) h = ground arith
  lattice_supports-IsExact op v h = tt

  same_integer :
      (a : ℤ) (v : AlgebraicValue Float)
      → SameValue (AlgebraicValue.integer a) v
      → AlgebraicValue.integer a ≡ v
  same_integer a (AlgebraicValue.integer b) h = ap AlgebraicValue.integer h
  same_integer a v h = absurd h

  same_boolean :
      (a : Bool) (v : AlgebraicValue Float)
      → SameValue (AlgebraicValue.boolean a) v
      → AlgebraicValue.boolean a ≡ v
  same_boolean a (AlgebraicValue.boolean b) h = ap AlgebraicValue.boolean h
  same_boolean a v h = absurd h

  same_string_set :
      (a : HashSet String) (v : AlgebraicValue Float)
      → SameValue (AlgebraicValue.string_set a) v
      → (b : HashSet String) × (v ≡ AlgebraicValue.string_set b) × SameSet a b
  same_string_set a (AlgebraicValue.string_set b) h = (b, refl, h)
  same_string_set a v h = absurd h

  same_int_set :
      (a : HashSet ℤ) (v : AlgebraicValue Float)
      → SameValue (AlgebraicValue.int_set a) v
      → (b : HashSet ℤ) × (v ≡ AlgebraicValue.int_set b) × SameSet a b
  same_int_set a (AlgebraicValue.int_set b) h = (b, refl, h)
  same_int_set a v h = absurd h

  a_string_set_of_kind :
      (v : AlgebraicValue Float)
      → kind v ≡ Kind.a_string_set
      → (b : HashSet String) × (v ≡ AlgebraicValue.string_set b)
  a_string_set_of_kind (AlgebraicValue.string_set b) h = (b, refl)
  a_string_set_of_kind v h = absurd (cc h)

  an_int_set_of_kind :
      (v : AlgebraicValue Float)
      → kind v ≡ Kind.an_int_set
      → (b : HashSet ℤ) × (v ≡ AlgebraicValue.int_set b)
  an_int_set_of_kind (AlgebraicValue.int_set b) h = (b, refl)
  an_int_set_of_kind v h = absurd (cc h)

module _ {Float : Type 0} ⦃f : F64 Float⦄ where
  abbrev pub joined : OpType → AlgebraicValue Float → AlgebraicValue Float → AlgebraicValue Float
  joined op v w = elim (merge op v w) [
    | MergeResult.merged u ↦ u
    | MergeResult.conflict _ _ _ ↦ v
    | MergeResult.type_mismatch _ _ _ ↦ v
  ]

  module _ (op : OpType) (k : Kind) (s : lattice_supports op k ≡ true) where
    pub merge-joined :
        (v w : AlgebraicValue Float)
        → kind v ≡ k
        → kind w ≡ k
        → merge op v w ≡ MergeResult.merged (joined op v w)
    merge-joined v w kv kw =
        let (u, e, _) = merge-lattice_supports op v w (rw kv s) (kw ∙ sym kv) in rw (e, joined)

    pub joined-kind :
        (v w : AlgebraicValue Float) → kind v ≡ k → kind w ≡ k → kind (joined op v w) ≡ k
    joined-kind v w kv kw =
        let (u, e, ku) = merge-lattice_supports op v w (rw kv s) (kw ∙ sym kv) in
        rw (e, joined) (ku ∙ kv)

    exact : (v : AlgebraicValue Float) → kind v ≡ k → IsExact v
    exact v kv = lattice_supports-IsExact op v (rw kv s)

    pub joined_comm :
        (v w : AlgebraicValue Float)
        → kind v ≡ k
        → kind w ≡ k
        → SameValue (joined op v w) (joined op w v)
    joined_comm v w kv kw =
        rw (merge-joined v w kv kw, merge-joined w v kw kv) at
          (merge_comm op v w (exact v kv) (exact w kw))

    pub joined_assoc :
        (v w u : AlgebraicValue Float)
        → kind v ≡ k
        → kind w ≡ k
        → kind u ≡ k
        → SameValue (joined op (joined op v w) u) (joined op v (joined op w u))
    joined_assoc v w u kv kw ku =
        let vw = joined-kind v w kv kw in
        let wu = joined-kind w u kw ku in
        rw
          (
            merge-joined v w kv kw,
            merge-joined w u kw ku,
            merge-joined (joined op v w) u vw ku,
            merge-joined v (joined op w u) kv wu,
            left,
            right,
          )
          at
          (merge-assoc_semilattice op v w u (lattice_supports-is_semilattice op k s) (exact v kv)
            (exact w kw) (exact u ku))

    pub joined_idem : (v : AlgebraicValue Float) → kind v ≡ k → SameValue (joined op v v) v
    joined_idem v kv = rw (merge-joined v v kv kv) at (joins_itself op v (rw kv s))

  -- The merge does not tell values apart that are the same.
  pub joined-cong :
      (op : OpType) (v v' w : AlgebraicValue Float)
      → lattice_supports op (kind v) ≡ true
      → kind w ≡ kind v
      → SameValue v v'
      → SameValue (joined op v w) (joined op v' w)
  unfolding merge dispatch merge_max merge_min merge_union merge_intersect
  joined-cong op (AlgebraicValue.integer a) v' w h k e =
      rw (← same_integer a v' e) (SameValue-refl _)
  joined-cong op (AlgebraicValue.boolean a) v' w h k e =
      rw (← same_boolean a v' e) (SameValue-refl _)
  joined-cong OpType.semilattice_union (AlgebraicValue.string_set a) v' w h k e =
      let (a', ea, ma) = same_string_set a v' e in
      let (b, eb) = a_string_set_of_kind w k in rw (ea, eb) (λ x. simp (contains-union, ma))
  joined-cong OpType.semilattice_union (AlgebraicValue.int_set a) v' w h k e =
      let (a', ea, ma) = same_int_set a v' e in
      let (b, eb) = an_int_set_of_kind w k in rw (ea, eb) (λ x. simp (contains-union, ma))
  joined-cong OpType.semilattice_intersect (AlgebraicValue.string_set a) v' w h k e =
      let (a', ea, ma) = same_string_set a v' e in
      let (b, eb) = a_string_set_of_kind w k in rw (ea, eb) (λ x. simp (contains-intersection, ma))
  joined-cong OpType.semilattice_intersect (AlgebraicValue.int_set a) v' w h k e =
      let (a', ea, ma) = same_int_set a v' e in
      let (b, eb) = an_int_set_of_kind w k in rw (ea, eb) (λ x. simp (contains-intersection, ma))
  joined-cong op v v' w h k e = absurd (ground arith)

  module _ (op : OpType) (k : Kind) (s : lattice_supports op k ≡ true) where
    joined-cong_right :
        (v w w' : AlgebraicValue Float)
        → kind v ≡ k
        → kind w ≡ k
        → kind w' ≡ k
        → SameValue w w'
        → SameValue (joined op v w) (joined op v w')
    joined-cong_right v w w' kv kw kw' e =
        SameValue-trans (joined op v w) (joined op w v) (joined op v w')
          (joined_comm op k s v w kv kw)
          (SameValue-trans (joined op w v) (joined op w' v) (joined op v w')
            (joined-cong op w w' v (rw kw s) (kv ∙ sym kw) e) (joined_comm op k s w' v kw' kv))

    -- Two values joined to a third in either order.
    pub joined-swap :
        (v w u : AlgebraicValue Float)
        → kind v ≡ k
        → kind w ≡ k
        → kind u ≡ k
        → SameValue (joined op (joined op v w) u) (joined op (joined op v u) w)
    joined-swap v w u kv kw ku =
        let wu = joined op w u in
        let uw = joined op u w in
        SameValue-trans (joined op (joined op v w) u) (joined op v wu) (joined op (joined op v u) w)
          (joined_assoc op k s v w u kv kw ku)
          (SameValue-trans (joined op v wu) (joined op v uw) (joined op (joined op v u) w)
            (joined-cong_right v wu uw kv (joined-kind op k s w u kw ku)
              (joined-kind op k s u w ku kw) (joined_comm op k s w u kw ku))
            (SameValue-sym (joined op (joined op v u) w) (joined op v uw)
              (joined_assoc op k s v u w kv ku kw)))
