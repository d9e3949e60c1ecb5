-- ===== src/Cluster/Merging.antt =====
-- Updates of one lattice schema always merge.
use unifieddataruntime.Base.{
  String, ◌≡◌, refl, sym, ◌∙◌, true, List, [], ◌∷◌, ◌++◌, All, string_eq, ◌==◌, arith, Bool-cases,
  inl, inr, Result, ok, ◌>>=◌,
}
use unifieddataruntime.Base.Dict
use unifieddataruntime.Base.Dict.{Dict}
use unifieddataruntime.Algebra.Types.{op_eqb_iff, F64, AlgebraicValue}
use unifieddataruntime.Algebra.Groups.{kind, lattice_supports, merge-lattice_supports}
use unifieddataruntime.Commit.{
  AlgebraicOperation, VersionedUpdate, or_default, group_by_key, check_types, merge_values,
  merge_operations_for_key, resolve, merge_groups, merge_updates,
}
use unifieddataruntime.Cluster.Discipline.{LatticeSchema, Conforms}
use mathlib.Core.Path.{subst}
use text.Mathlib.TextEquality.{eq_iff}

bind_ok :
    {E A B : Type 0} (m : Result E A) (g : A → B) (a : A)
    → m ≡ ok a
    → (b : B) × ((m >>= λ x. ok (g x)) ≡ ok b)
bind_ok m g a e = (g a, rw e refl)

module _ {Float : Type 0} (s : LatticeSchema) where
  -- An operation of the type and the kind that the lattice schema has for a key.
  abbrev Fits : String → AlgebraicOperation Float → Type 0
  Fits k o = (o.op_type ≡ s.op_of k) × (kind o.value ≡ s.kind_of k)

  abbrev GoodGroup : String → List (AlgebraicOperation Float) → Type 0
  GoodGroup k [] = ⊥
  GoodGroup k (o ∷ os) = Fits k o × All (Fits k) os

  abbrev GoodGroups : Dict String (List (AlgebraicOperation Float)) → Type 0
  GoodGroups [] = Unit
  GoodGroups ((k, os) ∷ gs) = GoodGroup k os × GoodGroups gs

  push-GoodGroup :
      (k : String) (os : List (AlgebraicOperation Float)) (o : AlgebraicOperation Float)
      → All (Fits k) os
      → Fits k o
      → GoodGroup k (os ++ (o ∷ []))
  push-GoodGroup k [] o h f = (f, tt)
  push-GoodGroup k (p ∷ []) o h f = (h.0, (f, tt))
  push-GoodGroup k (p ∷ q ∷ os) o h f = let rest = push-GoodGroup k (q ∷ os) o h.1 f in (h.0, rest)

  lookup-Fits :
      (k : String) (gs : Dict String (List (AlgebraicOperation Float)))
      → GoodGroups gs
      → All (Fits k) (or_default (Dict.lookup k gs))
  lookup-Fits k [] h = tt
  lookup-Fits k ((j, []) ∷ gs) h = absurd h.0
  lookup-Fits k ((j, o ∷ os) ∷ gs) h = elim (Bool-cases (j == k)) [
    | inl e ↦ rw e (subst (λ i. GoodGroup i (o ∷ os)) ((eq_iff j k).0 e) h.0)
    | inr d ↦ rw d (lookup-Fits k gs h.1)
  ]

  insert-GoodGroups :
      (k : String) (os : List (AlgebraicOperation Float))
      (gs : Dict String (List (AlgebraicOperation Float)))
      → GoodGroup k os
      → GoodGroups gs
      → GoodGroups (Dict.insert k os gs)
  insert-GoodGroups k os [] g h = (g, tt)
  insert-GoodGroups k os ((j, ps) ∷ gs) g h = elim (Bool-cases (j == k)) [
    | inl e ↦ rw e (g, h.1)
    | inr d ↦ rw d (h.0, insert-GoodGroups k os gs g h.1)
  ]

  group_by_key-GoodGroups :
      (os : List (AlgebraicOperation Float)) (gs : Dict String (List (AlgebraicOperation Float)))
      → All (Conforms s) os
      → GoodGroups gs
      → GoodGroups (group_by_key os gs)
  unfolding group_by_key
  group_by_key-GoodGroups [] gs c h = h
  group_by_key-GoodGroups (o ∷ os) gs c h =
      let g = or_default (Dict.lookup o.key gs) in
      group_by_key-GoodGroups os (Dict.insert o.key (g ++ (o ∷ [])) gs) c.1 (
        insert-GoodGroups o.key (g ++ (o ∷ [])) gs
          (push-GoodGroup o.key g o (lookup-Fits o.key gs h) c.0) h)

  check_types_lem :
      (k : String) (os : List (AlgebraicOperation Float))
      → All (Fits k) os
      → check_types k (s.op_of k) os ≡ ok tt
  unfolding check_types
  check_types_lem k [] h = refl
  check_types_lem k (o ∷ os) h =
      rw ((op_eqb_iff o.op_type (s.op_of k)).1 h.0.0) (check_types_lem k os h.1)

module _ {Float : Type 0} ⦃f : F64 Float⦄ (s : LatticeSchema) where
  merge_values_lem :
      (k : String) (v : AlgebraicValue Float) (os : List (AlgebraicOperation Float))
      → kind v ≡ s.kind_of k
      → All (Fits s k) os
      → (w : AlgebraicValue Float) × (merge_values k (s.op_of k) v os ≡ ok w)
  unfolding merge_values
  merge_values_lem k v [] h c = (v, refl)
  merge_values_lem k v (o ∷ os) h c =
      let can : lattice_supports (s.op_of k) (kind v) ≡ true = rw h (s.supported k) in
      let (u, e, ku) = merge-lattice_supports (s.op_of k) v o.value can (c.0.1 ∙ sym h) in
      rw (e, merge_values) (merge_values_lem k u os (ku ∙ h) c.1)

  resolve_lem :
      (k : String) (os : List (AlgebraicOperation Float))
      → GoodGroup s k os
      → (o : AlgebraicOperation Float) × (resolve k os ≡ ok o)
  unfolding resolve merge_operations_for_key
  resolve_lem k [] h = absurd h
  resolve_lem k (o ∷ []) h = (o, refl)
  resolve_lem k (o ∷ p ∷ os) h =
      let (w, e) = merge_values_lem k o.value (p ∷ os) h.0.1 h.1 in
      let same : check_types k o.op_type (p ∷ os) ≡ ok tt =
        subst (λ t. check_types k t (p ∷ os) ≡ ok tt) (sym h.0.0)
          (check_types_lem s k (p ∷ os) h.1) in
      let folded : merge_values k o.op_type o.value (p ∷ os) ≡ ok w =
        subst (λ t. merge_values k t o.value (p ∷ os) ≡ ok w) (sym h.0.0) e in
      (record { key = k; op_type = o.op_type; value = w }, ground (arith, same, folded))

  merge_groups_lem :
      (gs : Dict String (List (AlgebraicOperation Float)))
      → GoodGroups s gs
      → (os : List (AlgebraicOperation Float)) × (merge_groups gs ≡ ok os)
  unfolding merge_groups
  merge_groups_lem [] h = ([], refl)
  merge_groups_lem ((k, os) ∷ gs) h =
      let (o, e) = resolve_lem k os h.0 in
      let (ps, e') = merge_groups_lem gs h.1 in (o ∷ ps, rw (e, e') refl)

  -- Two updates whose operations conform to a lattice schema always merge: one semilattice operation
  -- (MAX, MIN, UNION or INTERSECT) for a key, and one kind of values that it supports, which are
  -- integers, sets or truth values. Updates with ADD, MULTIPLY or floats are not covered.
  pub merge_updates-Conforms :
      (v w : VersionedUpdate Float)
      → All (Conforms s) v.operations
      → All (Conforms s) w.operations
      → (r : VersionedUpdate Float) × (merge_updates v w ≡ ok r)
  unfolding merge_updates
  merge_updates-Conforms v w hv hw =
      let (os, e) = merge_groups_lem (group_by_key w.operations (group_by_key v.operations [])) (
        group_by_key-GoodGroups s w.operations (group_by_key v.operations []) hw
          (group_by_key-GoodGroups s v.operations [] hv tt)) in
      bind_ok (merge_groups (group_by_key w.operations (group_by_key v.operations []))) _ os e
