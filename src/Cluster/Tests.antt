-- ===== src/Cluster/Tests.antt =====
-- Two nodes that exchange updates, and the theorems on them.
use unifieddataruntime.Base.{String, ◌≡◌, refl, none, ok, [], ◌∷◌, string_eq}
use unifieddataruntime.Base.Int.{ℤ, pos}
use unifieddataruntime.Clock
use unifieddataruntime.Clock.{NodeId}
use unifieddataruntime.Algebra.Types.{OpType, AlgebraicValue}
use unifieddataruntime.Algebra.Groups.{Kind}
use unifieddataruntime.Algebra.Tests.{whole_f64}
use unifieddataruntime.Cluster.{SimulatedNode, new_node}
use unifieddataruntime.Commit.{
  AlgebraicTransaction, VersionedUpdate, new_transaction, add_operation, new_update, merge_updates,
}
use unifieddataruntime.Commit.Tests.{add_to}
use unifieddataruntime.Cluster.Discipline.{LatticeSchema}
use unifieddataruntime.Cluster.State.{SameState}
use unifieddataruntime.Cluster.Convergence.{apply_updates, apply_updates_converge}
use unifieddataruntime.Cluster.Merging.{merge_updates-Conforms}
use mathlib.Core.List.{Permᴰ}

-- Every key holds the largest whole number written to it.
abbrev largest : LatticeSchema
largest = record {
  op_of = λ _. OpType.semilattice_max;
  kind_of = λ _. Kind.an_integer;
  supported = λ _. refl;
}

abbrev write : NodeId → String → ℤ → VersionedUpdate ℤ
write n k a = record {
  operations =
      record { key = k; op_type = OpType.semilattice_max; value = AlgebraicValue.integer a } ∷ [];
  clock = Clock.with_node n 1;
  origin_node = n;
  update_id = none;
}

abbrev one : VersionedUpdate ℤ
one = write "a" "x" (pos 1)

abbrev two : VersionedUpdate ℤ
two = write "b" "x" (pos 2)

abbrev node_0 : SimulatedNode ℤ
node_0 = new_node 0

abbrev node_1 : SimulatedNode ℤ
node_1 = new_node 1

both_orders : Permᴰ (one ∷ two ∷ []) (two ∷ one ∷ [])
both_orders = Permᴰ.swap refl refl

apply_updates_converge_example :
    SameState
      (apply_updates node_0 (one ∷ two ∷ [])).state
      (apply_updates node_1 (two ∷ one ∷ [])).state
    × ((j : NodeId)
        → Clock.get (apply_updates node_0 (one ∷ two ∷ [])).clock j
          ≡ Clock.get (apply_updates node_1 (two ∷ one ∷ [])).clock j)
apply_updates_converge_example =
    apply_updates_converge largest node_0 node_1 {us = one ∷ two ∷ []} (unfold new_node in λ _. tt)
      (unfold new_node in λ _. tt) (unfold new_node in λ _. tt) (unfold new_node in λ _. refl)
      (
        (((refl, refl), tt), record { unique = (refl, tt) }),
        ((((refl, refl), tt), record { unique = (refl, tt) }), tt),
      )
      both_orders

abbrev increment : AlgebraicTransaction ℤ
increment = add_operation new_transaction (add_to "x" (pos 1))

abbrev incremented : VersionedUpdate ℤ
incremented = new_update increment.operations (Clock.tick Clock.new node_0.node_id) node_0.node_id

merge_updates-Conforms_example : (r : VersionedUpdate ℤ) × (merge_updates one two ≡ ok r)
merge_updates-Conforms_example =
    merge_updates-Conforms largest one two ((refl, refl), tt) ((refl, refl), tt)
