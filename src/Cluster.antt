-- ===== src/Cluster.antt =====
-- rhizo_core/src/distributed/simulation.rs: nodes that commit locally and gossip their updates.
pub mod Discipline
pub mod State
pub mod Convergence
pub mod Delivery
pub mod Merging
pub mod Tests
use unifieddataruntime.Base.{
  ℕ, suc, zero, ◌+◌, String, Bool, true, false, not, ◌&&◌, ◌||◌, Option, none, some, List, [], ◌∷◌,
  ◌++◌, map, all, any, length, string_eq, eqb, if◌then◌else◌, Result, ok, err,
}
use unifieddataruntime.Base.Dict
use unifieddataruntime.Base.Dict.{Dict}
use unifieddataruntime.Base.HashSet
use unifieddataruntime.Base.HashSet.{HashSet}
use unifieddataruntime.Base.Text.{show_u64, join, sort_by_text}
use unifieddataruntime.Clock
use unifieddataruntime.Clock.{NodeId, VectorClock}
use unifieddataruntime.Algebra.Types.{OpType, op_eqb, F64, AlgebraicValue}
use unifieddataruntime.Algebra.Merger
use unifieddataruntime.Algebra.Merger.{MergeResult}
use unifieddataruntime.Commit.{
  AlgebraicOperation, AlgebraicTransaction, VersionedUpdate, LocalCommitError, commit_local,
}
use Prim.Native.String.{◌++◌ as append}

-- The value of each key, with the type of the operation that made it.
abbrev pub State : Type 0 → Type 0
State Float = Dict String (OpType × AlgebraicValue Float)

pub record SimulatedNode (Float : Type 0) : Type 0 where
  pub node_id : NodeId
  pub index : ℕ
  pub clock : VectorClock
  pub state : State Float
  pub local_updates : List (VersionedUpdate Float)
  pub all_updates : List (VersionedUpdate Float)
  pub applied_updates : HashSet String
  pub outbox : List (VersionedUpdate Float)

module _ {Float : Type 0} where
  -- `SimulatedNode::new`
  unfoldable pub new_node : ℕ → SimulatedNode Float
  new_node i = record {
    node_id = append "node-" (show_u64 i);
    index = i;
    clock = Clock.new;
    state = [];
    local_updates = [];
    all_updates = [];
    applied_updates = [];
    outbox = [];
  }

  -- The explicit id, or the origin with the entries of the clock in the order of their nodes.
  unfoldable pub generate_update_id : VersionedUpdate Float → String
  generate_update_id u = elim u.update_id [
    | some i ↦ i
    | none ↦
        let entries = sort_by_text (λ (e : NodeId × ℕ). e.0) u.clock.clocks in
        append u.origin_node
          (append "@" (join "," (map (λ e. append e.0 (append "=" (show_u64 e.1))) entries)))
  ]

  abbrev pub get_state : SimulatedNode Float → String → Option (AlgebraicValue Float)
  get_state n k = elim (Dict.lookup k n.state) [ none ↦ none | some (_, v) ↦ some v ]

module _ {Float : Type 0} ⦃f : F64 Float⦄ where
  -- One round of the loop of `apply_update`: what does not merge is passed over.
  unfoldable pub apply_op : State Float → AlgebraicOperation Float → State Float
  apply_op st o = elim (Dict.lookup o.key st) [
    | some (t, v) ↦
        if op_eqb t o.op_type
        then elim (Merger.merge o.op_type v o.value) [
          | MergeResult.merged w ↦ Dict.insert o.key (o.op_type, w) st
          | MergeResult.conflict _ _ _ ↦ st
          | MergeResult.type_mismatch _ _ _ ↦ st
        ]
        else st
    | none ↦ Dict.insert o.key (o.op_type, o.value) st
  ]

  unfoldable pub apply_ops : State Float → List (AlgebraicOperation Float) → State Float
  apply_ops st [] = st
  apply_ops st (o ∷ os) = apply_ops (apply_op st o) os

  unfoldable pub apply_update : SimulatedNode Float → VersionedUpdate Float → SimulatedNode Float
  unfolding apply_ops
  apply_update n u = record n {
    state = apply_ops n.state u.operations;
    clock = Clock.merge n.clock u.clock;
  }

  -- `SimulatedNode::commit`
  unfoldable pub commit :
      SimulatedNode Float
      → AlgebraicTransaction Float
      → Result LocalCommitError (VersionedUpdate Float) × SimulatedNode Float
  unfolding apply_update
  commit n tx =
      let (r, c) = commit_local tx n.node_id n.clock in
      elim r [
        | err e ↦ (err e, record n { clock = c })
        | ok u ↦
            let n' = apply_update (record n { clock = c }) u in
            (
              ok u,
              record n' {
                applied_updates = HashSet.insert (generate_update_id u) n'.applied_updates;
                local_updates = n'.local_updates ++ (u ∷ []);
                all_updates = n'.all_updates ++ (u ∷ []);
                outbox = n'.outbox ++ (u ∷ []);
              },
            )
      ]

  -- The answer says whether the update was new.
  unfoldable pub receive_update :
      SimulatedNode Float → VersionedUpdate Float → Bool × SimulatedNode Float
  unfolding apply_update
  receive_update n u =
      let i = generate_update_id u in
      let n' = apply_update n u in
      if HashSet.contains i n.applied_updates then (false, n) else (
        true,
        record n' {
          applied_updates = HashSet.insert i n'.applied_updates;
          all_updates = n'.all_updates ++ (u ∷ []);
          outbox = n'.outbox ++ (u ∷ []);
        },
      )
