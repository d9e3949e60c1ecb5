-- ===== src/Commit.antt =====
-- rhizo_core/src/distributed/local_commit.rs: transactions of algebraic operations, their local
-- commit, and the merge of updates. The texts of errors are kept as the data they are made from.
pub mod Grouping
pub mod Outcome
pub mod Tests
use unifieddataruntime.Base.{
  ℕ, String, Bool, true, false, not, ◌&&◌, Option, none, some, List, [], ◌∷◌, ◌++◌, map, all,
  select, length, string_eq, eqb, if◌then◌else◌, Result, ok, err, ◌>>=◌, ◌>>◌, fail_if,
}
use unifieddataruntime.Base.Dict
use unifieddataruntime.Base.Dict.{Dict}
use unifieddataruntime.Clock
use unifieddataruntime.Clock.{NodeId, VectorClock, CausalOrder}
use unifieddataruntime.Algebra.Types.{OpType, op_eqb, is_conflict_free, F64, AlgebraicValue}
use unifieddataruntime.Algebra.Merger
use unifieddataruntime.Algebra.Merger.{Reason, MergeResult}
use Prim.Native.String.{◌++◌ as append}

pub record AlgebraicOperation (Float : Type 0) : Type 0 where
  pub key : String
  pub op_type : OpType
  pub value : AlgebraicValue Float

pub record AlgebraicTransaction (Float : Type 0) : Type 0 where
  pub operations : List (AlgebraicOperation Float)
  pub metadata : Dict String String

pub record VersionedUpdate (Float : Type 0) : Type 0 where
  pub operations : List (AlgebraicOperation Float)
  pub clock : VectorClock
  pub origin_node : NodeId
  pub update_id : Option String

pub data FailReason : Type 0 where
  no_operations : FailReason
  conflicting_types : OpType → OpType → FailReason
  merge_conflict : Reason → FailReason

pub data LocalCommitError : Type 0 where
  non_algebraic : List String → List OpType → LocalCommitError
  empty_transaction : LocalCommitError
  merge_failed : String → FailReason → LocalCommitError
  type_mismatch : String → String → String → LocalCommitError

abbrev pub or_default {ℓ} : {A : Type ℓ} → Option (List A) → List A
or_default none = []
or_default (some xs) = xs

module _ {Float : Type 0} where
  abbrev pub new_transaction : AlgebraicTransaction Float
  new_transaction = record { operations = []; metadata = [] }

  abbrev pub is_algebraic : AlgebraicOperation Float → Bool
  is_algebraic o = is_conflict_free o.op_type

  abbrev pub add_operation :
      AlgebraicTransaction Float → AlgebraicOperation Float → AlgebraicTransaction Float
  add_operation tx o = record tx { operations = tx.operations ++ (o ∷ []) }

  abbrev pub add_operations :
      AlgebraicTransaction Float → List (AlgebraicOperation Float) → AlgebraicTransaction Float
  add_operations tx os = record tx { operations = tx.operations ++ os }

  abbrev pub is_empty : AlgebraicTransaction Float → Bool
  is_empty tx = elim tx.operations [ [] ↦ true | _ ∷ _ ↦ false ]

  abbrev pub is_fully_algebraic : AlgebraicTransaction Float → Bool
  is_fully_algebraic tx = all is_algebraic tx.operations

  unfoldable pub non_algebraic_operations : AlgebraicTransaction Float → List (String × OpType)
  non_algebraic_operations tx =
      map (λ o. (o.key, o.op_type)) (select (λ o. not (is_algebraic o)) tx.operations)

  abbrev pub set_metadata :
      AlgebraicTransaction Float → String → String → AlgebraicTransaction Float
  set_metadata tx k v = record tx { metadata = Dict.insert k v tx.metadata }

  abbrev pub get_metadata : AlgebraicTransaction Float → String → Option String
  get_metadata tx k = Dict.lookup k tx.metadata

  -- `VersionedUpdate::with_id`
  abbrev pub with_id :
      List (AlgebraicOperation Float) → VectorClock → NodeId → String → VersionedUpdate Float
  with_id os c n i = record { operations = os; clock = c; origin_node = n; update_id = some i }

  -- `VersionedUpdate::new`
  abbrev pub new_update :
      List (AlgebraicOperation Float) → VectorClock → NodeId → VersionedUpdate Float
  new_update os c n = record { operations = os; clock = c; origin_node = n; update_id = none }

  abbrev pub compare_updates : VersionedUpdate Float → VersionedUpdate Float → CausalOrder
  compare_updates u v = Clock.compare_clocks u.clock v.clock

  abbrev pub is_concurrent_with : VersionedUpdate Float → VersionedUpdate Float → Bool
  is_concurrent_with u v = Clock.concurrent_with u.clock v.clock

  unfoldable pub can_commit_locally : AlgebraicTransaction Float → Bool
  can_commit_locally tx = not (is_empty tx) && is_fully_algebraic tx

  -- The result, and the clock that the caller holds after the call.
  unfoldable pub commit_local :
      AlgebraicTransaction Float
      → NodeId
      → VectorClock
      → Result LocalCommitError (VersionedUpdate Float) × VectorClock
  unfolding non_algebraic_operations
  commit_local tx n c =
      let bad = non_algebraic_operations tx in
      let c' = Clock.tick c n in
      if is_empty tx
      then (err LocalCommitError.empty_transaction, c)
      else if not (is_fully_algebraic tx)
      then (err (LocalCommitError.non_algebraic (map (λ b. b.0) bad) (map (λ b. b.1) bad)), c)
      else (ok (new_update tx.operations c' n), c')

  -- `by_key.entry(key).or_default().push(op)`, for each operation in turn.
  unfoldable pub group_by_key :
      List (AlgebraicOperation Float)
      → Dict String (List (AlgebraicOperation Float))
      → Dict String (List (AlgebraicOperation Float))
  group_by_key [] m = m
  group_by_key (o ∷ os) m =
      group_by_key os (Dict.insert o.key (or_default (Dict.lookup o.key m) ++ (o ∷ [])) m)

  -- The check that all operations have the type of the first one.
  unfoldable pub check_types :
      String → OpType → List (AlgebraicOperation Float) → Result LocalCommitError (Unit {0})
  check_types key op [] = ok tt
  check_types key op (o ∷ os) =
      let rest = check_types key op os in
      if not (op_eqb o.op_type op)
      then err (LocalCommitError.merge_failed key (FailReason.conflicting_types op o.op_type))
      else rest

module _ {Float : Type 0} ⦃f : F64 Float⦄ where
  -- The fold of the values.
  unfoldable pub merge_values :
      String
      → OpType
      → AlgebraicValue Float
      → List (AlgebraicOperation Float)
      → Result LocalCommitError (AlgebraicValue Float)
  merge_values key op v [] = ok v
  merge_values key op v (o ∷ os) = elim (Merger.merge op v o.value) [
    | MergeResult.merged w ↦ merge_values key op w os
    | MergeResult.conflict _ _ r ↦
        err (LocalCommitError.merge_failed key (FailReason.merge_conflict r))
    | MergeResult.type_mismatch t u _ ↦ err (LocalCommitError.type_mismatch key t u)
  ]

  unfoldable pub merge_operations_for_key :
      String → List (AlgebraicOperation Float) → Result LocalCommitError (AlgebraicOperation Float)
  unfolding check_types merge_values
  merge_operations_for_key key [] = err (LocalCommitError.merge_failed key FailReason.no_operations)
  merge_operations_for_key key (o ∷ os) = do
    check_types key o.op_type os
    v ← merge_values key o.op_type o.value os
    ok (record { key = key; op_type = o.op_type; value = v })

  -- One round of the loop over the groups: a single operation is taken as it is.
  unfoldable pub resolve :
      String → List (AlgebraicOperation Float) → Result LocalCommitError (AlgebraicOperation Float)
  unfolding merge_operations_for_key
  resolve key (o ∷ []) = ok o
  resolve key os = merge_operations_for_key key os

  unfoldable pub merge_groups :
      Dict String (List (AlgebraicOperation Float))
      → Result LocalCommitError (List (AlgebraicOperation Float))
  merge_groups [] = ok []
  merge_groups ((k, os) ∷ gs) = do o ← resolve k os; rest ← merge_groups gs; ok (o ∷ rest)

  unfoldable pub merge_updates :
      VersionedUpdate Float
      → VersionedUpdate Float
      → Result LocalCommitError (VersionedUpdate Float)
  unfolding merge_groups group_by_key
  merge_updates u v = do
    os ← merge_groups (group_by_key v.operations (group_by_key u.operations []))
    ok (
        new_update os (Clock.max_clock u.clock v.clock)
          (append "merged:" (append u.origin_node (append "+" v.origin_node))))

  -- The grouping loop of `merge_all`, over all updates.
  unfoldable pub group_updates :
      List (VersionedUpdate Float)
      → Dict String (List (AlgebraicOperation Float))
      → Dict String (List (AlgebraicOperation Float))
  unfolding group_by_key
  group_updates [] m = m
  group_updates (u ∷ us) m = group_updates us (group_by_key u.operations m)

  -- The clock of the first update, merged with those of the others in turn.
  unfoldable pub merge_clocks : VectorClock → List (VersionedUpdate Float) → VectorClock
  merge_clocks c [] = c
  merge_clocks c (u ∷ us) = merge_clocks (Clock.merge c u.clock) us

  abbrev pub join_origins : List (VersionedUpdate Float) → String
  join_origins [] = ""
  join_origins (u ∷ []) = u.origin_node
  join_origins (u ∷ us) = append u.origin_node (append "+" (join_origins us))

  unfoldable pub merge_all :
      List (VersionedUpdate Float) → Result LocalCommitError (VersionedUpdate Float)
  unfolding merge_groups group_updates merge_clocks
  merge_all [] = err LocalCommitError.empty_transaction
  merge_all (u ∷ []) = ok u
  merge_all (u ∷ us) = do
    os ← merge_groups (group_updates (u ∷ us) [])
    ok (new_update os (merge_clocks u.clock us) (append "merged:" (join_origins (u ∷ us))))
