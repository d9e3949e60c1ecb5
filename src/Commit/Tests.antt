-- ===== src/Commit/Tests.antt =====
-- Commits and merges of concrete updates, and the theorems on them.
use unifieddataruntime.Base.{String, ◌≡◌, refl, none, [], ◌∷◌, ◌++◌, string_eq, ok, err}
use unifieddataruntime.Base.Int.{ℤ, pos, checked_add, ◌+ℤ◌}
use unifieddataruntime.Clock
use unifieddataruntime.Clock.{merge_entries}
use unifieddataruntime.Algebra.Types.{OpType, is_conflict_free}
use unifieddataruntime.Algebra.Merger
use unifieddataruntime.Algebra.Merger.{dispatch, merge_add}
use unifieddataruntime.Algebra.Tests.{whole_f64, whole}
use unifieddataruntime.Commit.{
  AlgebraicOperation, VersionedUpdate, LocalCommitError, new_update, new_transaction, add_operation,
  can_commit_locally, commit_local, group_by_key, group_updates, merge_clocks, check_types,
  merge_values, merge_operations_for_key, resolve, merge_groups, merge_updates, merge_all,
}
use unifieddataruntime.Commit.Grouping.{ops_for, with_ops}
use unifieddataruntime.Commit.Outcome.{
  is_ok, PerKey, all_ops, commit_local_outcome, merge_updates-PerKey, merge_all-PerKey,
}

abbrev pub add_to : String → ℤ → AlgebraicOperation ℤ
add_to k a = record { key = k; op_type = OpType.abelian_add; value = whole a }

abbrev pub from_a : VersionedUpdate ℤ
from_a = new_update (add_to "x" (pos 1) ∷ []) (Clock.with_node "a" 1) "a"

abbrev pub from_b : VersionedUpdate ℤ
from_b = new_update (add_to "x" (pos 2) ∷ add_to "y" (pos 5) ∷ []) (Clock.with_node "b" 1) "b"

abbrev merged_ab : VersionedUpdate ℤ
merged_ab = record {
  operations = add_to "x" (pos 3) ∷ add_to "y" (pos 5) ∷ [];
  clock = Clock.merge from_a.clock from_b.clock;
  origin_node = "merged:a+b";
  update_id = none;
}

merge_ab : merge_updates from_a from_b ≡ ok merged_ab
unfolding merge_updates merge_groups group_by_key resolve merge_operations_for_key check_types
    merge_values Merger.merge is_conflict_free dispatch merge_add checked_add ◌+ℤ◌
merge_ab = refl

merge_all_ab : merge_all (from_a ∷ from_b ∷ []) ≡ ok merged_ab
unfolding merge_all merge_groups group_updates group_by_key resolve merge_operations_for_key
    check_types merge_values Merger.merge is_conflict_free dispatch merge_add checked_add ◌+ℤ◌
    merge_clocks
merge_all_ab = refl

commit_local_outcome_example :
    let tx = add_operation new_transaction (add_to "x" (pos 1)) in
    let (r, c) = commit_local tx "a" Clock.new in
    (is_ok r ≡ can_commit_locally tx)
    × ((u : VersionedUpdate ℤ)
        → r ≡ ok u
        → (u ≡ new_update tx.operations c "a") × (c ≡ Clock.tick Clock.new "a"))
    × ((e : LocalCommitError) → r ≡ err e → c ≡ Clock.new)
commit_local_outcome_example =
    commit_local_outcome (add_operation new_transaction (add_to "x" (pos 1))) "a" Clock.new

merge_updates-PerKey_example :
    ((k : String)
      → PerKey k
          (with_ops none (ops_for k (from_a.operations ++ from_b.operations)))
          (ops_for k merged_ab.operations))
    × (merged_ab.clock ≡ Clock.merge from_a.clock from_b.clock)
merge_updates-PerKey_example = merge_updates-PerKey from_a from_b merged_ab merge_ab

merge_all-PerKey_example :
    ((k : String)
      → PerKey k
          (with_ops none (ops_for k (all_ops (from_a ∷ from_b ∷ []))))
          (ops_for k merged_ab.operations))
    × (merged_ab.clock ≡ merge_clocks from_a.clock (from_b ∷ []))
merge_all-PerKey_example = merge_all-PerKey from_a from_b [] merged_ab merge_all_ab
