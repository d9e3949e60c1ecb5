-- ===== src/Branch/Tests.antt =====
-- A branch forked from another one, diffed and merged, and the theorems on these branches.
use unifieddataruntime.Base.{
  ◌⊎◌, inr, ℕ, ◌≢◌, String, ◌≡◌, ◌==◌, if◌then◌else◌, refl, true, false, some, List, [], ◌∷◌,
  string_eq, arith, ok, err,
}
use unifieddataruntime.Base.Dict
use unifieddataruntime.Base.Dict.{Dict}
use unifieddataruntime.Base.HashSet
use unifieddataruntime.Base.Int.{ℤ, pos}
use unifieddataruntime.Algebra.Schema.{
  AlgebraicSchemaRegistry, new_registry, register, all_additive,
}
use unifieddataruntime.Branch.{
  Branch, classify, place, scan, only_in_target, new_branch, from_branch, set_table_version,
  compute_with_base, compute,
}
use unifieddataruntime.Branch.Names.{safe_name, branch_path, validate_branch_name}
use unifieddataruntime.Branch.Manager.{
  BranchManager, BranchError, get, save_branch, diff, apply_changes, apply_added, merge_heads,
  merge_fast_forward,
}
use unifieddataruntime.Branch.Heads.{Classified, compute_with_base-Classified}
use unifieddataruntime.Branch.Merging.{ThreeWay, merge_heads-conflict, merge_fast_forward-ThreeWay}
use unifieddataruntime.Branch.Success.{merge_heads-succeeds}
use unifieddataruntime.Branch.Analyzer.{tables_to_merge, analyze}
use unifieddataruntime.Branch.Overlooked.{analyze-source_only_lost}

abbrev main : Branch
main = new_branch (pos 0) "main" (("users", 1) ∷ ("orders", 1) ∷ [])

-- The users have moved on in the branch, and the orders in the main branch.
abbrev feature : Branch
feature = set_table_version (from_branch (pos 1) "feature" main) "users" 2

abbrev moved_main : Branch
moved_main = set_table_version main "orders" 3

abbrev rival_main : Branch
rival_main = set_table_version main "users" 3

abbrev merged_main : Branch
merged_main = set_table_version moved_main "users" 2

merged : merge_heads feature moved_main (compute feature moved_main) ≡ ok merged_main
unfolding merge_heads compute compute_with_base scan place classify only_in_target apply_changes
    apply_added
merged = refl

abbrev store : BranchManager
store = record {
  files = ("main.json", moved_main) ∷ ("feature.json", feature) ∷ [];
  default_file = some "main";
}

-- Two valid names that are saved in one file.
one_file :
    (validate_branch_name (λ _. true) "a_/b" ≡ ok tt)
    × (validate_branch_name (λ _. true) "a/_b" ≡ ok tt)
    × (branch_path "a_/b" ≡ branch_path "a/_b")
unfolding validate_branch_name branch_path safe_name
one_file = (refl, refl, refl)

heads-Unique : Dict.Unique feature.head
heads-Unique = (refl, (refl, tt))

compute_with_base-Classified_example :
    Classified
      (compute_with_base feature moved_main (some main.head))
      "users"
      (some 1)
      (some 2)
      (some 1)
compute_with_base-Classified_example =
    compute_with_base-Classified feature moved_main (some main.head) "users" heads-Unique
      (refl, (refl, tt))

merge_heads-conflict_example :
    (ts : List String) × (merge_heads feature rival_main (compute feature rival_main)
      ≡ err (BranchError.merge_conflict ts))
    × (HashSet.contains "users" ts ≡ true)
merge_heads-conflict_example =
    merge_heads-conflict feature rival_main main.head refl "users" 2 3 heads-Unique refl refl
      (ground arith) (ground arith) (ground arith)

merge_fast_forward-ThreeWay_example :
    (r : Branch) × (r ≡ record moved_main { head = r.head })
    × ((save_branch store merged_main).default_file ≡ store.default_file)
    × ((path : String)
        → Dict.lookup path (save_branch store merged_main).files
          ≡ (if branch_path moved_main.name == path then some r else Dict.lookup path store.files))
    × ((t : String)
        → ThreeWay
            (Dict.lookup t main.head)
            (Dict.lookup t feature.head)
            (Dict.lookup t moved_main.head)
            (Dict.lookup t r.head))
merge_fast_forward-ThreeWay_example =
    merge_fast_forward-ThreeWay store (save_branch store merged_main) "feature" "main" feature
      moved_main main.head (unfold get branch_path safe_name in refl)
      (unfold get branch_path safe_name in refl) refl heads-Unique
      (unfold merge_fast_forward get diff branch_path safe_name merge_heads compute
          compute_with_base scan place classify only_in_target apply_changes apply_added in
        refl)

abbrev registry : AlgebraicSchemaRegistry ℤ
registry = register new_registry (all_additive "users")

analyze-source_only_lost_example :
    (HashSet.contains "users" (tables_to_merge (analyze registry (compute feature moved_main)))
      ≡ false)
    × (HashSet.contains "users" (analyze registry (compute feature moved_main)).conflicting ≡ false)
    × (HashSet.contains "users" (analyze registry (compute feature moved_main)).unchanged ≡ false)
analyze-source_only_lost_example =
    analyze-source_only_lost registry feature moved_main "users" {e = (2, 1)} heads-Unique
      (refl, (refl, tt))
      (unfold compute compute_with_base scan place classify only_in_target in refl)

-- Of the two tables the users alone have two versions, and the main branch has not moved them.
one_side :
    (t : String) (v w : ℕ)
    → Dict.lookup t feature.head ≡ some v
    → Dict.lookup t main.head ≡ some w
    → v ≢ w
    → (Dict.lookup t main.head ≡ some v) ⊎ (Dict.lookup t main.head ≡ some w)
one_side t v w s g n = inr g

merge_heads-succeeds_example :
    (r : Branch) × (merge_heads feature main (compute feature main) ≡ ok r)
merge_heads-succeeds_example =
    merge_heads-succeeds feature main main.head refl heads-Unique (refl, (refl, tt)) one_side
