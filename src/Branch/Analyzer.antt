-- ===== src/Branch/Analyzer.antt =====
-- rhizo_core/src/branch/merge.rs: which tables of a diff can be merged by their schemas.
use unifieddataruntime.Base.{
  ℕ, String, ◌≡◌, ◌↔◌, refl, Bool, true, false, not, ◌&&◌, none, some, List, [], ◌∷◌, ◌++◌,
  string_eq, if◌then◌else◌, arith,
}
use unifieddataruntime.Base.Dict
use unifieddataruntime.Base.Dict.{Dict}
use unifieddataruntime.Base.HashSet
use unifieddataruntime.Algebra.Schema.{
  AlgebraicSchemaRegistry, is_fully_conflict_free, conflict_free_columns, conflicting_columns,
}
use unifieddataruntime.Branch.{BranchDiff}
use text.Mathlib.TextEquality.{eq_iff}

pub record MergeAnalysis : Type 0 where
  pub auto_mergeable : List String
  pub conflicting : List String
  pub source_only : List String
  pub target_only : List String
  pub unchanged : List String

-- `MergeAnalysis::can_merge`
unfoldable pub can_merge : MergeAnalysis → Bool
can_merge a = elim a.conflicting [ [] ↦ true | _ ∷ _ ↦ false ]

unfoldable pub tables_to_merge : MergeAnalysis → List String
tables_to_merge a = a.auto_mergeable ++ (a.source_only ++ a.target_only)

empty_of_contains :
    (ts : List String)
    → ((t : String) → HashSet.contains t ts ≡ false)
    → elim ts [ [] ↦ true | _ ∷ _ ↦ false ] ≡ true
empty_of_contains [] h = refl
empty_of_contains (t ∷ ts) h = ground (arith, h t, eq_iff t t)

module _ {Float : Type 0} (r : AlgebraicSchemaRegistry Float) where
  unfoldable pub can_auto_merge_table : String → Bool
  can_auto_merge_table t = elim (Dict.lookup t r.schemas) [
    | some s ↦ is_fully_conflict_free s
    | none ↦ false
  ]

  -- The loop over the modified tables, which fills two vectors.
  unfoldable pub split_modified : Dict String (ℕ × ℕ) → List String × List String
  unfolding can_auto_merge_table
  split_modified [] = ([], [])
  split_modified ((t, _) ∷ es) =
      let (auto, conflicting) = split_modified es in
      if can_auto_merge_table t then (t ∷ auto, conflicting) else (auto, t ∷ conflicting)

  unfoldable pub analyze : BranchDiff → MergeAnalysis
  unfolding split_modified
  analyze d =
      let (auto, conflicting) = split_modified d.modified in
      record {
        auto_mergeable = auto;
        conflicting = conflicting;
        source_only = Dict.keys d.added_in_source;
        target_only = Dict.keys d.added_in_target;
        unchanged = d.unchanged;
      }

  unfoldable pub analyze_table_columns : String → List String × List String
  analyze_table_columns t = elim (Dict.lookup t r.schemas) [
    | some s ↦ (conflict_free_columns s, conflicting_columns s)
    | none ↦ ([], [])
  ]

  -- `result.insert(table, …)`, for each modified table in turn.
  unfoldable pub analyze_columns_from :
      Dict String (ℕ × ℕ)
      → Dict String (List String × List String)
      → Dict String (List String × List String)
  unfolding analyze_table_columns
  analyze_columns_from [] m = m
  analyze_columns_from ((t, _) ∷ es) m =
      analyze_columns_from es (Dict.insert t (analyze_table_columns t) m)

  unfoldable pub analyze_columns : BranchDiff → Dict String (List String × List String)
  unfolding analyze_columns_from
  analyze_columns d = analyze_columns_from d.modified []

  split_modified-contains :
      (t : String) (es : Dict String (ℕ × ℕ))
      → (HashSet.contains t (split_modified es).0
          ≡ (Dict.contains_key t es && can_auto_merge_table t))
        × (HashSet.contains t (split_modified es).1
            ≡ (Dict.contains_key t es && not (can_auto_merge_table t)))
  unfolding split_modified can_auto_merge_table
  split_modified-contains t [] = (refl, refl)
  split_modified-contains t ((j, e) ∷ es) =
      let ih = split_modified-contains t es in
      (ground (arith, eq_iff j t, ih.0), ground (arith, eq_iff j t, ih.1))

  -- A merge can proceed exactly when every modified table is one that its schema lets merge by
  -- itself; and each modified table stands in exactly one of the two lists, by that test.
  pub analyze-can_merge :
      (d : BranchDiff)
      → ((can_merge (analyze d) ≡ true)
          ↔ ((t : String) → Dict.contains_key t d.modified ≡ true → can_auto_merge_table t ≡ true))
        × ((t : String)
            → (HashSet.contains t (analyze d).auto_mergeable
                ≡ (Dict.contains_key t d.modified && can_auto_merge_table t))
              × (HashSet.contains t (analyze d).conflicting
                  ≡ (Dict.contains_key t d.modified && not (can_auto_merge_table t))))
  unfolding analyze can_merge
  analyze-can_merge d = (
    (
      λ h t k. ground (arith, split_modified-contains t d.modified),
      λ h.
          empty_of_contains (split_modified d.modified).1
            (λ t. ground (arith, split_modified-contains t d.modified, h t)),
    ),
    λ t. split_modified-contains t d.modified,
  )
