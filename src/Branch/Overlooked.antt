-- ===== src/Branch/Overlooked.antt =====
-- What the analysis of a diff says of the tables that one branch alone changed.
use unifieddataruntime.Base.{
  ℕ, String, ◌≡◌, refl, false, ◌||◌, none, some, List, [], ◌∷◌, ◌++◌, string_eq, arith,
}
use unifieddataruntime.Base.Dict
use unifieddataruntime.Base.Dict.{Dict}
use unifieddataruntime.Base.HashSet
use unifieddataruntime.Algebra.Schema.{AlgebraicSchemaRegistry}
use unifieddataruntime.Branch.{Branch, compute}
use unifieddataruntime.Branch.Lists.{
  modified_lem, source_only_lem, added_lem, added_in_target_lem, unchanged_lem,
}
use unifieddataruntime.Branch.Analyzer.{tables_to_merge, analyze, analyze-can_merge}
use text.Mathlib.TextEquality.{eq_iff}

contains-append :
    (t : String) (xs ys : List String)
    → HashSet.contains t (xs ++ ys) ≡ (HashSet.contains t xs || HashSet.contains t ys)
contains-append t [] ys = refl
contains-append t (x ∷ xs) ys = ground (arith, contains-append t xs ys)

contains-keys :
    (t : String) (m : Dict String ℕ) → HashSet.contains t (Dict.keys m) ≡ Dict.contains_key t m
contains-keys t [] = refl
contains-keys t ((j, x) ∷ m) = ground (arith, eq_iff j t, contains-keys t m)

-- A table that the source alone changed since the fork point stands in no list of the analysis: it is
-- neither one to merge, nor a conflict, nor unchanged. The heads of the branches are maps.
pub analyze-source_only_lost :
    {Float : Type 0} (r : AlgebraicSchemaRegistry Float) (source target : Branch) (t : String)
    {e : ℕ × ℕ}
    → Dict.Unique source.head
    → Dict.Unique target.head
    → Dict.lookup t (compute source target).source_only_changes ≡ some e
    → let a = analyze r (compute source target) in
      (HashSet.contains t (tables_to_merge a) ≡ false)
      × (HashSet.contains t a.conflicting ≡ false)
      × (HashSet.contains t a.unchanged ≡ false)
unfolding compute tables_to_merge analyze
analyze-source_only_lost r source target t us ut h =
    let d = compute source target in
    let a = analyze r d in
    let base = source.fork_point in
    let s = Dict.lookup t source.head in
    let g = Dict.lookup t target.head in
    let only = source_only_lem source target base t us in
    let quiet : Dict.lookup t d.modified ≡ none =
      ground (arith, h, only, modified_lem source target base t us) in
    let old_s : Dict.lookup t d.added_in_source ≡ none =
      ground (arith, h, only, added_lem source target base t us) in
    let old_t : Dict.lookup t d.added_in_target ≡ none =
      ground (arith, h, only, added_in_target_lem source target base t ut) in
    let lists = (analyze-can_merge r d).1 t in
    (
      rw
          (
            contains-append t a.auto_mergeable (a.source_only ++ a.target_only),
            contains-append t a.source_only a.target_only,
          )
          (ground
            (arith, lists.0, contains-keys t d.added_in_source, contains-keys t d.added_in_target)),
      ground (arith, lists.1),
      ground (arith, h, only, unchanged_lem source target base t us),
    )
