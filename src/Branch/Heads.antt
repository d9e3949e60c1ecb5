-- ===== src/Branch/Heads.antt =====
-- The classes of a diff as a three-way comparison of the versions of a table.
use unifieddataruntime.Base.{ℕ, String, ◌≡◌, ◌≢◌, ◌↔◌, true, Option, none, some, string_eq, arith}
use unifieddataruntime.Base.Dict
use unifieddataruntime.Base.Dict.{Dict}
use unifieddataruntime.Base.HashSet
use unifieddataruntime.Branch.{Branch, BranchDiff, classify, compute_with_base}
use unifieddataruntime.Branch.Lists.{
  in_modified, in_source_only, in_target_only, modified_lem, source_only_lem, target_only_lem,
  added_lem, added_in_target_lem, unchanged_lem,
}

-- The version of a table at the fork point, if there is one.
abbrev pub base_version : Option (Dict String ℕ) → String → Option ℕ
base_version none t = none
base_version (some b) t = Dict.lookup t b

-- Two versions that differ.
abbrev pub Differ : Option ℕ → Option ℕ → ℕ → ℕ → Type 0
Differ s g v w = (s ≡ some v) × (g ≡ some w) × (v ≢ w)

-- The class of a table, by its versions at the fork point, in the source and in the target.
pub record Classified (d : BranchDiff) (t : String) (b s g : Option ℕ) : Type 0 where
  pub conflict :
      (v w : ℕ) → (Dict.lookup t d.modified ≡ some (v, w)) ↔ (Differ s g v w × (b ≢ s) × (b ≢ g))
  pub from_source :
      (v w : ℕ) → (Dict.lookup t d.source_only_changes ≡ some (v, w)) ↔ (Differ s g v w × (b ≡ g))
  pub from_target :
      (v w : ℕ) → (Dict.lookup t d.target_only_changes ≡ some (v, w)) ↔ (Differ s g v w × (b ≡ s))
  pub new_in_source :
      (v : ℕ) → (Dict.lookup t d.added_in_source ≡ some v) ↔ ((s ≡ some v) × (g ≡ none))
  pub new_in_target :
      (v : ℕ) → (Dict.lookup t d.added_in_target ≡ some v) ↔ ((g ≡ some v) × (s ≡ none))
  pub same : (HashSet.contains t d.unchanged ≡ true) ↔ ((s ≡ g) × (s ≢ none))

module _ (base : Option (Dict String ℕ)) (t : String) (s g : Option ℕ) (v w : ℕ) where
  in_modified_iff :
      (in_modified base t s g ≡ some (v, w))
      ↔ (Differ s g v w × (base_version base t ≢ s) × (base_version base t ≢ g))
  unfolding classify
  in_modified_iff = ground arith

  in_source_only_iff :
      (in_source_only base t s g ≡ some (v, w)) ↔ (Differ s g v w × (base_version base t ≡ g))
  unfolding classify
  in_source_only_iff = ground arith

  in_target_only_iff :
      (in_target_only base t s g ≡ some (v, w)) ↔ (Differ s g v w × (base_version base t ≡ s))
  unfolding classify
  in_target_only_iff = ground arith

-- Each table of two branches is classified by the three-way comparison: a conflict where the two
-- versions differ from each other and both from the fork point, a change of the source or of the
-- target alone where the other still stands at the fork point, new where the other branch has no
-- such table, and unchanged where both branches have the same version. The heads are maps.
pub compute_with_base-Classified :
    (source target : Branch) (base : Option (Dict String ℕ)) (t : String)
    → Dict.Unique source.head
    → Dict.Unique target.head
    → Classified
        (compute_with_base source target base)
        t
        (base_version base t)
        (Dict.lookup t source.head)
        (Dict.lookup t target.head)
compute_with_base-Classified source target base t us ut = record {
  conflict = λ v w. rw (modified_lem source target base t us) (in_modified_iff base t _ _ v w);
  from_source =
      λ v w. rw (source_only_lem source target base t us) (in_source_only_iff base t _ _ v w);
  from_target =
      λ v w. rw (target_only_lem source target base t us) (in_target_only_iff base t _ _ v w);
  new_in_source = λ v. rw (added_lem source target base t us) (ground arith);
  new_in_target = λ v. rw (added_in_target_lem source target base t ut) (ground arith);
  same = rw (unchanged_lem source target base t us) (ground arith);
}
