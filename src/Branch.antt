-- ===== src/Branch.antt =====
-- rhizo_core/src/branch/branch.rs: branches, which point from tables to versions, and the diff of two
-- branches. A time stamp is an argument, in seconds.
pub mod Lists
pub mod Heads
pub mod Names
pub mod Manager
pub mod Merging
pub mod Success
pub mod Analyzer
pub mod Overlooked
pub mod Tests
use unifieddataruntime.Base.{
  ℕ, String, Bool, true, false, not, ◌&&◌, Option, none, some, List, [], ◌∷◌, map, string_eq, eqb,
  if◌then◌else◌,
}
use unifieddataruntime.Base.Dict
use unifieddataruntime.Base.Dict.{Dict}
use unifieddataruntime.Base.Int.{ℤ}
use unifieddataruntime.Base.Sort.{sort_entries, sort_texts}

pub record Branch : Type 0 where
  pub name : String
  pub head : Dict String ℕ
  pub created_at : ℤ
  pub parent_branch : Option String
  pub description : Option String
  pub fork_point : Option (Dict String ℕ)

-- `Branch::new`
abbrev pub new_branch : ℤ → String → Dict String ℕ → Branch
new_branch now n h = record {
  name = n;
  head = h;
  created_at = now;
  parent_branch = none;
  description = none;
  fork_point = none;
}

abbrev pub from_branch : ℤ → String → Branch → Branch
from_branch now n parent = record {
  name = n;
  head = parent.head;
  created_at = now;
  parent_branch = some parent.name;
  description = none;
  fork_point = some parent.head;
}

abbrev pub with_description : Branch → String → Branch
with_description b d = record b { description = some d }

-- `Branch::get_table_version`
abbrev pub table_version : Branch → String → Option ℕ
table_version b t = Dict.lookup t b.head

abbrev pub set_table_version : Branch → String → ℕ → Branch
set_table_version b t v = record b { head = Dict.insert t v b.head }

pub record BranchDiff : Type 0 where
  pub source_branch : String
  pub target_branch : String
  pub unchanged : List String
  pub modified : Dict String (ℕ × ℕ)
  pub added_in_source : Dict String ℕ
  pub added_in_target : Dict String ℕ
  pub has_conflicts : Bool
  pub source_only_changes : Dict String (ℕ × ℕ)
  pub target_only_changes : Dict String (ℕ × ℕ)

-- The vectors that the loop over the source's tables fills.
pub record Found : Type 0 where
  pub unchanged : List String
  pub modified : Dict String (ℕ × ℕ)
  pub added_in_source : Dict String ℕ
  pub source_only_changes : Dict String (ℕ × ℕ)
  pub target_only_changes : Dict String (ℕ × ℕ)

-- What a table with two versions is, by its version in the base.
pub data Change : Type 0 where
  source_only target_only both : Change

unfoldable pub classify : Option (Dict String ℕ) → String → ℕ → ℕ → Change
classify none t s g = Change.both
classify (some base) t s g = elim (Dict.lookup t base) [
  | none ↦ Change.both
  | some b ↦
      if not (eqb s b) && eqb g b
      then Change.source_only
      else if not (eqb g b) && eqb s b
      then Change.target_only
      else Change.both
]

-- One round of the loop.
unfoldable pub place : Option (Dict String ℕ) → Dict String ℕ → String → ℕ → Found → Found
place base target t s f = elim (Dict.lookup t target) [
  | none ↦ record f { added_in_source = (t, s) ∷ f.added_in_source }
  | some g ↦
      if eqb s g then record f { unchanged = t ∷ f.unchanged } else elim (classify base t s g) [
        | Change.source_only ↦ record f {
          source_only_changes = (t, (s, g)) ∷ f.source_only_changes;
        }
        | Change.target_only ↦ record f {
          target_only_changes = (t, (s, g)) ∷ f.target_only_changes;
        }
        | Change.both ↦ record f { modified = (t, (s, g)) ∷ f.modified }
      ]
]

-- The loop. The order of a `HashMap` is unspecified, and the vectors are sorted afterwards.
unfoldable pub scan : Option (Dict String ℕ) → Dict String ℕ → Dict String ℕ → Found
unfolding place
scan base target [] = record {
  unchanged = [];
  modified = [];
  added_in_source = [];
  source_only_changes = [];
  target_only_changes = [];
}
scan base target ((t, s) ∷ es) = place base target t s (scan base target es)

-- The loop over the target's tables.
unfoldable pub only_in_target : Dict String ℕ → Dict String ℕ → Dict String ℕ
only_in_target source [] = []
only_in_target source ((t, g) ∷ es) =
    let rest = only_in_target source es in
    if Dict.contains_key t source then rest else (t, g) ∷ rest

unfoldable pub compute_with_base : Branch → Branch → Option (Dict String ℕ) → BranchDiff
unfolding scan only_in_target
compute_with_base source target base =
    let f = scan base target.head source.head in
    record {
      source_branch = source.name;
      target_branch = target.name;
      unchanged = sort_texts f.unchanged;
      modified = sort_entries f.modified;
      added_in_source = sort_entries f.added_in_source;
      added_in_target = sort_entries (only_in_target source.head target.head);
      has_conflicts = elim (sort_entries f.modified) [ [] ↦ false | _ ↦ true ];
      source_only_changes = sort_entries f.source_only_changes;
      target_only_changes = sort_entries f.target_only_changes;
    }

unfoldable pub compute : Branch → Branch → BranchDiff
unfolding compute_with_base
compute source target = compute_with_base source target source.fork_point

abbrev pub conflicting_tables : BranchDiff → List String
conflicting_tables d = Dict.keys d.modified

-- `BranchDiff::can_auto_merge`
abbrev pub can_auto_merge : BranchDiff → Bool
can_auto_merge d = not d.has_conflicts
