-- ===== src/Branch/Merging.antt =====
-- A merge of two branches, read table by table, and what it leaves alone.
use unifieddataruntime.Base.{
  ℕ, String, ◌≡◌, ◌≢◌, ◌↔◌, refl, sym, ◌∙◌, true, false, Option, none, some, List, [], ◌∷◌,
  string_eq, ltb, max, ap, subst, ◌==◌, if◌then◌else◌, arith, ok, err, ◌>>=◌, >>=-eq-ok,
}
use unifieddataruntime.Base.Dict
use unifieddataruntime.Base.HashSet
use unifieddataruntime.Base.Dict.{Dict, lookup-insert}
use unifieddataruntime.Branch.{Branch, compute, compute_with_base, classify, set_table_version}
use unifieddataruntime.Branch.Manager.{
  BranchManager, BranchError, get, save_branch, diff, or_zero, apply_changes, apply_added,
  apply_forward, merge_heads, merge_fast_forward,
}
use unifieddataruntime.Branch.Names.{branch_path}
use unifieddataruntime.Branch.Lists.{
  in_modified, in_source_only, in_added, modified_lem, source_only_lem, added_lem,
  source_only_changes-Unique, added_in_source-Unique,
}
use unifieddataruntime.Branch.Heads.{base_version}
use text.Mathlib.TextEquality.{eq_iff}

lookup-apply_changes :
    (es : Dict String (ℕ × ℕ)) (b : Branch) (t : String)
    → Dict.Unique es
    → Dict.lookup t (apply_changes es b).head
      ≡ elim (Dict.lookup t es) [ none ↦ Dict.lookup t b.head | some e ↦ some e.0 ]
unfolding apply_changes
lookup-apply_changes [] b t u = refl
lookup-apply_changes ((j, (v, w)) ∷ es) b t u = ground (
  arith,
  eq_iff j t,
  lookup-apply_changes es (set_table_version b j v) t u.1,
  lookup-insert j t v b.head,
)

lookup-apply_added :
    (es : Dict String ℕ) (b : Branch) (t : String)
    → Dict.Unique es
    → Dict.lookup t (apply_added es b).head
      ≡ elim (Dict.lookup t es) [ none ↦ Dict.lookup t b.head | some v ↦ some v ]
unfolding apply_added
lookup-apply_added [] b t u = refl
lookup-apply_added ((j, v) ∷ es) b t u = ground (
  arith,
  eq_iff j t,
  lookup-apply_added es (set_table_version b j v) t u.1,
  lookup-insert j t v b.head,
)

-- Without a fork point: the source's version where it is higher than the target's.
lookup-apply_forward :
    (es : Dict String ℕ) (b : Branch) (t : String)
    → Dict.Unique es
    → Dict.lookup t (apply_forward es b).head ≡ elim (Dict.lookup t es) [
      | none ↦ Dict.lookup t b.head
      | some v ↦ if ltb (or_zero (Dict.lookup t b.head)) v then some v else Dict.lookup t b.head
    ]
unfolding apply_forward
lookup-apply_forward [] b t u = refl
lookup-apply_forward ((j, v) ∷ es) b t u = ground (
  arith,
  eq_iff j t,
  lookup-apply_forward es b t u.1,
  lookup-apply_forward es (set_table_version b j v) t u.1,
  lookup-insert j t v b.head,
)

-- What a three-way merge of a table has to give, from its versions at the fork point, in the source
-- and in the target: where the branches agree, their version; where one branch stands at the fork
-- point, the version of the other; where one branch lacks the table, the version of the other.
pub record ThreeWay (b s g r : Option ℕ) : Type 0 where
  pub agree : s ≡ g → r ≡ s
  pub keep_target : s ≡ b → g ≢ none → r ≡ g
  pub take_source : g ≡ b → s ≢ none → r ≡ s
  pub only_target : s ≡ none → r ≡ g
  pub only_source : g ≡ none → r ≡ s

-- The version that the code gives a table.
abbrev merged_version : Option (Dict String ℕ) → String → Option ℕ → Option ℕ → Option ℕ
merged_version base t s g = elim (in_added s g) [
  | some v ↦ some v
  | none ↦ elim (in_source_only base t s g) [ none ↦ g | some e ↦ some e.0 ]
]

merged_version-ThreeWay :
    (base : Option (Dict String ℕ)) (t : String) (s g : Option ℕ)
    → in_modified base t s g ≡ none
    → ThreeWay (base_version base t) s g (merged_version base t s g)
unfolding classify
merged_version-ThreeWay base t s g h = record {
  agree = ground arith;
  keep_target = ground arith;
  take_source = ground arith;
  only_target = ground arith;
  only_source = ground arith;
}

no_conflicts-modified :
    (source target : Branch) (base : Option (Dict String ℕ)) (t : String)
    → (compute_with_base source target base).has_conflicts ≡ false
    → Dict.lookup t (compute_with_base source target base).modified ≡ none
unfolding compute_with_base
no_conflicts-modified source target base t h = ground arith

has_conflicts_of_modified :
    (source target : Branch) (base : Option (Dict String ℕ)) (t : String) {e : ℕ × ℕ}
    → Dict.lookup t (compute_with_base source target base).modified ≡ some e
    → (compute_with_base source target base).has_conflicts ≡ true
unfolding compute_with_base
has_conflicts_of_modified source target base t h = ground arith

contains-keys :
    (t : String) (m : Dict String (ℕ × ℕ))
    → HashSet.contains t (Dict.keys m) ≡ Dict.contains_key t m
contains-keys t [] = refl
contains-keys t ((j, x) ∷ m) = ground (arith, eq_iff j t, contains-keys t m)

module _ (source target : Branch) (base : Dict String ℕ)
    (fork : source.fork_point ≡ some base) where
  -- A merge of a source with a fork point that succeeds gives each table the version that the
  -- three-way merge asks for. The source's head is a map.
  pub merge_heads-ThreeWay :
      (r : Branch) (t : String)
      → Dict.Unique source.head
      → merge_heads source target (compute source target) ≡ ok r
      → ThreeWay
          (Dict.lookup t base)
          (Dict.lookup t source.head)
          (Dict.lookup t target.head)
          (Dict.lookup t r.head)
  unfolding merge_heads compute
  merge_heads-ThreeWay r t u e =
      let d = compute_with_base source target (some base) in
      let quiet : d.has_conflicts ≡ false = ground (arith, fork, e) in
      let done : r ≡ apply_added d.added_in_source (apply_changes d.source_only_changes target) =
        ground (arith, fork, e) in
      let version : Dict.lookup t r.head
          ≡ merged_version (some base) t (Dict.lookup t source.head) (Dict.lookup t target.head) =
        ground (
          arith,
          done,
          lookup-apply_added d.added_in_source (apply_changes d.source_only_changes target) t
              (added_in_source-Unique source target (some base) u),
          lookup-apply_changes d.source_only_changes target t
              (source_only_changes-Unique source target (some base) u),
          added_lem source target (some base) t u,
          source_only_lem source target (some base) t u,
        ) in
      rw version (
        merged_version-ThreeWay (some base) t (Dict.lookup t source.head)
          (Dict.lookup t target.head)
          (sym (modified_lem source target (some base) t u)
            ∙ no_conflicts-modified source target (some base) t quiet))

  -- The source has a fork point, and its head is a map. A table whose versions in the source and in
  -- the target differ from each other, and both from the fork point, stops the merge: its answer is
  -- the conflict, whose list names the table.
  pub merge_heads-conflict :
      (t : String) (v w : ℕ)
      → Dict.Unique source.head
      → Dict.lookup t source.head ≡ some v
      → Dict.lookup t target.head ≡ some w
      → v ≢ w
      → Dict.lookup t base ≢ some v
      → Dict.lookup t base ≢ some w
      → (ts : List String) × (merge_heads source target (compute source target)
          ≡ err (BranchError.merge_conflict ts))
        × (HashSet.contains t ts ≡ true)
  unfolding merge_heads compute classify
  merge_heads-conflict t v w u hs hg vw bv bw =
      let d = compute_with_base source target (some base) in
      let found : Dict.lookup t d.modified ≡ some (v, w) =
        ground (arith, modified_lem source target (some base) t u) in
      let loud : d.has_conflicts ≡ true =
        has_conflicts_of_modified source target (some base) t found in
      (
        Dict.keys d.modified,
        ground (arith, fork),
        ground (arith, contains-keys t d.modified, found),
      )

-- A merge of a source without a fork point, whose head is a map, succeeds. A table that does not stand
-- at version 0 in the source gets the higher of its two versions, a missing one counting as 0, and is
-- missing afterwards only where neither branch has it.
pub merge_heads-forward :
    (source target : Branch) (t : String)
    → Dict.Unique source.head
    → source.fork_point ≡ none
    → Dict.lookup t source.head ≢ some 0
    → (r : Branch) × (merge_heads source target (compute source target) ≡ ok r)
      × (or_zero (Dict.lookup t r.head)
          ≡ max (or_zero (Dict.lookup t source.head)) (or_zero (Dict.lookup t target.head)))
      × ((Dict.lookup t r.head ≡ none)
          ↔ ((Dict.lookup t source.head ≡ none) × (Dict.lookup t target.head ≡ none)))
unfolding merge_heads
merge_heads-forward source target t u fork z = (
  apply_forward source.head target,
  ground (arith, fork),
  ground (arith, lookup-apply_forward source.head target t u),
  ground (arith, lookup-apply_forward source.head target t u),
)

-- The loops change a head alone.
apply_changes-head :
    (es : Dict String (ℕ × ℕ)) (b : Branch)
    → apply_changes es b ≡ record b { head = (apply_changes es b).head }
unfolding apply_changes
apply_changes-head [] b = refl
apply_changes-head ((t, (v, w)) ∷ es) b = apply_changes-head es (set_table_version b t v)

apply_added-head :
    (es : Dict String ℕ) (b : Branch)
    → apply_added es b ≡ record b { head = (apply_added es b).head }
unfolding apply_added
apply_added-head [] b = refl
apply_added-head ((t, v) ∷ es) b = apply_added-head es (set_table_version b t v)

files-save_branch :
    (m : BranchManager) (b : Branch) (name path : String)
    → b.name ≡ name
    → Dict.lookup path (save_branch m b).files
      ≡ (if branch_path name == path then some b else Dict.lookup path m.files)
unfolding save_branch
files-save_branch m b name path e = rw (← e) (
    ground
      (arith, lookup-insert (branch_path b.name) path b m.files, eq_iff (branch_path b.name) path))

-- A merge in the store whose source has a fork point, and whose source's head is a map, succeeds only
-- by saving the target, changed in its head alone, with the head that the three-way merge of each
-- table asks for: no other file changes, and no other field of the target.
pub merge_fast_forward-ThreeWay :
    (m m' : BranchManager) (source into : String) (s g : Branch) (base : Dict String ℕ)
    → get m source ≡ ok s
    → get m into ≡ ok g
    → s.fork_point ≡ some base
    → Dict.Unique s.head
    → merge_fast_forward m source into ≡ ok m'
    → (r : Branch) × (r ≡ record g { head = r.head })
      × (m'.default_file ≡ m.default_file)
      × ((path : String)
          → Dict.lookup path m'.files
            ≡ (if branch_path g.name == path then some r else Dict.lookup path m.files))
      × ((t : String)
          → ThreeWay
              (Dict.lookup t base)
              (Dict.lookup t s.head)
              (Dict.lookup t g.head)
              (Dict.lookup t r.head))
unfolding merge_fast_forward diff merge_heads
merge_fast_forward-ThreeWay m m' source into s g base gs gg fork u e =
    let e' : (merge_heads s g (compute s g) >>= λ b. ok (save_branch m b)) ≡ ok m' =
      rw (gs, gg) at e in
    let (r, er, em) = >>=-eq-ok (merge_heads s g (compute s g)) _ e' in
    let saved : m' ≡ save_branch m r = ground arith in
    let d = compute s g in
    let done : r ≡ apply_added d.added_in_source (apply_changes d.source_only_changes g) =
      ground (arith, fork, er) in
    let kept : r ≡ record g { head = r.head } =
      subst (λ (b : Branch). b ≡ record g { head = b.head }) (sym done)
        (apply_added-head d.added_in_source (apply_changes d.source_only_changes g)
          ∙ ap
              (λ (b : Branch). record b {
                head = (apply_added d.added_in_source (apply_changes d.source_only_changes g)).head;
              })
              (apply_changes-head d.source_only_changes g)) in
    let name : r.name ≡ g.name = ap (λ (b : Branch). b.name) kept in
    (
      r,
      kept,
      ap (λ (n : BranchManager). n.default_file) saved,
      (λ path.
          ap (λ (n : BranchManager). Dict.lookup path n.files) saved
          ∙ files-save_branch m r g.name path name),
      λ t. merge_heads-ThreeWay s g base fork r t u er,
    )
