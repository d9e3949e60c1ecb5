-- ===== src/Catalog/Versions.antt =====
-- What a commit and a deletion do to the versions of the tables.
use unifieddataruntime.Base.{
  ℕ, ◌+◌, ◌%◌, String, List, [], ◌∷◌, none, some, ◌∙◌, ◌≡◌, ◌≢◌, refl, Bool, true, false, not,
  Option, string_eq, nat_eq, eqb, ◌==◌, if◌then◌else◌, ◌&&◌, ok, err, arith,
}
use unifieddataruntime.Base.Dict
use unifieddataruntime.Base.Dict.{Dict, lookup-insert, lookup-remove}
use unifieddataruntime.Clock.{u64_mod}
use unifieddataruntime.Catalog.{
  TableVersion, TableDir, FileCatalog, CatalogError, dir_of, set_dir, make_dir, make_dirs,
  empty_dir, latest_version_num, write_version, write_latest, commit_inner,
}
use unifieddataruntime.Catalog.Paths.{directories}
use text.Mathlib.TextEquality.{eq_iff}

pub dir_of-set_dir :
    (c : FileCatalog) (t u : String) (d : TableDir)
    → dir_of (set_dir c t d) u ≡ (if t == u then d else dir_of c u)
dir_of-set_dir c t u d = ground (arith, lookup-insert t u d c.tables, eq_iff t u)

-- The directory of a table after a commit that passes the check.
abbrev pub committed : TableVersion → TableDir → TableDir
committed v d = write_latest v.version (write_version v d)

abbrev dir_in : Dict String TableDir → String → TableDir
dir_in ds u = elim (Dict.lookup u ds) [ none ↦ empty_dir | some d ↦ d ]

dir_in-make_dirs :
    (ps : List String) (ds : Dict String TableDir) (u : String)
    → dir_in (make_dirs ps ds) u ≡ dir_in ds u
dir_in-make_dirs [] ds u = refl
dir_in-make_dirs (p ∷ ps) ds u =
    dir_in-make_dirs ps
      (elim (Dict.lookup p ds) [ none ↦ Dict.insert p empty_dir ds | some _ ↦ ds ]) u
    ∙ ground (arith, lookup-insert p u empty_dir ds, eq_iff p u)

pub dir_of-make_dir : (c : FileCatalog) (t u : String) → dir_of (make_dir c t) u ≡ dir_of c u
dir_of-make_dir c t u = dir_in-make_dirs (directories t) c.tables u

-- The number that the next commit has to carry.
abbrev pub next_version : FileCatalog → String → ℕ
next_version c t = (latest_version_num c t + 1) % u64_mod

pub commit_inner-ok :
    (c : FileCatalog) (v : TableVersion)
    → v.version ≡ next_version c v.table_name
    → commit_inner c v ≡ (
      ok v.version,
      set_dir (make_dir c v.table_name) v.table_name (committed v (dir_of c v.table_name)),
    )
unfolding commit_inner
commit_inner-ok c v e =
    let c' : FileCatalog = make_dir c v.table_name in
    let same : dir_of c' v.table_name ≡ dir_of c v.table_name =
      dir_of-make_dir c v.table_name v.table_name in
    let passes : not (eqb v.version (next_version c' v.table_name)) ≡ false =
      rw (same) (ground (arith, e)) in
    rw (commit_inner, passes, same) refl

pub commit_inner_dir :
    (c : FileCatalog) (v : TableVersion) (u : String)
    → v.version ≡ next_version c v.table_name
    → dir_of (commit_inner c v).1 u
      ≡ (if v.table_name == u then committed v (dir_of c u) else dir_of c u)
commit_inner_dir c v u e =
    let c' : FileCatalog = make_dir c v.table_name in
    let d : TableDir = committed v (dir_of c v.table_name) in
    rw (commit_inner-ok c v e, dir_of-set_dir c' v.table_name u d, dir_of-make_dir c v.table_name u)
      (ground (arith, eq_iff v.table_name u))

pub commit_inner_result :
    (c : FileCatalog) (v : TableVersion)
    → v.version ≡ next_version c v.table_name
    → ((commit_inner c v).0 ≡ ok v.version) × ((commit_inner c v).1.pending ≡ c.pending)
commit_inner_result c v e = rw (commit_inner-ok c v e) (refl, refl)

pub commit_inner_refused :
    (c : FileCatalog) (v : TableVersion)
    → v.version ≢ next_version c v.table_name
    → commit_inner c v ≡ (
      err (CatalogError.invalid_version (next_version c v.table_name) v.version),
      make_dir c v.table_name,
    )
unfolding commit_inner
commit_inner_refused c v e =
    let c' : FileCatalog = make_dir c v.table_name in
    let same : dir_of c' v.table_name ≡ dir_of c v.table_name =
      dir_of-make_dir c v.table_name v.table_name in
    let stops : not (eqb v.version (next_version c' v.table_name)) ≡ true =
      rw (same) (ground (arith, e)) in
    rw (commit_inner, stops, same) refl

-- The version that a table has under a number.
abbrev pub version_at : FileCatalog → String → ℕ → Option TableVersion
version_at c t n = Dict.lookup n (dir_of c t).versions

-- Whether a table is the one and a number is the one.
abbrev pub is_at : String → ℕ → String → ℕ → Bool
is_at t n u m = t == u && eqb n m
