-- ===== src/Catalog/Tests.antt =====
-- A catalog with two versions of a table, and the theorems on it.
use unifieddataruntime.Base.{
  ℕ, ◌≡◌, ◌+◌, refl, String, none, some, [], ◌∷◌, ◌==◌, string_eq, nat_eq, if◌then◌else◌, ok, err,
  arith,
}
use unifieddataruntime.Base.Int.{pos}
use unifieddataruntime.Base.Dict
use unifieddataruntime.Base.Dict.{values}
use unifieddataruntime.Base.HashSet
use unifieddataruntime.Base.HashSet.{HashSet}
use unifieddataruntime.Catalog.Paths.{directories}
use unifieddataruntime.Catalog.{
  FileCatalog, CatalogError, new_catalog, new_version, latest_version_num, dir_of, set_dir,
  make_dir, write_version, write_pending_intent, remove_pending_intent, commit_inner,
  commit_next_version, get_version, delete_version, list_versions, list_tables,
  get_all_referenced_chunk_hashes, recover_pending_commits, is_committed, same_hashes,
}
use unifieddataruntime.Catalog.Versions.{next_version, version_at, is_at}
use unifieddataruntime.Catalog.History.{commit_next_version_lem, Deletion, delete_version-Deletion}
use unifieddataruntime.Catalog.Soundness.{IsSound, Step, Reachable, Reachable-IsSound}
use unifieddataruntime.Catalog.Pending.{
  orphans, recover_pending_commits_lem, is_committed-overtaken,
}

abbrev one_version : FileCatalog
one_version = (commit_next_version (pos 1) "i" new_catalog "t" ("h" ∷ [])).1

abbrev two_versions : FileCatalog
two_versions = (commit_next_version (pos 2) "j" one_version "t" ("k" ∷ [])).1

two_versions_kept :
    (list_versions two_versions "t" ≡ ok (1 ∷ 2 ∷ []))
    × (list_tables two_versions ≡ "t" ∷ [])
    × (get_version two_versions "t" none ≡ ok (new_version (pos 2) "t" 2 ("k" ∷ [])))
    × (get_version two_versions "t" (some 1) ≡ ok (new_version (pos 1) "t" 1 ("h" ∷ [])))
    × (get_version two_versions "u" none ≡ err (CatalogError.table_not_found "u"))
unfolding directories commit_next_version commit_inner write_pending_intent remove_pending_intent
    get_version list_versions list_tables
two_versions_kept = (refl, refl, refl, refl, refl)

deletions :
    ((delete_version two_versions "t" 2).0 ≡ err (CatalogError.cannot_delete_latest "t" 2))
    × ((delete_version two_versions "t" 1).0 ≡ ok (new_version (pos 1) "t" 1 ("h" ∷ [])))
unfolding directories commit_next_version commit_inner write_pending_intent remove_pending_intent
    delete_version
deletions = (refl, refl)

commit_next_version_lem_example :
    let c = (commit_next_version (pos 2) "j" one_version "t" ("k" ∷ [])).1 in
    let v = new_version (pos 2) "t" (next_version one_version "t") ("k" ∷ []) in
    ((commit_next_version (pos 2) "j" one_version "t" ("k" ∷ [])).0
      ≡ ok (next_version one_version "t"))
    × (get_version c "t" none ≡ ok v)
    × ((u : String) (n : ℕ)
        → version_at c u n ≡ (
            if is_at "t" (next_version one_version "t") u n
            then some v
            else version_at one_version u n))
    × ((u : String)
        → latest_version_num c u
          ≡ (if "t" == u then next_version one_version "t" else latest_version_num one_version u))
    × ((j : String)
        → Dict.lookup j c.pending ≡ (if "j" == j then none else Dict.lookup j one_version.pending))
commit_next_version_lem_example = commit_next_version_lem (pos 2) "j" one_version "t" ("k" ∷ [])

delete_version-Deletion_example : Deletion two_versions "t" 1 (delete_version two_versions "t" 1)
delete_version-Deletion_example = delete_version-Deletion two_versions "t" 1

-- The directory of a name of two components lies in that of the first, which alone is listed.
abbrev nested : FileCatalog
nested = (commit_next_version (pos 1) "i" new_catalog "a/b" ("h" ∷ [])).1

nested_kept :
    (list_versions nested "a/b" ≡ ok (1 ∷ []))
    × (list_tables nested ≡ "a" ∷ [])
    × (list_versions nested "a" ≡ ok [])
    × (get_all_referenced_chunk_hashes nested ≡ ok [])
unfolding directories commit_next_version commit_inner write_pending_intent remove_pending_intent
    list_versions list_tables get_all_referenced_chunk_hashes
nested_kept = (refl, refl, refl, refl)

-- A commit, and then one that crashes between its two writes.
abbrev crashed : FileCatalog
crashed = set_dir (make_dir (write_pending_intent (pos 2) "j" one_version "t" ("k" ∷ [])) "t") "t" (
    write_version (new_version (pos 2) "t" (next_version one_version "t") ("k" ∷ []))
      (dir_of one_version "t"))

crashed-Reachable : Reachable crashed
unfolding directories commit_next_version commit_inner write_pending_intent remove_pending_intent
crashed-Reachable =
    let one : Reachable one_version =
      Reachable.goes Reachable.starts
        (Step.commits_next (pos 1) "i" "t" ("h" ∷ []) (omega arith)) in
    Reachable.goes (Reachable.goes one (Step.crashes_intent (pos 2) "j" "t" ("k" ∷ []))) (
      Step.crashes_version (new_version (pos 2) "t" (next_version one_version "t") ("k" ∷ []))
        (omega arith) refl)

Reachable-IsSound_example : IsSound crashed
Reachable-IsSound_example = Reachable-IsSound crashed crashed-Reachable

recover_pending_commits_lem_example :
    ((recover_pending_commits crashed).0 ≡ ok (orphans crashed (values crashed.pending)))
    × ((j : String) → Dict.lookup j (recover_pending_commits crashed).1.pending ≡ none)
    × ((t : String) → dir_of (recover_pending_commits crashed).1 t ≡ dir_of crashed t)
recover_pending_commits_lem_example =
    recover_pending_commits_lem crashed (Reachable-IsSound crashed crashed-Reachable)

is_committed-overtaken_example :
    let c₁ = (commit_next_version (pos 1) "i" new_catalog "t" ("h" ∷ [])).1 in
    let c₂ = (commit_next_version (pos 2) "j" c₁ "t" ("k" ∷ [])).1 in
    (is_committed c₂ "t" ("h" ∷ []) ≡ ok (same_hashes ("k" ∷ []) ("h" ∷ [])))
    × (version_at c₂ "t" (latest_version_num new_catalog "t" + 1)
        ≡ some (new_version (pos 1) "t" (latest_version_num new_catalog "t" + 1) ("h" ∷ [])))
is_committed-overtaken_example =
    is_committed-overtaken (pos 1) "i" new_catalog "t" ("h" ∷ []) (pos 2) "j" ("k" ∷ [])
      (omega arith)
