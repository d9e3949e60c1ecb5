-- ===== src/Catalog/Soundness.antt =====
-- The invariant of the directories, that every operation and every crash in a commit keeps.
use unifieddataruntime.Base.{
  ap, Bool-cases, ℕ, ◌+◌, ◌<◌, ◌≤◌, String, ◌≡◌, ◌≢◌, refl, Bool, true, false, some, List, [], ◌++◌,
  ◌∷◌, string_eq, nat_eq, eqb, ◌==◌, ◌&&◌, if◌then◌else◌, Result, Option, ok, err, arith, inl, inr,
}
use unifieddataruntime.Base.Dict.{Dict, lookup-insert}
use unifieddataruntime.Base.Int.{ℤ}
use unifieddataruntime.Clock.{u64_mod}
use unifieddataruntime.Catalog.{
  TableVersion, PendingCommit, TableDir, FileCatalog, CatalogError, dir_of, set_dir, make_dir,
  latest_version_num, write_version, commit, write_pending_intent, new_catalog, new_version, finish,
  commit_inner, commit_next_version_with_meta, remove_pending_intent, commit_next_version,
  delete_version, is_committed, recover_loop, recover_pending_commits,
}
use unifieddataruntime.Catalog.Versions.{
  dir_of-set_dir, dir_of-make_dir, next_version, version_at, is_at,
}
use unifieddataruntime.Catalog.History.{
  commit_appends, commit_refused, commit_as_inner, Deletion, delete_version-Deletion,
}
use text.Mathlib.TextEquality.{eq_iff}

-- A table's pointer names a version that is there, unless it is 0; every version stands under its own
-- number, which is at most one past the pointer.
pub record IsSound (c : FileCatalog) : Type 0 where
  pub named :
      (t : String)
      → 0 < latest_version_num c t
      → (v : TableVersion) × (version_at c t (latest_version_num c t) ≡ some v)
  pub numbered :
      (t : String) (n : ℕ) (v : TableVersion)
      → version_at c t n ≡ some v
      → (v.version ≡ n) × (v.table_name ≡ t) × (n ≤ latest_version_num c t + 1)
  pub bounded : (t : String) → latest_version_num c t < u64_mod

-- The catalog when the file of a version is written, and its pointer is not.
abbrev pub without_pointer : FileCatalog → TableVersion → FileCatalog
without_pointer c v =
    set_dir (make_dir c v.table_name) v.table_name (write_version v (dir_of c v.table_name))

-- One step of the catalog: an operation that changes it, or a part of one that a crash ends. What a
-- crash in a commit without a number leaves is what `crashes_intent` and then `makes_dir`,
-- `crashes_version` or `commits` leave: the intent, and after it the directory, the file of the
-- version, or the file and the pointer. A recovery that is broken off took some of the intents.
pub data Step : FileCatalog → FileCatalog → Type 0 where
  commits :
      {c : FileCatalog} (v : TableVersion)
      → latest_version_num c v.table_name + 1 < u64_mod
      → Step c (commit c v).1
  commits_next :
      {c : FileCatalog} (now : ℤ) (id t : String) (hs : List String)
      → latest_version_num c t + 1 < u64_mod
      → Step c (commit_next_version now id c t hs).1
  commits_next_with_meta :
      {c : FileCatalog} (now : ℤ) (id t : String) (hs : List String) (m : Dict String String)
      (h : Option String)
      → latest_version_num c t + 1 < u64_mod
      → Step c (commit_next_version_with_meta now id c t hs m h).1
  deletes : {c : FileCatalog} (t : String) (n : ℕ) → Step c (delete_version c t n).1
  recovers : {c : FileCatalog} → Step c (recover_pending_commits c).1
  crashes_intent :
      {c : FileCatalog} (now : ℤ) (id t : String) (hs : List String)
      → Step c (write_pending_intent now id c t hs)
  makes_dir : {c : FileCatalog} (t : String) → Step c (make_dir c t)
  crashes_version :
      {c : FileCatalog} (v : TableVersion)
      → latest_version_num c v.table_name + 1 < u64_mod
      → v.version ≡ next_version c v.table_name
      → Step c (without_pointer c v)
  crashes_recovery : {c : FileCatalog} (id : String) → Step c (remove_pending_intent c id)

pub data Reachable : FileCatalog → Type 0 where
  starts : Reachable new_catalog
  goes : {c d : FileCatalog} → Reachable c → Step c d → Reachable d

pub recover_loop_dirs :
    (ps : Dict String PendingCommit) (acc : List PendingCommit) (c : FileCatalog) (t : String)
    → dir_of (recover_loop ps acc c).1 t ≡ dir_of c t
unfolding remove_pending_intent
recover_loop_dirs [] acc c t = refl
recover_loop_dirs ((id, p) ∷ ps) acc c t =
    go (is_committed c p.table_name p.chunk_hashes)
      (λ acc'. recover_loop_dirs ps acc' (remove_pending_intent c id) t)
  where
    go :
        (r : Result CatalogError Bool)
        → ((acc' : List PendingCommit)
            → dir_of (recover_loop ps acc' (remove_pending_intent c id)).1 t ≡ dir_of c t)
        → dir_of
            (elim r as (λ x. Result CatalogError (List PendingCommit) × FileCatalog) [
              | ok done ↦
                  recover_loop ps (if done then acc else acc ++ p ∷ []) (remove_pending_intent c id)
              | err e ↦ (err e, c)
            ]).1
            t
          ≡ dir_of c t
    go (ok done) later = later (if done then acc else acc ++ p ∷ [])
    go (err e) later = refl

pub IsSound-by :
    (c d : FileCatalog) → ((t : String) → dir_of d t ≡ dir_of c t) → IsSound c → IsSound d
IsSound-by c d same s = record {
  named = λ t. rw (same t) (s.named t);
  numbered = λ t n v. rw (same t) (s.numbered t n v);
  bounded = λ t. rw (same t) (s.bounded t);
}

-- The next version of a table is added, and the pointer may move to it.
IsSound-append :
    (c d : FileCatalog) (v : TableVersion) (moves : Bool)
    → latest_version_num c v.table_name + 1 < u64_mod
    → v.version ≡ latest_version_num c v.table_name + 1
    → ((u : String) (n : ℕ)
        → version_at d u n
          ≡ (if is_at v.table_name v.version u n then some v else version_at c u n))
    → ((u : String)
        → latest_version_num d u
          ≡ (if moves && v.table_name == u then v.version else latest_version_num c u))
    → IsSound c
    → IsSound d
IsSound-append c d v moves h e versions latests s = record {
  named = λ t pos. elim (Bool-cases (moves && v.table_name == t)) [
    | inl k ↦
        let at : latest_version_num d t ≡ v.version = rw (latests t, k) refl in
        (v, rw (at, versions t v.version) (ground (arith, k)))
    | inr k ↦
        let at : latest_version_num d t ≡ latest_version_num c t = rw (latests t, k) refl in
        let (w, old) = s.named t (rw (← at) pos) in
        (
          w,
          rw (at, versions t (latest_version_num c t))
              (ground (arith, e, old, eq_iff v.table_name t)),
        )
  ];
  numbered = λ t n w at.
      ground (arith, s.numbered t n w, versions t n, at, latests t, e, h, eq_iff v.table_name t);
  bounded = λ t. ground (arith, s.bounded t, e, h, latests t, eq_iff v.table_name t);
}

IsSound-commit :
    (c : FileCatalog) (v : TableVersion)
    → latest_version_num c v.table_name + 1 < u64_mod
    → IsSound c
    → IsSound (commit c v).1
IsSound-commit c v h s = elim (Bool-cases (eqb v.version (next_version c v.table_name))) [
  | inl e ↦
      let n : v.version ≡ next_version c v.table_name = ground (arith, e) in
      let (_, versions, latests) = commit_appends c v n in
      IsSound-append c (commit c v).1 v true h (rw (n) (ground (arith, h))) versions latests s
  | inr e ↦
      let n : v.version ≢ next_version c v.table_name = ground (arith, e) in
      IsSound-by c (commit c v).1 (λ u. (commit_refused c v u n).1) s
]

IsSound-make_dir : (c : FileCatalog) (t : String) → IsSound c → IsSound (make_dir c t)
IsSound-make_dir c t = IsSound-by c (make_dir c t) (dir_of-make_dir c t)

IsSound-intent :
    (c : FileCatalog) (now : ℤ) (id t : String) (hs : List String)
    → IsSound c
    → IsSound (write_pending_intent now id c t hs)
unfolding write_pending_intent
IsSound-intent c now id t hs = IsSound-by c (write_pending_intent now id c t hs) (λ u. refl)

IsSound-remove : (c : FileCatalog) (id : String) → IsSound c → IsSound (remove_pending_intent c id)
unfolding remove_pending_intent
IsSound-remove c id = IsSound-by c (remove_pending_intent c id) (λ u. refl)

IsSound-finish :
    (id : String) (r : Result CatalogError ℕ × FileCatalog) → IsSound r.1 → IsSound (finish id r).1
IsSound-finish id (ok n, c) s = IsSound-remove c id s
IsSound-finish id (err e, c) s = s

-- A commit after an intent, of any version.
IsSound-intended :
    (c : FileCatalog) (now : ℤ) (id : String) (hs : List String) (v : TableVersion)
    → latest_version_num c v.table_name + 1 < u64_mod
    → IsSound c
    → IsSound
        (finish id (
          commit_inner (make_dir (write_pending_intent now id c v.table_name hs) v.table_name) v)).1
unfolding write_pending_intent
IsSound-intended c now id hs v h s =
    let c₁ : FileCatalog = write_pending_intent now id c v.table_name hs in
    let c₂ : FileCatalog = make_dir c₁ v.table_name in
    let bound : latest_version_num c₂ v.table_name + 1 < u64_mod =
      rw (dir_of-make_dir c₁ v.table_name v.table_name) h in
    let kept : IsSound (commit c₂ v).1 =
      IsSound-commit c₂ v bound
        (IsSound-make_dir c₁ v.table_name (IsSound-intent c now id v.table_name hs s)) in
    IsSound-finish id (commit_inner c₂ v) (rw (← commit_as_inner c₂ v) kept)

IsSound-commit_next :
    (c : FileCatalog) (now : ℤ) (id t : String) (hs : List String)
    → latest_version_num c t + 1 < u64_mod
    → IsSound c
    → IsSound (commit_next_version now id c t hs).1
unfolding commit_next_version
IsSound-commit_next c now id t hs h s =
    let c₁ : FileCatalog = make_dir (write_pending_intent now id c t hs) t in
    IsSound-intended c now id hs (new_version now t (next_version c₁ t) hs) h s

IsSound-commit_next_with_meta :
    (c : FileCatalog) (now : ℤ) (id t : String) (hs : List String) (m : Dict String String)
    (k : Option String)
    → latest_version_num c t + 1 < u64_mod
    → IsSound c
    → IsSound (commit_next_version_with_meta now id c t hs m k).1
unfolding commit_next_version_with_meta
IsSound-commit_next_with_meta c now id t hs m k h s =
    let c₁ : FileCatalog = make_dir (write_pending_intent now id c t hs) t in
    IsSound-intended c now id hs
      (record (new_version now t (next_version c₁ t) hs) { metadata = m; schema_hash = k }) h s

IsSound-delete :
    (c : FileCatalog) (t : String) (n : ℕ) → IsSound c → IsSound (delete_version c t n).1
IsSound-delete c t n s = go (delete_version c t n) (delete_version-Deletion c t n)
  where
    go : (r : Result CatalogError TableVersion × FileCatalog) → Deletion c t n r → IsSound r.1
    go (err e, d) same = IsSound-by c d (λ u. rw (same) refl) s
    go (ok v, d) (not_latest, at, latests, versions) = record {
      named = λ u pos.
          let (w, old) = s.named u (rw (← latests u) pos) in
          (
            w,
            rw (latests u, versions u (latest_version_num c u))
                (ground (arith, not_latest, old, eq_iff t u)),
          );
      numbered = λ u m w k. ground (arith, s.numbered u m w, versions u m, k, latests u);
      bounded = λ u. rw (latests u) (s.bounded u);
    }

IsSound-crash :
    (c : FileCatalog) (v : TableVersion)
    → latest_version_num c v.table_name + 1 < u64_mod
    → v.version ≡ next_version c v.table_name
    → IsSound c
    → IsSound (without_pointer c v)
IsSound-crash c v h e s =
    let t : String = v.table_name in
    let d : TableDir = write_version v (dir_of c t) in
    let dirs : (u : String) → dir_of (without_pointer c v) u ≡ (if t == u then d else dir_of c u) =
      λ u.
        rw (dir_of-set_dir (make_dir c t) t u d)
          (ap (λ x. if t == u then d else x) (dir_of-make_dir c t u)) in
    IsSound-append c (without_pointer c v) v false h (rw (e) (ground (arith, h)))
      (λ u n.
        rw (dirs u) (ground (arith, eq_iff t u, lookup-insert v.version n v (dir_of c u).versions)))
      (λ u. rw (dirs u) (ground (arith, eq_iff t u))) s

IsSound-Step : (c d : FileCatalog) → Step c d → IsSound c → IsSound d
unfolding recover_pending_commits
IsSound-Step c d (Step.commits v h) s = IsSound-commit c v h s
IsSound-Step c d (Step.commits_next now id t hs h) s = IsSound-commit_next c now id t hs h s
IsSound-Step c d (Step.commits_next_with_meta now id t hs m k h) s =
    IsSound-commit_next_with_meta c now id t hs m k h s
IsSound-Step c d (Step.deletes t n) s = IsSound-delete c t n s
IsSound-Step c d Step.recovers s = IsSound-by c d (recover_loop_dirs c.pending [] c) s
IsSound-Step c d (Step.crashes_intent now id t hs) s = IsSound-intent c now id t hs s
IsSound-Step c d (Step.makes_dir t) s = IsSound-make_dir c t s
IsSound-Step c d (Step.crashes_version v h e) s = IsSound-crash c v h e s
IsSound-Step c d (Step.crashes_recovery id) s = IsSound-remove c id s

-- From an empty catalog, whichever commits, with or without a number and with or without metadata,
-- deletions and recoveries ran while version numbers are left, and whichever of them crashed between
-- two of its writes, the catalog is sound: a pointer that is not 0 names a stored version, and each
-- version stands under its own number and table, at most one past the pointer.
pub Reachable-IsSound : (c : FileCatalog) → Reachable c → IsSound c
Reachable-IsSound c Reachable.starts = record {
  named = λ t h. ground (arith, h);
  numbered = λ t n v at. ground (arith, at);
  bounded = λ t. omega arith;
}
Reachable-IsSound c (Reachable.goes {c = b} r s) = IsSound-Step b c s (Reachable-IsSound b r)
