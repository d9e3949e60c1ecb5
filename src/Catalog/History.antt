-- ===== src/Catalog/History.antt =====
-- What the operations of the catalog do to the history of the tables: a commit appends a version,
-- and a deletion takes one that is not the latest.
use unifieddataruntime.Base.{
  Bool-cases, ap, sym, subst, ℕ, String, ◌≡◌, ◌≢◌, refl, false, Option, none, some, List, string_eq,
  nat_eq, eqb, ◌==◌, if◌then◌else◌, Result, ok, err, arith, beq_refl, inl, inr,
}
use unifieddataruntime.Base.Dict
use unifieddataruntime.Base.Dict.{Dict, lookup-insert, lookup-remove}
use unifieddataruntime.Base.Int.{ℤ}
use unifieddataruntime.Catalog.{
  TableVersion, TableDir, FileCatalog, CatalogError, new_version, dir_of, set_dir, make_dir,
  pointer, latest_version_num, commit, commit_inner, write_pending_intent, remove_pending_intent,
  commit_next_version, get_version, delete_version,
}
use unifieddataruntime.Catalog.Versions.{
  commit_inner-ok, dir_of-set_dir, dir_of-make_dir, committed, next_version, commit_inner_dir,
  commit_inner_result, commit_inner_refused, version_at, is_at,
}
use text.Mathlib.TextEquality.{eq_iff}

pub commit_as_inner : (c : FileCatalog) (v : TableVersion) → commit c v ≡ commit_inner c v
unfolding commit commit_inner
commit_as_inner c v = refl

-- A commit of the expected number adds that version and moves the pointer of its table to it; all
-- else reads as before.
pub commit_appends :
    (c : FileCatalog) (v : TableVersion)
    → v.version ≡ next_version c v.table_name
    → ((commit c v).0 ≡ ok v.version)
      × ((u : String) (n : ℕ)
          → version_at (commit c v).1 u n
            ≡ (if is_at v.table_name v.version u n then some v else version_at c u n))
      × ((u : String)
          → latest_version_num (commit c v).1 u
            ≡ (if v.table_name == u then v.version else latest_version_num c u))
commit_appends c v e = rw (commit_as_inner c v) (
  (commit_inner_result c v e).0,
  (λ u n.
      rw (commit_inner_dir c v u e)
        (ground (arith, eq_iff v.table_name u, lookup-insert v.version n v (dir_of c u).versions))),
  λ u. rw (commit_inner_dir c v u e) (ground (arith, eq_iff v.table_name u)),
)

-- A commit of any other number is refused with the expected one, and no version and no pointer of
-- any table changes.
pub commit_refused :
    (c : FileCatalog) (v : TableVersion) (u : String)
    → v.version ≢ next_version c v.table_name
    → ((commit c v).0 ≡ err (CatalogError.invalid_version (next_version c v.table_name) v.version))
      × (dir_of (commit c v).1 u ≡ dir_of c u)
commit_refused c v u e =
    rw (commit_as_inner c v, commit_inner_refused c v e) (refl, dir_of-make_dir c v.table_name u)

-- What the pointer names is what is read without a number.
read_back :
    (t : String) (c : FileCatalog) (v : TableVersion)
    → Dict.lookup (latest_version_num c t) (dir_of c t).versions ≡ some v
    → get_version c t none ≡ ok v
unfolding get_version
read_back t c v e = go (Dict.lookup t c.tables) refl
  where
    go : (o : Option TableDir) → Dict.lookup t c.tables ≡ o → get_version c t none ≡ ok v
    go none h = ground (arith, h, e)
    go (some d) h = ground (arith, h, e)

-- A commit without a number takes the next one.
module _ (now : ℤ) (id : String) (c : FileCatalog) (t : String) (hs : List String) where
  abbrev pub after_next : FileCatalog
  after_next = (commit_next_version now id c t hs).1

  abbrev pub version_next : TableVersion
  version_next = new_version now t (next_version c t) hs

  started : FileCatalog
  started = make_dir (write_pending_intent now id c t hs) t

  started_dir : (u : String) → dir_of started u ≡ dir_of c u
  unfolding started write_pending_intent
  started_dir u = dir_of-make_dir (write_pending_intent now id c t hs) t u

  written : FileCatalog
  written = set_dir (make_dir started t) t (committed version_next (dir_of started t))

  commit_next_version_run :
      commit_next_version now id c t hs ≡ (ok (next_version c t), remove_pending_intent written id)
  unfolding commit_next_version started written
  commit_next_version_run =
      let numbered : next_version started t ≡ next_version c t = rw (started_dir t) refl in
      let inner : commit_inner started version_next ≡ (ok (next_version c t), written) =
        commit_inner-ok started version_next (rw (numbered) refl) in
      rw (commit_next_version, numbered, inner) refl

  commit_next_version_dir :
      (u : String)
      → dir_of after_next u ≡ (if t == u then committed version_next (dir_of c u) else dir_of c u)
  unfolding written remove_pending_intent
  commit_next_version_dir u =
      let at_end : dir_of after_next u ≡ dir_of written u =
        ap (λ r. dir_of r.1 u) commit_next_version_run in
      rw
        (
          at_end,
          dir_of-set_dir (make_dir started t) t u (committed version_next (dir_of started t)),
          dir_of-make_dir started t u,
          started_dir t,
          started_dir u,
        )
        (ground (arith, eq_iff t u))

  commit_next_version_pending :
      (j : String)
      → Dict.lookup j after_next.pending ≡ (if id == j then none else Dict.lookup j c.pending)
  unfolding written started write_pending_intent remove_pending_intent
  commit_next_version_pending j =
      subst (λ r. Dict.lookup j r.1.pending ≡ (if id == j then none else Dict.lookup j c.pending))
        (sym commit_next_version_run)
        (ground (
          arith,
          eq_iff id j,
          lookup-remove id j written.pending,
          lookup-insert id j
              (record { intent_id = id; table_name = t; chunk_hashes = hs; created_at = now })
              c.pending,
        ))

  -- A commit without a number succeeds with the next number, whatever the catalog: the history of
  -- the table has one version more, which is the latest, and is read back with the chunks that were
  -- given; no other version and no other pointer changes, and no intent is left under the id that
  -- was drawn, the others as they were.
  pub commit_next_version_lem :
      ((commit_next_version now id c t hs).0 ≡ ok (next_version c t))
      × (get_version after_next t none ≡ ok version_next)
      × ((u : String) (n : ℕ)
          → version_at after_next u n
            ≡ (if is_at t (next_version c t) u n then some version_next else version_at c u n))
      × ((u : String)
          → latest_version_num after_next u
            ≡ (if t == u then next_version c t else latest_version_num c u))
      × ((j : String)
          → Dict.lookup j after_next.pending ≡ (if id == j then none else Dict.lookup j c.pending))
  commit_next_version_lem = (
    rw (commit_next_version_run) refl,
    read_back t after_next version_next (
        rw
          (
            commit_next_version_dir t,
            beq_refl t,
            lookup-insert (next_version c t) (next_version c t) version_next (dir_of c t).versions,
          )
          (ground arith)),
    (λ u n. rw (commit_next_version_dir u) (
        ground (
          arith,
          eq_iff t u,
          lookup-insert (next_version c t) n version_next (dir_of c u).versions,
        ))),
    (λ u. rw (commit_next_version_dir u) (ground (arith, eq_iff t u))),
    commit_next_version_pending,
  )

-- What a deletion did: nothing, or it took the one version and left the pointer.
abbrev pub Deletion :
    FileCatalog → String → ℕ → Result CatalogError TableVersion × FileCatalog → Type 0
Deletion c t n (err e, c') = c' ≡ c
Deletion c t n (ok v, c') =
    (n ≢ latest_version_num c t)
    × (version_at c t n ≡ some v)
    × ((u : String) → latest_version_num c' u ≡ latest_version_num c u)
    × ((u : String) (m : ℕ)
        → version_at c' u m ≡ (if is_at t n u m then none else version_at c u m))

-- Every deletion, of any version, does what `Deletion` says: it gives an error and changes nothing,
-- or it gives the version that was there, which is not the latest, and takes that version alone and
-- leaves every pointer.
pub delete_version-Deletion :
    (c : FileCatalog) (t : String) (n : ℕ) → Deletion c t n (delete_version c t n)
unfolding delete_version
delete_version-Deletion c t n = go (Dict.lookup t c.tables) refl
  where
    found :
        (d : TableDir)
        → Dict.lookup t c.tables ≡ some d
        → eqb n (pointer d.latest) ≡ false
        → (o : Option TableVersion) → Dict.lookup n d.versions ≡ o
        → Deletion c t n (delete_version c t n)
    found d h e none k = rw (delete_version, h, e, k) refl
    found d h e (some v) k =
        let here : dir_of c t ≡ d = rw (dir_of, h) refl in
        let gone : TableDir = record d { versions = Dict.remove n d.versions } in
        let run : delete_version c t n ≡ (ok v, set_dir c t gone) =
          rw (delete_version, h, e, k) refl in
        rw (run) (
          rw (here) (ground (arith, e)),
          rw (here) k,
          (λ u. ground (arith, dir_of-set_dir c t u gone, here, eq_iff t u)),
          λ u m.
              ground
                (arith, dir_of-set_dir c t u gone, here, eq_iff t u, lookup-remove n m d.versions),
        )

    go : (o : Option TableDir) → Dict.lookup t c.tables ≡ o → Deletion c t n (delete_version c t n)
    go none h = rw (delete_version, h) refl
    go (some d) h = elim (Bool-cases (eqb n (pointer d.latest))) [
      | inl e ↦ rw (delete_version, h, e) refl
      | inr e ↦ found d h e (Dict.lookup n d.versions) refl
    ]

-- The latest version of a table is read as before, whatever is deleted.
pub delete_version-latest :
    (c : FileCatalog) (t u : String) (n : ℕ)
    → version_at (delete_version c t n).1 u (latest_version_num (delete_version c t n).1 u)
      ≡ version_at c u (latest_version_num c u)
delete_version-latest c t u n = kept (delete_version c t n) (delete_version-Deletion c t n)
  where
    kept :
        (r : Result CatalogError TableVersion × FileCatalog)
        → Deletion c t n r
        → version_at r.1 u (latest_version_num r.1 u) ≡ version_at c u (latest_version_num c u)
    kept (err e, c') d = rw (d) refl
    kept (ok v, c') (h, at, same, others) =
        rw (same u, others u (latest_version_num c u)) (ground (arith, h, eq_iff t u))
