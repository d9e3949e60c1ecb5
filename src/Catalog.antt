-- ===== src/Catalog.antt =====
-- rhizo_core/src/catalog: file_catalog.rs and version.rs. The versions of tables, in a directory for
-- each table with a file for each version and a pointer to the latest one, and the intents that are
-- written before a commit. The file system is a record of maps that does not fail; locks are left
-- out, the time and the random id of an intent are arguments. The name of a table is a relative path
-- below the catalog's, in normal form: its components are separated by `/`, and none is empty, `.`,
-- `..` or the name of a file of the catalog. A name of several components has a directory inside the
-- directory of the first one.
pub mod Paths
pub mod Versions
pub mod History
pub mod Garbage
pub mod Soundness
pub mod Pending
pub mod Tests
use unifieddataruntime.Base.{
  ℕ, ◌+◌, ◌-◌, ◌%◌, String, Bool, true, false, not, Option, none, some, List, [], ◌∷◌, map, select,
  string_eq, nat_eq, eqb, ltb, ◌==◌, ◌&&◌, ◌++◌, if◌then◌else◌, Result, ok, err, ◌>>=◌,
}
use unifieddataruntime.Base.Dict
use unifieddataruntime.Base.Dict.{Dict}
use unifieddataruntime.Base.HashSet
use unifieddataruntime.Base.HashSet.{HashSet}
use unifieddataruntime.Base.Int.{ℤ}
use unifieddataruntime.Base.Sort.{sort_texts, sort_numbers}
use unifieddataruntime.Catalog.Paths.{directories, is_listed}
use unifieddataruntime.Clock.{u64_mod}

pub record TableVersion : Type 0 where
  pub table_name : String
  pub version : ℕ
  pub chunk_hashes : List String
  pub schema_hash : Option String
  pub created_at : ℤ
  pub parent_version : Option ℕ
  pub metadata : Dict String String

-- `TableVersion::new`
abbrev pub new_version : ℤ → String → ℕ → List String → TableVersion
new_version now t v hs = record {
  table_name = t;
  version = v;
  chunk_hashes = hs;
  schema_hash = none;
  created_at = now;
  parent_version = if ltb 1 v then some (v - 1) else none;
  metadata = [];
}

abbrev pub with_metadata : TableVersion → String → String → TableVersion
with_metadata v k w = record v { metadata = Dict.insert k w v.metadata }

abbrev pub with_schema_hash : TableVersion → String → TableVersion
with_schema_hash v h = record v { schema_hash = some h }

pub record PendingCommit : Type 0 where
  pub intent_id : String
  pub table_name : String
  pub chunk_hashes : List String
  pub created_at : ℤ

pub data CatalogError : Type 0 where
  table_not_found : String → CatalogError
  version_not_found cannot_delete_latest : String → ℕ → CatalogError
  invalid_version : (expected got : ℕ) → CatalogError

-- The directory of a table.
pub record TableDir : Type 0 where
  pub versions : Dict ℕ TableVersion
  pub latest : Option ℕ

pub record FileCatalog : Type 0 where
  pub tables : Dict String TableDir
  pub pending : Dict String PendingCommit

abbrev pub new_catalog : FileCatalog
new_catalog = record { tables = []; pending = [] }

abbrev pub empty_dir : TableDir
empty_dir = record { versions = []; latest = none }

abbrev pub dir_of : FileCatalog → String → TableDir
dir_of c t = elim (Dict.lookup t c.tables) [ none ↦ empty_dir | some d ↦ d ]

abbrev pub set_dir : FileCatalog → String → TableDir → FileCatalog
set_dir c t d = record c { tables = Dict.insert t d c.tables }

-- A directory that is missing is made; one that is there is kept.
abbrev pub make_dirs : List String → Dict String TableDir → Dict String TableDir
make_dirs [] ds = ds
make_dirs (p ∷ ps) ds =
    make_dirs ps (elim (Dict.lookup p ds) [ none ↦ Dict.insert p empty_dir ds | some _ ↦ ds ])

-- `fs::create_dir_all`
abbrev pub make_dir : FileCatalog → String → FileCatalog
make_dir c t = record c { tables = make_dirs (directories t) c.tables }

abbrev pub pointer : Option ℕ → ℕ
pointer none = 0
pointer (some n) = n

-- `get_latest_version_num`
abbrev pub latest_version_num : FileCatalog → String → ℕ
latest_version_num c t = pointer (dir_of c t).latest

-- The two atomic writes of a commit.
abbrev pub write_version : TableVersion → TableDir → TableDir
write_version v d = record d { versions = Dict.insert v.version v d.versions }

abbrev pub write_latest : ℕ → TableDir → TableDir
write_latest n d = record d { latest = some n }

unfoldable pub commit_inner : FileCatalog → TableVersion → Result CatalogError ℕ × FileCatalog
commit_inner c v =
    let c' = make_dir c v.table_name in
    let expected = (latest_version_num c' v.table_name + 1) % u64_mod in
    if not (eqb v.version expected)
    then (err (CatalogError.invalid_version expected v.version), c')
    else (
      ok v.version,
      set_dir c' v.table_name (write_latest v.version (write_version v (dir_of c' v.table_name))),
    )

-- `FileCatalog::commit`
unfoldable pub commit : FileCatalog → TableVersion → Result CatalogError ℕ × FileCatalog
commit c v =
    let c' = make_dir c v.table_name in
    let expected = (latest_version_num c' v.table_name + 1) % u64_mod in
    if not (eqb v.version expected)
    then (err (CatalogError.invalid_version expected v.version), c')
    else (
      ok v.version,
      set_dir c' v.table_name (write_latest v.version (write_version v (dir_of c' v.table_name))),
    )

unfoldable pub write_pending_intent : ℤ → String → FileCatalog → String → List String → FileCatalog
write_pending_intent now id c t hs = record c {
  pending =
      Dict.insert id
        (record { intent_id = id; table_name = t; chunk_hashes = hs; created_at = now }) c.pending;
}

unfoldable pub remove_pending_intent : FileCatalog → String → FileCatalog
remove_pending_intent c id = record c { pending = Dict.remove id c.pending }

-- The intent goes on success alone.
abbrev pub finish :
    String → Result CatalogError ℕ × FileCatalog → Result CatalogError ℕ × FileCatalog
finish id (ok n, c) = (ok n, remove_pending_intent c id)
finish id (err e, c) = (err e, c)

unfoldable pub commit_next_version :
    ℤ → String → FileCatalog → String → List String → Result CatalogError ℕ × FileCatalog
unfolding write_pending_intent commit_inner remove_pending_intent
commit_next_version now id c t hs =
    let c₁ = make_dir (write_pending_intent now id c t hs) t in
    let next = (latest_version_num c₁ t + 1) % u64_mod in
    finish id (commit_inner c₁ (new_version now t next hs))

unfoldable pub commit_next_version_with_meta :
    ℤ
    → String
    → FileCatalog
    → String
    → List String
    → Dict String String
    → Option String
    → Result CatalogError ℕ × FileCatalog
unfolding write_pending_intent commit_inner remove_pending_intent
commit_next_version_with_meta now id c t hs m h =
    let c₁ = make_dir (write_pending_intent now id c t hs) t in
    let next = (latest_version_num c₁ t + 1) % u64_mod in
    finish id
      (commit_inner c₁ (record (new_version now t next hs) { metadata = m; schema_hash = h }))

unfoldable pub get_version : FileCatalog → String → Option ℕ → Result CatalogError TableVersion
get_version c t version = elim (Dict.lookup t c.tables) [
  | none ↦ err (CatalogError.table_not_found t)
  | some d ↦
      let n : ℕ = elim version [ none ↦ pointer d.latest | some v ↦ v ] in
      elim (Dict.lookup n d.versions) [
        | none ↦ err (CatalogError.version_not_found t n)
        | some v ↦ ok v
      ]
]

unfoldable pub list_versions : FileCatalog → String → Result CatalogError (List ℕ)
list_versions c t = elim (Dict.lookup t c.tables) [
  | none ↦ err (CatalogError.table_not_found t)
  | some d ↦ ok (sort_numbers (Dict.keys d.versions))
]

unfoldable pub list_tables : FileCatalog → List String
list_tables c = sort_texts (select is_listed (Dict.keys c.tables))

unfoldable pub delete_version :
    FileCatalog → String → ℕ → Result CatalogError TableVersion × FileCatalog
delete_version c t n = elim (Dict.lookup t c.tables) [
  | none ↦ (err (CatalogError.table_not_found t), c)
  | some d ↦
      if eqb n (pointer d.latest)
      then (err (CatalogError.cannot_delete_latest t n), c)
      else elim (Dict.lookup n d.versions) [
        | none ↦ (err (CatalogError.version_not_found t n), c)
        | some v ↦ (ok v, set_dir c t (record d { versions = Dict.remove n d.versions }))
      ]
]

-- `for hash in hashes { referenced.insert(hash) }`, then the loops over versions and over tables.
abbrev pub insert_all : List String → HashSet String → HashSet String
insert_all [] acc = acc
insert_all (h ∷ hs) acc = insert_all hs (HashSet.insert h acc)

abbrev pub reference_versions :
    FileCatalog → String → List ℕ → HashSet String → Result CatalogError (HashSet String)
reference_versions c t [] acc = ok acc
reference_versions c t (n ∷ ns) acc =
    get_version c t (some n) >>= λ v. reference_versions c t ns (insert_all v.chunk_hashes acc)

abbrev pub reference_tables :
    FileCatalog → List String → HashSet String → Result CatalogError (HashSet String)
reference_tables c [] acc = ok acc
reference_tables c (t ∷ ts) acc =
    list_versions c t >>= λ ns. reference_versions c t ns acc >>= λ acc'. reference_tables c ts acc'

unfoldable pub get_all_referenced_chunk_hashes : FileCatalog → Result CatalogError (HashSet String)
get_all_referenced_chunk_hashes c = reference_tables c (list_tables c) []

-- `==` of lists of texts.
abbrev pub same_hashes : List String → List String → Bool
same_hashes [] [] = true
same_hashes (x ∷ xs) (y ∷ ys) = x == y && same_hashes xs ys
same_hashes xs ys = false

unfoldable pub is_committed : FileCatalog → String → List String → Result CatalogError Bool
is_committed c t hs = elim (Dict.lookup t c.tables) [
  | none ↦ ok false
  | some d ↦
      if eqb (pointer d.latest) 0
      then ok false
      else get_version c t (some (pointer d.latest)) >>= λ v. ok (same_hashes v.chunk_hashes hs)
]

-- The loop over the intents that are found; an error ends it, and leaves the rest of them.
abbrev pub recover_loop :
    Dict String PendingCommit
    → List PendingCommit
    → FileCatalog
    → Result CatalogError (List PendingCommit) × FileCatalog
recover_loop [] orphaned c = (ok orphaned, c)
recover_loop ((id, p) ∷ ps) orphaned c = elim (is_committed c p.table_name p.chunk_hashes) [
  | err e ↦ (err e, c)
  | ok done ↦
      recover_loop ps (if done then orphaned else orphaned ++ p ∷ []) (remove_pending_intent c id)
]

unfoldable pub recover_pending_commits :
    FileCatalog → Result CatalogError (List PendingCommit) × FileCatalog
recover_pending_commits c = recover_loop c.pending [] c
