-- ===== src/Catalog/Garbage.antt =====
-- What garbage collection may delete: every chunk that a stored version of a listed table names is in
-- the set of the referenced ones.
use unifieddataruntime.Base.{
  any, ℕ, String, ◌≡◌, Bool, false, none, some, string_eq, nat_eq, Result, ok,
}
use unifieddataruntime.Base.Dict
use unifieddataruntime.Base.Dict.{Dict, keys}
use unifieddataruntime.Base.HashSet
use unifieddataruntime.Base.HashSet.{HashSet}
use unifieddataruntime.Base.Sort.{sort_numbers}
use unifieddataruntime.Catalog.{TableDir, FileCatalog, CatalogError, dir_of}

-- Whether a version that the directory has under a number names a chunk.
abbrev pub names : TableDir → String → ℕ → Bool
names d x n = elim (Dict.lookup n d.versions) [
  | none ↦ false
  | some v ↦ HashSet.contains x v.chunk_hashes
]

abbrev pub table_names : FileCatalog → String → String → Bool
table_names c x t = any (names (dir_of c t) x) (sort_numbers (keys (dir_of c t).versions))

-- A loop that ends well, with what it started from and what a test says of it.
abbrev Collects : Result CatalogError (HashSet String) → (String → Bool) → Type 0
Collects r p = (s : HashSet String) × (r ≡ ok s) × ((x : String) → HashSet.contains x s ≡ p x)
