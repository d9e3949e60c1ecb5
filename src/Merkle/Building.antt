-- ===== src/Merkle/Building.antt =====
-- rhizo_core/src/merkle/tree.rs: building, comparing and verifying a tree.
use unifieddataruntime.Base.{
  ℕ, zero, suc, ◌+◌, ◌-◌, String, Bool, true, false, not, Option, none, some, List, [], ◌∷◌, length,
  string_eq, eqb, ltb, ◌==◌, if◌then◌else◌, Result, ok, err, ◌>>=◌,
}
use unifieddataruntime.Base.HashSet
use unifieddataruntime.Merkle.{
  DataChunk, MerkleNode, MerkleTree, MerkleDiff, MerkleConfig, MerkleError, Outcome, hashes, groups,
  split_into_chunks, level_nodes, node_hashes, parent_hash, head_or_empty,
}

-- The root, the levels of nodes and the height.
abbrev pub Levels : Type 0
Levels = String × (List (List MerkleNode) × ℕ)

abbrev pub add_level : List MerkleNode → Outcome Levels → Outcome Levels
add_level ns (Outcome.ends (r, (ls, h))) = Outcome.ends (r, (ns ∷ ls, h))
add_level ns Outcome.panics = Outcome.panics
add_level ns Outcome.runs_on = Outcome.runs_on

module _ (blake3 : List ℕ → String) (as_bytes : String → List ℕ) where
  -- The loop of `build_tree_from_leaves`: `slice::chunks` panics on a size of 0.
  abbrev pub build_levels : ℕ → ℕ → ℕ → List String → Outcome Levels
  build_levels zero factor level current =
      if ltb 1 (length current)
      then Outcome.runs_on
      else Outcome.ends (head_or_empty current, ([], level))
  build_levels (suc fuel) factor level current =
      let ns = level_nodes blake3 as_bytes level 0 (groups factor (factor - 1) current) in
      let rest = build_levels fuel factor (level + 1) (node_hashes ns) in
      if ltb 1 (length current)
      then (if eqb factor 0 then Outcome.panics else add_level ns rest)
      else Outcome.ends (head_or_empty current, ([], level))

  abbrev pub build_tree_from_leaves : ℕ → List DataChunk → ℕ → Outcome Levels
  build_tree_from_leaves fuel [] factor = Outcome.ends ("", ([], 0))
  build_tree_from_leaves fuel (c ∷ []) factor = Outcome.ends (c.hash, ([], 1))
  build_tree_from_leaves fuel (c ∷ d ∷ cs) factor = build_levels fuel factor 1 (hashes (c ∷ d ∷ cs))

  -- The tree of the chunks of the data, with the levels above them.
  abbrev pub with_levels :
      List ℕ
      → MerkleConfig
      → List DataChunk
      → Outcome Levels
      → Outcome (Result MerkleError MerkleTree)
  with_levels bytes config cs (Outcome.ends (r, (ls, h))) = Outcome.ends (
      ok (record {
        root_hash = r;
        chunks = cs;
        internal_nodes = ls;
        total_size = length bytes;
        chunk_size = config.chunk_size;
        height = h;
      }))
  with_levels bytes config cs Outcome.panics = Outcome.panics
  with_levels bytes config cs Outcome.runs_on = Outcome.runs_on

  abbrev pub with_chunks :
      ℕ → List ℕ → MerkleConfig → Outcome (List DataChunk) → Outcome (Result MerkleError MerkleTree)
  with_chunks fuel bytes config (Outcome.ends []) = Outcome.ends (err MerkleError.empty_data)
  with_chunks fuel bytes config (Outcome.ends (c ∷ cs)) =
      with_levels bytes config (c ∷ cs)
        (build_tree_from_leaves fuel (c ∷ cs) config.branching_factor)
  with_chunks fuel bytes config Outcome.panics = Outcome.panics
  with_chunks fuel bytes config Outcome.runs_on = Outcome.runs_on

  -- Both loops have the same fuel.
  unfoldable pub build_tree : ℕ → List ℕ → MerkleConfig → Outcome (Result MerkleError MerkleTree)
  unfolding split_into_chunks
  build_tree fuel bytes config =
      if eqb (length bytes) 0
      then Outcome.ends (err MerkleError.empty_data)
      else if eqb config.chunk_size 0
      then Outcome.ends (err (MerkleError.invalid_chunk_size 0))
      else with_chunks fuel bytes config
          (split_into_chunks blake3 as_bytes fuel bytes config.chunk_size)

  unfoldable pub verify_chunks :
      (String → Option (List ℕ)) → List DataChunk → Result MerkleError (Unit {0})
  verify_chunks get [] = ok tt
  verify_chunks get (c ∷ cs) = elim (get c.hash) [
    | none ↦ err (MerkleError.chunk_not_found c.hash)
    | some d ↦
        if not (blake3 d == c.hash)
        then err (MerkleError.integrity_error c.hash (blake3 d))
        else verify_chunks get cs
  ]

  unfoldable pub verify_nodes : List MerkleNode → Result MerkleError (List String)
  verify_nodes [] = ok []
  verify_nodes (n ∷ ns) =
      let actual = parent_hash blake3 as_bytes n.children in
      let rest = verify_nodes ns in
      if not (actual == n.hash)
      then err (MerkleError.integrity_error n.hash actual)
      else (rest >>= λ hs. ok (n.hash ∷ hs))

  unfoldable pub verify_levels :
      List String → List (List MerkleNode) → Result MerkleError (List String)
  unfolding verify_nodes
  verify_levels current [] = ok current
  verify_levels current (l ∷ ls) = verify_nodes l >>= λ next. verify_levels next ls

  abbrev pub is_root : String → List String → Bool
  is_root r (h ∷ []) = h == r
  is_root r _ = false

  unfoldable pub verify_root : MerkleTree → List String → Result MerkleError Bool
  verify_root t current =
      if is_root t.root_hash current then ok true else single t.internal_nodes t.chunks
    where
      single : List (List MerkleNode) → List DataChunk → Result MerkleError Bool
      single [] (c ∷ []) = ok (c.hash == t.root_hash)
      single _ _ = err MerkleError.tree_corruption

  unfoldable pub verify_tree : MerkleTree → (String → Option (List ℕ)) → Result MerkleError Bool
  unfolding verify_chunks verify_levels verify_root
  verify_tree t get = do
    _ ← verify_chunks get t.chunks
    current ← verify_levels (hashes t.chunks) t.internal_nodes
    verify_root t current

-- `diff_trees`
unfoldable pub diff_trees : MerkleTree → MerkleTree → MerkleDiff
diff_trees old new =
    let a = HashSet.of_list (hashes old.chunks) in
    let b = HashSet.of_list (hashes new.chunks) in
    record {
      unchanged_chunks = HashSet.intersection a b;
      removed_chunks = HashSet.difference a b;
      added_chunks = HashSet.difference b a;
    }
