-- ===== src/Merkle/Unlinked.antt =====
-- What verification does not look at: whether the lowest nodes are those of the chunks.
use unifieddataruntime.Base.{
  ℕ, ◌≡◌, refl, String, true, Option, List, ◌∷◌, ok, ◌>>=◌, >>=-eq-ok, string_eq,
}
use unifieddataruntime.Merkle.{DataChunk, MerkleNode, MerkleTree, hashes}
use unifieddataruntime.Merkle.Building.{verify_chunks, verify_levels, verify_root, verify_tree}
use unifieddataruntime.Merkle.Verified.{Holds, verify_chunks-Holds}

-- The tree of given nodes.
abbrev pub with_nodes : MerkleTree → List (List MerkleNode) → MerkleTree
with_nodes t ls = record t { internal_nodes = ls }

module _ (blake3 : List ℕ → String) (as_bytes : String → List ℕ) where
  verify_levels-any :
      (current other : List String) (l : List MerkleNode) (ls : List (List MerkleNode))
      → verify_levels blake3 as_bytes current (l ∷ ls)
        ≡ verify_levels blake3 as_bytes other (l ∷ ls)
  unfolding verify_levels
  verify_levels-any current other l ls = refl

  verify_root-any :
      (t : MerkleTree) (cs : List DataChunk) (current : List String) (l : List MerkleNode)
      (ls : List (List MerkleNode))
      → verify_root blake3 as_bytes (with_nodes (record t { chunks = cs }) (l ∷ ls)) current
        ≡ verify_root blake3 as_bytes (with_nodes t (l ∷ ls)) current
  unfolding verify_root
  verify_root-any t cs current l ls = refl

  -- A tree with nodes that verifies does so with any other chunks in the place of its own that the
  -- store has data of the right hash for: neither the nodes nor the root are compared with them.
  pub verify_tree-unlinked :
      (t : MerkleTree) (get : String → Option (List ℕ)) (cs : List DataChunk) (l : List MerkleNode)
      (ls : List (List MerkleNode))
      → Holds blake3 as_bytes get cs
      → verify_tree blake3 as_bytes (with_nodes t (l ∷ ls)) get ≡ ok true
      → verify_tree blake3 as_bytes (with_nodes (record t { chunks = cs }) (l ∷ ls)) get ≡ ok true
  unfolding verify_tree
  verify_tree-unlinked t get cs l ls h e =
      let (_, chunks, rest) =
        >>=-eq-ok (verify_chunks blake3 as_bytes get t.chunks)
          (λ _. verify_levels blake3 as_bytes (hashes t.chunks) (l ∷ ls) >>= λ current.
            verify_root blake3 as_bytes (with_nodes t (l ∷ ls)) current)
          e in
      let (current, levels, root) =
        >>=-eq-ok (verify_levels blake3 as_bytes (hashes t.chunks) (l ∷ ls))
          (λ current. verify_root blake3 as_bytes (with_nodes t (l ∷ ls)) current) rest in
      rw
        (
          verify_tree,
          verify_chunks-Holds blake3 as_bytes get cs h,
          verify_levels-any (hashes cs) (hashes t.chunks) l ls,
          levels,
          verify_root-any t cs current l ls,
        )
        root
