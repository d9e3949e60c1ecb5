-- ===== src/Merkle/Verified.antt =====
-- A tree that is built is one of the data, and its levels verify.
use unifieddataruntime.Base.{
  ℕ, suc, ◌≤◌, ◌<◌, ◌≡◌, refl, ap, String, false, Option, some, List, [], ◌∷◌, length, eqb, arith,
  ok, beq_refl, string_eq,
}
use unifieddataruntime.Merkle.{
  DataChunk, MerkleTree, MerkleConfig, Outcome, hashes, split_into_chunks,
}
use unifieddataruntime.Merkle.Building.{
  build_tree_from_leaves, build_tree, verify_chunks, verify_levels,
}
use unifieddataruntime.Merkle.Split.{Tiles, split_from-Tiles}
use unifieddataruntime.Merkle.Levels.{Rooted, build_levels-Rooted}

length-hashes : (cs : List DataChunk) → length (hashes cs) ≡ length cs
length-hashes [] = refl
length-hashes (c ∷ cs) = ap (λ k. suc k) (length-hashes cs)

module _ (blake3 : List ℕ → String) (as_bytes : String → List ℕ) where
  -- A store that has data of the right hash for each of some chunks.
  abbrev pub Holds : (String → Option (List ℕ)) → List DataChunk → Type 0
  Holds get [] = Unit
  Holds get (c ∷ cs) = ((d : List ℕ) × (get c.hash ≡ some d) × (blake3 d ≡ c.hash)) × Holds get cs

  leaves-Rooted :
      (fuel factor : ℕ) (c : DataChunk) (cs : List DataChunk)
      → 2 ≤ factor
      → length (c ∷ cs) ≤ fuel
      → Rooted blake3 as_bytes
          (hashes (c ∷ cs))
          (build_tree_from_leaves blake3 as_bytes fuel (c ∷ cs) factor)
  unfolding verify_levels
  leaves-Rooted fuel factor c [] f l = (c.hash, [], 1, refl, refl)
  leaves-Rooted fuel factor c (d ∷ ds) f l =
      build_levels-Rooted blake3 as_bytes fuel factor 1 (hashes (c ∷ d ∷ ds)) f (omega arith)
        (omega (arith, l, length-hashes ds))

  -- What a tree of some data is: its chunks tile the data, and its levels verify up to its root.
  pub record TreeOf (size : ℕ) (bytes : List ℕ) (t : MerkleTree) : Type 0 where
    pub tiles : Tiles blake3 as_bytes size 0 0 bytes t.chunks
    pub whole : t.total_size ≡ length bytes
    pub rooted :
        verify_levels blake3 as_bytes (hashes t.chunks) t.internal_nodes ≡ ok (t.root_hash ∷ [])

  -- Of data that is not empty, with chunks of at least one byte and groups of at least two nodes, and
  -- fuel for the length of the data, the building of a tree ends, with a tree of the data.
  pub build_tree-TreeOf :
      (fuel : ℕ) (bytes : List ℕ) (config : MerkleConfig)
      → 0 < length bytes
      → 0 < config.chunk_size
      → 2 ≤ config.branching_factor
      → length bytes ≤ fuel
      → (t : MerkleTree) × (build_tree blake3 as_bytes fuel bytes config ≡ Outcome.ends (ok t))
        × TreeOf config.chunk_size bytes t
  unfolding build_tree split_into_chunks
  build_tree-TreeOf fuel bytes config p q f l =
      let (cs, run, tiles, few) =
        split_from-Tiles blake3 as_bytes fuel config.chunk_size (length bytes) 0 0 bytes q
          (omega arith) l in
      go cs run tiles few
    where
      go :
          (cs : List DataChunk)
          → split_into_chunks blake3 as_bytes fuel bytes config.chunk_size ≡ Outcome.ends cs
          → Tiles blake3 as_bytes config.chunk_size 0 0 bytes cs
          → length cs ≤ length bytes
          → (t : MerkleTree) × (build_tree blake3 as_bytes fuel bytes config ≡ Outcome.ends (ok t))
            × TreeOf config.chunk_size bytes t
      go [] run tiles few = absurd (omega (arith, p, ap length tiles))
      go (c ∷ cs) run tiles few =
          let (r, ls, h, levels, rooted) =
            leaves-Rooted fuel config.branching_factor c cs f (omega (arith, few, l)) in
          let t : MerkleTree = record {
            root_hash = r;
            chunks = c ∷ cs;
            internal_nodes = ls;
            total_size = length bytes;
            chunk_size = config.chunk_size;
            height = h;
          } in
          let full : eqb (length bytes) 0 ≡ false = ground (arith, p) in
          let sized : eqb config.chunk_size 0 ≡ false = ground (arith, q) in
          (
            t,
            rw (build_tree, full, sized, run, levels) refl,
            record { tiles = tiles; whole = refl; rooted = rooted },
          )

  pub verify_chunks-Holds :
      (get : String → Option (List ℕ)) (cs : List DataChunk)
      → Holds get cs
      → verify_chunks blake3 as_bytes get cs ≡ ok tt
  unfolding verify_chunks
  verify_chunks-Holds get [] h = refl
  verify_chunks-Holds get (c ∷ cs) ((d, at, same), h) =
      rw (verify_chunks, at, same, beq_refl c.hash, verify_chunks-Holds get cs h) refl
