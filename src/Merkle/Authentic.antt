-- ===== src/Merkle/Authentic.antt =====
-- What a verified tree is, said of its chunks, its nodes and its root without the loops.
use unifieddataruntime.Base.{
  ℕ, ◌≡◌, ◌↔◌, refl, subst, ap, String, true, Bool-cases, inl, inr, Option, none, some, List, [],
  ◌∷◌, All, ◌==◌, string_eq, ok, arith, beq_refl, ◌>>=◌, >>=-eq-ok,
}
use unifieddataruntime.Merkle.{DataChunk, MerkleNode, MerkleTree, hashes, node_hashes, parent_hash}
use unifieddataruntime.Merkle.Building.{
  verify_chunks, verify_nodes, verify_levels, is_root, verify_root, verify_tree,
}
use unifieddataruntime.Merkle.Verified.{Holds, verify_chunks-Holds}
use text.Mathlib.TextEquality.{eq_iff}

-- The hashes of the highest level, which is that of the chunks where there are no nodes.
abbrev pub top : List String → List (List MerkleNode) → List String
top current [] = current
top current (l ∷ ls) = top (node_hashes l) ls

module _ (blake3 : List ℕ → String) (as_bytes : String → List ℕ) where
  abbrev pub IsHashed : MerkleNode → Type 0
  IsHashed n = parent_hash blake3 as_bytes n.children ≡ n.hash

  -- The store has data of the right hash for each chunk, each node has the hash of its children's
  -- hashes, and the highest level is the root alone.
  pub record IsAuthentic (t : MerkleTree) (get : String → Option (List ℕ)) : Type 0 where
    pub held : Holds blake3 as_bytes get t.chunks
    pub hashed : All (All IsHashed) t.internal_nodes
    pub rooted : top (hashes t.chunks) t.internal_nodes ≡ t.root_hash ∷ []

  Holds-by_verify_chunks :
      (get : String → Option (List ℕ)) (cs : List DataChunk)
      → verify_chunks blake3 as_bytes get cs ≡ ok tt
      → Holds blake3 as_bytes get cs
  unfolding verify_chunks
  Holds-by_verify_chunks get [] e = tt
  Holds-by_verify_chunks get (c ∷ cs) e = go (get c.hash) refl (Holds-by_verify_chunks get cs)
    where
      go :
          (o : Option (List ℕ))
          → get c.hash ≡ o
          → (verify_chunks blake3 as_bytes get cs ≡ ok tt → Holds blake3 as_bytes get cs)
          → Holds blake3 as_bytes get (c ∷ cs)
      go none at later = ground (arith, e, at)
      go (some d) at later = elim (Bool-cases (blake3 d == c.hash)) [
        | inl k ↦ ((d, at, (eq_iff (blake3 d) c.hash).0 k), later (ground (arith, e, at, k)))
        | inr k ↦ ground (arith, e, at, k)
      ]

  verify_nodes_run :
      (ns : List MerkleNode)
      → All IsHashed ns
      → verify_nodes blake3 as_bytes ns ≡ ok (node_hashes ns)
  unfolding verify_nodes
  verify_nodes_run [] h = refl
  verify_nodes_run (n ∷ ns) h =
      rw (verify_nodes, h.0, beq_refl n.hash, verify_nodes_run ns h.1) refl

  verify_nodes-IsHashed :
      (ns : List MerkleNode) (hs : List String)
      → verify_nodes blake3 as_bytes ns ≡ ok hs
      → All IsHashed ns
  unfolding verify_nodes
  verify_nodes-IsHashed [] hs e = tt
  verify_nodes-IsHashed (n ∷ ns) hs e =
      elim (Bool-cases (parent_hash blake3 as_bytes n.children == n.hash)) [
        | inl k ↦
            let e' : (verify_nodes blake3 as_bytes ns >>= λ hs'. ok (n.hash ∷ hs')) ≡ ok hs =
              rw (k) at e in
            let (hs', run, _) = >>=-eq-ok (verify_nodes blake3 as_bytes ns) _ e' in
            (
              (eq_iff (parent_hash blake3 as_bytes n.children) n.hash).0 k,
              verify_nodes-IsHashed ns hs' run,
            )
        | inr k ↦ ground (arith, e, k)
      ]

  verify_levels_run :
      (current : List String) (ls : List (List MerkleNode))
      → All (All IsHashed) ls
      → verify_levels blake3 as_bytes current ls ≡ ok (top current ls)
  unfolding verify_levels
  verify_levels_run current [] h = refl
  verify_levels_run current (l ∷ ls) h =
      rw (verify_levels, verify_nodes_run l h.0, verify_levels_run (node_hashes l) ls h.1) refl

  verify_levels-IsHashed :
      (current : List String) (ls : List (List MerkleNode)) (last : List String)
      → verify_levels blake3 as_bytes current ls ≡ ok last
      → All (All IsHashed) ls
  unfolding verify_levels
  verify_levels-IsHashed current [] last e = tt
  verify_levels-IsHashed current (l ∷ ls) last e =
      let (next, run, rest) =
        >>=-eq-ok (verify_nodes blake3 as_bytes l) (λ next. verify_levels blake3 as_bytes next ls)
          e in
      (verify_nodes-IsHashed l next run, verify_levels-IsHashed next ls last rest)

  is_root-single :
      (r : String) (hs : List String) → is_root blake3 as_bytes r hs ≡ true → hs ≡ r ∷ []
  is_root-single r [] e = ground (arith, e)
  is_root-single r (h ∷ []) e = ap (λ x. x ∷ []) ((eq_iff h r).0 e)
  is_root-single r (h ∷ k ∷ hs) e = ground (arith, e)

  -- At the end of the levels the answer is true where the last one is the root alone.
  verify_root-rooted :
      (t : MerkleTree)
      → verify_root blake3 as_bytes t (top (hashes t.chunks) t.internal_nodes) ≡ ok true
      → top (hashes t.chunks) t.internal_nodes ≡ t.root_hash ∷ []
  unfolding verify_root
  verify_root-rooted t e = go t.chunks t.internal_nodes e
    where
      go :
          (cs : List DataChunk) (ls : List (List MerkleNode))
          → verify_root blake3 as_bytes
              (record t { chunks = cs; internal_nodes = ls })
              (top (hashes cs) ls)
            ≡ ok true
          → top (hashes cs) ls ≡ t.root_hash ∷ []
      go [] [] e = ground (arith, e)
      go (c ∷ []) [] e = is_root-single t.root_hash (c.hash ∷ []) (ground (arith, e))
      go (c ∷ d ∷ cs) [] e = ground (arith, e)
      go cs (l ∷ ls) e = is_root-single t.root_hash (top (node_hashes l) ls) (ground (arith, e))

  -- The verification of a tree answers true exactly where the tree is authentic: the store has data of
  -- the right hash for every chunk, every node of every level has the hash of its children, and the
  -- highest level, which is that of the chunks where there are no nodes, is the root alone.
  pub verify_tree-Authentic :
      (t : MerkleTree) (get : String → Option (List ℕ))
      → (verify_tree blake3 as_bytes t get ≡ ok true) ↔ IsAuthentic t get
  unfolding verify_tree verify_root
  verify_tree-Authentic t get = (
    (λ e.
        let (_, chunks, rest) =
          >>=-eq-ok (verify_chunks blake3 as_bytes get t.chunks)
            (λ _. verify_levels blake3 as_bytes (hashes t.chunks) t.internal_nodes >>= λ current.
              verify_root blake3 as_bytes t current)
            e in
        let (current, levels, root) =
          >>=-eq-ok (verify_levels blake3 as_bytes (hashes t.chunks) t.internal_nodes)
            (λ current. verify_root blake3 as_bytes t current) rest in
        let hashed : All (All IsHashed) t.internal_nodes =
          verify_levels-IsHashed (hashes t.chunks) t.internal_nodes current levels in
        let last : current ≡ top (hashes t.chunks) t.internal_nodes =
          let run = verify_levels_run (hashes t.chunks) t.internal_nodes hashed in ground arith in
        record {
          held = Holds-by_verify_chunks get t.chunks chunks;
          hashed = hashed;
          rooted =
              verify_root-rooted t
                (subst (λ c. verify_root blake3 as_bytes t c ≡ ok true) last root);
        }),
    λ a.
        rw
          (
            verify_tree,
            verify_chunks-Holds blake3 as_bytes get t.chunks a.held,
            verify_levels_run (hashes t.chunks) t.internal_nodes a.hashed,
            a.rooted,
            verify_root,
            beq_refl t.root_hash,
          )
          refl,
  )
