-- ===== src/Merkle/Levels.antt =====
-- The levels of nodes: with groups of two or more the loop ends at a single root, and with groups of
-- one it never does.
use unifieddataruntime.Base.{
  ℕ, zero, suc, ◌+◌, ◌-◌, ◌≤◌, ◌<◌, ◌≡◌, refl, ap, String, true, false, List, [], ◌∷◌, length, ltb,
  eqb, arith, ok, beq_refl, string_eq,
}
use unifieddataruntime.Merkle.{
  MerkleNode, Outcome, groups, into_first, level_nodes, node_hashes, parent_hash,
}
use unifieddataruntime.Merkle.Building.{Levels, build_levels, verify_nodes, verify_levels}

length-into_first :
    {A : Type 0} (x : A) (gs : List (List A)) (n : ℕ)
    → length gs ≤ n
    → 0 < n
    → length (into_first x gs) ≤ n
length-into_first x [] n h p = omega (arith, p)
length-into_first x (g ∷ gs) n h p = omega (arith, h)

length-groups : {A : Type 0} (n left : ℕ) (xs : List A) → length (groups n left xs) ≤ length xs
length-groups n left [] = omega arith
length-groups n zero (x ∷ xs) = omega (arith, length-groups n (n - 1) xs)
length-groups n (suc left) (x ∷ xs) =
    length-into_first x (groups n left xs) (suc (length xs))
      (omega (arith, length-groups n left xs)) (omega arith)

-- Groups of two or more are fewer than what they group.
groups_fewer :
    {A : Type 0} (n left : ℕ) (xs : List A)
    → 0 < left
    → 2 ≤ length xs
    → length (groups n left xs) < length xs
groups_fewer n zero xs h l = omega (arith, h)
groups_fewer n (suc left) [] h l = omega (arith, l)
groups_fewer n (suc left) (x ∷ xs) h l =
    let short : length (into_first x (groups n left xs)) ≤ length xs =
      length-into_first x (groups n left xs) (length xs) (length-groups n left xs)
        (omega (arith, l)) in
    omega (arith, short)

-- Groups of one are as many.
groups_single : {A : Type 0} (xs : List A) → length (groups 1 0 xs) ≡ length xs
groups_single [] = refl
groups_single (x ∷ xs) = ap (λ k. suc k) (groups_single xs)

groups_some :
    {A : Type 0} (n left : ℕ) (xs : List A) → 0 < length xs → 0 < length (groups n left xs)
groups_some n left [] h = omega (arith, h)
groups_some n zero (x ∷ xs) h = omega arith
groups_some {A = A} n (suc left) (x ∷ xs) h = go (groups n left xs)
  where
    go : (gs : List (List A)) → 0 < length (into_first x gs)
    go [] = omega arith
    go (g ∷ gs) = omega arith

module _ (blake3 : List ℕ → String) (as_bytes : String → List ℕ) where
  length-level_nodes :
      (level i : ℕ) (gs : List (List String))
      → length (node_hashes (level_nodes blake3 as_bytes level i gs)) ≡ length gs
  length-level_nodes level i [] = refl
  length-level_nodes level i (g ∷ gs) = ap (λ k. suc k) (length-level_nodes level (i + 1) gs)

  verify-level_nodes :
      (level i : ℕ) (gs : List (List String))
      → verify_nodes blake3 as_bytes (level_nodes blake3 as_bytes level i gs)
        ≡ ok (node_hashes (level_nodes blake3 as_bytes level i gs))
  unfolding verify_nodes
  verify-level_nodes level i [] = refl
  verify-level_nodes level i (g ∷ gs) =
      rw
        (
          verify_nodes,
          beq_refl (parent_hash blake3 as_bytes g),
          verify-level_nodes level (i + 1) gs,
        )
        refl

  -- A result of the loop: it ends, and its levels verify from the hashes that it began with, up to
  -- its root.
  abbrev pub Rooted : List String → Outcome Levels → Type 0
  Rooted current o =
      (r : String) × (ls : List (List MerkleNode)) × (h : ℕ) × (o ≡ Outcome.ends (r, (ls, h)))
      × (verify_levels blake3 as_bytes current ls ≡ ok (r ∷ []))

  pub build_levels-Rooted :
      (fuel factor level : ℕ) (current : List String)
      → 2 ≤ factor
      → 0 < length current
      → length current ≤ suc fuel
      → Rooted current (build_levels blake3 as_bytes fuel factor level current)
  unfolding verify_levels
  build_levels-Rooted fuel factor level [] f p l = absurd (omega (arith, p))
  build_levels-Rooted zero factor level (x ∷ []) f p l = (x, [], level, ground arith, refl)
  build_levels-Rooted (suc fuel) factor level (x ∷ []) f p l = (x, [], level, ground arith, refl)
  build_levels-Rooted zero factor level (x ∷ y ∷ ys) f p l = absurd (omega (arith, l))
  build_levels-Rooted (suc fuel) factor level (x ∷ y ∷ ys) f p l =
      let current : List String = x ∷ y ∷ ys in
      let gs : List (List String) = groups factor (factor - 1) current in
      let ns : List MerkleNode = level_nodes blake3 as_bytes level 0 gs in
      let same : length (node_hashes ns) ≡ length gs = length-level_nodes level 0 gs in
      let fewer : length gs < length current =
        groups_fewer factor (factor - 1) current (omega (arith, f)) (omega arith) in
      let some_left : 0 < length gs = groups_some factor (factor - 1) current (omega arith) in
      let (r, ls, h, run, verified) =
        build_levels-Rooted fuel factor (level + 1) (node_hashes ns) f
          (omega (arith, same, some_left)) (omega (arith, same, fewer, l)) in
      let several : ltb 1 (length current) ≡ true = ground arith in
      let proper : eqb factor 0 ≡ false = ground (arith, f) in
      (
        r,
        ns ∷ ls,
        h,
        rw (several, proper, run) refl,
        rw (verify_levels, verify-level_nodes level 0 gs) verified,
      )

  pub build_levels_single :
      (fuel level : ℕ) (current : List String)
      → 2 ≤ length current
      → build_levels blake3 as_bytes fuel 1 level current ≡ Outcome.runs_on
  build_levels_single zero level current l = ground (arith, l)
  build_levels_single (suc fuel) level current l =
      let gs : List (List String) = groups 1 0 current in
      let ns : List MerkleNode = level_nodes blake3 as_bytes level 0 gs in
      let same : length (node_hashes ns) ≡ length gs = length-level_nodes level 0 gs in
      let still : 2 ≤ length (node_hashes ns) = omega (arith, same, groups_single current, l) in
      let several : ltb 1 (length current) ≡ true = ground (arith, l) in
      rw (several, build_levels_single fuel (level + 1) (node_hashes ns) still) refl
