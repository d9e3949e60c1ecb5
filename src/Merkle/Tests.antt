-- ===== src/Merkle/Tests.antt =====
-- A tree of five bytes in chunks of two, over a digest that spells its bytes.
use unifieddataruntime.Base.{
  ℕ, ◌≡◌, ◌↔◌, refl, String, true, Option, none, some, List, [], ◌∷◌, map, if◌then◌else◌, string_eq,
  ◌==◌, ok, arith,
}
use unifieddataruntime.Base.Text.{join, show_u64, show_digits}
use unifieddataruntime.Merkle.{
  DataChunk, MerkleNode, MerkleTree, MerkleConfig, Outcome, new_chunk, split_into_chunks,
}
use unifieddataruntime.Merkle.Building.{build_levels, build_tree, verify_tree}
use unifieddataruntime.Merkle.Levels.{build_levels_single}
use unifieddataruntime.Merkle.Verified.{Holds, TreeOf, build_tree-TreeOf}
use unifieddataruntime.Merkle.Authentic.{IsAuthentic, verify_tree-Authentic}
use unifieddataruntime.Merkle.Unlinked.{with_nodes, verify_tree-unlinked}

abbrev digest : List ℕ → String
digest bs = join "-" (map show_u64 bs)

abbrev bytes_of : String → List ℕ
bytes_of s = if s == "" then [] else 7 ∷ []

abbrev five : List ℕ
five = 1 ∷ 2 ∷ 3 ∷ 4 ∷ 5 ∷ []

abbrev twos : MerkleConfig
twos = record { chunk_size = 2; branching_factor = 2 }

abbrev get_five : String → Option (List ℕ)
get_five h =
    if h == "1-2"
    then some (1 ∷ 2 ∷ [])
    else if h == "3-4"
    then some (3 ∷ 4 ∷ [])
    else if h == "5"
    then some (5 ∷ [])
    else none

abbrev five_chunks : List DataChunk
five_chunks = new_chunk "1-2" 0 2 0 ∷ new_chunk "3-4" 2 4 1 ∷ new_chunk "5" 4 5 2 ∷ []

abbrev five_nodes : List MerkleNode
five_nodes =
    record { hash = "7"; children = "1-2" ∷ "3-4" ∷ []; level = 1; index = 0 }
    ∷ record { hash = "7"; children = "5" ∷ []; level = 1; index = 1 }
    ∷ []

abbrev spelled : MerkleTree
spelled = record {
  root_hash = "7";
  chunks = five_chunks;
  internal_nodes =
      five_nodes
      ∷ (record { hash = "7"; children = "7" ∷ "7" ∷ []; level = 2; index = 0 } ∷ [])
      ∷ [];
  total_size = 5;
  chunk_size = 2;
  height = 3;
}

five_built : build_tree digest bytes_of 5 five twos ≡ Outcome.ends (ok spelled)
unfolding build_tree split_into_chunks show_u64 show_digits
five_built = refl

five_held : Holds digest bytes_of get_five five_chunks
unfolding show_u64 show_digits
five_held = ((1 ∷ 2 ∷ [], refl, refl), ((3 ∷ 4 ∷ [], refl, refl), ((5 ∷ [], refl, refl), tt)))

build_tree-TreeOf_example :
    (t : MerkleTree) × (build_tree digest bytes_of 5 five twos ≡ Outcome.ends (ok t))
    × TreeOf digest bytes_of 2 five t
build_tree-TreeOf_example =
    build_tree-TreeOf digest bytes_of 5 five twos (omega arith) (omega arith) (omega arith)
      (omega arith)

build_levels_single_example : build_levels digest bytes_of 9 1 1 ("a" ∷ "b" ∷ []) ≡ Outcome.runs_on
build_levels_single_example = build_levels_single digest bytes_of 9 1 ("a" ∷ "b" ∷ []) (omega arith)

verify_tree-Authentic_example :
    (verify_tree digest bytes_of spelled get_five ≡ ok true)
    ↔ IsAuthentic digest bytes_of spelled get_five
verify_tree-Authentic_example = verify_tree-Authentic digest bytes_of spelled get_five

spelled_accepted : verify_tree digest bytes_of spelled get_five ≡ ok true
unfolding show_u64 show_digits
spelled_accepted =
    (verify_tree-Authentic digest bytes_of spelled get_five).1
      (record { held = five_held; hashed = ((refl, (refl, tt)), ((refl, tt), tt)); rooted = refl })

-- The one chunk that another tree would have, in the place of the three.
abbrev swapped : List DataChunk
swapped = new_chunk "5" 0 5 0 ∷ []

swapped_held : Holds digest bytes_of get_five swapped
unfolding show_u64 show_digits
swapped_held = ((5 ∷ [], refl, refl), tt)

verify_tree-unlinked_example :
    verify_tree digest bytes_of
      (with_nodes (record spelled { chunks = swapped }) spelled.internal_nodes)
      get_five
    ≡ ok true
verify_tree-unlinked_example =
    verify_tree-unlinked digest bytes_of spelled get_five swapped five_nodes
      ((record { hash = "7"; children = "7" ∷ "7" ∷ []; level = 2; index = 0 } ∷ []) ∷ [])
      swapped_held spelled_accepted
