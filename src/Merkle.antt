-- ===== src/Merkle.antt =====
-- rhizo_core/src/merkle: types.rs and tree.rs. Trees of hashes over the chunks of some bytes. BLAKE3
-- with its text in hexadecimal and the bytes of a text are parameters; the ratio of reuse is a float
-- and is left out. The length of the data and the size of a chunk together are below 2 ^ 64.
pub mod Building
pub mod Split
pub mod Levels
pub mod Verified
pub mod Authentic
pub mod Unlinked
pub mod Tests
use unifieddataruntime.Base.{
  take, drop, ℕ, zero, suc, ◌+◌, ◌-◌, min, String, Bool, true, false, not, ◌&&◌, Option, none, some,
  List, [], ◌∷◌, map, find, select, length, string_eq, eqb, leb, ltb, ◌==◌, if◌then◌else◌, Result,
  ok, err, ◌>>=◌,
}
use unifieddataruntime.Base.HashSet
use unifieddataruntime.Base.Text.{join}

pub record DataChunk : Type 0 where
  pub hash : String
  pub byte_range : ℕ × ℕ
  pub size : ℕ
  pub index : ℕ

-- `DataChunk::new`
abbrev pub new_chunk : String → ℕ → ℕ → ℕ → DataChunk
new_chunk h a b i = record { hash = h; byte_range = (a, b); size = b - a; index = i }

pub record MerkleNode : Type 0 where
  pub hash : String
  pub children : List String
  pub level : ℕ
  pub index : ℕ

pub record MerkleTree : Type 0 where
  pub root_hash : String
  pub chunks : List DataChunk
  pub internal_nodes : List (List MerkleNode)
  pub total_size : ℕ
  pub chunk_size : ℕ
  pub height : ℕ

abbrev pub hashes : List DataChunk → List String
hashes = map (λ (c : DataChunk). c.hash)

abbrev pub chunk_hashes : MerkleTree → List String
chunk_hashes t = hashes t.chunks

abbrev pub chunk_for_offset : MerkleTree → ℕ → Option DataChunk
chunk_for_offset t o =
    find (λ (c : DataChunk). leb (c.byte_range.0) o && ltb o (c.byte_range.1)) t.chunks

abbrev pub chunks_in_range : MerkleTree → ℕ → ℕ → List DataChunk
chunks_in_range t a b =
    select (λ (c : DataChunk). ltb (c.byte_range.0) b && ltb a (c.byte_range.1)) t.chunks

pub record MerkleDiff : Type 0 where
  pub unchanged_chunks : List String
  pub removed_chunks : List String
  pub added_chunks : List String

pub record MerkleConfig : Type 0 where
  pub chunk_size : ℕ
  pub branching_factor : ℕ

-- `Default`
abbrev pub default_config : MerkleConfig
default_config = record { chunk_size = 65536; branching_factor = 2 }

pub data MerkleError : Type 0 where
  chunk_not_found : String → MerkleError
  invalid_chunk_size : ℕ → MerkleError
  empty_data : MerkleError
  integrity_error : (expected actual : String) → MerkleError
  tree_corruption : MerkleError

-- `slice::chunks` for a size that is not 0: `left` elements are missing from the first group once
-- the next element is in it.
abbrev pub into_first {ℓ} : {A : Type ℓ} → A → List (List A) → List (List A)
into_first x [] = (x ∷ []) ∷ []
into_first x (g ∷ gs) = (x ∷ g) ∷ gs

abbrev pub groups {ℓ} : {A : Type ℓ} → ℕ → ℕ → List A → List (List A)
groups n left [] = []
groups n zero (x ∷ xs) = (x ∷ []) ∷ groups n (n - 1) xs
groups n (suc left) (x ∷ xs) = into_first x (groups n left xs)

-- How a call of the code ends: with a result, in a panic, or not within the fuel.
pub data Outcome {ℓ} (A : Type ℓ) : Type ℓ where
  ends : A → Outcome A
  panics runs_on : Outcome A

abbrev pub node_hashes : List MerkleNode → List String
node_hashes = map (λ (n : MerkleNode). n.hash)

abbrev pub head_or_empty : List String → String
head_or_empty [] = ""
head_or_empty (h ∷ hs) = h

module _ (blake3 : List ℕ → String) (as_bytes : String → List ℕ) where
  -- The loop of `split_into_chunks`, on the data from the offset on.
  abbrev pub split_from : ℕ → ℕ → ℕ → ℕ → ℕ → List ℕ → Outcome (List DataChunk)
  split_from zero size len offset index rest =
      if ltb offset len then Outcome.runs_on else Outcome.ends []
  split_from (suc fuel) size len offset index rest =
      let end = min (offset + size) len in
      let piece = take (end - offset) rest in
      let later = split_from fuel size len end (index + 1) (drop (end - offset) rest) in
      if ltb offset len
      then elim later [
        | Outcome.ends cs ↦ Outcome.ends (new_chunk (blake3 piece) offset end index ∷ cs)
        | Outcome.panics ↦ Outcome.panics
        | Outcome.runs_on ↦ Outcome.runs_on
      ]
      else Outcome.ends []

  unfoldable pub split_into_chunks : ℕ → List ℕ → ℕ → Outcome (List DataChunk)
  split_into_chunks fuel bytes size = split_from fuel size (length bytes) 0 0 bytes

  -- The hash of a node, from its children.
  abbrev pub parent_hash : List String → String
  parent_hash children = blake3 (as_bytes (join "" children))

  -- The nodes of a level, numbered from `i`.
  abbrev pub level_nodes : ℕ → ℕ → List (List String) → List MerkleNode
  level_nodes level i [] = []
  level_nodes level i (g ∷ gs) =
      record { hash = parent_hash g; children = g; level = level; index = i }
      ∷ level_nodes level (i + 1) gs
