-- ===== src/Merkle/Split.antt =====
-- The chunks that the data is split into: they tile it.
use unifieddataruntime.Base.{
  take, drop, ℕ, zero, suc, ◌+◌, ◌-◌, ◌≤◌, ◌<◌, min, ◌≡◌, refl, sym, ap, subst, String, true, List,
  [], ◌∷◌, ◌++◌, length, ltb, arith,
}
use unifieddataruntime.Merkle.{DataChunk, new_chunk, Outcome, split_from}

take-drop : {A : Type 0} (n : ℕ) (xs : List A) → take n xs ++ drop n xs ≡ xs
take-drop zero xs = refl
take-drop (suc n) [] = refl
take-drop (suc n) (x ∷ xs) = ap (λ ys. x ∷ ys) (take-drop n xs)

length-take : {A : Type 0} (n : ℕ) (xs : List A) → n ≤ length xs → length (take n xs) ≡ n
length-take zero xs h = refl
length-take (suc n) [] h = omega (arith, h)
length-take (suc n) (x ∷ xs) h = omega (arith, length-take n xs (omega (arith, h)))

length-drop : {A : Type 0} (n : ℕ) (xs : List A) → length (drop n xs) ≡ length xs - n
length-drop zero xs = omega arith
length-drop (suc n) [] = omega arith
length-drop (suc n) (x ∷ xs) = omega (arith, length-drop n xs)

module _ (blake3 : List ℕ → String) (as_bytes : String → List ℕ) where
  -- Chunks that stand for consecutive pieces of the data from an offset on, each of at least one and
  -- at most `size` bytes, with the hash, the range and the number of its piece.
  abbrev pub Tiles : ℕ → ℕ → ℕ → List ℕ → List DataChunk → Type 0
  Tiles size offset index rest [] = rest ≡ []
  Tiles size offset index rest (c ∷ cs) =
      (piece : List ℕ) × (later : List ℕ) × (rest ≡ piece ++ later)
      × (c ≡ new_chunk (blake3 piece) offset (offset + length piece) index)
      × (0 < length piece)
      × (length piece ≤ size)
      × Tiles size (offset + length piece) (index + 1) later cs

  pub split_from-Tiles :
      (fuel size len offset index : ℕ) (rest : List ℕ)
      → 0 < size
      → offset + length rest ≡ len
      → length rest ≤ fuel
      → (cs : List DataChunk) × (split_from blake3 as_bytes fuel size len offset index rest
          ≡ Outcome.ends cs)
        × Tiles size offset index rest cs
        × (length cs ≤ length rest)
  split_from-Tiles zero size len offset index [] p e f = ([], ground (arith, e), refl, omega arith)
  split_from-Tiles zero size len offset index (x ∷ xs) p e f = absurd (omega (arith, f))
  split_from-Tiles (suc fuel) size len offset index [] p e f =
      ([], ground (arith, e), refl, omega arith)
  split_from-Tiles (suc fuel) size len offset index (x ∷ xs) p e f =
      let rest : List ℕ = x ∷ xs in
      let end : ℕ = min (offset + size) len in
      let piece : List ℕ = take (end - offset) rest in
      let later : List ℕ = drop (end - offset) rest in
      let long : length piece ≡ end - offset = length-take (end - offset) rest (omega (arith, e)) in
      let short : length later ≡ length rest - (end - offset) = length-drop (end - offset) rest in
      let (cs, run, tiles, few) =
        split_from-Tiles fuel size len end (index + 1) later p (omega (arith, e, short, p))
          (omega (arith, e, f, short, p)) in
      let at : offset + length piece ≡ end = omega (arith, long, e) in
      let inside : ltb offset len ≡ true = ground (arith, e) in
      (
        new_chunk (blake3 piece) offset end index ∷ cs,
        rw (inside, run) refl,
        (
          piece,
          later,
          sym (take-drop (end - offset) rest),
          ap (λ z. new_chunk (blake3 piece) offset z index) (sym at),
          omega (arith, long, e, p),
          omega (arith, long, e),
          subst (λ z. Tiles size z (index + 1) later cs) (sym at) tiles,
        ),
        omega (arith, few, short, e, p),
      )
