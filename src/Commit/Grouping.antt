-- ===== src/Commit/Grouping.antt =====
-- The map from keys to operations that the merge builds: each key has its operations, in order.
use unifieddataruntime.Base.{
  String, ◌≡◌, refl, ap, Option, some, List, [], ◌∷◌, ◌++◌, select, All, All-append, arith,
  string_eq, ◌==◌,
}
use unifieddataruntime.Base.Dict
use unifieddataruntime.Base.Dict.{Dict, lookup-insert, insert-Unique}
use unifieddataruntime.Commit.{AlgebraicOperation, or_default, group_by_key}
use text.Mathlib.TextEquality.{eq_iff}
use mathlib.Core.List.{append_assoc}

abbrev pub Ops : Type 0 → Type 0
Ops Float = List (AlgebraicOperation Float)

module _ {Float : Type 0} where
  -- The operations on one key, in their order.
  abbrev pub ops_for : String → Ops Float → Ops Float
  ops_for k os = select (λ o. o.key == k) os

  -- A group after more operations have been pushed; a key without operations has no group.
  abbrev pub with_ops : Option (Ops Float) → Ops Float → Option (Ops Float)
  with_ops g [] = g
  with_ops g (o ∷ os) = some (or_default g ++ (o ∷ os))

  with_ops-snoc :
      (g : Ops Float) (o : AlgebraicOperation Float) (os : Ops Float)
      → with_ops (some (g ++ (o ∷ []))) os ≡ some (g ++ (o ∷ os))
  with_ops-snoc g o [] = refl
  with_ops-snoc g o (p ∷ os) = ap some (append_assoc g (o ∷ []) (p ∷ os))

  pub lookup-group_by_key :
      (os : Ops Float) (m : Dict String (Ops Float)) (k : String)
      → Dict.lookup k (group_by_key os m) ≡ with_ops (Dict.lookup k m) (ops_for k os)
  unfolding group_by_key
  lookup-group_by_key [] m k = refl
  lookup-group_by_key (o ∷ os) m k =
      let g = or_default (Dict.lookup o.key m) in
      let m' = Dict.insert o.key (g ++ (o ∷ [])) m in
      ground (
        arith,
        lookup-group_by_key os m' k,
        lookup-insert o.key k (g ++ (o ∷ [])) m,
        with_ops-snoc g o (ops_for k os),
        eq_iff o.key k,
      )

  abbrev pub HasKey : String → Ops Float → Type 0
  HasKey k os = All (λ o. o.key ≡ k) os

  -- Every operation stands under its own key.
  abbrev pub Keyed : Dict String (Ops Float) → Type 0
  Keyed [] = Unit
  Keyed ((k, os) ∷ gs) = HasKey k os × Keyed gs

  Keyed-lookup :
      (k : String) (gs : Dict String (Ops Float))
      → Keyed gs
      → HasKey k (or_default (Dict.lookup k gs))
  Keyed-lookup k [] h = tt
  Keyed-lookup k ((j, os) ∷ gs) h = ground (arith, eq_iff j k, Keyed-lookup k gs h.1)

  Keyed-insert :
      (k : String) (os : Ops Float) (gs : Dict String (Ops Float))
      → HasKey k os
      → Keyed gs
      → Keyed (Dict.insert k os gs)
  Keyed-insert k os [] hk h = (hk, tt)
  Keyed-insert k os ((j, us) ∷ gs) hk h = ground (arith, eq_iff j k, Keyed-insert k os gs hk h.1)

  pub group_by_key-Keyed :
      (os : Ops Float) (m : Dict String (Ops Float)) → Keyed m → Keyed (group_by_key os m)
  unfolding group_by_key
  group_by_key-Keyed [] m h = h
  group_by_key-Keyed (o ∷ os) m h = group_by_key-Keyed os _ (
      Keyed-insert o.key _ m
        (All-append (λ p. p.key ≡ o.key) _ (o ∷ []) (Keyed-lookup o.key m h) (refl, tt)) h)

  pub group_by_key-Unique :
      (os : Ops Float) (m : Dict String (Ops Float))
      → Dict.Unique m
      → Dict.Unique (group_by_key os m)
  unfolding group_by_key
  group_by_key-Unique [] m u = u
  group_by_key-Unique (o ∷ os) m u = group_by_key-Unique os _ (insert-Unique o.key _ m u)
