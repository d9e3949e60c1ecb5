-- ===== src/Algebra/Groups/Three.antt =====
-- The two groupings of three values, and what a null value does to them.
use unifieddataruntime.Base.{Option, none, some, string_eq}
use unifieddataruntime.Base.Int.{int_eq}
use unifieddataruntime.Algebra.Types.{OpType, F64, AlgebraicValue}
use unifieddataruntime.Algebra.Merger.{ok, merge}
use unifieddataruntime.Algebra.Same.{SameValue, SameValue-refl, SameOption}

module _ {Float : Type 0} where
  -- Two results agree unless one of them is missing.
  abbrev pub Agree : Option (AlgebraicValue Float) → Option (AlgebraicValue Float) → Type 0
  Agree (some v) (some w) = SameValue v w
  Agree _ _ = Unit

  pub Agree-of_SameOption : (o p : Option (AlgebraicValue Float)) → SameOption o p → Agree o p
  Agree-of_SameOption (some v) (some w) h = h
  Agree-of_SameOption none _ h = tt
  Agree-of_SameOption (some v) none h = tt

  SameOption-eta :
      (o : Option (AlgebraicValue Float)) → SameOption o (elim o [ none ↦ none | some v ↦ some v ])
  SameOption-eta none = tt
  SameOption-eta (some v) = SameValue-refl v

  pub SameOption-refl : (o : Option (AlgebraicValue Float)) → SameOption o o
  SameOption-refl none = tt
  SameOption-refl (some v) = SameValue-refl v

module _ {Float : Type 0} ⦃f : F64 Float⦄ (op : OpType) where
  -- (a · b) · c, where both merges succeed.
  abbrev pub left :
      AlgebraicValue Float
      → AlgebraicValue Float
      → AlgebraicValue Float
      → Option (AlgebraicValue Float)
  left a b c = elim (ok (merge op a b)) [ none ↦ none | some ab ↦ ok (merge op ab c) ]

  -- a · (b · c), where both merges succeed.
  abbrev pub right :
      AlgebraicValue Float
      → AlgebraicValue Float
      → AlgebraicValue Float
      → Option (AlgebraicValue Float)
  right a b c = elim (ok (merge op b c)) [ none ↦ none | some bc ↦ ok (merge op a bc) ]

  pub assoc_null_first :
      (b c : AlgebraicValue Float)
      → SameOption (left AlgebraicValue.null b c) (right AlgebraicValue.null b c)
  unfolding merge
  assoc_null_first b c = SameOption-eta (ok (merge op b c))

  pub assoc_null_second :
      (a c : AlgebraicValue Float)
      → SameOption (left a AlgebraicValue.null c) (right a AlgebraicValue.null c)
  unfolding merge
  assoc_null_second AlgebraicValue.null c = SameValue-refl c
  assoc_null_second a c = SameOption-refl (ok (merge op a c))

  bind_null :
      (o : Option (AlgebraicValue Float))
      → SameOption (elim o [ none ↦ none | some v ↦ ok (merge op v AlgebraicValue.null) ]) o
  unfolding merge
  bind_null none = tt
  bind_null (some AlgebraicValue.null) = tt
  bind_null (some v) = SameValue-refl v

  pub assoc_null_third :
      (a b : AlgebraicValue Float)
      → SameOption (left a b AlgebraicValue.null) (right a b AlgebraicValue.null)
  unfolding merge
  assoc_null_third a AlgebraicValue.null = bind_null (ok (merge op a AlgebraicValue.null))
  assoc_null_third a b = bind_null (ok (merge op a b))
