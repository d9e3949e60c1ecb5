-- ===== src/Algebra/Same.antt =====
-- When two values, and two results of a merge, are the same: the derived `==` of the code, which
-- compares sets by their members.
use unifieddataruntime.Base.{◌≡◌, refl, sym, ◌∙◌, Option, none, some, string_eq}
use unifieddataruntime.Base.Int.{int_eq}
use unifieddataruntime.Base.HashSet.{SameSet}
use unifieddataruntime.Algebra.Types.{AlgebraicValue}
use unifieddataruntime.Algebra.Merger.{Reason, MergeResult}

abbrev pub swap_reason : Reason → Reason
swap_reason (Reason.add_overflow a b) = Reason.add_overflow b a
swap_reason (Reason.mul_overflow a b) = Reason.mul_overflow b a
swap_reason r = r

module _ {Float : Type 0} where
  -- No float: the values on which arithmetic is exact.
  abbrev pub IsExact : AlgebraicValue Float → Type 0
  IsExact (AlgebraicValue.float _) = ⊥
  IsExact _ = Unit

  abbrev pub SameValue : AlgebraicValue Float → AlgebraicValue Float → Type 0
  SameValue (AlgebraicValue.integer a) (AlgebraicValue.integer b) = a ≡ b
  SameValue (AlgebraicValue.float a) (AlgebraicValue.float b) = a ≡ b
  SameValue (AlgebraicValue.string_set a) (AlgebraicValue.string_set b) = SameSet a b
  SameValue (AlgebraicValue.int_set a) (AlgebraicValue.int_set b) = SameSet a b
  SameValue (AlgebraicValue.boolean a) (AlgebraicValue.boolean b) = a ≡ b
  SameValue AlgebraicValue.null AlgebraicValue.null = Unit
  SameValue _ _ = ⊥

  pub SameValue-refl : (v : AlgebraicValue Float) → SameValue v v
  SameValue-refl (AlgebraicValue.integer _) = refl
  SameValue-refl (AlgebraicValue.float _) = refl
  SameValue-refl (AlgebraicValue.string_set _) = λ _. refl
  SameValue-refl (AlgebraicValue.int_set _) = λ _. refl
  SameValue-refl (AlgebraicValue.boolean _) = refl
  SameValue-refl AlgebraicValue.null = tt

  -- A result with its two sides exchanged.
  abbrev pub swap : MergeResult Float → MergeResult Float
  swap (MergeResult.merged v) = MergeResult.merged v
  swap (MergeResult.conflict v w r) = MergeResult.conflict w v (swap_reason r)
  swap (MergeResult.type_mismatch t u op) = MergeResult.type_mismatch u t op

  abbrev pub SameResult : MergeResult Float → MergeResult Float → Type 0
  SameResult (MergeResult.merged v) (MergeResult.merged w) = SameValue v w
  SameResult r s = r ≡ s

  abbrev pub SameOption : Option (AlgebraicValue Float) → Option (AlgebraicValue Float) → Type 0
  SameOption (some v) (some w) = SameValue v w
  SameOption none none = Unit
  SameOption _ _ = ⊥

  pub SameValue-sym : (v w : AlgebraicValue Float) → SameValue v w → SameValue w v
  SameValue-sym (AlgebraicValue.integer a) (AlgebraicValue.integer b) h = sym h
  SameValue-sym (AlgebraicValue.float a) (AlgebraicValue.float b) h = sym h
  SameValue-sym (AlgebraicValue.string_set a) (AlgebraicValue.string_set b) h = λ x. sym (h x)
  SameValue-sym (AlgebraicValue.int_set a) (AlgebraicValue.int_set b) h = λ x. sym (h x)
  SameValue-sym (AlgebraicValue.boolean a) (AlgebraicValue.boolean b) h = sym h
  SameValue-sym AlgebraicValue.null AlgebraicValue.null h = tt
  SameValue-sym v w h = absurd h

  pub SameValue-trans :
      (v w u : AlgebraicValue Float) → SameValue v w → SameValue w u → SameValue v u
  SameValue-trans (AlgebraicValue.integer a) (AlgebraicValue.integer b) (AlgebraicValue.integer c) h
        k =
      h ∙ k
  SameValue-trans (AlgebraicValue.float a) (AlgebraicValue.float b) (AlgebraicValue.float c) h k =
      h ∙ k
  SameValue-trans (AlgebraicValue.string_set a) (AlgebraicValue.string_set b)
        (AlgebraicValue.string_set c) h k =
      λ x. h x ∙ k x
  SameValue-trans (AlgebraicValue.int_set a) (AlgebraicValue.int_set b) (AlgebraicValue.int_set c) h
        k =
      λ x. h x ∙ k x
  SameValue-trans (AlgebraicValue.boolean a) (AlgebraicValue.boolean b) (AlgebraicValue.boolean c) h
        k =
      h ∙ k
  SameValue-trans AlgebraicValue.null AlgebraicValue.null AlgebraicValue.null h k = tt
  SameValue-trans (AlgebraicValue.integer a) (AlgebraicValue.integer b) u h k = absurd k
  SameValue-trans (AlgebraicValue.float a) (AlgebraicValue.float b) u h k = absurd k
  SameValue-trans (AlgebraicValue.string_set a) (AlgebraicValue.string_set b) u h k = absurd k
  SameValue-trans (AlgebraicValue.int_set a) (AlgebraicValue.int_set b) u h k = absurd k
  SameValue-trans (AlgebraicValue.boolean a) (AlgebraicValue.boolean b) u h k = absurd k
  SameValue-trans AlgebraicValue.null AlgebraicValue.null u h k = absurd k
  SameValue-trans v w u h k = absurd h
