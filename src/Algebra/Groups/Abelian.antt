-- ===== src/Algebra/Groups/Abelian.antt =====
-- Sums and products: the two groupings agree where both merge, and overflow can stop one of them.
use unifieddataruntime.Base.{
  ◌≡◌, refl, ◌*◌, ap, ℕ, Option, none, some, arith, string_eq, true, false,
}
use unifieddataruntime.Base.Int.{
  ℤ, pos, int_eq, int_laws, pos_part, neg_part, eq_of_parts, *ℤ_parts, +ℤ_assoc, ◌+ℤ◌, ◌*ℤ◌, ◌-ℤ◌,
  in_i64, checked, checked_add, checked_mul,
}
use unifieddataruntime.Algebra.Types.{OpType, is_conflict_free, is_semilattice, F64, AlgebraicValue}
use unifieddataruntime.Algebra.Merger.{
  Reason, ok, or_overflow, merge_add, merge_multiply, dispatch, merge,
}
use unifieddataruntime.Algebra.Same.{IsExact, SameOption}
use unifieddataruntime.Algebra.Groups.Three.{
  left, right, Agree, Agree-of_SameOption, assoc_null_first, assoc_null_second, assoc_null_third,
}
use unifieddataruntime.Algebra.Groups.Semilattice.{merge-assoc_semilattice}

*ℤ_assoc : (a b c : ℤ) → a *ℤ b *ℤ c ≡ a *ℤ (b *ℤ c)
*ℤ_assoc a b c =
    let ab = *ℤ_parts a b in
    let bc = *ℤ_parts b c in
    eq_of_parts (a *ℤ b *ℤ c) (a *ℤ (b *ℤ c)) (
      omega (
        arith,
        *ℤ_parts (a *ℤ b) c,
        *ℤ_parts a (b *ℤ c),
        ap (λ (t : ℕ). t * pos_part c) ab,
        ap (λ (t : ℕ). t * neg_part c) ab,
        ap (λ (t : ℕ). t * pos_part a) bc,
        ap (λ (t : ℕ). t * neg_part a) bc,
      ))

-- Checked arithmetic returns the exact result or nothing.
checked_eq : (a s : ℤ) → checked a ≡ some s → s ≡ a
checked_eq a s h = ground arith

checked_add_zero : (a : ℤ) → in_i64 a ≡ true → checked_add a (pos 0) ≡ some a
unfolding checked_add
checked_add_zero a h = let e : a +ℤ pos 0 ≡ a = omega int_laws in rw (e, h)

checked_add_negated : (b : ℤ) → checked_add b (pos 0 -ℤ b) ≡ some (pos 0)
unfolding checked_add
checked_add_negated b = let e : b +ℤ (pos 0 -ℤ b) ≡ pos 0 = omega int_laws in rw e

checked_add_agree :
    (a b c : ℤ) {s t x y : ℤ}
    → checked_add a b ≡ some s
    → checked_add b c ≡ some t
    → checked_add s c ≡ some x
    → checked_add a t ≡ some y
    → x ≡ y
unfolding checked_add
checked_add_agree a b c {s} {t} {x} {y} p q m n = cc (
  checked_eq (a +ℤ b) s p,
  checked_eq (b +ℤ c) t q,
  checked_eq (s +ℤ c) x m,
  checked_eq (a +ℤ t) y n,
  +ℤ_assoc a b c,
)

checked_mul_agree :
    (a b c : ℤ) {s t x y : ℤ}
    → checked_mul a b ≡ some s
    → checked_mul b c ≡ some t
    → checked_mul s c ≡ some x
    → checked_mul a t ≡ some y
    → x ≡ y
unfolding checked_mul
checked_mul_agree a b c {s} {t} {x} {y} p q m n = cc (
  checked_eq (a *ℤ b) s p,
  checked_eq (b *ℤ c) t q,
  checked_eq (s *ℤ c) x m,
  checked_eq (a *ℤ t) y n,
  *ℤ_assoc a b c,
)

module _ {Float : Type 0} where
  Agree-none : (o : Option (AlgebraicValue Float)) → Agree o none
  Agree-none none = tt
  Agree-none (some v) = tt

  Agree-ok :
      (v w v' w' : AlgebraicValue Float) (r r' : Reason) (o p : Option ℤ)
      → ((x y : ℤ) → o ≡ some x → p ≡ some y → x ≡ y)
      → Agree (ok (or_overflow v w r o)) (ok (or_overflow v' w' r' p))
  Agree-ok v w v' w' r r' (some x) (some y) h = h x y refl refl
  Agree-ok v w v' w' r r' (some x) none h = tt
  Agree-ok v w v' w' r r' none p h = tt

  Agree-bind :
      (v w v' w' : AlgebraicValue Float) (r r' : Reason) (o p : Option ℤ)
      (first second : AlgebraicValue Float → Option (AlgebraicValue Float))
      → ((s t : ℤ)
          → o ≡ some s
          → p ≡ some t
          → Agree (first (AlgebraicValue.integer s)) (second (AlgebraicValue.integer t)))
      → Agree
          (elim (ok (or_overflow v w r o)) [ none ↦ none | some u ↦ first u ])
          (elim (ok (or_overflow v' w' r' p)) [ none ↦ none | some u ↦ second u ])
  Agree-bind v w v' w' r r' (some s) (some t) first second h = h s t refl refl
  Agree-bind v w v' w' r r' (some s) none first second h =
      Agree-none (first (AlgebraicValue.integer s))
  Agree-bind v w v' w' r r' none p first second h = tt

module _ {Float : Type 0} ⦃f : F64 Float⦄ where
  Agree-of_same :
      (op : OpType) (a b c : AlgebraicValue Float)
      → SameOption (left op a b c) (right op a b c)
      → Agree (left op a b c) (right op a b c)
  Agree-of_same op a b c h = Agree-of_SameOption (left op a b c) (right op a b c) h

  add-Agree :
      (a b c : AlgebraicValue Float)
      → IsExact a
      → IsExact b
      → IsExact c
      → Agree (left OpType.abelian_add a b c) (right OpType.abelian_add a b c)
  unfolding merge dispatch merge_add
  add-Agree AlgebraicValue.null b c h k l =
      Agree-of_same OpType.abelian_add AlgebraicValue.null b c
        (assoc_null_first OpType.abelian_add b c)
  add-Agree a AlgebraicValue.null c h k l =
      Agree-of_same OpType.abelian_add a AlgebraicValue.null c
        (assoc_null_second OpType.abelian_add a c)
  add-Agree a b AlgebraicValue.null h k l =
      Agree-of_same OpType.abelian_add a b AlgebraicValue.null
        (assoc_null_third OpType.abelian_add a b)
  add-Agree (AlgebraicValue.integer a) (AlgebraicValue.integer b) (AlgebraicValue.integer c) h k l =
      Agree-bind _ _ _ _ _ _ (checked_add a b) (checked_add b c)
        (λ u. ok (merge OpType.abelian_add u (AlgebraicValue.integer c)))
        (λ u. ok (merge OpType.abelian_add (AlgebraicValue.integer a) u))
        (λ s t p q.
          Agree-ok _ _ _ _ _ _ (checked_add s c) (checked_add a t)
            (λ x y m n. checked_add_agree a b c p q m n))
  add-Agree (AlgebraicValue.float _) b c h k l = absurd h
  add-Agree a (AlgebraicValue.float _) c h k l = absurd k
  add-Agree a b (AlgebraicValue.float _) h k l = absurd l
  add-Agree (AlgebraicValue.integer a) (AlgebraicValue.integer b) c h k l =
      Agree-none (left OpType.abelian_add (AlgebraicValue.integer a) (AlgebraicValue.integer b) c)
  add-Agree a b c h k l = tt

  mul-Agree :
      (a b c : AlgebraicValue Float)
      → IsExact a
      → IsExact b
      → IsExact c
      → Agree (left OpType.abelian_multiply a b c) (right OpType.abelian_multiply a b c)
  unfolding merge dispatch merge_multiply
  mul-Agree AlgebraicValue.null b c h k l =
      Agree-of_same OpType.abelian_multiply AlgebraicValue.null b c
        (assoc_null_first OpType.abelian_multiply b c)
  mul-Agree a AlgebraicValue.null c h k l =
      Agree-of_same OpType.abelian_multiply a AlgebraicValue.null c
        (assoc_null_second OpType.abelian_multiply a c)
  mul-Agree a b AlgebraicValue.null h k l =
      Agree-of_same OpType.abelian_multiply a b AlgebraicValue.null
        (assoc_null_third OpType.abelian_multiply a b)
  mul-Agree (AlgebraicValue.integer a) (AlgebraicValue.integer b) (AlgebraicValue.integer c) h k l =
      Agree-bind _ _ _ _ _ _ (checked_mul a b) (checked_mul b c)
        (λ u. ok (merge OpType.abelian_multiply u (AlgebraicValue.integer c)))
        (λ u. ok (merge OpType.abelian_multiply (AlgebraicValue.integer a) u))
        (λ s t p q.
          Agree-ok _ _ _ _ _ _ (checked_mul s c) (checked_mul a t)
            (λ x y m n. checked_mul_agree a b c p q m n))
  mul-Agree (AlgebraicValue.float _) b c h k l = absurd h
  mul-Agree a (AlgebraicValue.float _) c h k l = absurd k
  mul-Agree a b (AlgebraicValue.float _) h k l = absurd l
  mul-Agree (AlgebraicValue.integer a) (AlgebraicValue.integer b) c h k l =
      Agree-none
        (left OpType.abelian_multiply (AlgebraicValue.integer a) (AlgebraicValue.integer b) c)
  mul-Agree a b c h k l = tt

  generic-Agree :
      (op : OpType)
      → is_conflict_free op ≡ false
      → (a b c : AlgebraicValue Float) → Agree (left op a b c) (right op a b c)
  unfolding merge
  generic-Agree op e AlgebraicValue.null b c =
      Agree-of_same op AlgebraicValue.null b c (assoc_null_first op b c)
  generic-Agree op e a AlgebraicValue.null c =
      Agree-of_same op a AlgebraicValue.null c (assoc_null_second op a c)
  generic-Agree op e a b AlgebraicValue.null =
      Agree-of_same op a b AlgebraicValue.null (assoc_null_third op a b)
  generic-Agree OpType.generic_overwrite e a b c = tt
  generic-Agree OpType.generic_conditional e a b c = tt
  generic-Agree OpType.unknown e a b c = tt
  generic-Agree op e a b c = absurd (cc e)

  -- For values without floats and any operation, the two groupings of three values merge to the
  -- same value wherever both of them merge.
  pub merge-assoc-Agree :
      (op : OpType) (a b c : AlgebraicValue Float)
      → IsExact a
      → IsExact b
      → IsExact c
      → Agree (left op a b c) (right op a b c)
  unfolding is_semilattice is_conflict_free
  merge-assoc-Agree OpType.abelian_add a b c h k l = add-Agree a b c h k l
  merge-assoc-Agree OpType.abelian_multiply a b c h k l = mul-Agree a b c h k l
  merge-assoc-Agree OpType.generic_overwrite a b c h k l = generic-Agree _ refl a b c
  merge-assoc-Agree OpType.generic_conditional a b c h k l = generic-Agree _ refl a b c
  merge-assoc-Agree OpType.unknown a b c h k l = generic-Agree _ refl a b c
  merge-assoc-Agree OpType.semilattice_max a b c h k l =
      Agree-of_same OpType.semilattice_max a b c
        (merge-assoc_semilattice OpType.semilattice_max a b c refl h k l)
  merge-assoc-Agree OpType.semilattice_min a b c h k l =
      Agree-of_same OpType.semilattice_min a b c
        (merge-assoc_semilattice OpType.semilattice_min a b c refl h k l)
  merge-assoc-Agree OpType.semilattice_union a b c h k l =
      Agree-of_same OpType.semilattice_union a b c
        (merge-assoc_semilattice OpType.semilattice_union a b c refl h k l)
  merge-assoc-Agree OpType.semilattice_intersect a b c h k l =
      Agree-of_same OpType.semilattice_intersect a b c
        (merge-assoc_semilattice OpType.semilattice_intersect a b c refl h k l)

  -- Where a sum overflows, one grouping of its terms with the negated second term does not merge,
  -- and the other merges to the first term, which lies in the range of `i64`.
  pub merge_add-assoc_fails :
      (a b : ℤ)
      → in_i64 a ≡ true
      → checked_add a b ≡ none
      → let v : AlgebraicValue Float = AlgebraicValue.integer a in
        let w : AlgebraicValue Float = AlgebraicValue.integer b in
        let negated : AlgebraicValue Float = AlgebraicValue.integer (pos 0 -ℤ b) in
        (left OpType.abelian_add v w negated ≡ none)
        × (right OpType.abelian_add v w negated ≡ some v)
  unfolding merge dispatch merge_add
  merge_add-assoc_fails a b h o =
      (rw (o, left), rw (checked_add_negated b, right) (rw (checked_add_zero a h, ok)))
