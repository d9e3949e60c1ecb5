-- ===== src/Algebra/Tests.antt =====
-- Merges of concrete values, and the theorems on them at these values. The floats of the tests are
-- whole numbers.
use unifieddataruntime.Base.{String, ◌≡◌, refl, true, none, some, List, [], ◌∷◌, string_eq}
use unifieddataruntime.Base.Int.{
  ℤ, pos, negsuc, i64_max, ◌+ℤ◌, ◌*ℤ◌, ◌-ℤ◌, max_ℤ, min_ℤ, eqb_ℤ, leb_ℤ, int_eq, checked_add,
}
use unifieddataruntime.Algebra.Types.{OpType, F64, AlgebraicValue, is_conflict_free, is_semilattice}
use unifieddataruntime.Algebra.Merger.{MergeResult, merge, dispatch, merge_add}
use unifieddataruntime.Algebra.Same.{SameResult, SameOption, swap}
use unifieddataruntime.Algebra.Schema.{TableAlgebraicSchema, all_additive, add_column}
use unifieddataruntime.Algebra.Commutes.{merge_comm}
use unifieddataruntime.Algebra.Groups.{
  left, right, Agree, merge_idem, merge-assoc_semilattice, merge-assoc-Agree, merge_add-assoc_fails,
}

instance abbrev pub whole_f64 : F64 ℤ
whole_f64 = record {
  add = ◌+ℤ◌;
  mul = ◌*ℤ◌;
  fmax = max_ℤ;
  fmin = min_ℤ;
  of_i64 = λ a. a;
  to_i64 = λ a. a;
  is_finite = λ _. true;
  trunc = λ a. a;
  feq = eqb_ℤ;
  fle = leb_ℤ;
}

abbrev pub whole : ℤ → AlgebraicValue ℤ
whole a = AlgebraicValue.integer a

abbrev pub names : List String → AlgebraicValue ℤ
names xs = AlgebraicValue.string_set xs

sum_of_two :
    merge OpType.abelian_add (whole (pos 2)) (whole (negsuc 4))
    ≡ MergeResult.merged (whole (negsuc 2))
unfolding merge is_conflict_free dispatch merge_add checked_add ◌+ℤ◌
sum_of_two = refl

merge_comm_example :
    SameResult
      (merge OpType.abelian_add (whole i64_max) (whole (pos 1)))
      (swap (merge OpType.abelian_add (whole (pos 1)) (whole i64_max)))
merge_comm_example = merge_comm OpType.abelian_add (whole i64_max) (whole (pos 1)) tt tt

merge-assoc_semilattice_example :
    SameOption
      (left OpType.semilattice_union (names ("a" ∷ [])) (names ("b" ∷ [])) AlgebraicValue.null)
      (right OpType.semilattice_union (names ("a" ∷ [])) (names ("b" ∷ [])) AlgebraicValue.null)
merge-assoc_semilattice_example =
    merge-assoc_semilattice OpType.semilattice_union (names ("a" ∷ [])) (names ("b" ∷ []))
      AlgebraicValue.null (unfold is_semilattice in refl) tt tt tt

merge-assoc-Agree_example :
    Agree
      (left OpType.abelian_add (whole (pos 1)) (whole (pos 2)) (whole (negsuc 3)))
      (right OpType.abelian_add (whole (pos 1)) (whole (pos 2)) (whole (negsuc 3)))
merge-assoc-Agree_example =
    merge-assoc-Agree OpType.abelian_add (whole (pos 1)) (whole (pos 2)) (whole (negsuc 3)) tt tt tt

merge_add-assoc_fails_example :
    (left OpType.abelian_add (whole i64_max) (whole (pos 1)) (whole (pos 0 -ℤ pos 1)) ≡ none)
    × (right OpType.abelian_add (whole i64_max) (whole (pos 1)) (whole (pos 0 -ℤ pos 1))
        ≡ some (whole i64_max))
merge_add-assoc_fails_example =
    merge_add-assoc_fails i64_max (pos 1) refl (unfold checked_add ◌+ℤ◌ in refl)

merge_idem_example :
    SameResult
      (merge OpType.semilattice_union (names ("a" ∷ [])) (names ("a" ∷ [])))
      (MergeResult.merged (names ("a" ∷ [])))
merge_idem_example =
    merge_idem OpType.semilattice_union (names ("a" ∷ [])) (unfold is_semilattice in refl) tt

-- The balances of accounts, which are added, and their owners, which are not merged.
abbrev accounts : TableAlgebraicSchema ℤ
accounts = add_column (all_additive "accounts") "owner" OpType.generic_overwrite
