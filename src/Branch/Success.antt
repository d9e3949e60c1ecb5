-- ===== src/Branch/Success.antt =====
-- A merge whose tables do not conflict succeeds.
use unifieddataruntime.Base.{
  ℕ, String, ◌≡◌, ◌≢◌, ◌⊎◌, inl, inr, refl, sym, ◌∙◌, true, false, Option, some, [], ◌∷◌, string_eq,
  arith, Bool-cases, ok,
}
use unifieddataruntime.Base.Dict
use unifieddataruntime.Base.Dict.{Dict}
use unifieddataruntime.Branch.{Branch, compute, compute_with_base}
use unifieddataruntime.Branch.Manager.{apply_added, apply_changes, merge_heads}
use unifieddataruntime.Branch.Heads.{compute_with_base-Classified}
use text.Mathlib.TextEquality.{eq_iff}

some_entry :
    (m : Dict String (ℕ × ℕ))
    → elim m [ [] ↦ false | _ ∷ _ ↦ true ] ≡ true
    → (t : String) × (v : ℕ) × (w : ℕ) × (Dict.lookup t m ≡ some (v, w))
some_entry [] h = absurd (cc h)
some_entry ((t, (v, w)) ∷ m) h = (t, v, w, ground (arith, eq_iff t t))

has_conflicts_lem :
    (source target : Branch) (base : Option (Dict String ℕ))
    → (compute_with_base source target base).has_conflicts
      ≡ elim (compute_with_base source target base).modified [ [] ↦ false | _ ∷ _ ↦ true ]
unfolding compute_with_base
has_conflicts_lem source target base = refl

-- The source has a fork point, and the heads are maps. Where of each table that has different versions
-- in the source and in the target one of the two stands at the fork point, the merge succeeds.
pub merge_heads-succeeds :
    (source target : Branch) (base : Dict String ℕ)
    → source.fork_point ≡ some base
    → Dict.Unique source.head
    → Dict.Unique target.head
    → ((t : String) (v w : ℕ)
        → Dict.lookup t source.head ≡ some v
        → Dict.lookup t target.head ≡ some w
        → v ≢ w
        → (Dict.lookup t base ≡ some v) ⊎ (Dict.lookup t base ≡ some w))
    → (r : Branch) × (merge_heads source target (compute source target) ≡ ok r)
unfolding merge_heads compute
merge_heads-succeeds source target base fork us ut calm =
    let d = compute_with_base source target (some base) in
    elim (Bool-cases d.has_conflicts) [
      | inr quiet ↦ (
        apply_added d.added_in_source (apply_changes d.source_only_changes target),
        ground (arith, fork, quiet),
      )
      | inl loud ↦
          let (t, v, w, e) =
            some_entry d.modified (sym (has_conflicts_lem source target (some base)) ∙ loud) in
          let c = compute_with_base-Classified source target (some base) t us ut in
          let ((s, g, n), bs, bg) = (c.conflict v w).0 e in
          absurd (elim (calm t v w s g n) [ inl x ↦ bs (x ∙ sym s) | inr x ↦ bg (x ∙ sym g) ])
    ]
