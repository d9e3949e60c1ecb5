-- ===== src/Branch/Lists.antt =====
-- The lists of a diff, read table by table.
use unifieddataruntime.Base.{
  ℕ, String, ◌≡◌, refl, ◌∙◌, Bool, false, Option, none, some, [], ◌∷◌, string_eq, eqb,
  if◌then◌else◌, arith,
}
use unifieddataruntime.Base.Dict
use unifieddataruntime.Base.Dict.{Dict}
use unifieddataruntime.Base.HashSet
use unifieddataruntime.Base.Sort.{sort_entries-Unique, lookup-sort_entries, contains-sort_texts}
use unifieddataruntime.Branch.{
  Branch, Change, classify, place, scan, only_in_target, compute_with_base,
}
use text.Mathlib.TextEquality.{eq_iff}

-- What the lists hold of a table, by its versions in the source and the target.
module _ (base : Option (Dict String ℕ)) (t : String) where
  abbrev pub differing : Option ℕ → Option ℕ → Option (Change × (ℕ × ℕ))
  differing (some s) (some g) = if eqb s g then none else some (classify base t s g, (s, g))
  differing _ _ = none

  abbrev pub in_modified : Option ℕ → Option ℕ → Option (ℕ × ℕ)
  in_modified s g = elim (differing s g) [
    | none ↦ none
    | some (c, e) ↦ elim c [
      | Change.both ↦ some e
      | Change.source_only ↦ none
      | Change.target_only ↦ none
    ]
  ]

  abbrev pub in_source_only : Option ℕ → Option ℕ → Option (ℕ × ℕ)
  in_source_only s g = elim (differing s g) [
    | none ↦ none
    | some (c, e) ↦ elim c [
      | Change.both ↦ none
      | Change.source_only ↦ some e
      | Change.target_only ↦ none
    ]
  ]

  abbrev pub in_target_only : Option ℕ → Option ℕ → Option (ℕ × ℕ)
  in_target_only s g = elim (differing s g) [
    | none ↦ none
    | some (c, e) ↦ elim c [
      | Change.both ↦ none
      | Change.source_only ↦ none
      | Change.target_only ↦ some e
    ]
  ]

abbrev pub in_added : Option ℕ → Option ℕ → Option ℕ
in_added s none = s
in_added s (some _) = none

abbrev pub in_unchanged : Option ℕ → Option ℕ → Bool
in_unchanged (some s) (some g) = eqb s g
in_unchanged _ _ = false

module _ (base : Option (Dict String ℕ)) (target : Dict String ℕ) (t : String) where
  scan-modified :
      (es : Dict String ℕ)
      → Dict.Unique es
      → Dict.lookup t (scan base target es).modified
        ≡ in_modified base t (Dict.lookup t es) (Dict.lookup t target)
  unfolding scan place
  scan-modified [] u = refl
  scan-modified ((j, s) ∷ es) u = ground (arith, eq_iff j t, scan-modified es u.1)

  scan-source_only :
      (es : Dict String ℕ)
      → Dict.Unique es
      → Dict.lookup t (scan base target es).source_only_changes
        ≡ in_source_only base t (Dict.lookup t es) (Dict.lookup t target)
  unfolding scan place
  scan-source_only [] u = refl
  scan-source_only ((j, s) ∷ es) u = ground (arith, eq_iff j t, scan-source_only es u.1)

  scan-target_only :
      (es : Dict String ℕ)
      → Dict.Unique es
      → Dict.lookup t (scan base target es).target_only_changes
        ≡ in_target_only base t (Dict.lookup t es) (Dict.lookup t target)
  unfolding scan place
  scan-target_only [] u = refl
  scan-target_only ((j, s) ∷ es) u = ground (arith, eq_iff j t, scan-target_only es u.1)

  scan-added :
      (es : Dict String ℕ)
      → Dict.Unique es
      → Dict.lookup t (scan base target es).added_in_source
        ≡ in_added (Dict.lookup t es) (Dict.lookup t target)
  unfolding scan place
  scan-added [] u = ground arith
  scan-added ((j, s) ∷ es) u = ground (arith, eq_iff j t, scan-added es u.1)

  scan-unchanged :
      (es : Dict String ℕ)
      → Dict.Unique es
      → HashSet.contains t (scan base target es).unchanged
        ≡ in_unchanged (Dict.lookup t es) (Dict.lookup t target)
  unfolding scan place
  scan-unchanged [] u = refl
  scan-unchanged ((j, s) ∷ es) u = ground (arith, eq_iff j t, scan-unchanged es u.1)

lookup-only_in_target :
    (source es : Dict String ℕ) (t : String)
    → Dict.lookup t (only_in_target source es)
      ≡ (if Dict.contains_key t source then none else Dict.lookup t es)
unfolding only_in_target
lookup-only_in_target source [] t = ground arith
lookup-only_in_target source ((j, g) ∷ es) t =
    ground (arith, eq_iff j t, lookup-only_in_target source es t)

module _ (base : Option (Dict String ℕ)) (target : Dict String ℕ) where
  modified-Unique :
      (es : Dict String ℕ) → Dict.Unique es → Dict.Unique (scan base target es).modified
  unfolding scan place
  modified-Unique [] u = tt
  modified-Unique ((j, s) ∷ es) u =
      ground (arith, scan-modified base target j es u.1, modified-Unique es u.1)

  source_only-Unique :
      (es : Dict String ℕ) → Dict.Unique es → Dict.Unique (scan base target es).source_only_changes
  unfolding scan place
  source_only-Unique [] u = tt
  source_only-Unique ((j, s) ∷ es) u =
      ground (arith, scan-source_only base target j es u.1, source_only-Unique es u.1)

  target_only-Unique :
      (es : Dict String ℕ) → Dict.Unique es → Dict.Unique (scan base target es).target_only_changes
  unfolding scan place
  target_only-Unique [] u = tt
  target_only-Unique ((j, s) ∷ es) u =
      ground (arith, scan-target_only base target j es u.1, target_only-Unique es u.1)

  added-Unique :
      (es : Dict String ℕ) → Dict.Unique es → Dict.Unique (scan base target es).added_in_source
  unfolding scan place
  added-Unique [] u = tt
  added-Unique ((j, s) ∷ es) u =
      ground (arith, scan-added base target j es u.1, added-Unique es u.1)

only_in_target-Unique :
    (source es : Dict String ℕ) → Dict.Unique es → Dict.Unique (only_in_target source es)
unfolding only_in_target
only_in_target-Unique source [] u = tt
only_in_target-Unique source ((j, g) ∷ es) u =
    ground (arith, lookup-only_in_target source es j, only_in_target-Unique source es u.1)

module _ (source target : Branch) (base : Option (Dict String ℕ)) (t : String) where
  abbrev src : Option ℕ
  src = Dict.lookup t source.head

  abbrev tgt : Option ℕ
  tgt = Dict.lookup t target.head

  pub modified_lem :
      Dict.Unique source.head
      → Dict.lookup t (compute_with_base source target base).modified ≡ in_modified base t src tgt
  unfolding compute_with_base
  modified_lem u =
      lookup-sort_entries t (scan base target.head source.head).modified
        (modified-Unique base target.head source.head u)
      ∙ scan-modified base target.head t source.head u

  pub source_only_lem :
      Dict.Unique source.head
      → Dict.lookup t (compute_with_base source target base).source_only_changes
        ≡ in_source_only base t src tgt
  unfolding compute_with_base
  source_only_lem u =
      lookup-sort_entries t (scan base target.head source.head).source_only_changes
        (source_only-Unique base target.head source.head u)
      ∙ scan-source_only base target.head t source.head u

  pub target_only_lem :
      Dict.Unique source.head
      → Dict.lookup t (compute_with_base source target base).target_only_changes
        ≡ in_target_only base t src tgt
  unfolding compute_with_base
  target_only_lem u =
      lookup-sort_entries t (scan base target.head source.head).target_only_changes
        (target_only-Unique base target.head source.head u)
      ∙ scan-target_only base target.head t source.head u

  pub added_lem :
      Dict.Unique source.head
      → Dict.lookup t (compute_with_base source target base).added_in_source ≡ in_added src tgt
  unfolding compute_with_base
  added_lem u =
      lookup-sort_entries t (scan base target.head source.head).added_in_source
        (added-Unique base target.head source.head u)
      ∙ scan-added base target.head t source.head u

  pub added_in_target_lem :
      Dict.Unique target.head
      → Dict.lookup t (compute_with_base source target base).added_in_target ≡ in_added tgt src
  unfolding compute_with_base
  added_in_target_lem u =
      lookup-sort_entries t (only_in_target source.head target.head)
        (only_in_target-Unique source.head target.head u)
      ∙ ground (arith, lookup-only_in_target source.head target.head t)

  pub unchanged_lem :
      Dict.Unique source.head
      → HashSet.contains t (compute_with_base source target base).unchanged ≡ in_unchanged src tgt
  unfolding compute_with_base
  unchanged_lem u =
      contains-sort_texts t (scan base target.head source.head).unchanged
      ∙ scan-unchanged base target.head t source.head u

module _ (source target : Branch) (base : Option (Dict String ℕ))
    (u : Dict.Unique source.head) where
  pub source_only_changes-Unique :
      Dict.Unique (compute_with_base source target base).source_only_changes
  unfolding compute_with_base
  source_only_changes-Unique =
      sort_entries-Unique (scan base target.head source.head).source_only_changes
        (source_only-Unique base target.head source.head u)

  pub added_in_source-Unique : Dict.Unique (compute_with_base source target base).added_in_source
  unfolding compute_with_base
  added_in_source-Unique =
      sort_entries-Unique (scan base target.head source.head).added_in_source
        (added-Unique base target.head source.head u)
