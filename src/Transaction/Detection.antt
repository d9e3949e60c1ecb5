-- ===== src/Transaction/Detection.antt =====
-- What the detectors find: the pairs of writes that clash.
use unifieddataruntime.Base.{
  ℕ, String, ◌≡◌, refl, sym, ◌∙◌, Bool, true, false, ◌&&◌, Option, none, some, List, [], ◌∷◌, any,
  string_eq, ◌==◌, arith, Bool-cases, inl, inr,
}
use unifieddataruntime.Base.HashSet
use unifieddataruntime.Base.HashSet.{contains-of_list, contains-intersection}
use unifieddataruntime.Transaction.{WriteGranularity, TableWrite, TransactionRecord, written_tables}
use unifieddataruntime.Transaction.Conflict.{
  Conflict, detect_tables, overlaps, detect_write, detect_writes, detect_partitions,
}
use text.Mathlib.TextEquality.{eq_iff}

abbrev pub is_some {ℓ} : {A : Type ℓ} → Option A → Bool
is_some none = false
is_some (some _) = true

-- Whether two lists have a common element.
abbrev pub common : List String → List String → Bool
common xs ys = any (λ x. HashSet.contains x ys) xs

any-intersection :
    (xs ys : List String)
    → elim (HashSet.intersection xs ys) [ [] ↦ false | _ ∷ _ ↦ true ] ≡ common xs ys
any-intersection [] ys = refl
any-intersection (x ∷ xs) ys = ground (arith, any-intersection xs ys)

abbrev Common : List String → List String → Type 0
Common xs ys = (x : String) × (HashSet.contains x xs ≡ true) × (HashSet.contains x ys ≡ true)

common-Common : (xs ys : List String) → common xs ys ≡ true → Common xs ys
common-Common [] ys h = absurd (cc h)
common-Common (x ∷ xs) ys h = elim (Bool-cases (HashSet.contains x ys)) [
  | inl e ↦ (x, ground (arith, eq_iff x x), e)
  | inr d ↦ let (y, hx, hy) = common-Common xs ys (ground arith) in (y, ground arith, hy)
]

Common-common :
    (xs ys : List String) (x : String)
    → HashSet.contains x xs ≡ true
    → HashSet.contains x ys ≡ true
    → common xs ys ≡ true
Common-common [] ys x h k = absurd (cc h)
Common-common (z ∷ xs) ys x h k = ground (arith, eq_iff z x, Common-common xs ys x)

bool_ext : (a b : Bool) → (a ≡ true → b ≡ true) → (b ≡ true → a ≡ true) → a ≡ b
bool_ext true b f g = sym (f refl)
bool_ext false true f g = g refl
bool_ext false false f g = refl

-- `common` sees the members alone.
common_cong :
    (xs ys us vs : List String)
    → ((x : String) → HashSet.contains x xs ≡ HashSet.contains x us)
    → ((x : String) → HashSet.contains x ys ≡ HashSet.contains x vs)
    → common xs ys ≡ true
    → common us vs ≡ true
common_cong xs ys us vs f g h =
    let (x, hx, hy) = common-Common xs ys h in
    Common-common us vs x (sym (f x) ∙ hx) (sym (g x) ∙ hy)

common-of_list :
    (xs ys : List String) → common (HashSet.of_list xs) (HashSet.of_list ys) ≡ common xs ys
common-of_list xs ys =
    let f : (x : String) → HashSet.contains x (HashSet.of_list xs) ≡ HashSet.contains x xs =
      λ x. contains-of_list x xs in
    let g : (x : String) → HashSet.contains x (HashSet.of_list ys) ≡ HashSet.contains x ys =
      λ x. contains-of_list x ys in
    bool_ext (common (HashSet.of_list xs) (HashSet.of_list ys)) (common xs ys)
      (common_cong (HashSet.of_list xs) (HashSet.of_list ys) xs ys f g)
      (common_cong xs ys (HashSet.of_list xs) (HashSet.of_list ys) (λ x. sym (f x))
        (λ x. sym (g x)))

common_sym : (xs ys : List String) → common xs ys ≡ common ys xs
common_sym xs ys =
    bool_ext (common xs ys) (common ys xs)
      (λ h. let (x, hx, hy) = common-Common xs ys h in Common-common ys xs x hy hx)
      (λ h. let (x, hx, hy) = common-Common ys xs h in Common-common xs ys x hy hx)

module _ {Json : Type 0} where
  -- Two granularities of writes of one table leave no room for both: but for two lists of partitions,
  -- always.
  abbrev pub touch : WriteGranularity Json → WriteGranularity Json → Bool
  touch (WriteGranularity.partitions p) (WriteGranularity.partitions q) = common p q
  touch _ _ = true

  abbrev pub clash : TableWrite Json → TableWrite Json → Bool
  clash w v = (w.table_name == v.table_name) && touch w.granularity v.granularity

  -- Whether a write of the first list clashes with one of the second.
  abbrev pub clashing : List (TableWrite Json) → List (TableWrite Json) → Bool
  clashing ws vs = any (λ w. any (λ v. clash w v) vs) ws

  overlaps-touch : (g h : WriteGranularity Json) → overlaps g h ≡ touch g h
  unfolding overlaps
  overlaps-touch (WriteGranularity.partitions p) (WriteGranularity.partitions q) =
      any-intersection (HashSet.of_list p) (HashSet.of_list q) ∙ common-of_list p q
  overlaps-touch WriteGranularity.whole_table WriteGranularity.whole_table = refl
  overlaps-touch WriteGranularity.whole_table (WriteGranularity.partitions _) = refl
  overlaps-touch WriteGranularity.whole_table (WriteGranularity.keys _ _) = refl
  overlaps-touch (WriteGranularity.partitions _) WriteGranularity.whole_table = refl
  overlaps-touch (WriteGranularity.partitions _) (WriteGranularity.keys _ _) = refl
  overlaps-touch (WriteGranularity.keys _ _) _ = refl

  pub touch_sym : (g h : WriteGranularity Json) → touch g h ≡ touch h g
  touch_sym (WriteGranularity.partitions p) (WriteGranularity.partitions q) = common_sym p q
  touch_sym WriteGranularity.whole_table WriteGranularity.whole_table = refl
  touch_sym WriteGranularity.whole_table (WriteGranularity.partitions _) = refl
  touch_sym WriteGranularity.whole_table (WriteGranularity.keys _ _) = refl
  touch_sym (WriteGranularity.partitions _) WriteGranularity.whole_table = refl
  touch_sym (WriteGranularity.partitions _) (WriteGranularity.keys _ _) = refl
  touch_sym (WriteGranularity.keys _ _) WriteGranularity.whole_table = refl
  touch_sym (WriteGranularity.keys _ _) (WriteGranularity.partitions _) = refl
  touch_sym (WriteGranularity.keys _ _) (WriteGranularity.keys _ _) = refl

  detect_write-clash :
      (a b : ℕ) (w : TableWrite Json) (vs : List (TableWrite Json))
      → is_some (detect_write a b w vs) ≡ any (λ v. clash w v) vs
  unfolding detect_write
  detect_write-clash a b w [] = refl
  detect_write-clash a b w (v ∷ vs) =
      ground (arith, overlaps-touch w.granularity v.granularity, detect_write-clash a b w vs)

  detect_writes-clashing :
      (a b : ℕ) (ws vs : List (TableWrite Json))
      → is_some (detect_writes a b ws vs) ≡ clashing ws vs
  unfolding detect_writes
  detect_writes-clashing a b [] vs = refl
  detect_writes-clashing a b (w ∷ ws) vs =
      ground (arith, detect_write-clash a b w vs, detect_writes-clashing a b ws vs)

  -- The detector by tables answers a conflict exactly when the two transactions write a common table,
  -- and its conflict names exactly the tables that both write.
  pub detect_tables_lem :
      (r s : TransactionRecord Json)
      → (is_some (detect_tables r s) ≡ common (written_tables r) (written_tables s))
        × ((c : Conflict) (t : String)
            → detect_tables r s ≡ some c
            → HashSet.contains t c.tables
              ≡ (HashSet.contains t (written_tables r) && HashSet.contains t (written_tables s)))
  unfolding detect_tables
  detect_tables_lem r s =
      let xs = HashSet.of_list (written_tables r) in
      let ys = HashSet.of_list (written_tables s) in
      (
        ground
            (arith, any-intersection xs ys, common-of_list (written_tables r) (written_tables s)),
        λ c t e.
            let named : c.tables ≡ HashSet.intersection xs ys = ground (arith, e) in
            rw
              (
                named,
                contains-intersection t xs ys,
                contains-of_list t (written_tables r),
                contains-of_list t (written_tables s),
              )
              refl,
      )

  -- The detector by partitions answers a conflict exactly when two writes clash.
  pub detect_partitions_lem :
      (r s : TransactionRecord Json) → is_some (detect_partitions r s) ≡ clashing r.writes s.writes
  unfolding detect_partitions
  detect_partitions_lem r s = detect_writes-clashing r.tx_id s.tx_id r.writes s.writes
