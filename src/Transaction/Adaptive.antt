-- ===== src/Transaction/Adaptive.antt =====
-- The detector that chooses by the granularity of the writes finds what the one by partitions finds.
use unifieddataruntime.Base.{
  ◌≡◌, refl, sym, ◌∙◌, Bool, true, false, ◌||◌, List, [], ◌∷◌, ◌++◌, map, any, string_eq, arith,
  Bool-cases, inl, inr,
}
use unifieddataruntime.Base.HashSet
use unifieddataruntime.Transaction.{WriteGranularity, TableWrite, TransactionRecord}
use unifieddataruntime.Transaction.Conflict.{
  detect_tables, detect_partitions, is_partitions, has_partition_writes, detect_adaptive,
}
use unifieddataruntime.Transaction.Detection.{
  is_some, common, touch, clash, clashing, touch_sym, detect_tables_lem, detect_partitions_lem,
}
use text.Mathlib.TextEquality.{eq_iff}

module _ {Json : Type 0} where
  abbrev in_partitions : TableWrite Json → Bool
  in_partitions w = is_partitions w.granularity

  touch_whole : (g h : WriteGranularity Json) → is_partitions g ≡ false → touch g h ≡ true
  touch_whole WriteGranularity.whole_table h e = refl
  touch_whole (WriteGranularity.keys _ _) h e = refl
  touch_whole (WriteGranularity.partitions _) h e = absurd (cc e)

  any-clash_whole :
      (w : TableWrite Json) (vs : List (TableWrite Json))
      → in_partitions w ≡ false
      → any (λ v. clash w v) vs
        ≡ HashSet.contains w.table_name (map (λ (v : TableWrite Json). v.table_name) vs)
  any-clash_whole w [] e = refl
  any-clash_whole w (v ∷ vs) e = ground (
    arith,
    touch_whole w.granularity v.granularity e,
    any-clash_whole w vs e,
    eq_iff w.table_name v.table_name,
    eq_iff v.table_name w.table_name,
  )

  any-append_left :
      (p : TableWrite Json → Bool) (ws vs : List (TableWrite Json))
      → any p (ws ++ vs) ≡ false
      → any p ws ≡ false
  any-append_left p [] vs e = refl
  any-append_left p (w ∷ ws) vs e = ground (arith, any-append_left p ws vs)

  -- Without writes of partitions, two writes clash where a table is written by both.
  clashing_whole :
      (ws vs : List (TableWrite Json))
      → any in_partitions ws ≡ false
      → clashing ws vs
        ≡ common
            (map (λ (w : TableWrite Json). w.table_name) ws)
            (map (λ (v : TableWrite Json). v.table_name) vs)
  clashing_whole [] vs e = refl
  clashing_whole (w ∷ ws) vs e = ground (arith, any-clash_whole w vs, clashing_whole ws vs)

  -- The adaptive detector answers a conflict exactly when a write of the first transaction and one of
  -- the second clash: they are of one table, and, where both list partitions, of a common partition.
  pub detect_adaptive-clashing :
      (r s : TransactionRecord Json) → is_some (detect_adaptive r s) ≡ clashing r.writes s.writes
  unfolding detect_adaptive
  detect_adaptive-clashing r s = elim (Bool-cases (has_partition_writes r s)) [
    | inl e ↦ rw e (detect_partitions_lem r s)
    | inr e ↦ rw e (
        (detect_tables_lem r s).0
        ∙ sym
            (clashing_whole r.writes s.writes (any-append_left in_partitions r.writes s.writes e)))
  ]

  clash_sym : (w v : TableWrite Json) → clash w v ≡ clash v w
  clash_sym w v = ground (
    arith,
    touch_sym w.granularity v.granularity,
    eq_iff w.table_name v.table_name,
    eq_iff v.table_name w.table_name,
  )

  clashing_cons :
      (ws : List (TableWrite Json)) (v : TableWrite Json) (vs : List (TableWrite Json))
      → clashing ws (v ∷ vs) ≡ (any (λ w. clash v w) ws || clashing ws vs)
  clashing_cons [] v vs = refl
  clashing_cons (w ∷ ws) v vs = ground (arith, clash_sym w v, clashing_cons ws v vs)

  clashing_nil : (ws : List (TableWrite Json)) → clashing ws [] ≡ false
  clashing_nil [] = refl
  clashing_nil (w ∷ ws) = ground (arith, clashing_nil ws)

  clashing_sym : (ws vs : List (TableWrite Json)) → clashing ws vs ≡ clashing vs ws
  clashing_sym ws [] = clashing_nil ws
  clashing_sym ws (v ∷ vs) = ground (arith, clashing_cons ws v vs, clashing_sym ws vs)

  -- The order of the two transactions does not matter to whether the adaptive detector, or the one by
  -- partitions, answers a conflict.
  pub detect_adaptive_sym :
      (r s : TransactionRecord Json)
      → (is_some (detect_adaptive r s) ≡ is_some (detect_adaptive s r))
        × (is_some (detect_partitions r s) ≡ is_some (detect_partitions s r))
  detect_adaptive_sym r s = (
    detect_adaptive-clashing r s
        ∙ clashing_sym r.writes s.writes
        ∙ sym (detect_adaptive-clashing s r),
    detect_partitions_lem r s ∙ clashing_sym r.writes s.writes ∙ sym (detect_partitions_lem s r),
  )

  -- A conflict by partitions is also one by tables.
  pub detect_partitions-detect_tables :
      (r s : TransactionRecord Json)
      → is_some (detect_partitions r s) ≡ true
      → is_some (detect_tables r s) ≡ true
  detect_partitions-detect_tables r s h =
      (detect_tables_lem r s).0 ∙ coarser r.writes s.writes (sym (detect_partitions_lem r s) ∙ h)
    where
      any-coarser :
          (w : TableWrite Json) (vs : List (TableWrite Json))
          → any (λ v. clash w v) vs ≡ true
          → HashSet.contains w.table_name (map (λ (v : TableWrite Json). v.table_name) vs) ≡ true
      any-coarser w [] e = e
      any-coarser w (v ∷ vs) e = ground (
        arith,
        any-coarser w vs,
        eq_iff w.table_name v.table_name,
        eq_iff v.table_name w.table_name,
      )

      coarser :
          (ws vs : List (TableWrite Json))
          → clashing ws vs ≡ true
          → common
              (map (λ (w : TableWrite Json). w.table_name) ws)
              (map (λ (v : TableWrite Json). v.table_name) vs)
            ≡ true
      coarser [] vs e = e
      coarser (w ∷ ws) vs e = ground (arith, any-coarser w vs, coarser ws vs)
