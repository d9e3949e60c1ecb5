-- ===== src/Transaction/Conflict.antt =====
-- rhizo_core/src/transaction/conflict.rs: the detectors of write-write conflicts by tables and by
-- partitions. The text of a conflict is kept as the data that it is formatted from.
use unifieddataruntime.Base.{
  ℕ, String, Bool, true, false, not, Option, none, some, List, [], ◌∷◌, ◌++◌, any, string_eq,
  if◌then◌else◌, ◌==◌,
}
use unifieddataruntime.Base.HashSet
use unifieddataruntime.Transaction.{WriteGranularity, TableWrite, TransactionRecord, written_tables}

pub data Description : Type 0 where
  write_write possible_write_write : List String → ℕ → ℕ → Description

pub record Conflict : Type 0 where
  pub tables : List String
  pub tx1_id : ℕ
  pub tx2_id : ℕ
  pub description : Description
  pub possibly_false_positive : Bool

-- `Conflict::new`
abbrev pub new_conflict : List String → ℕ → ℕ → Conflict
new_conflict ts a b = record {
  tables = ts;
  tx1_id = a;
  tx2_id = b;
  description = Description.write_write ts a b;
  possibly_false_positive = false;
}

abbrev pub new_possibly_approximate : List String → ℕ → ℕ → Conflict
new_possibly_approximate ts a b = record {
  tables = ts;
  tx1_id = a;
  tx2_id = b;
  description = Description.possible_write_write ts a b;
  possibly_false_positive = true;
}

abbrev pub involves_table : Conflict → String → Bool
involves_table c t = any (λ u. u == t) c.tables

module _ {Json : Type 0} where
  -- `TableLevelConflictDetector::detect`
  unfoldable pub detect_tables : TransactionRecord Json → TransactionRecord Json → Option Conflict
  detect_tables r s =
      let tables1 = HashSet.of_list (written_tables r) in
      let tables2 = HashSet.of_list (written_tables s) in
      let conflicts = HashSet.intersection tables1 tables2 in
      elim conflicts [ [] ↦ none | t ∷ ts ↦ some (new_conflict (t ∷ ts) r.tx_id s.tx_id) ]

  -- The match on the granularities of two writes of one table: whether it returns a conflict.
  unfoldable pub overlaps : WriteGranularity Json → WriteGranularity Json → Bool
  overlaps WriteGranularity.whole_table WriteGranularity.whole_table = true
  overlaps WriteGranularity.whole_table (WriteGranularity.partitions _) = true
  overlaps (WriteGranularity.partitions _) WriteGranularity.whole_table = true
  overlaps (WriteGranularity.partitions p) (WriteGranularity.partitions q) =
      elim (HashSet.intersection (HashSet.of_list p) (HashSet.of_list q)) [
        | [] ↦ false
        | _ ∷ _ ↦ true
      ]
  overlaps _ _ = true

  -- The inner loop, with its returns.
  unfoldable pub detect_write : ℕ → ℕ → TableWrite Json → List (TableWrite Json) → Option Conflict
  unfolding overlaps
  detect_write a b w [] = none
  detect_write a b w (v ∷ vs) =
      let rest = detect_write a b w vs in
      if not (w.table_name == v.table_name)
      then rest
      else if overlaps w.granularity v.granularity
      then some (new_conflict (w.table_name ∷ []) a b)
      else rest

  -- The outer loop.
  unfoldable pub detect_writes :
      ℕ → ℕ → List (TableWrite Json) → List (TableWrite Json) → Option Conflict
  unfolding detect_write
  detect_writes a b [] vs = none
  detect_writes a b (w ∷ ws) vs =
      let rest = detect_writes a b ws vs in
      elim (detect_write a b w vs) [ none ↦ rest | some c ↦ some c ]

  -- `PartitionLevelConflictDetector::detect`
  unfoldable pub detect_partitions :
      TransactionRecord Json → TransactionRecord Json → Option Conflict
  unfolding detect_writes
  detect_partitions r s = detect_writes r.tx_id s.tx_id r.writes s.writes

  abbrev pub is_partitions : WriteGranularity Json → Bool
  is_partitions (WriteGranularity.partitions _) = true
  is_partitions _ = false

  abbrev pub has_partition_writes : TransactionRecord Json → TransactionRecord Json → Bool
  has_partition_writes r s =
      any (λ (w : TableWrite Json). is_partitions w.granularity) (r.writes ++ s.writes)

  -- `AdaptiveConflictDetector::detect`
  unfoldable pub detect_adaptive : TransactionRecord Json → TransactionRecord Json → Option Conflict
  unfolding detect_tables detect_partitions
  detect_adaptive r s =
      if has_partition_writes r s then detect_partitions r s else detect_tables r s
