-- ===== src/Transaction/Tests.antt =====
-- Transactions that write tables and partitions, and the theorems on the detectors.
use unifieddataruntime.Base.{ℕ, String, ◌≡◌, refl, true, false, List, [], ◌∷◌, string_eq}
use unifieddataruntime.Base.Int.{pos}
use unifieddataruntime.Transaction.{
  WriteGranularity, TransactionRecord, new_record, new_write, with_granularity, add_write,
}
use unifieddataruntime.Transaction.Conflict.{
  overlaps, detect_tables, detect_write, detect_writes, detect_partitions, detect_adaptive,
}
use unifieddataruntime.Transaction.Detection.{is_some, clashing}
use unifieddataruntime.Transaction.Adaptive.{
  detect_adaptive-clashing, detect_partitions-detect_tables,
}

-- The tests store texts where the code stores JSON.
abbrev writing : ℕ → List String → TransactionRecord String
writing n ps =
    add_write (new_record (pos 0) n 1 "main")
      (with_granularity (new_write "events" 2 []) (WriteGranularity.partitions ps))

abbrev january : TransactionRecord String
january = writing 1 ("2024-01" ∷ [])

abbrev winter : TransactionRecord String
winter = writing 2 ("2024-01" ∷ "2024-02" ∷ [])

found : is_some (detect_partitions january winter) ≡ true
unfolding detect_partitions detect_writes detect_write overlaps
found = refl

apart : is_some (detect_adaptive january (writing 3 ("2024-02" ∷ []))) ≡ false
unfolding detect_adaptive detect_partitions detect_writes detect_write overlaps
apart = refl

detect_adaptive-clashing_example :
    is_some (detect_adaptive january winter) ≡ clashing january.writes winter.writes
detect_adaptive-clashing_example = detect_adaptive-clashing january winter

detect_partitions-detect_tables_example : is_some (detect_tables january winter) ≡ true
detect_partitions-detect_tables_example = detect_partitions-detect_tables january winter found
