-- ===== src/Changelog/Tests.antt =====
-- The changelog of a log with two committed transactions, and the theorems on it.
use unifieddataruntime.Base.{
  ℕ, ◌≡◌, refl, true, some, List, [], ◌∷◌, any, All, eqb, string_eq, nat_eq, ok, arith,
}
use unifieddataruntime.Base.Int.{pos}
use unifieddataruntime.Transaction.{TransactionRecord, new_record, new_write, is_committed}
use unifieddataruntime.Transaction as Record
use unifieddataruntime.Transaction.Log.{
  TransactionLog, new_log, write_transaction, read_transaction_from_epoch,
}
use unifieddataruntime.Transaction.Log.Store.{stored, LogSound}
use unifieddataruntime.Transaction.Log.Committed.{committed_entries, list_committed_transactions}
use unifieddataruntime.Transaction.Log.Listed.{list_committed_transactions_lem}
use unifieddataruntime.Transaction.Log.Store.{sound-write}
use unifieddataruntime.Transaction.Manager.Restart.{new_log-Startable}
use unifieddataruntime.Changelog.{
  ChangelogEntry, ChangelogQuery, new_query, changelog_loop, get_changelog,
}
use unifieddataruntime.Changelog.Filtered.{all_entries, limited, get_changelog-filtered}

abbrev first : TransactionRecord ℕ
first =
    Record.mark_committed (pos 5)
      (Record.add_write (new_record (pos 1) 1 1 "main") (new_write "t" 1 ("h" ∷ [])))

abbrev second : TransactionRecord ℕ
second =
    Record.mark_committed (pos 6)
      (Record.add_write (new_record (pos 2) 2 1 "dev") (new_write "t" 2 ("k" ∷ [])))

abbrev one_log : TransactionLog ℕ
one_log = write_transaction new_log first

abbrev two_log : TransactionLog ℕ
two_log = write_transaction one_log second

abbrev of_dev : ChangelogQuery
of_dev = record new_query { branch = some "dev"; limit = some 0 }

two_listed : list_committed_transactions two_log ≡ ok (first ∷ second ∷ [], two_log)
unfolding list_committed_transactions committed_entries write_transaction
    read_transaction_from_epoch
two_listed = refl

abbrev entry_of_second : ChangelogEntry
entry_of_second = record {
  tx_id = 2;
  epoch_id = 1;
  committed_at = pos 6;
  branch = "dev";
  changes =
      record { table_name = "t"; old_version = some 1; new_version = 2; chunk_hashes = "k" ∷ [] }
      ∷ [];
  metadata = [];
}

-- The old version is that of the entry which the query leaves out; the limit of 0 counts as 1.
dev_changelog : get_changelog two_log of_dev ≡ ok (entry_of_second ∷ [], two_log)
unfolding get_changelog changelog_loop list_committed_transactions committed_entries
    write_transaction read_transaction_from_epoch
dev_changelog = refl

get_changelog-filtered_example :
    get_changelog two_log of_dev
    ≡ ok (limited of_dev.limit (all_entries of_dev [] (first ∷ second ∷ [])), two_log)
get_changelog-filtered_example =
    get_changelog-filtered two_log two_log of_dev (first ∷ second ∷ []) two_listed

one-LogSound : LogSound one_log
one-LogSound =
    sound-write new_log first (λ e s k. ground (arith, k)) (λ i. refl) new_log-Startable.log_sound

one_indexed : one_log.committed_index ≡ some ((1, 1) ∷ [])
unfolding write_transaction
one_indexed = refl

list_committed_transactions_lem_example :
    (rs : List (TransactionRecord ℕ)) × (list_committed_transactions one_log ≡ ok (rs, one_log))
    × ((e t : ℕ) (r : TransactionRecord ℕ)
        → stored one_log e t ≡ some r
        → is_committed r ≡ true
        → any (λ (x : TransactionRecord ℕ). eqb x.tx_id t) rs ≡ true)
    × All (λ (r : TransactionRecord ℕ). is_committed r ≡ true) rs
list_committed_transactions_lem_example =
    list_committed_transactions_lem one_log ((1, 1) ∷ []) one-LogSound one_indexed
