-- ===== src/Transaction/Log/Committed.antt =====
-- rhizo_core/src/transaction/log.rs: the lists of committed transactions, from the index or, where it
-- is missing, from a scan that writes it.
use unifieddataruntime.Base.{
  ℕ, Option, none, some, List, [], ◌∷◌, ◌++◌, leb, if◌then◌else◌, nat_eq, Result, ok, err, ◌>>=◌,
}
use unifieddataruntime.Transaction.{TransactionRecord, is_committed}
use unifieddataruntime.Transaction.Epoch.{TransactionError}
use unifieddataruntime.Transaction.Log.{
  TransactionLog, list_epochs, list_transactions_in_epoch, read_transaction_from_epoch,
  update_latest_committed,
}

-- `sort_by_key` by the id.
abbrev pub insert_entry : ℕ × ℕ → List (ℕ × ℕ) → List (ℕ × ℕ)
insert_entry p [] = p ∷ []
insert_entry p (q ∷ qs) = if leb (p.1) (q.1) then p ∷ q ∷ qs else q ∷ insert_entry p qs

abbrev pub sort_by_tx : List (ℕ × ℕ) → List (ℕ × ℕ)
sort_by_tx [] = []
sort_by_tx (p ∷ ps) = insert_entry p (sort_by_tx ps)

abbrev pub after : ℕ → List (ℕ × ℕ) → List (ℕ × ℕ)
after since [] = []
after since (p ∷ ps) = let rest = after since ps in if leb (p.1) since then rest else p ∷ rest

module _ {Json : Type 0} where
  -- The committed ones of some ids of an epoch; what cannot be read is left out.
  abbrev pub committed_of : TransactionLog Json → ℕ → List ℕ → List (ℕ × ℕ)
  committed_of l e [] = []
  committed_of l e (t ∷ ts) =
      let rest = committed_of l e ts in
      elim (read_transaction_from_epoch l t e) [
        | err _ ↦ rest
        | ok r ↦ if is_committed r then (e, t) ∷ rest else rest
      ]

  abbrev pub committed_in : TransactionLog Json → List ℕ → Result TransactionError (List (ℕ × ℕ))
  committed_in l [] = ok []
  committed_in l (e ∷ es) = do
    ts ← list_transactions_in_epoch l e
    rest ← committed_in l es
    ok (committed_of l e ts ++ rest)

  abbrev pub write_index : TransactionLog Json → List (ℕ × ℕ) → TransactionLog Json
  write_index l [] = l
  write_index l (p ∷ ps) = record l { committed_index = some (p ∷ ps) }

  -- The index, and the log that holds it: `rebuild_committed_index` where there is none.
  unfoldable pub committed_entries :
      TransactionLog Json → Result TransactionError (List (ℕ × ℕ) × TransactionLog Json)
  committed_entries l = elim l.committed_index [
    | some ps ↦ ok (ps, l)
    | none ↦
        committed_in l (list_epochs l) >>= λ ps. ok (sort_by_tx ps, write_index l (sort_by_tx ps))
  ]

  -- The transactions of some entries; what cannot be read is left out.
  abbrev pub read_all : TransactionLog Json → List (ℕ × ℕ) → List (TransactionRecord Json)
  read_all l [] = []
  read_all l ((e, t) ∷ ps) =
      let rest = read_all l ps in
      elim (read_transaction_from_epoch l t e) [ err _ ↦ rest | ok r ↦ r ∷ rest ]

  unfoldable pub list_committed_transactions :
      TransactionLog Json
      → Result TransactionError (List (TransactionRecord Json) × TransactionLog Json)
  unfolding committed_entries
  list_committed_transactions l = do p ← committed_entries l; ok (read_all (p.1) (p.0), p.1)

  unfoldable pub list_committed_since :
      TransactionLog Json
      → ℕ
      → Result TransactionError (List (TransactionRecord Json) × TransactionLog Json)
  unfolding committed_entries
  list_committed_since l since = do
    p ← committed_entries l
    ok (read_all (p.1) (after since (p.0)), p.1)

  abbrev pub last_id : List (TransactionRecord Json) → Option ℕ
  last_id [] = none
  last_id (r ∷ []) = some r.tx_id
  last_id (r ∷ s ∷ rs) = last_id (s ∷ rs)

  abbrev pub backfill : TransactionLog Json → Option ℕ → TransactionLog Json
  backfill l none = l
  backfill l (some t) = update_latest_committed l t

  unfoldable pub latest_committed_tx_id :
      TransactionLog Json → Result TransactionError (Option ℕ × TransactionLog Json)
  unfolding list_committed_transactions
  latest_committed_tx_id l = elim l.latest_committed [
    | some t ↦ ok (some t, l)
    | none ↦
        list_committed_transactions l >>= λ p. ok (last_id (p.0), backfill (p.1) (last_id (p.0)))
  ]
