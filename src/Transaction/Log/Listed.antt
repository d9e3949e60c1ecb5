-- ===== src/Transaction/Log/Listed.antt =====
-- The list of committed transactions of a sound log with an index has them all, and no other.
use unifieddataruntime.Base.{
  ◌∙◌, sym, ap, ℕ, ◌≡◌, refl, true, Option, none, some, List, [], ◌∷◌, any, All, eqb, nat_eq, ok,
  arith,
}
use unifieddataruntime.Transaction.{TransactionRecord, is_committed}
use unifieddataruntime.Transaction.Log.{TransactionLog, entries, read_transaction_from_epoch}
use unifieddataruntime.Transaction.Log.Store.{pair_in, stored, indexed, LogSound}
use unifieddataruntime.Transaction.Log.Committed.{
  committed_entries, read_all, list_committed_transactions,
}

module _ {Json : Type 0} where
  read_all-has :
      (l : TransactionLog Json) (e t : ℕ) (r : TransactionRecord Json) (ps : List (ℕ × ℕ))
      → stored l e t ≡ some r
      → r.tx_id ≡ t
      → pair_in e t ps ≡ true
      → any (λ (x : TransactionRecord Json). eqb x.tx_id t) (read_all l ps) ≡ true
  unfolding read_transaction_from_epoch
  read_all-has l e t r [] at i h = ground (arith, h)
  read_all-has l e t r ((d, u) ∷ ps) at i h = go (stored l d u) refl (read_all-has l e t r ps at i)
    where
      go :
          (o : Option (TransactionRecord Json))
          → stored l d u ≡ o
          → (pair_in e t ps ≡ true
              → any (λ (x : TransactionRecord Json). eqb x.tx_id t) (read_all l ps) ≡ true)
          → any (λ (x : TransactionRecord Json). eqb x.tx_id t) (read_all l ((d, u) ∷ ps)) ≡ true
      go none k later = ground (arith, k, at, h, later)
      go (some x) k later = ground (arith, k, at, h, i, later)

  read_all-committed :
      (l : TransactionLog Json) (ps : List (ℕ × ℕ))
      → ((e t : ℕ)
          → pair_in e t ps ≡ true
          → (r : TransactionRecord Json) × (stored l e t ≡ some r) × (is_committed r ≡ true))
      → All (λ (r : TransactionRecord Json). is_committed r ≡ true) (read_all l ps)
  unfolding read_transaction_from_epoch
  read_all-committed l [] h = tt
  read_all-committed l ((d, u) ∷ ps) h =
      let (r, at, c) = h d u (ground arith) in
      let later = read_all-committed l ps (λ e t i. h e t (ground (arith, i))) in
      rw (read_all, at) (c, later)

  -- In a sound log that has an index the list of committed transactions succeeds without changing the
  -- log, has one with the id of each stored transaction that is committed, and has committed ones
  -- alone.
  pub list_committed_transactions_lem :
      (l : TransactionLog Json) (ps : List (ℕ × ℕ))
      → LogSound l
      → l.committed_index ≡ some ps
      → (rs : List (TransactionRecord Json)) × (list_committed_transactions l ≡ ok (rs, l))
        × ((e t : ℕ) (r : TransactionRecord Json)
            → stored l e t ≡ some r
            → is_committed r ≡ true
            → any (λ (x : TransactionRecord Json). eqb x.tx_id t) rs ≡ true)
        × All (λ (r : TransactionRecord Json). is_committed r ≡ true) rs
  unfolding list_committed_transactions committed_entries
  list_committed_transactions_lem l ps s e =
      let same : (d t : ℕ) → indexed l d t ≡ pair_in d t ps =
        λ d t. ap (λ i. pair_in d t (entries i)) e in
      let found : committed_entries l ≡ ok (ps, l) = simp (committed_entries, e) in
      (
        read_all l ps,
        rw (list_committed_transactions, found) refl,
        (λ d t r at c.
            read_all-has l d t r ps at (s.keyed d t r at).1
              (sym (same d t) ∙ s.index_complete d t r at c)),
        read_all-committed l ps (λ d t i. s.index_stored d t (same d t ∙ i)),
      )
