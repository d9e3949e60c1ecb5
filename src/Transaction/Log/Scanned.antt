-- ===== src/Transaction/Log/Scanned.antt =====
-- What the scan of recovery lists: the transactions that are pending.
use unifieddataruntime.Base.{
  length, ℕ, ◌≡◌, refl, Bool, true, false, ◌&&◌, ◌||◌, Option, none, some, List, [], ◌∷◌, eqb, any,
  if◌then◌else◌, nat_eq, arith, Bool-cases, inl, inr, ◌+◌,
}
use unifieddataruntime.Base.Dict
use unifieddataruntime.Base.Dict.{Dict, keys}
use unifieddataruntime.Base.HashSet
use unifieddataruntime.Base.Sort.{sort_numbers, contains-sort_numbers, contains-keys_ℕ}
use unifieddataruntime.Transaction.{
  TransactionStatus, TransactionRecord, is_active, is_preparing, is_committed, mark_aborted,
}
use unifieddataruntime.Transaction.Epoch.{TransactionError}
use unifieddataruntime.Transaction.Log.{
  TransactionLog, EpochDir, list_epochs, is_epoch_committed, list_transactions_in_epoch,
  read_transaction_from_epoch,
}
use unifieddataruntime.Transaction.Log.Store.{contains-append, stored}
use unifieddataruntime.Transaction.Log.Recovery.{
  Message, RecoveryReport, new_report, error, decide, note, scan_transactions, scan_epoch,
  scan_epochs, recover, rollback_reason,
}

module _ {Json : Type 0} where
  abbrev pub is_pending : TransactionRecord Json → Bool
  is_pending r = is_active r || is_preparing r

  abbrev pub pending_at : Option (TransactionRecord Json) → Bool
  pending_at none = false
  pending_at (some r) = is_pending r

  -- What recovery makes of what the log has at a place.
  abbrev pub settle : Option (TransactionRecord Json) → Option (TransactionRecord Json)
  settle none = none
  settle (some r) = if is_pending r then some (mark_aborted r rollback_reason) else some r

  -- Recovery adds no transaction, and commits none.
  pub settle-from :
      (o : Option (TransactionRecord Json)) (r : TransactionRecord Json)
      → settle o ≡ some r
      → (x : TransactionRecord Json) × (o ≡ some x)
  settle-from none r h = ground (arith, h)
  settle-from (some x) r h = (x, refl)

  pub settle-uncommitted :
      (o : Option (TransactionRecord Json)) (old : TransactionRecord Json)
      → o ≡ some old
      → is_committed old ≡ false
      → (r : TransactionRecord Json) × (settle o ≡ some r) × (is_committed r ≡ false)
  settle-uncommitted o old h c = elim (Bool-cases (is_pending old)) [
    | inl p ↦ (mark_aborted old rollback_reason, rw (h, p) refl, refl)
    | inr p ↦ (old, rw (h, p) refl, c)
  ]

  note-rolled :
      (done : Bool) (e u t : ℕ) (x : TransactionRecord Json) (r : RecoveryReport)
      → HashSet.contains t (note done e u (decide x) r).rolled_back
        ≡ (HashSet.contains t r.rolled_back || (eqb u t && is_pending x))
  note-rolled done e u t x r = go x.status refl
    where
      go :
          (s : TransactionStatus)
          → x.status ≡ s
          → HashSet.contains t (note done e u (decide x) r).rolled_back
            ≡ (HashSet.contains t r.rolled_back || (eqb u t && is_pending x))
      go TransactionStatus.active k = ground (arith, k, contains-append t r.rolled_back (u ∷ []))
      go TransactionStatus.preparing k = ground (arith, k, contains-append t r.rolled_back (u ∷ []))
      go TransactionStatus.committed k = ground (arith, k)
      go (TransactionStatus.aborted _) k = ground (arith, k)

  -- The report after a transaction is read.
  abbrev pub after_read :
      Bool → ℕ → ℕ → Option (TransactionRecord Json) → RecoveryReport → RecoveryReport
  after_read done e u none r =
      error (record r { transactions_scanned = r.transactions_scanned + 1 })
        (Message.failed_to_read u (TransactionError.transaction_not_found u))
  after_read done e u (some x) r =
      note done e u (decide x) (record r { transactions_scanned = r.transactions_scanned + 1 })

  scan_transactions-cons :
      (l : TransactionLog Json) (e : ℕ) (done : Bool) (u : ℕ) (us : List ℕ) (r : RecoveryReport)
      → scan_transactions l e done (u ∷ us) r
        ≡ scan_transactions l e done us (after_read done e u (stored l e u) r)
  unfolding read_transaction_from_epoch
  scan_transactions-cons l e done u us r = go (stored l e u) refl
    where
      go :
          (o : Option (TransactionRecord Json))
          → stored l e u ≡ o
          → scan_transactions l e done (u ∷ us) r
            ≡ scan_transactions l e done us (after_read done e u (stored l e u) r)
      go none k = rw (scan_transactions, k) refl
      go (some x) k = rw (scan_transactions, k) refl

  after_read-rolled :
      (done : Bool) (e u t : ℕ) (o : Option (TransactionRecord Json)) (r : RecoveryReport)
      → HashSet.contains t (after_read done e u o r).rolled_back
        ≡ (HashSet.contains t r.rolled_back || (eqb u t && pending_at o))
  after_read-rolled done e u t none r = ground arith
  after_read-rolled done e u t (some x) r =
      note-rolled done e u t x (record r { transactions_scanned = r.transactions_scanned + 1 })

  scan_transactions-rolled :
      (l : TransactionLog Json) (e : ℕ) (done : Bool) (ts : List ℕ) (r : RecoveryReport) (t : ℕ)
      → HashSet.contains t (scan_transactions l e done ts r).rolled_back
        ≡ (HashSet.contains t r.rolled_back || (HashSet.contains t ts && pending_at (stored l e t)))
  scan_transactions-rolled l e done [] r t = ground arith
  scan_transactions-rolled l e done (u ∷ us) r t =
      let r' : RecoveryReport = after_read done e u (stored l e u) r in
      rw
        (
          scan_transactions-cons l e done u us r,
          scan_transactions-rolled l e done us r' t,
          after_read-rolled done e u t (stored l e u) r,
        )
        (ground arith)

  scan_epoch-rolled :
      (l : TransactionLog Json) (e : ℕ) (done : Bool) (r : RecoveryReport) (t : ℕ)
      → HashSet.contains t (scan_epoch l e done r).rolled_back
        ≡ (HashSet.contains t r.rolled_back || pending_at (stored l e t))
  unfolding scan_epoch list_transactions_in_epoch
  scan_epoch-rolled l e done r t = go (Dict.lookup e l.epochs) refl
    where
      go :
          (o : Option (EpochDir Json))
          → Dict.lookup e l.epochs ≡ o
          → HashSet.contains t (scan_epoch l e done r).rolled_back
            ≡ (HashSet.contains t r.rolled_back || pending_at (stored l e t))
      go none k = ground (arith, k)
      go (some d) k =
          let ts : List ℕ = sort_numbers (keys d.txs) in
          ground (
            arith,
            k,
            scan_transactions-rolled l e done ts r t,
            contains-sort_numbers t (keys d.txs),
            contains-keys_ℕ t d.txs,
          )

  -- A list of epochs in which a transaction is pending.
  abbrev pub pending_in : TransactionLog Json → ℕ → List ℕ → Bool
  pending_in l t es = any (λ e. pending_at (stored l e t)) es

  scan_epochs-rolled :
      (l : TransactionLog Json) (es : List ℕ) (r : RecoveryReport) (t : ℕ)
      → HashSet.contains t (scan_epochs l es r).rolled_back
        ≡ (HashSet.contains t r.rolled_back || pending_in l t es)
  scan_epochs-rolled l [] r t = ground arith
  scan_epochs-rolled l (e ∷ es) r t =
      let done : Bool = is_epoch_committed l e in
      let r' : RecoveryReport = if done then record r { last_committed_epoch = some e } else r in
      let kept : r'.rolled_back ≡ r.rolled_back = ground (arith) in
      rw (scan_epochs-rolled l es (scan_epoch l e done r') t, scan_epoch-rolled l e done r' t, kept)
        (ground arith)

  pending_in-at :
      (l : TransactionLog Json) (e t : ℕ) (es : List ℕ)
      → HashSet.contains e es ≡ true
      → pending_at (stored l e t) ≡ true
      → pending_in l t es ≡ true
  pending_in-at l e t [] i p = ground (arith, i)
  pending_in-at l e t (d ∷ ds) i p = ground (arith, i, p, pending_in-at l e t ds)

  -- The scan lists every transaction that is pending in some epoch.
  pub recover-rolled :
      (l : TransactionLog Json) (e t : ℕ)
      → pending_at (stored l e t) ≡ true
      → HashSet.contains t (recover l).rolled_back ≡ true
  unfolding recover
  recover-rolled l e t p =
      let listed : HashSet.contains e (list_epochs l) ≡ true =
        rw (contains-sort_numbers e (keys l.epochs), contains-keys_ℕ e l.epochs)
          (ground (arith, p)) in
      let r : RecoveryReport = record new_report { epochs_scanned = length (list_epochs l) } in
      rw (scan_epochs-rolled l (list_epochs l) r t, pending_in-at l e t (list_epochs l) listed p)
        refl
