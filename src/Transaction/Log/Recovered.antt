-- ===== src/Transaction/Log/Recovered.antt =====
-- What recovery leaves: every transaction that was pending is aborted, and all else is as it was.
use unifieddataruntime.Base.{
  ◌⊎◌, subst, ℕ, ◌≡◌, refl, sym, Bool, true, false, Option, none, some, List, [], ◌∷◌, eqb, find,
  if◌then◌else◌, nat_eq, Result, ok, err, arith, Bool-cases, Option-cases, inl, inr, ◌==◌,
}
use unifieddataruntime.Base.HashSet
use unifieddataruntime.Transaction.{TransactionRecord, is_committed, mark_aborted}
use unifieddataruntime.Transaction.Epoch.{TransactionError}
use unifieddataruntime.Transaction.Log.{
  TransactionLog, entries, rev, list_epochs, write_transaction, read_transaction_from_epoch,
  read_transaction, scan_for,
}
use unifieddataruntime.Transaction.Log.Store.{
  stored, indexed, LogSound, stored-write, sound-write, read_transaction-stored,
}
use unifieddataruntime.Transaction.Log.Scanned.{is_pending, pending_at, settle, recover-rolled}
use unifieddataruntime.Transaction.Log.Recovery.{
  Message, RecoveryReport, error, recover, rollback_reason, roll_back, recover_and_apply,
}

module _ {Json : Type 0} where
  -- One transaction of the list of those to roll back.
  abbrev pub roll_one : TransactionLog Json → ℕ → TransactionLog Json
  roll_one l t = elim (read_transaction l t) [
    | err x ↦ l
    | ok r ↦ if is_pending r then write_transaction l (mark_aborted r rollback_reason) else l
  ]

  scan_for-at :
      (l : TransactionLog Json) (t : ℕ) (r : TransactionRecord Json) (es : List ℕ)
      → scan_for l t es ≡ ok r
      → (e : ℕ) × (stored l e t ≡ some r)
  scan_for-at l t r [] h = ground (arith, h)
  scan_for-at l t r (d ∷ ds) h = go (stored l d t) refl (scan_for-at l t r ds)
    where
      go :
          (o : Option (TransactionRecord Json))
          → stored l d t ≡ o
          → (scan_for l t ds ≡ ok r → (e : ℕ) × (stored l e t ≡ some r))
          → (e : ℕ) × (stored l e t ≡ some r)
      go none k later = later (ground (arith, h, k))
      go (some x) k later = (d, ground (arith, h, k))

  -- What is read is stored.
  read_transaction-at :
      (l : TransactionLog Json) (t : ℕ) (r : TransactionRecord Json)
      → read_transaction l t ≡ ok r
      → (e : ℕ) × (stored l e t ≡ some r)
  unfolding read_transaction read_transaction_from_epoch
  read_transaction-at l t r h = go (find (λ (p : ℕ × ℕ). p.1 == t) (entries l.committed_index)) refl
    where
      scanned : (es : List ℕ) → scan_for l t es ≡ ok r → (e : ℕ) × (stored l e t ≡ some r)
      scanned es k = scan_for-at l t r es k

      go :
          (o : Option (ℕ × ℕ))
          → find (λ (p : ℕ × ℕ). p.1 == t) (entries l.committed_index) ≡ o
          → (e : ℕ) × (stored l e t ≡ some r)
      go none k = scanned (rev (list_epochs l)) (ground (arith, h, k))
      go (some (d, u)) k = (d, ground (arith, h, k))

  -- What a log and its successor have at each place, and that the successor is sound.
  abbrev Settles : TransactionLog Json → TransactionLog Json → (ℕ → Bool) → Type 0
  Settles l k chosen =
      LogSound k
      × ((e t : ℕ) → stored k e t ≡ (if chosen t then settle (stored l e t) else stored l e t))

  abort-Settles :
      (l : TransactionLog Json) (r : TransactionRecord Json)
      → LogSound l
      → stored l r.epoch_id r.tx_id ≡ some r
      → is_pending r ≡ true
      → Settles l (write_transaction l (mark_aborted r rollback_reason)) (λ u. eqb r.tx_id u)
  abort-Settles l r s own p =
      let a : TransactionRecord Json = mark_aborted r rollback_reason in
      let only : (d : ℕ) (x : TransactionRecord Json)
          → stored l d r.tx_id ≡ some x
          → d ≡ r.epoch_id =
        λ d x at. s.unique d r.epoch_id r.tx_id x r at own in
      let not_indexed : indexed l r.epoch_id r.tx_id ≡ true → is_committed a ≡ true = λ i.
        let (x, at, c) = s.index_stored r.epoch_id r.tx_id i in ground (arith, at, c, p, own) in
      (
        sound-write l a only not_indexed s,
        λ d u. elim (Option-cases (stored l d r.tx_id)) [
          | inl n ↦ ground (arith, stored-write l a d u, own, n, p)
          | inr (x, at) ↦ let e = only d x at in ground (arith, stored-write l a d u, own, e, at, p)
        ],
      )

  roll_one-Settles :
      (l : TransactionLog Json) (t : ℕ) → LogSound l → Settles l (roll_one l t) (λ u. eqb t u)
  roll_one-Settles l t s = go (read_transaction l t) refl
    where
      go :
          (o : Result TransactionError (TransactionRecord Json))
          → read_transaction l t ≡ o
          → Settles l (roll_one l t) (λ u. eqb t u)
      go (err x) k =
          let gone : (e : ℕ) → stored l e t ≡ none = λ e. elim (Option-cases (stored l e t)) [
            | inl n ↦ n
            | inr (r, at) ↦
                let found = read_transaction-stored l e t r s at in ground (arith, k, found)
          ] in
          rw (roll_one, k) (s, λ e u. ground (arith, gone e))
      go (ok r) k =
          let (e, at) = read_transaction-at l t r k in
          let (ke, kt) = s.keyed e t r at in
          let own : stored l r.epoch_id r.tx_id ≡ some r =
            subst (λ d. stored l d r.tx_id ≡ some r) (sym ke)
              (subst (λ u. stored l e u ≡ some r) (sym kt) at) in
          let only : (d : ℕ) (x : TransactionRecord Json) → stored l d t ≡ some x → x ≡ r =
            λ d x at'.
              let there = read_transaction-stored l d t x s at' in ground (arith, there, k) in
          chosen (Bool-cases (is_pending r)) own only kt
        where
          chosen :
              (is_pending r ≡ true) ⊎ (is_pending r ≡ false)
              → stored l r.epoch_id r.tx_id ≡ some r
              → ((d : ℕ) (x : TransactionRecord Json) → stored l d t ≡ some x → x ≡ r)
              → r.tx_id ≡ t
              → Settles l (roll_one l t) (λ u. eqb t u)
          chosen (inl p) own only kt =
              let a : TransactionRecord Json = mark_aborted r rollback_reason in
              let run : roll_one l t ≡ write_transaction l a = rw (roll_one, k, p) refl in
              let (sound, frame) = abort-Settles l r s own p in
              rw (run) (sound, λ d u. ground (arith, frame d u, kt))
          chosen (inr p) own only kt =
              let run : roll_one l t ≡ l = rw (roll_one, k, p) refl in
              rw (run) (
                s,
                λ d u. elim (Option-cases (stored l d t)) [
                  | inl n ↦ ground (arith, n)
                  | inr (x, at) ↦ let e = only d x at in ground (arith, e, at, p)
                ],
              )

  roll_back-cons :
      (l : TransactionLog Json) (t : ℕ) (ts : List ℕ) (r : RecoveryReport)
      → (r' : RecoveryReport) × (roll_back (t ∷ ts) (r, l) ≡ roll_back ts (r', roll_one l t))
  roll_back-cons l t ts r = go (read_transaction l t) refl
    where
      go :
          (o : Result TransactionError (TransactionRecord Json))
          → read_transaction l t ≡ o
          → (r' : RecoveryReport) × (roll_back (t ∷ ts) (r, l) ≡ roll_back ts (r', roll_one l t))
      go (err x) k = (error r (Message.failed_to_roll_back t x), rw (roll_back, roll_one, k) refl)
      go (ok tx) k = (r, rw (roll_back, roll_one, k) refl)

  roll_back-Settles :
      (ts : List ℕ) (l : TransactionLog Json) (r : RecoveryReport)
      → LogSound l
      → Settles l (roll_back ts (r, l)).1 (λ t. HashSet.contains t ts)
  roll_back-Settles [] l r s = (s, λ e t. refl)
  roll_back-Settles (t ∷ ts) l r s =
      let (r', run) = roll_back-cons l t ts r in
      let (s', first) = roll_one-Settles l t s in
      let (s'', rest) = roll_back-Settles ts (roll_one l t) r' s' in
      rw (run) (s'', λ e u. ground (arith, first e u, rest e u))

  settle-settled : (o : Option (TransactionRecord Json)) → pending_at o ≡ false → settle o ≡ o
  settle-settled none p = refl
  settle-settled (some r) p = rw (p) refl

  -- Recovery from a sound log, whatever crashed: afterwards each transaction that was active or
  -- preparing is aborted with the reason of recovery, each other one is as it was in its place, none
  -- is added, and the log is sound.
  pub recover_and_apply_lem :
      (l : TransactionLog Json)
      → LogSound l
      → LogSound (recover_and_apply l).1
        × ((e t : ℕ) → stored (recover_and_apply l).1 e t ≡ settle (stored l e t))
  unfolding recover_and_apply
  recover_and_apply_lem l s =
      let (s', after) = roll_back-Settles (recover l).rolled_back l (recover l) s in
      (
        s',
        λ e t. elim (Bool-cases (pending_at (stored l e t))) [
          | inl p ↦ rw (after e t, recover-rolled l e t p) refl
          | inr p ↦ let same = settle-settled (stored l e t) p in ground (arith, after e t, same)
        ],
      )

  roll_one-keeps :
      (P : TransactionLog Json → Type 0)
      → ((l : TransactionLog Json) (r : TransactionRecord Json) → P l → P (write_transaction l r))
      → (l : TransactionLog Json) (t : ℕ) → P l
      → P (roll_one l t)
  roll_one-keeps P w l t h = go (read_transaction l t) refl
    where
      go :
          (o : Result TransactionError (TransactionRecord Json))
          → read_transaction l t ≡ o
          → P (roll_one l t)
      go (err x) k = let run : roll_one l t ≡ l = rw (roll_one, k) refl in subst P (sym run) h
      go (ok r) k = elim (Bool-cases (is_pending r)) [
        | inl p ↦
            let run : roll_one l t ≡ write_transaction l (mark_aborted r rollback_reason) =
              rw (roll_one, k, p) refl in
            subst P (sym run) (w l (mark_aborted r rollback_reason) h)
        | inr p ↦ let run : roll_one l t ≡ l = rw (roll_one, k, p) refl in subst P (sym run) h
      ]

  roll_back-keeps :
      (P : TransactionLog Json → Type 0)
      → ((l : TransactionLog Json) (r : TransactionRecord Json) → P l → P (write_transaction l r))
      → (ts : List ℕ) (l : TransactionLog Json) (r : RecoveryReport) → P l
      → P (roll_back ts (r, l)).1
  roll_back-keeps P w [] l r h = h
  roll_back-keeps P w (t ∷ ts) l r h =
      let (r', run) = roll_back-cons l t ts r in
      subst (λ q. P q.1) (sym run)
        (roll_back-keeps P w ts (roll_one l t) r' (roll_one-keeps P w l t h))

  -- What every write keeps, recovery keeps.
  pub recover_and_apply-keeps :
      (P : TransactionLog Json → Type 0)
      → ((l : TransactionLog Json) (r : TransactionRecord Json) → P l → P (write_transaction l r))
      → (l : TransactionLog Json) → P l
      → P (recover_and_apply l).1
  unfolding recover_and_apply
  recover_and_apply-keeps P w l h = roll_back-keeps P w (recover l).rolled_back l (recover l) h
