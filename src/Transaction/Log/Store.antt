-- ===== src/Transaction/Log/Store.antt =====
-- The soundness of the log: each transaction stands in one epoch, under its own id, and the index
-- names the committed ones. A write keeps it, and a stored transaction is always found again.
use unifieddataruntime.Base.{
  subst, ℕ, ◌≡◌, refl, Bool, true, false, ◌&&◌, ◌||◌, Option, none, some, List, [], ◌∷◌, ◌++◌, eqb,
  find, if◌then◌else◌, nat_eq, ok, arith, Bool-cases, inl, inr, ◌==◌,
}
use unifieddataruntime.Base.Dict
use unifieddataruntime.Base.Dict.{Dict, lookup-insert, keys}
use unifieddataruntime.Base.HashSet
use unifieddataruntime.Base.Sort.{contains-sort_numbers, contains-keys_ℕ}
use unifieddataruntime.Transaction.{TransactionRecord, is_committed}
use unifieddataruntime.Transaction.Log.{
  TransactionLog, EpochDir, epoch_dir, set_epoch_dir, entries, rev, list_epochs, write_transaction,
  read_transaction_from_epoch, read_transaction, scan_for,
}

-- Whether a list of pairs has a pair.
abbrev pub pair_in : ℕ → ℕ → List (ℕ × ℕ) → Bool
pair_in e t [] = false
pair_in e t (p ∷ ps) = (eqb (p.0) e && eqb (p.1) t) || pair_in e t ps

pair_in-snoc :
    (e t d u : ℕ) (ps : List (ℕ × ℕ))
    → pair_in e t (ps ++ (d, u) ∷ []) ≡ (pair_in e t ps || (eqb d e && eqb u t))
pair_in-snoc e t d u [] = ground arith
pair_in-snoc e t d u (p ∷ ps) = ground (arith, pair_in-snoc e t d u ps)

pub contains-append :
    (e : ℕ) (xs ys : List ℕ)
    → HashSet.contains e (xs ++ ys) ≡ (HashSet.contains e xs || HashSet.contains e ys)
contains-append e [] ys = refl
contains-append e (x ∷ xs) ys = ground (arith, contains-append e xs ys)

contains-rev : (e : ℕ) (xs : List ℕ) → HashSet.contains e (rev xs) ≡ HashSet.contains e xs
contains-rev e [] = refl
contains-rev e (x ∷ xs) = ground (arith, contains-append e (rev xs) (x ∷ []), contains-rev e xs)

find-pair :
    (t : ℕ) (ps : List (ℕ × ℕ)) (p : ℕ × ℕ)
    → find (λ (q : ℕ × ℕ). q.1 == t) ps ≡ some p
    → pair_in (p.0) t ps ≡ true
find-pair t [] p h = ground (arith, h)
find-pair t (q ∷ qs) p h = ground (arith, h, find-pair t qs p)

module _ {Json : Type 0} where
  abbrev pub stored : TransactionLog Json → ℕ → ℕ → Option (TransactionRecord Json)
  stored l e t = Dict.lookup t (epoch_dir l e).txs

  abbrev pub indexed : TransactionLog Json → ℕ → ℕ → Bool
  indexed l e t = pair_in e t (entries l.committed_index)

  pub record LogSound (l : TransactionLog Json) : Type 0 where
    pub keyed :
        (e t : ℕ) (r : TransactionRecord Json)
        → stored l e t ≡ some r
        → (r.epoch_id ≡ e) × (r.tx_id ≡ t)
    pub unique :
        (e d t : ℕ) (r s : TransactionRecord Json)
        → stored l e t ≡ some r
        → stored l d t ≡ some s
        → e ≡ d
    pub index_stored :
        (e t : ℕ)
        → indexed l e t ≡ true
        → (r : TransactionRecord Json) × (stored l e t ≡ some r) × (is_committed r ≡ true)
    pub index_complete :
        (e t : ℕ) (r : TransactionRecord Json)
        → stored l e t ≡ some r
        → is_committed r ≡ true
        → indexed l e t ≡ true

  pub epoch_dir-set :
      (l : TransactionLog Json) (e d : ℕ) (x : EpochDir Json)
      → epoch_dir (set_epoch_dir l e x) d ≡ (if eqb e d then x else epoch_dir l d)
  epoch_dir-set l e d x = ground (arith, lookup-insert e d x l.epochs)

  pub stored-write :
      (l : TransactionLog Json) (r : TransactionRecord Json) (e t : ℕ)
      → stored (write_transaction l r) e t
        ≡ (if eqb r.epoch_id e && eqb r.tx_id t then some r else stored l e t)
  unfolding write_transaction
  stored-write l r e t =
      let d : EpochDir Json = epoch_dir l r.epoch_id in
      ground (
        arith,
        lookup-insert r.epoch_id e (record d { txs = Dict.insert r.tx_id r d.txs }) l.epochs,
        lookup-insert r.tx_id t r d.txs,
      )

  pub indexed-write :
      (l : TransactionLog Json) (r : TransactionRecord Json) (e t : ℕ)
      → indexed (write_transaction l r) e t
        ≡ (indexed l e t || (is_committed r && (eqb r.epoch_id e && eqb r.tx_id t)))
  unfolding write_transaction
  indexed-write l r e t =
      ground (arith, pair_in-snoc e t r.epoch_id r.tx_id (entries l.committed_index))

  -- A write of a transaction that no other epoch has, and that takes the place of a committed one
  -- only if it is committed itself.
  pub sound-write :
      (l : TransactionLog Json) (r : TransactionRecord Json)
      → ((e : ℕ) (s : TransactionRecord Json) → stored l e r.tx_id ≡ some s → e ≡ r.epoch_id)
      → (indexed l r.epoch_id r.tx_id ≡ true → is_committed r ≡ true)
      → LogSound l
      → LogSound (write_transaction l r)
  sound-write l r here over s = record {
    keyed = λ e t x at. ground (arith, stored-write l r e t, at, s.keyed e t x);
    unique = λ e d t x y at at'. ground (
      arith,
      stored-write l r e t,
      stored-write l r d t,
      at,
      at',
      s.unique e d t x y,
      here e x,
      here d y,
    );
    index_stored = λ e t i. elim (Bool-cases (eqb r.epoch_id e && eqb r.tx_id t)) [
      | inl k ↦
          (r, rw (stored-write l r e t, k) refl, ground (arith, over, indexed-write l r e t, i, k))
      | inr k ↦
          let (x, at, c) = s.index_stored e t (ground (arith, indexed-write l r e t, i, k)) in
          (x, rw (stored-write l r e t, k) at, c)
    ];
    index_complete = λ e t x at c.
        ground (arith, stored-write l r e t, indexed-write l r e t, at, c, s.index_complete e t x);
  }

  -- The scan finds a transaction in the one epoch that has it.
  scan_for-stored :
      (l : TransactionLog Json) (e t : ℕ) (r : TransactionRecord Json) (es : List ℕ)
      → LogSound l
      → stored l e t ≡ some r
      → HashSet.contains e es ≡ true
      → scan_for l t es ≡ ok r
  scan_for-stored l e t r [] s at i = ground (arith, i)
  scan_for-stored l e t r (d ∷ ds) s at i = go (stored l d t) refl (scan_for-stored l e t r ds s at)
    where
      go :
          (o : Option (TransactionRecord Json))
          → stored l d t ≡ o
          → (HashSet.contains e ds ≡ true → scan_for l t ds ≡ ok r)
          → scan_for l t (d ∷ ds) ≡ ok r
      go none k later = ground (arith, k, at, i, later)
      go (some x) k later = ground (arith, k, at, s.unique e d t r x)

  stored-listed :
      (l : TransactionLog Json) (e t : ℕ) (r : TransactionRecord Json)
      → stored l e t ≡ some r
      → HashSet.contains e (rev (list_epochs l)) ≡ true
  stored-listed l e t r at =
      rw
        (
          contains-rev e (list_epochs l),
          contains-sort_numbers e (keys l.epochs),
          contains-keys_ℕ e l.epochs,
        )
        (ground (arith, at))

  -- In a sound log a stored transaction is read back, through the index or by the scan.
  pub read_transaction-stored :
      (l : TransactionLog Json) (e t : ℕ) (r : TransactionRecord Json)
      → LogSound l
      → stored l e t ≡ some r
      → read_transaction l t ≡ ok r
  unfolding read_transaction read_transaction_from_epoch
  read_transaction-stored l e t r s at =
      go (find (λ (p : ℕ × ℕ). p.1 == t) (entries l.committed_index)) refl
    where
      go :
          (o : Option (ℕ × ℕ))
          → find (λ (p : ℕ × ℕ). p.1 == t) (entries l.committed_index) ≡ o
          → read_transaction l t ≡ ok r
      go none k =
          rw (read_transaction, k)
            (scan_for-stored l e t r (rev (list_epochs l)) s at (stored-listed l e t r at))
      go (some (d, u)) k =
          let (x, at', c) = s.index_stored d t (find-pair t (entries l.committed_index) (d, u) k) in
          let same : e ≡ d = s.unique e d t r x at at' in
          let here : stored l d t ≡ some r = subst (λ f. stored l f t ≡ some r) same at in
          ground (arith, k, here)
