-- ===== src/Transaction/Manager/Sound.antt =====
-- The soundness of a manager: its log is sound, the ids are those that the log gave out, and each
-- active transaction stands in the log, in an epoch with metadata, as one that is not committed.
use unifieddataruntime.Base.{
  subst, ℕ, ◌≡◌, ◌≤◌, refl, sym, ap, ◌∙◌, true, false, Option, none, some, eqb, length, All,
  if◌then◌else◌, nat_eq, ok, arith, Bool-cases, inl, inr,
}
use unifieddataruntime.Base.Int.{ℤ}
use unifieddataruntime.Base.Dict
use unifieddataruntime.Base.Dict.{Dict, lookup-insert}
use unifieddataruntime.Transaction.{TransactionRecord, is_active, is_committed}
use unifieddataruntime.Transaction.Epoch.{EpochMetadata, new_epoch}
use unifieddataruntime.Transaction.Log.{
  TransactionLog, EpochDir, epoch_dir, write_transaction, write_epoch_metadata, get_epoch, entries,
  current_tx_id, current_epoch_id, create_epoch,
}
use unifieddataruntime.Transaction.Log.Store.{
  pair_in, stored, indexed, LogSound, sound-write, epoch_dir-set,
}
use unifieddataruntime.Transaction.Manager.{TransactionManager}

module _ {Json : Type 0} where
  -- An epoch that has metadata, which carries its number.
  abbrev pub HasEpoch : TransactionLog Json → ℕ → Type 0
  HasEpoch l e = (meta : EpochMetadata) × (get_epoch l e ≡ ok meta) × (meta.epoch_id ≡ e)

  -- What the log has of an active transaction.
  abbrev pub Backed : TransactionLog Json → TransactionRecord Json → Type 0
  Backed l r =
      (old : TransactionRecord Json) × (stored l r.epoch_id r.tx_id ≡ some old)
      × (is_committed old ≡ false)
      × HasEpoch l r.epoch_id

  pub record IsSound (m : TransactionManager Json) : Type 0 where
    pub log_sound : LogSound m.log
    pub given_out :
        (e t : ℕ) (r : TransactionRecord Json) → stored m.log e t ≡ some r → t ≤ current_tx_id m.log
    pub epoch_ready : (e : ℕ) → m.log.epoch_sequence ≡ some e → HasEpoch m.log e
    pub active_backed :
        (t : ℕ) (r : TransactionRecord Json)
        → Dict.lookup t m.active ≡ some r
        → (r.tx_id ≡ t) × (is_active r ≡ true) × Backed m.log r
    pub recent_bounded : length m.recent_committed ≤ m.max_recent_committed
    pub recent_committed_only : All (λ r. is_committed r ≡ true) m.recent_committed

  pub stored-metadata :
      (l : TransactionLog Json) (m : EpochMetadata) (e t : ℕ)
      → stored (write_epoch_metadata l m) e t ≡ stored l e t
  stored-metadata l m e t =
      ground
        (arith, epoch_dir-set l m.epoch_id e (record (epoch_dir l m.epoch_id) { meta = some m }))

  pub get_epoch-metadata :
      (l : TransactionLog Json) (m : EpochMetadata) (e : ℕ)
      → get_epoch (write_epoch_metadata l m) e ≡ (if eqb m.epoch_id e then ok m else get_epoch l e)
  unfolding get_epoch
  get_epoch-metadata l m e =
      ground
        (arith, epoch_dir-set l m.epoch_id e (record (epoch_dir l m.epoch_id) { meta = some m }))

  pub get_epoch-write :
      (l : TransactionLog Json) (r : TransactionRecord Json) (e : ℕ)
      → get_epoch (write_transaction l r) e ≡ get_epoch l e
  unfolding get_epoch write_transaction
  get_epoch-write l r e =
      let d : EpochDir Json = epoch_dir l r.epoch_id in
      ground (arith, epoch_dir-set l r.epoch_id e (record d { txs = Dict.insert r.tx_id r d.txs }))

  pub sequences-write :
      (l : TransactionLog Json) (r : TransactionRecord Json)
      → ((write_transaction l r).sequence ≡ l.sequence)
        × ((write_transaction l r).epoch_sequence ≡ l.epoch_sequence)
  unfolding write_transaction
  sequences-write l r = (ground arith, ground arith)

  pub HasEpoch-write :
      (l : TransactionLog Json) (r : TransactionRecord Json) (d : ℕ)
      → HasEpoch l d
      → HasEpoch (write_transaction l r) d
  HasEpoch-write l r d (n, k, e) = (n, rw (get_epoch-write l r d) k, e)

  pub LogSound-by :
      (l k : TransactionLog Json)
      → ((e t : ℕ) → stored k e t ≡ stored l e t)
      → k.committed_index ≡ l.committed_index
      → LogSound l
      → LogSound k
  LogSound-by l k same index s =
      let indexed_same : (e t : ℕ) → indexed k e t ≡ indexed l e t =
        λ e t. ap (λ i. pair_in e t (entries i)) index in
      record {
        keyed = λ e t r. rw (same e t) (s.keyed e t r);
        unique = λ e d t r x. rw (same e t, same d t) (s.unique e d t r x);
        index_stored = λ e t. rw (same e t, indexed_same e t) (s.index_stored e t);
        index_complete = λ e t r. rw (same e t, indexed_same e t) (s.index_complete e t r);
      }

  pub sound-metadata :
      (l : TransactionLog Json) (m : EpochMetadata)
      → LogSound l
      → LogSound (write_epoch_metadata l m)
  sound-metadata l m s =
      LogSound-by l (write_epoch_metadata l m) (λ e t. stored-metadata l m e t) refl s

  -- A transaction stays backed where its place in the log is kept.
  pub Backed-kept :
      (l k : TransactionLog Json) (r : TransactionRecord Json)
      → stored k r.epoch_id r.tx_id ≡ stored l r.epoch_id r.tx_id
      → (HasEpoch l r.epoch_id → HasEpoch k r.epoch_id)
      → Backed l r
      → Backed k r
  Backed-kept l k r same ready (old, at, c, has) = (old, same ∙ at, c, ready has)

  -- A stored transaction that is not committed may be replaced in its place.
  pub sound-replace :
      (l : TransactionLog Json) (old r : TransactionRecord Json)
      → LogSound l
      → stored l r.epoch_id r.tx_id ≡ some old
      → is_committed old ≡ false
      → LogSound (write_transaction l r)
  sound-replace l old r s at c =
      sound-write l r (λ d x at'. s.unique d r.epoch_id r.tx_id x old at' at)
        (λ i.
          let (x, at', c') = s.index_stored r.epoch_id r.tx_id i in ground (arith, at, at', c, c'))
        s

  -- What a log with a current epoch keeps of the log that it was opened in.
  abbrev pub Opened : TransactionLog Json → ℕ × TransactionLog Json → Type 0
  Opened l p =
      HasEpoch (p.1) (p.0)
      × (p.1.epoch_sequence ≡ some (p.0))
      × ((d t : ℕ) → stored (p.1) d t ≡ stored l d t)
      × (p.1.committed_index ≡ l.committed_index)
      × (p.1.sequence ≡ l.sequence)
      × ((d : ℕ) → HasEpoch l d → HasEpoch (p.1) d)

  pub HasEpoch-metadata :
      (l : TransactionLog Json) (m : EpochMetadata) (d : ℕ)
      → HasEpoch l d
      → HasEpoch (write_epoch_metadata l m) d
  HasEpoch-metadata l m d (n, k, e) = elim (Bool-cases (eqb m.epoch_id d)) [
    | inl h ↦ (m, rw (get_epoch-metadata l m d, h) refl, ground (arith, h))
    | inr h ↦ (n, rw (get_epoch-metadata l m d, h) k, e)
  ]

  created-Opened : (now : ℤ) (l : TransactionLog Json) → Opened l (1, (create_epoch now l 1).1)
  unfolding create_epoch get_epoch
  created-Opened now l =
      let m : EpochMetadata = new_epoch now 1 in
      (
        (m, rw (get_epoch-metadata l m 1) refl, refl),
        refl,
        (λ d t. stored-metadata l m d t),
        refl,
        refl,
        λ d h. HasEpoch-metadata l m d h,
      )

  -- `current_epoch_id` by what the file of the sequence holds.
  abbrev pick : ℤ → TransactionLog Json → Option ℕ → ℕ × TransactionLog Json
  pick now l none = (1, (create_epoch now l 1).1)
  pick now l (some e) = (e, l)

  pub current_epoch_id-Opened :
      (now : ℤ) (l : TransactionLog Json)
      → ((e : ℕ) → l.epoch_sequence ≡ some e → HasEpoch l e)
      → Opened l (current_epoch_id now l)
  unfolding current_epoch_id
  current_epoch_id-Opened now l ready = go l.epoch_sequence refl
    where
      go : (o : Option ℕ) → l.epoch_sequence ≡ o → Opened l (current_epoch_id now l)
      go none k =
          let run : current_epoch_id now l ≡ (1, (create_epoch now l 1).1) = ap (pick now l) k in
          subst (Opened l) (sym run) (created-Opened now l)
      go (some e) k =
          let run : current_epoch_id now l ≡ (e, l) = ap (pick now l) k in
          subst (Opened l) (sym run) (ready e k, k, (λ d t. refl), refl, refl, λ d h. h)
