-- ===== src/Transaction/Manager/Outcome.antt =====
-- The outcome of a commit, on every branch.
use unifieddataruntime.Base.{
  ℕ, ◌≡◌, refl, ◌∙◌, String, true, Option, none, some, [], ◌∷◌, ◌++◌, nat_eq, Result, ok, err, ◌>>◌,
}
use unifieddataruntime.Base.Int.{ℤ}
use unifieddataruntime.Base.Dict
use unifieddataruntime.Base.Dict.{Dict, lookup-insert, lookup-remove}
use unifieddataruntime.Branch.Manager.{BranchManager}
use unifieddataruntime.Catalog.{FileCatalog}
use unifieddataruntime.Transaction.{TransactionRecord, is_active, mark_committed}
use unifieddataruntime.Transaction.Epoch.{TransactionError, EpochMetadata, record_commit}
use unifieddataruntime.Transaction.Log.{get_epoch}
use unifieddataruntime.Transaction.Manager.{TransactionManager}
use unifieddataruntime.Transaction.Manager.Committing.{
  persist, after_heads, after_writes, shrink, apply_writes, update_branch_heads, check_conflicts,
  validate_snapshot, commit_checked, commit,
}
use unifieddataruntime.Transaction.Manager.Sound.{HasEpoch, IsSound, get_epoch-write}
use unifieddataruntime.Transaction.Manager.Ending.{ended}

-- How the writes of a transaction end: the result, and the catalog and the branches.
abbrev pub Effects : Type 0
Effects = Result TransactionError (Unit {0}) × (FileCatalog × Option BranchManager)

module _ {Json : Type 0} (now : ℤ) (ids : ℕ → String) where
  -- The manager with the catalog and the branches that the writes left.
  abbrev pub with_effects :
      TransactionManager Json → FileCatalog → Option BranchManager → TransactionManager Json
  with_effects m c b = record m { catalog = c; branch_manager = b }

  abbrev pub heads_after :
      Option BranchManager
      → TransactionRecord Json
      → Result TransactionError (Dict String ℕ) × FileCatalog
      → Effects
  heads_after b tx (err e, c) = (err e, (c, b))
  heads_after b tx (ok versions, c) =
      let (updated, b') = update_branch_heads tx versions b in (updated, (c, b'))

  abbrev pub effects : TransactionManager Json → TransactionRecord Json → Effects
  effects m tx = heads_after m.branch_manager tx (apply_writes now ids 0 m.catalog tx.writes [])

  -- The manager after a commit that went through.
  abbrev pub committed :
      TransactionManager Json → ℕ → TransactionRecord Json → EpochMetadata → TransactionManager Json
  committed m t tx meta = record (ended m t tx (record_commit meta)) {
    recent_committed = shrink m.max_recent_committed (m.recent_committed ++ tx ∷ []);
  }

  -- After its checks a commit fails where a write fails, and leaves what the writes did; where they
  -- go through, so does the commit.
  abbrev pub Finishes :
      TransactionManager Json
      → ℕ
      → TransactionRecord Json
      → EpochMetadata
      → Result TransactionError (Unit {0}) × (FileCatalog × Option BranchManager)
      → Result TransactionError (Unit {0}) × TransactionManager Json
      → Type 0
  Finishes m t tx meta (err e, (c, b)) r = r ≡ (err e, with_effects m c b)
  Finishes m t tx meta (ok _, (c, b)) r = r ≡ (ok tt, committed (with_effects m c b) t tx meta)

  persist_run :
      (m : TransactionManager Json) (t : ℕ) (tx : TransactionRecord Json) (meta : EpochMetadata)
      → get_epoch m.log tx.epoch_id ≡ ok meta
      → persist m t tx ≡ (ok tt, committed m t tx meta)
  unfolding persist
  persist_run m t tx meta g = rw (persist, get_epoch-write m.log tx tx.epoch_id ∙ g) refl

  after_heads-Finishes :
      (m : TransactionManager Json) (t : ℕ) (tx : TransactionRecord Json) (meta : EpochMetadata)
      (c : FileCatalog) (p : Result TransactionError (Unit {0}) × Option BranchManager)
      → get_epoch m.log tx.epoch_id ≡ ok meta
      → Finishes m t tx meta (p.0, (c, p.1)) (after_heads (record m { catalog = c }) t tx p)
  unfolding after_heads
  after_heads-Finishes m t tx meta c (err e, b) g = refl
  after_heads-Finishes m t tx meta c (ok _, b) g = persist_run (with_effects m c b) t tx meta g

  after_writes-Finishes :
      (m : TransactionManager Json) (t : ℕ) (tx : TransactionRecord Json) (meta : EpochMetadata)
      (p : Result TransactionError (Dict String ℕ) × FileCatalog)
      → get_epoch m.log tx.epoch_id ≡ ok meta
      → Finishes m t tx meta (heads_after m.branch_manager tx p) (after_writes m t tx p)
  unfolding after_writes
  after_writes-Finishes m t tx meta (err e, c) g = refl
  after_writes-Finishes m t tx meta (ok versions, c) g =
      after_heads-Finishes m t tx meta c (update_branch_heads tx versions m.branch_manager) g

  commit_checked-Finishes :
      (m : TransactionManager Json) (t : ℕ) (tx : TransactionRecord Json) (meta : EpochMetadata)
      → get_epoch m.log tx.epoch_id ≡ ok meta
      → Finishes m t tx meta (effects m tx) (commit_checked now ids m t tx)
  unfolding commit_checked
  commit_checked-Finishes m t tx meta g =
      after_writes-Finishes m t tx meta (apply_writes now ids 0 m.catalog tx.writes []) g

  -- What a commit does from the transaction that is looked up, and from its checks.
  abbrev pub Checked :
      TransactionManager Json
      → ℕ
      → TransactionRecord Json
      → Result TransactionError (Unit {0})
      → Result TransactionError (Unit {0}) × TransactionManager Json
      → Type 0
  Checked m t tx (err e) r = r ≡ (err e, m)
  Checked m t tx (ok _) r =
      (meta : EpochMetadata) × (get_epoch m.log tx.epoch_id ≡ ok meta)
      × Finishes m t (mark_committed now tx) meta (effects m (mark_committed now tx)) r

  abbrev pub Outcome :
      TransactionManager Json
      → ℕ
      → Option (TransactionRecord Json)
      → Result TransactionError (Unit {0}) × TransactionManager Json
      → Type 0
  Outcome m t none r = r ≡ (err (TransactionError.transaction_not_found t), m)
  Outcome m t (some tx) r = Checked m t tx (check_conflicts m tx >> validate_snapshot m tx) r

  -- In a sound manager a commit of an unknown transaction, or of one that a check refuses, gives the
  -- error and changes nothing. Any other commit ends as its writes do: where they fail, with their
  -- error and with what they did to the catalog and the branches; where they do not, the
  -- transaction is written to the log as committed, its epoch counts it, and it moves from the active
  -- transactions to the recent ones.
  pub commit-Outcome :
      (m : TransactionManager Json) (t : ℕ)
      → IsSound m
      → Outcome m t (Dict.lookup t m.active) (commit now ids m t)
  unfolding commit
  commit-Outcome m t s = go (Dict.lookup t m.active) refl
    where
      checked :
          (tx : TransactionRecord Json)
          → Dict.lookup t m.active ≡ some tx
          → is_active tx ≡ true
          → (o : Result TransactionError (Unit {0}))
          → check_conflicts m tx >> validate_snapshot m tx ≡ o
          → HasEpoch m.log tx.epoch_id
          → Checked m t tx o (commit now ids m t)
      checked tx k a (err e) h has = rw (commit, k, a, h) refl
      checked tx k a (ok _) h (meta, g, here) =
          let run : commit now ids m t ≡ commit_checked now ids m t (mark_committed now tx) =
            rw (commit, k, a, h) refl in
          rw (run) (meta, g, commit_checked-Finishes m t (mark_committed now tx) meta g)

      go :
          (o : Option (TransactionRecord Json))
          → Dict.lookup t m.active ≡ o
          → Outcome m t o (commit now ids m t)
      go none k = rw (commit, k) refl
      go (some tx) k =
          let (i, a, (old, at, c, has)) = s.active_backed t tx k in
          checked tx k a (check_conflicts m tx >> validate_snapshot m tx) refl has
