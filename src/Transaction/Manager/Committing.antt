-- ===== src/Transaction/Manager/Committing.antt =====
-- rhizo_core/src/transaction/manager.rs: the checks of a commit, the commit and the abort.
use unifieddataruntime.Base.{
  ℕ, ◌+◌, String, not, Option, none, some, List, [], ◌∷◌, ◌++◌, length, eqb, leb, ltb,
  if◌then◌else◌, nat_eq, string_eq, Result, ok, err, ◌>>=◌, ◌>>◌,
}
use unifieddataruntime.Base.Int.{ℤ}
use unifieddataruntime.Base.Dict
use unifieddataruntime.Base.Dict.{Dict}
use unifieddataruntime.Branch.Manager.{BranchManager, update_head, get_table_version}
use unifieddataruntime.Catalog.{FileCatalog, commit_next_version, get_version}
use unifieddataruntime.Transaction.{
  TableWrite, TransactionRecord, is_active, is_preparing, mark_committed, mark_aborted,
}
use unifieddataruntime.Transaction.Epoch.{TransactionError, record_commit, record_abort}
use unifieddataruntime.Transaction.Log.{get_epoch, write_epoch_metadata, write_transaction}
use unifieddataruntime.Transaction.Manager.{TransactionManager}

-- `pop_front` while there are too many.
abbrev pub shrink {ℓ} : {A : Type ℓ} → ℕ → List A → List A
shrink n [] = []
shrink n (x ∷ xs) = let rest = shrink n xs in if ltb n (length (x ∷ xs)) then rest else x ∷ xs

abbrev pub changed : Option ℕ → ℕ → Option ℕ
changed none v = none
changed (some now) v = if not (eqb now v) then some now else none

module _ {Json : Type 0} where
  -- The loops over the transactions that committed recently, and over the active ones.
  abbrev pub check_recent :
      TransactionManager Json
      → TransactionRecord Json
      → List (TransactionRecord Json)
      → Result TransactionError (Unit {0})
  check_recent m tx [] = ok tt
  check_recent m tx (c ∷ cs) =
      let rest = check_recent m tx cs in
      if leb tx.tx_id c.tx_id then rest else elim (m.conflict_detector tx c) [
        | some x ↦ err (TransactionError.write_conflict x.tables)
        | none ↦ rest
      ]

  abbrev pub check_active :
      TransactionManager Json
      → TransactionRecord Json
      → Dict ℕ (TransactionRecord Json)
      → Result TransactionError (Unit {0})
  check_active m tx [] = ok tt
  check_active m tx ((_, o) ∷ os) =
      let rest = check_active m tx os in
      if eqb o.tx_id tx.tx_id
      then rest
      else if not (is_preparing o)
      then rest
      else elim (m.conflict_detector tx o) [
        | some x ↦ err (TransactionError.write_conflict x.tables)
        | none ↦ rest
      ]

  unfoldable pub check_conflicts :
      TransactionManager Json → TransactionRecord Json → Result TransactionError (Unit {0})
  check_conflicts m tx = check_recent m tx m.recent_committed >> check_active m tx m.active

  -- The version of a table that a transaction reads now.
  unfoldable pub current_version :
      TransactionManager Json → TransactionRecord Json → String → Result TransactionError (Option ℕ)
  current_version m tx table = elim m.branch_manager [
    | some bm ↦ elim (get_table_version bm tx.branch table) [
      | err e ↦ err (TransactionError.branch_error e)
      | ok v ↦ ok v
    ]
    | none ↦ elim (get_version m.catalog table none) [
      | err _ ↦ ok none
      | ok v ↦ ok (some v.version)
    ]
  ]

  abbrev pub validate_reads :
      TransactionManager Json
      → TransactionRecord Json
      → Dict String ℕ
      → Result TransactionError (Unit {0})
  validate_reads m tx [] = ok tt
  validate_reads m tx ((table, v) ∷ rs) = do
    current ← current_version m tx table
    elim (changed current v) [
      | some now ↦ err (TransactionError.snapshot_conflict table v now)
      | none ↦ validate_reads m tx rs
    ]

  unfoldable pub validate_snapshot :
      TransactionManager Json → TransactionRecord Json → Result TransactionError (Unit {0})
  validate_snapshot m tx = validate_reads m tx tx.read_snapshot

  -- The writes are numbered, for the ids of their intents.
  abbrev pub apply_writes :
      ℤ
      → (ℕ → String)
      → ℕ
      → FileCatalog
      → List (TableWrite Json)
      → Dict String ℕ
      → Result TransactionError (Dict String ℕ) × FileCatalog
  apply_writes now ids i c [] acc = (ok acc, c)
  apply_writes now ids i c (w ∷ ws) acc =
      let (r, c') = commit_next_version now (ids i) c w.table_name w.chunk_hashes in
      elim r [
        | err e ↦ (err (TransactionError.catalog_error e), c')
        | ok v ↦ apply_writes now ids (i + 1) c' ws (Dict.insert w.table_name v acc)
      ]

  abbrev pub set_heads :
      TransactionRecord Json
      → Dict String ℕ
      → List (TableWrite Json)
      → BranchManager
      → Result TransactionError (Unit {0}) × BranchManager
  set_heads tx versions [] bm = (ok tt, bm)
  set_heads tx versions (w ∷ ws) bm =
      let branch : String = elim w.branch [ none ↦ tx.branch | some b ↦ b ] in
      let version : ℕ = elim (Dict.lookup w.table_name versions) [
        | none ↦ w.new_version
        | some v ↦ v
      ] in
      elim (update_head bm branch w.table_name version) [
        | err e ↦ (err (TransactionError.branch_error e), bm)
        | ok bm' ↦ set_heads tx versions ws bm'
      ]

  unfoldable pub update_branch_heads :
      TransactionRecord Json
      → Dict String ℕ
      → Option BranchManager
      → Result TransactionError (Unit {0}) × Option BranchManager
  update_branch_heads tx versions none = (ok tt, none)
  update_branch_heads tx versions (some bm) =
      let (r, bm') = set_heads tx versions tx.writes bm in (r, some bm')

  -- The end of a commit: the record is written, the epoch counts it, and it moves from the active
  -- transactions to the recent ones.
  unfoldable pub persist :
      TransactionManager Json
      → ℕ
      → TransactionRecord Json
      → Result TransactionError (Unit {0}) × TransactionManager Json
  unfolding write_transaction get_epoch
  persist m t tx =
      let l = write_transaction m.log tx in
      elim (get_epoch l tx.epoch_id) [
        | err e ↦ (err e, record m { log = l })
        | ok meta ↦ (
          ok tt,
          record m {
            log = write_epoch_metadata l (record_commit meta);
            recent_committed = shrink m.max_recent_committed (m.recent_committed ++ tx ∷ []);
            active = Dict.remove t m.active;
          },
        )
      ]

  -- What follows the update of the heads, and the writes.
  unfoldable pub after_heads :
      TransactionManager Json
      → ℕ
      → TransactionRecord Json
      → Result TransactionError (Unit {0}) × Option BranchManager
      → Result TransactionError (Unit {0}) × TransactionManager Json
  unfolding persist
  after_heads m t tx (err e, b) = (err e, record m { branch_manager = b })
  after_heads m t tx (ok _, b) = persist (record m { branch_manager = b }) t tx

  unfoldable pub after_writes :
      TransactionManager Json
      → ℕ
      → TransactionRecord Json
      → Result TransactionError (Dict String ℕ) × FileCatalog
      → Result TransactionError (Unit {0}) × TransactionManager Json
  unfolding update_branch_heads after_heads
  after_writes m t tx (err e, c) = (err e, record m { catalog = c })
  after_writes m t tx (ok versions, c) =
      after_heads (record m { catalog = c }) t tx (update_branch_heads tx versions m.branch_manager)

  -- `commit` after its checks; the transaction is marked as committed already.
  unfoldable pub commit_checked :
      ℤ
      → (ℕ → String)
      → TransactionManager Json
      → ℕ
      → TransactionRecord Json
      → Result TransactionError (Unit {0}) × TransactionManager Json
  unfolding after_writes
  commit_checked now ids m t tx =
      after_writes m t tx (apply_writes now ids 0 m.catalog tx.writes [])

  unfoldable pub commit :
      ℤ
      → (ℕ → String)
      → TransactionManager Json
      → ℕ
      → Result TransactionError (Unit {0}) × TransactionManager Json
  unfolding check_conflicts validate_snapshot commit_checked
  commit now ids m t = elim (Dict.lookup t m.active) [
    | none ↦ (err (TransactionError.transaction_not_found t), m)
    | some tx ↦
        if not (is_active tx)
        then (err (TransactionError.transaction_not_active t), m)
        else elim (check_conflicts m tx >> validate_snapshot m tx) [
          | err e ↦ (err e, m)
          | ok _ ↦ commit_checked now ids m t (mark_committed now tx)
        ]
  ]

  unfoldable pub abort :
      TransactionManager Json
      → ℕ
      → String
      → Result TransactionError (Unit {0}) × TransactionManager Json
  unfolding write_transaction get_epoch
  abort m t reason = elim (Dict.lookup t m.active) [
    | none ↦ (err (TransactionError.transaction_not_found t), m)
    | some tx ↦
        if not (is_active tx)
        then (err (TransactionError.transaction_not_active t), m)
        else let a = mark_aborted tx reason in
          let l = write_transaction m.log a in
          elim (get_epoch l a.epoch_id) [
            | err e ↦ (err e, record m { active = Dict.insert t a m.active; log = l })
            | ok meta ↦ (
              ok tt,
              record m {
                active = Dict.remove a.tx_id (Dict.insert t a m.active);
                log = write_epoch_metadata l (record_abort meta);
              },
            )
          ]
  ]
