-- ===== src/Transaction/Manager.antt =====
-- rhizo_core/src/transaction/manager.rs: the transaction manager over a catalog, a log and, where it
-- has one, a store of branches. It is used by one thread at a time: the locks are left out. The time,
-- the ids of the catalog's intents, `str::trim` and the conflict detector are arguments.
pub mod Committing
pub mod Sound
pub mod Begin
pub mod Ending
pub mod Restart
pub mod Steps
pub mod Isolation
pub mod Torn
pub mod Outcome
pub mod Tests
use unifieddataruntime.Base.{
  ℕ, ◌+◌, String, Bool, true, false, not, Option, none, some, List, [], ◌∷◌, ◌++◌, length, eqb, leb,
  ltb, if◌then◌else◌, nat_eq, string_eq, Result, ok, err, ◌>>=◌, ◌>>◌, fail_if, ok_or,
}
use unifieddataruntime.Base.Int.{ℤ}
use unifieddataruntime.Base.Dict
use unifieddataruntime.Base.Dict.{Dict}
use unifieddataruntime.Branch.{Branch}
use unifieddataruntime.Branch.Manager
use unifieddataruntime.Branch.Manager.{BranchError, BranchManager, update_head, get_table_version}
use unifieddataruntime.Catalog.{
  CatalogError, FileCatalog, TableVersion, commit_next_version, get_version, list_tables,
}
use unifieddataruntime.Transaction.{
  TableWrite, TransactionRecord, new_record, is_active, is_preparing, mark_committed, mark_aborted,
}
use unifieddataruntime.Transaction as Record
use unifieddataruntime.Transaction.Conflict.{Conflict}
use unifieddataruntime.Transaction.Epoch.{
  TransactionError, EpochConfig, EpochMetadata, add_transaction, record_commit, record_abort,
}
use unifieddataruntime.Transaction.Log.{
  TransactionLog, initialize_if_needed, next_tx_id, current_epoch_id, get_epoch,
  write_epoch_metadata, write_transaction, read_transaction,
}

pub record TransactionManager (Json : Type 0) : Type 0 where
  pub log : TransactionLog Json
  pub config : EpochConfig
  pub active : Dict ℕ (TransactionRecord Json)
  pub recent_committed : List (TransactionRecord Json)
  pub max_recent_committed : ℕ
  pub conflict_detector : TransactionRecord Json → TransactionRecord Json → Option Conflict
  pub catalog : FileCatalog
  pub branch_manager : Option BranchManager

-- The tables of the catalog with the latest versions that can be read.
abbrev pub latest_of : FileCatalog → List String → Dict String ℕ → Dict String ℕ
latest_of c [] acc = acc
latest_of c (t ∷ ts) acc =
    latest_of c ts
      (elim (get_version c t none) [ err _ ↦ acc | ok v ↦ Dict.insert t v.version acc ])

module _ {Json : Type 0} where
  -- `TransactionManager::with_config`, on a log that may hold transactions already; the configuration
  -- that it is given is not used.
  unfoldable pub with_config :
      ℤ
      → (TransactionRecord Json → TransactionRecord Json → Option Conflict)
      → TransactionLog Json
      → FileCatalog
      → Option BranchManager
      → TransactionManager Json
  unfolding initialize_if_needed
  with_config now detector l c b =
      let (storage, l') = initialize_if_needed now l in
      record {
        log = l';
        config = storage.epoch_config;
        active = [];
        recent_committed = [];
        max_recent_committed = storage.epoch_config.max_transactions;
        conflict_detector = detector;
        catalog = c;
        branch_manager = b;
      }

  -- `default_branch`
  abbrev pub branch_name :
      (String → String) → TransactionManager Json → Option String → Result TransactionError String
  branch_name trim m (some b) = ok b
  branch_name trim m none = elim m.branch_manager [
    | none ↦ ok "main"
    | some bm ↦ ok_or (Manager.get_default trim bm) TransactionError.no_default_branch
  ]

  unfoldable pub capture_snapshot :
      TransactionManager Json → String → Result TransactionError (Dict String ℕ)
  capture_snapshot m b = elim m.branch_manager [
    | none ↦ ok (latest_of m.catalog (list_tables m.catalog) [])
    | some bm ↦ elim (Manager.get bm b) [
      | err e ↦ err (TransactionError.branch_error e)
      | ok x ↦ ok x.head
    ]
  ]

  -- The branch that a transaction begins on, and what it reads there.
  abbrev pub branch_and_snapshot :
      (String → String)
      → TransactionManager Json
      → Option String
      → Result TransactionError (String × Dict String ℕ)
  branch_and_snapshot trim m branch = do
    b ← branch_name trim m branch
    s ← capture_snapshot m b
    ok (b, s)

  -- `begin` once the id is drawn.
  unfoldable pub begin_as :
      ℕ
      → (String → String)
      → ℤ
      → TransactionManager Json
      → Option String
      → Result TransactionError ℕ × TransactionManager Json
  unfolding capture_snapshot current_epoch_id write_transaction get_epoch
  begin_as t trim now m branch =
      let (e, l) = current_epoch_id now m.log in
      let m₁ = record m { log = l } in
      elim (branch_and_snapshot trim m branch) [
        | err x ↦ (err x, m₁)
        | ok p ↦
            let tx = record (new_record now t e (p.0)) { read_snapshot = p.1 } in
            let l₂ = write_transaction l tx in
            let m₂ = record m₁ { active = Dict.insert t tx m.active; log = l₂ } in
            elim (get_epoch l₂ e) [
              | err x ↦ (err x, m₂)
              | ok meta ↦
                  (ok t, record m₂ { log = write_epoch_metadata l₂ (add_transaction meta t) })
            ]
      ]

  unfoldable pub begin :
      (String → String)
      → ℤ
      → TransactionManager Json
      → Option String
      → Result TransactionError ℕ × TransactionManager Json
  unfolding next_tx_id begin_as
  begin trim now m branch =
      let (t, l) = next_tx_id m.log in begin_as t trim now (record m { log = l }) branch

  -- `record_read` and `add_write`: a change of an active transaction.
  abbrev pub change_active :
      TransactionManager Json
      → ℕ
      → (TransactionRecord Json → TransactionRecord Json)
      → Result TransactionError (Unit {0}) × TransactionManager Json
  change_active m t f = elim (Dict.lookup t m.active) [
    | none ↦ (err (TransactionError.transaction_not_found t), m)
    | some tx ↦
        if not (is_active tx)
        then (err (TransactionError.transaction_not_active t), m)
        else (ok tt, record m { active = Dict.insert t (f tx) m.active })
  ]

  unfoldable pub record_read :
      TransactionManager Json
      → ℕ
      → String
      → ℕ
      → Result TransactionError (Unit {0}) × TransactionManager Json
  record_read m t table v = change_active m t (λ tx. Record.record_read tx table v)

  unfoldable pub add_write :
      TransactionManager Json
      → ℕ
      → TableWrite Json
      → Result TransactionError (Unit {0}) × TransactionManager Json
  add_write m t w = change_active m t (λ tx. Record.add_write tx w)

  unfoldable pub get_transaction :
      TransactionManager Json → ℕ → Result TransactionError (TransactionRecord Json)
  unfolding read_transaction
  get_transaction m t = elim (Dict.lookup t m.active) [
    | some tx ↦ ok tx
    | none ↦ read_transaction m.log t
  ]

  abbrev pub active_count : TransactionManager Json → ℕ
  active_count m = length m.active

  abbrev pub clear_recent_committed : TransactionManager Json → TransactionManager Json
  clear_recent_committed m = record m { recent_committed = [] }
