-- ===== src/Transaction/Log.antt =====
-- rhizo_core/src/transaction/log.rs: the transaction log, a directory for each epoch with its
-- metadata, its marker and its transactions, and the files of the sequences, of the latest committed
-- transaction and of the index of the committed ones. The file system does not fail, and what a file
-- holds is its data: texts, checksums and malformed lines are left out.
pub mod Store
pub mod Committed
pub mod Listed
pub mod Recovery
pub mod Scanned
pub mod Recovered
use unifieddataruntime.Base.{
  ℕ, ◌+◌, ◌%◌, String, Bool, true, false, Option, none, some, List, [], ◌∷◌, ◌++◌, eqb, leb, map,
  find, if◌then◌else◌, nat_eq, ◌==◌, Result, ok, err, ◌>>=◌,
}
use unifieddataruntime.Base.Int.{ℤ}
use unifieddataruntime.Base.Dict
use unifieddataruntime.Base.Dict.{Dict}
use unifieddataruntime.Base.Sort.{sort_numbers}
use unifieddataruntime.Clock.{u64_mod}
use unifieddataruntime.Transaction.{TransactionRecord, is_committed}
use unifieddataruntime.Transaction.Epoch.{
  EpochConfig, EpochMetadata, new_epoch, single_node, TransactionError,
}

pub record StorageConfig : Type 0 where
  pub format_version : ℕ
  pub epoch_config : EpochConfig
  pub created_at : ℤ

-- `StorageConfig::new`
abbrev pub new_config : ℤ → EpochConfig → StorageConfig
new_config now c = record { format_version = 1; epoch_config = c; created_at = now }

-- The directory of an epoch.
pub record EpochDir (Json : Type 0) : Type 0 where
  pub meta : Option EpochMetadata
  pub committed_marker : Bool
  pub txs : Dict ℕ (TransactionRecord Json)

pub record TransactionLog (Json : Type 0) : Type 0 where
  pub config : Option StorageConfig
  pub sequence : Option ℕ
  pub epoch_sequence : Option ℕ
  pub latest_committed : Option ℕ
  pub committed_index : Option (List (ℕ × ℕ))
  pub epochs : Dict ℕ (EpochDir Json)

abbrev pub or_else : Option ℕ → ℕ → ℕ
or_else none d = d
or_else (some n) d = n

abbrev pub entries : Option (List (ℕ × ℕ)) → List (ℕ × ℕ)
entries none = []
entries (some es) = es

abbrev pub rev {ℓ} : {A : Type ℓ} → List A → List A
rev [] = []
rev (x ∷ xs) = rev xs ++ x ∷ []

module _ {Json : Type 0} where
  -- `TransactionLog::new` on an empty directory
  abbrev pub new_log : TransactionLog Json
  new_log = record {
    config = none;
    sequence = none;
    epoch_sequence = none;
    latest_committed = none;
    committed_index = none;
    epochs = [];
  }

  -- `initialize_if_needed`, with `load_config` and `save_config`
  unfoldable pub initialize_if_needed :
      ℤ → TransactionLog Json → StorageConfig × TransactionLog Json
  initialize_if_needed now l = elim l.config [
    | some c ↦ (c, l)
    | none ↦ let c = new_config now single_node in (c, record l { config = some c })
  ]

  abbrev pub empty_epoch : EpochDir Json
  empty_epoch = record { meta = none; committed_marker = false; txs = [] }

  -- `epoch_dir`
  abbrev pub epoch_dir : TransactionLog Json → ℕ → EpochDir Json
  epoch_dir l e = elim (Dict.lookup e l.epochs) [ none ↦ empty_epoch | some d ↦ d ]

  abbrev pub set_epoch_dir : TransactionLog Json → ℕ → EpochDir Json → TransactionLog Json
  set_epoch_dir l e d = record l { epochs = Dict.insert e d l.epochs }

  abbrev pub current_tx_id : TransactionLog Json → ℕ
  current_tx_id l = or_else l.sequence 0

  unfoldable pub next_tx_id : TransactionLog Json → ℕ × TransactionLog Json
  next_tx_id l =
      let next = (current_tx_id l + 1) % u64_mod in (next, record l { sequence = some next })

  abbrev pub write_epoch_metadata : TransactionLog Json → EpochMetadata → TransactionLog Json
  write_epoch_metadata l m =
      set_epoch_dir l m.epoch_id (record (epoch_dir l m.epoch_id) { meta = some m })

  unfoldable pub create_epoch : ℤ → TransactionLog Json → ℕ → EpochMetadata × TransactionLog Json
  create_epoch now l e =
      let m = new_epoch now e in (m, record (write_epoch_metadata l m) { epoch_sequence = some e })

  unfoldable pub current_epoch_id : ℤ → TransactionLog Json → ℕ × TransactionLog Json
  unfolding create_epoch
  current_epoch_id now l = elim l.epoch_sequence [
    | some e ↦ (e, l)
    | none ↦ (1, (create_epoch now l 1).1)
  ]

  unfoldable pub next_epoch_id : ℤ → TransactionLog Json → ℕ × TransactionLog Json
  unfolding current_epoch_id
  next_epoch_id now l =
      let (current, l') = current_epoch_id now l in
      let next = (current + 1) % u64_mod in (next, record l' { epoch_sequence = some next })

  unfoldable pub get_epoch : TransactionLog Json → ℕ → Result TransactionError EpochMetadata
  get_epoch l e = elim (epoch_dir l e).meta [
    | none ↦ err (TransactionError.epoch_not_found e)
    | some m ↦ ok m
  ]

  -- Where the epoch has no directory the write fails.
  unfoldable pub mark_epoch_committed : TransactionLog Json → ℕ → TransactionLog Json
  mark_epoch_committed l e = elim (Dict.lookup e l.epochs) [
    | none ↦ l
    | some d ↦ set_epoch_dir l e (record d { committed_marker = true })
  ]

  abbrev pub is_epoch_committed : TransactionLog Json → ℕ → Bool
  is_epoch_committed l e = (epoch_dir l e).committed_marker

  abbrev pub list_epochs : TransactionLog Json → List ℕ
  list_epochs l = sort_numbers (Dict.keys l.epochs)

  abbrev pub update_latest_committed : TransactionLog Json → ℕ → TransactionLog Json
  update_latest_committed l t = record l { latest_committed = some t }

  abbrev pub append_committed_index : TransactionLog Json → ℕ → ℕ → TransactionLog Json
  append_committed_index l e t = record l {
    committed_index = some (entries l.committed_index ++ (e, t) ∷ []);
  }

  abbrev pub store_transaction : TransactionRecord Json → TransactionLog Json → TransactionLog Json
  store_transaction r l =
      let d = epoch_dir l r.epoch_id in
      set_epoch_dir l r.epoch_id (record d { txs = Dict.insert r.tx_id r d.txs })

  unfoldable pub write_transaction :
      TransactionLog Json → TransactionRecord Json → TransactionLog Json
  write_transaction l r =
      let l' = store_transaction r l in
      if is_committed r
      then append_committed_index (update_latest_committed l' r.tx_id) r.epoch_id r.tx_id
      else l'

  unfoldable pub read_transaction_from_epoch :
      TransactionLog Json → ℕ → ℕ → Result TransactionError (TransactionRecord Json)
  read_transaction_from_epoch l t e = elim (Dict.lookup t (epoch_dir l e).txs) [
    | none ↦ err (TransactionError.transaction_not_found t)
    | some r ↦ ok r
  ]

  -- The scan over the epochs, in the order that it is given.
  abbrev pub scan_for :
      TransactionLog Json → ℕ → List ℕ → Result TransactionError (TransactionRecord Json)
  scan_for l t [] = err (TransactionError.transaction_not_found t)
  scan_for l t (e ∷ es) = elim (Dict.lookup t (epoch_dir l e).txs) [
    | none ↦ scan_for l t es
    | some r ↦ ok r
  ]

  unfoldable pub read_transaction :
      TransactionLog Json → ℕ → Result TransactionError (TransactionRecord Json)
  unfolding read_transaction_from_epoch
  read_transaction l t = elim (find (λ (p : ℕ × ℕ). p.1 == t) (entries l.committed_index)) [
    | some p ↦ read_transaction_from_epoch l t (p.0)
    | none ↦ scan_for l t (rev (list_epochs l))
  ]

  unfoldable pub list_transactions_in_epoch :
      TransactionLog Json → ℕ → Result TransactionError (List ℕ)
  list_transactions_in_epoch l e = elim (Dict.lookup e l.epochs) [
    | none ↦ err (TransactionError.epoch_not_found e)
    | some d ↦ ok (sort_numbers (Dict.keys d.txs))
  ]
