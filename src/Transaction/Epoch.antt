-- ===== src/Transaction/Epoch.antt =====
-- rhizo_core/src/transaction/epoch.rs: the configuration and the metadata of epochs, and error.rs. A
-- time stamp is an argument, in seconds.
use unifieddataruntime.Base.{
  ℕ, ◌+◌, ◌%◌, String, Bool, true, false, Option, none, some, List, [], ◌∷◌, ◌++◌, ◌||◌, eqb, leb,
  length,
}
use unifieddataruntime.Base.Int.{ℤ}
use unifieddataruntime.Catalog.{CatalogError}
use unifieddataruntime.Branch.Manager.{BranchError}
use unifieddataruntime.Clock.{u64_mod}

pub record EpochConfig : Type 0 where
  pub duration_ms : ℕ
  pub max_transactions : ℕ
  pub batching_enabled : Bool

abbrev pub single_node : EpochConfig
single_node = record { duration_ms = 0; max_transactions = 1; batching_enabled = false }

abbrev pub high_throughput : EpochConfig
high_throughput = record { duration_ms = 50; max_transactions = 10000; batching_enabled = true }

abbrev pub low_latency : EpochConfig
low_latency = record { duration_ms = 10; max_transactions = 100; batching_enabled = true }

abbrev pub is_immediate : EpochConfig → Bool
is_immediate c = eqb c.duration_ms 0 || leb c.max_transactions 1

pub data EpochStatus : Type 0 where
  active committing committed rolled_back : EpochStatus

pub record EpochMetadata : Type 0 where
  pub epoch_id : ℕ
  pub started_at : ℤ
  pub ended_at : Option ℤ
  pub status : EpochStatus
  pub transactions : List ℕ
  pub first_tx_id : Option ℕ
  pub last_tx_id : Option ℕ
  pub committed_count : ℕ
  pub aborted_count : ℕ
  pub format_version : ℕ

-- `EpochMetadata::new`
abbrev pub new_epoch : ℤ → ℕ → EpochMetadata
new_epoch now e = record {
  epoch_id = e;
  started_at = now;
  ended_at = none;
  status = EpochStatus.active;
  transactions = [];
  first_tx_id = none;
  last_tx_id = none;
  committed_count = 0;
  aborted_count = 0;
  format_version = 1;
}

abbrev pub add_transaction : EpochMetadata → ℕ → EpochMetadata
add_transaction m t = record m {
  first_tx_id = elim m.first_tx_id [ none ↦ some t | some f ↦ some f ];
  last_tx_id = some t;
  transactions = m.transactions ++ t ∷ [];
}

abbrev pub record_commit : EpochMetadata → EpochMetadata
record_commit m = record m { committed_count = (m.committed_count + 1) % u64_mod }

abbrev pub record_abort : EpochMetadata → EpochMetadata
record_abort m = record m { aborted_count = (m.aborted_count + 1) % u64_mod }

abbrev pub transaction_count : EpochMetadata → ℕ
transaction_count m = length m.transactions

abbrev pub is_active : EpochMetadata → Bool
is_active m = elim m.status [ EpochStatus.active ↦ true | _ ↦ false ]

abbrev pub is_committed : EpochMetadata → Bool
is_committed m = elim m.status [ EpochStatus.committed ↦ true | _ ↦ false ]

abbrev pub mark_committing : EpochMetadata → EpochMetadata
mark_committing m = record m { status = EpochStatus.committing }

abbrev pub mark_committed : ℤ → EpochMetadata → EpochMetadata
mark_committed now m = record m { status = EpochStatus.committed; ended_at = some now }

abbrev pub mark_rolled_back : ℤ → EpochMetadata → EpochMetadata
mark_rolled_back now m = record m { status = EpochStatus.rolled_back; ended_at = some now }

-- The errors that the operations give. The error of a catalog or of branches is kept as it is, where
-- the code keeps its text.
pub data TransactionError : Type 0 where
  transaction_not_found transaction_not_active epoch_not_found : ℕ → TransactionError
  write_conflict : List String → TransactionError
  snapshot_conflict : String → (read_version current_version : ℕ) → TransactionError
  catalog_error : CatalogError → TransactionError
  branch_error : BranchError → TransactionError
  no_default_branch : TransactionError

abbrev pub is_conflict : TransactionError → Bool
is_conflict (TransactionError.write_conflict _) = true
is_conflict (TransactionError.snapshot_conflict _ _ _) = true
is_conflict _ = false
