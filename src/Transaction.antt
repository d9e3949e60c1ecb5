-- ===== src/Transaction.antt =====
-- rhizo_core/src/transaction/types.rs: the records of transactions. A JSON value, which the code
-- stores and never reads, is a parameter; a time stamp is an argument, in seconds.
pub mod Conflict
pub mod Detection
pub mod Adaptive
pub mod Epoch
pub mod Log
pub mod Manager
pub mod Tests
use unifieddataruntime.Base.{
  ℕ, String, Bool, true, false, Option, none, some, List, [], ◌∷◌, ◌++◌, map, string_eq,
  if◌then◌else◌,
}
use unifieddataruntime.Base.Int.{ℤ}
use unifieddataruntime.Base.Dict
use unifieddataruntime.Base.Dict.{Dict}

pub data TransactionStatus : Type 0 where
  active preparing committed : TransactionStatus
  aborted : String → TransactionStatus

pub data WriteGranularity (Json : Type 0) : Type 0 where
  whole_table : WriteGranularity Json
  partitions : List String → WriteGranularity Json
  keys : List String → List Json → WriteGranularity Json

pub data TransactionMode : Type 0 where
  coordinated coordination_free : TransactionMode

abbrev pub is_coordination_free : TransactionMode → Bool
is_coordination_free TransactionMode.coordination_free = true
is_coordination_free TransactionMode.coordinated = false

pub record TableWrite (Json : Type 0) : Type 0 where
  pub table_name : String
  pub new_version : ℕ
  pub chunk_hashes : List String
  pub schema_hash : Option String
  pub granularity : WriteGranularity Json
  pub branch : Option String

pub record TransactionRecord (Json : Type 0) : Type 0 where
  pub tx_id : ℕ
  pub epoch_id : ℕ
  pub started_at : ℤ
  pub committed_at : Option ℤ
  pub read_snapshot : Dict String ℕ
  pub writes : List (TableWrite Json)
  pub status : TransactionStatus
  pub branch : String
  pub mode : TransactionMode
  pub metadata : Dict String String
  pub format_version : ℕ
  pub extensions : Option Json

module _ {Json : Type 0} where
  -- `TableWrite::new`
  abbrev pub new_write : String → ℕ → List String → TableWrite Json
  new_write t v hs = record {
    table_name = t;
    new_version = v;
    chunk_hashes = hs;
    schema_hash = none;
    granularity = WriteGranularity.whole_table;
    branch = none;
  }

  abbrev pub with_granularity : TableWrite Json → WriteGranularity Json → TableWrite Json
  with_granularity w g = record w { granularity = g }

  -- `TransactionRecord::with_mode`
  abbrev pub with_mode : ℤ → ℕ → ℕ → String → TransactionMode → TransactionRecord Json
  with_mode now tx epoch b m = record {
    tx_id = tx;
    epoch_id = epoch;
    started_at = now;
    committed_at = none;
    read_snapshot = [];
    writes = [];
    status = TransactionStatus.active;
    branch = b;
    mode = m;
    metadata = [];
    format_version = 1;
    extensions = none;
  }

  -- `TransactionRecord::new`
  abbrev pub new_record : ℤ → ℕ → ℕ → String → TransactionRecord Json
  new_record now tx epoch b = with_mode now tx epoch b TransactionMode.coordinated

  abbrev pub is_active : TransactionRecord Json → Bool
  is_active r = elim r.status [
    | TransactionStatus.active ↦ true
    | TransactionStatus.preparing ↦ false
    | TransactionStatus.committed ↦ false
    | TransactionStatus.aborted _ ↦ false
  ]

  abbrev pub is_preparing : TransactionRecord Json → Bool
  is_preparing r = elim r.status [
    | TransactionStatus.active ↦ false
    | TransactionStatus.preparing ↦ true
    | TransactionStatus.committed ↦ false
    | TransactionStatus.aborted _ ↦ false
  ]

  abbrev pub is_committed : TransactionRecord Json → Bool
  is_committed r = elim r.status [
    | TransactionStatus.active ↦ false
    | TransactionStatus.preparing ↦ false
    | TransactionStatus.committed ↦ true
    | TransactionStatus.aborted _ ↦ false
  ]

  abbrev pub written_tables : TransactionRecord Json → List String
  written_tables r = map (λ (w : TableWrite Json). w.table_name) r.writes

  abbrev pub read_tables : TransactionRecord Json → List String
  read_tables r = Dict.keys r.read_snapshot

  abbrev pub add_write : TransactionRecord Json → TableWrite Json → TransactionRecord Json
  add_write r w = record r { writes = r.writes ++ (w ∷ []) }

  abbrev pub record_read : TransactionRecord Json → String → ℕ → TransactionRecord Json
  record_read r t v = record r { read_snapshot = Dict.insert t v r.read_snapshot }

  abbrev pub mark_preparing : TransactionRecord Json → TransactionRecord Json
  mark_preparing r = record r { status = TransactionStatus.preparing }

  abbrev pub mark_committed : ℤ → TransactionRecord Json → TransactionRecord Json
  mark_committed now r = record r { status = TransactionStatus.committed; committed_at = some now }

  abbrev pub mark_aborted : TransactionRecord Json → String → TransactionRecord Json
  mark_aborted r reason = record r { status = TransactionStatus.aborted reason }
