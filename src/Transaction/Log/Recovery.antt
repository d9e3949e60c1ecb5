-- ===== src/Transaction/Log/Recovery.antt =====
-- rhizo_core/src/transaction/recovery.rs: the scan of a log after a crash, the roll back of what is
-- pending, and the check of its consistency. A message of a report is the data that it formats.
use unifieddataruntime.Base.{
  ℕ, ◌+◌, String, Bool, true, false, ◌||◌, Option, none, some, List, [], ◌∷◌, ◌++◌, length,
  if◌then◌else◌, ok, err,
}
use unifieddataruntime.Transaction.{
  TransactionStatus, TransactionRecord, is_active, is_preparing, mark_aborted,
}
use unifieddataruntime.Transaction.Epoch.{TransactionError}
use unifieddataruntime.Transaction.Log.{
  TransactionLog, list_epochs, is_epoch_committed, list_transactions_in_epoch,
  read_transaction_from_epoch, read_transaction, write_transaction,
}

pub data Message : Type 0 where
  not_committed : (tx epoch : ℕ) → Message
  failed_to_read failed_to_roll_back error_in_epoch : ℕ → TransactionError → Message

pub record RecoveryReport : Type 0 where
  pub last_committed_epoch : Option ℕ
  pub replayed : List ℕ
  pub rolled_back : List ℕ
  pub already_aborted : List ℕ
  pub already_committed : List ℕ
  pub warnings : List Message
  pub errors : List Message
  pub epochs_scanned : ℕ
  pub transactions_scanned : ℕ

-- `RecoveryReport::new`
abbrev pub new_report : RecoveryReport
new_report = record {
  last_committed_epoch = none;
  replayed = [];
  rolled_back = [];
  already_aborted = [];
  already_committed = [];
  warnings = [];
  errors = [];
  epochs_scanned = 0;
  transactions_scanned = 0;
}

abbrev pub is_clean : RecoveryReport → Bool
is_clean r = elim r.errors [ [] ↦ true | _ ∷ _ ↦ false ]

abbrev pub warn : RecoveryReport → Message → RecoveryReport
warn r m = record r { warnings = r.warnings ++ m ∷ [] }

abbrev pub error : RecoveryReport → Message → RecoveryReport
error r m = record r { errors = r.errors ++ m ∷ [] }

pub data RecoveryDecision : Type 0 where
  keep rollback already_aborted replay : RecoveryDecision

-- The match on the decision for a transaction.
abbrev pub note : Bool → ℕ → ℕ → RecoveryDecision → RecoveryReport → RecoveryReport
note done e t RecoveryDecision.keep r = record r {
  already_committed = r.already_committed ++ t ∷ [];
}
note done e t RecoveryDecision.already_aborted r = record r {
  already_aborted = r.already_aborted ++ t ∷ [];
}
note done e t RecoveryDecision.rollback r =
    let r' = if done then warn r (Message.not_committed t e) else r in
    record r' { rolled_back = r'.rolled_back ++ t ∷ [] }
note done e t RecoveryDecision.replay r = record r { replayed = r.replayed ++ t ∷ [] }

abbrev pub rollback_reason : String
rollback_reason = "Recovery: pending transaction rolled back"

module _ {Json : Type 0} where
  abbrev pub decide : TransactionRecord Json → RecoveryDecision
  decide r = elim r.status [
    | TransactionStatus.committed ↦ RecoveryDecision.keep
    | TransactionStatus.aborted _ ↦ RecoveryDecision.already_aborted
    | TransactionStatus.active ↦ RecoveryDecision.rollback
    | TransactionStatus.preparing ↦ RecoveryDecision.rollback
  ]

  abbrev pub scan_transactions :
      TransactionLog Json → ℕ → Bool → List ℕ → RecoveryReport → RecoveryReport
  scan_transactions l e done [] r = r
  scan_transactions l e done (t ∷ ts) r =
      let r' = record r { transactions_scanned = r.transactions_scanned + 1 } in
      elim (read_transaction_from_epoch l t e) [
        | err x ↦ scan_transactions l e done ts (error r' (Message.failed_to_read t x))
        | ok tx ↦ scan_transactions l e done ts (note done e t (decide tx) r')
      ]

  -- `scan_epoch`, its error put into the report by the caller
  unfoldable pub scan_epoch : TransactionLog Json → ℕ → Bool → RecoveryReport → RecoveryReport
  scan_epoch l e done r = elim (list_transactions_in_epoch l e) [
    | err x ↦ error r (Message.error_in_epoch e x)
    | ok ts ↦ scan_transactions l e done ts r
  ]

  abbrev pub scan_epochs : TransactionLog Json → List ℕ → RecoveryReport → RecoveryReport
  scan_epochs l [] r = r
  scan_epochs l (e ∷ es) r =
      let done = is_epoch_committed l e in
      let r' = if done then record r { last_committed_epoch = some e } else r in
      scan_epochs l es (scan_epoch l e done r')

  unfoldable pub recover : TransactionLog Json → RecoveryReport
  recover l =
      let es = list_epochs l in scan_epochs l es (record new_report { epochs_scanned = length es })

  abbrev pub roll_back :
      List ℕ → RecoveryReport × TransactionLog Json → RecoveryReport × TransactionLog Json
  roll_back [] s = s
  roll_back (t ∷ ts) (r, l) = elim (read_transaction l t) [
    | err x ↦ roll_back ts (error r (Message.failed_to_roll_back t x), l)
    | ok tx ↦ roll_back ts (
      r,
      if is_active tx || is_preparing tx
          then write_transaction l (mark_aborted tx rollback_reason)
          else l,
    )
  ]

  unfoldable pub recover_and_apply : TransactionLog Json → RecoveryReport × TransactionLog Json
  unfolding recover
  recover_and_apply l = let r = recover l in roll_back r.rolled_back (r, l)
