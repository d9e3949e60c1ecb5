-- ===== src/Transaction/Manager/Tests.antt =====
-- A manager that begins and commits, the log that it leaves, and the theorems on them.
use unifieddataruntime.Base.{
  ℕ, ◌≡◌, refl, String, false, none, some, [], ◌∷◌, All, leb, string_eq, nat_eq, ok, err, ◌>>◌,
  arith,
}
use unifieddataruntime.Base.Int.{pos}
use unifieddataruntime.Base.Dict
use unifieddataruntime.Branch.{new_branch}
use unifieddataruntime.Branch.Names.{branch_path}
use unifieddataruntime.Branch.Manager as Branches
use unifieddataruntime.Branch.Manager.{BranchManager, BranchError}
use unifieddataruntime.Catalog.Paths.{directories}
use unifieddataruntime.Catalog.Versions.{next_version, version_at}
use unifieddataruntime.Transaction.Manager.Torn.{commit-torn}
use unifieddataruntime.Catalog.{
  new_catalog, new_version, latest_version_num, commit_next_version, commit_inner,
  write_pending_intent, remove_pending_intent, list_tables, get_version,
}
use unifieddataruntime.Transaction.{TransactionRecord, TableWrite, new_record, new_write}
use unifieddataruntime.Transaction.Conflict.{detect_tables}
use unifieddataruntime.Transaction.Epoch.{TransactionError}
use unifieddataruntime.Transaction.Log.{
  new_log, initialize_if_needed, next_tx_id, current_epoch_id, create_epoch, get_epoch,
  write_transaction,
}
use unifieddataruntime.Transaction.Log.Store.{stored, LogSound}
use unifieddataruntime.Transaction.Log.Recovery.{recover_and_apply}
use unifieddataruntime.Transaction.Log.Scanned.{settle}
use unifieddataruntime.Transaction.Log.Recovered.{recover_and_apply_lem}
use unifieddataruntime.Transaction.Manager.{
  TransactionManager, with_config, capture_snapshot, branch_and_snapshot, begin, begin_as,
  add_write,
}
use unifieddataruntime.Transaction.Manager.Committing.{
  check_conflicts, current_version, validate_snapshot, commit, commit_checked, after_writes,
  after_heads, persist, update_branch_heads,
}
use unifieddataruntime.Transaction.Manager.Sound.{IsSound}
use unifieddataruntime.Transaction.Manager.Begin.{Begun, begin-Begun}
use unifieddataruntime.Transaction.Manager.Outcome.{Outcome, commit-Outcome}
use unifieddataruntime.Transaction.Manager.Restart.{restart-IsSound, new_log-Startable}
use unifieddataruntime.Transaction.Manager.Steps.{Step, Reachable, steps-IsSound}
use unifieddataruntime.Transaction.Manager.Isolation.{commit-isolated, commit_succeeds}

abbrev fresh : TransactionManager ℕ
fresh = with_config (pos 0) detect_tables new_log new_catalog none

fresh-IsSound : IsSound fresh
fresh-IsSound = restart-IsSound (pos 0) detect_tables new_log new_catalog none new_log-Startable

abbrev same : String → String
same s = s

abbrev intent : ℕ → String
intent n = "i"

abbrev write_t : TableWrite ℕ
write_t = new_write "t" 1 ("h" ∷ [])

-- One transaction that writes a table.
abbrev begun_once : TransactionManager ℕ
begun_once = (begin same (pos 1) fresh none).1

abbrev written_once : TransactionManager ℕ
written_once = (add_write begun_once 1 write_t).1

abbrev committed_once : TransactionManager ℕ
committed_once = (commit (pos 2) intent written_once 1).1

-- Another one, of the same table, after it.
abbrev written_again : TransactionManager ℕ
written_again =
    (add_write (begin same (pos 3) committed_once none).1 2 (new_write "t" 2 ("k" ∷ []))).1

runs :
    ((begin same (pos 1) fresh none).0 ≡ ok 1)
    × ((commit (pos 2) intent written_once 1).0 ≡ ok tt)
    × ((commit (pos 4) intent written_again 2).0 ≡ err (TransactionError.write_conflict ("t" ∷ [])))
unfolding directories with_config initialize_if_needed begin begin_as next_tx_id current_epoch_id
    create_epoch capture_snapshot list_tables get_version write_transaction get_epoch add_write
    commit check_conflicts validate_snapshot current_version commit_checked after_writes after_heads
    persist update_branch_heads commit_next_version commit_inner write_pending_intent
    remove_pending_intent detect_tables
runs = (refl, refl, refl)

abbrev tx_once : TransactionRecord ℕ
tx_once = record (new_record (pos 1) 1 1 "main") { writes = write_t ∷ [] }

written-active : Dict.lookup 1 written_once.active ≡ some tx_once
unfolding with_config initialize_if_needed begin begin_as next_tx_id current_epoch_id create_epoch
    capture_snapshot list_tables write_transaction get_epoch add_write
written-active = refl

committed-ok : (commit (pos 2) intent written_once 1).0 ≡ ok tt
committed-ok = runs.1

written-Reachable : Reachable fresh written_once
unfolding with_config initialize_if_needed
written-Reachable =
    Reachable.goes (Reachable.goes Reachable.stays (Step.begins same (pos 1) none (omega arith)))
      (Step.writes 1 write_t)

written-IsSound : IsSound written_once
written-IsSound = steps-IsSound fresh written_once written-Reachable fresh-IsSound

steps-IsSound_example : IsSound written_once
steps-IsSound_example = steps-IsSound fresh written_once written-Reachable fresh-IsSound

begin-Begun_example :
    Begun same
      (pos 1)
      fresh
      none
      (branch_and_snapshot same fresh none)
      (begin same (pos 1) fresh none)
unfolding with_config initialize_if_needed
begin-Begun_example = begin-Begun same (pos 1) fresh none fresh-IsSound (omega arith)

commit-Outcome_example :
    Outcome
      (pos 2)
      intent
      written_once
      1
      (Dict.lookup 1 written_once.active)
      (commit (pos 2) intent written_once 1)
commit-Outcome_example = commit-Outcome (pos 2) intent written_once 1 written-IsSound

commit-isolated_example :
    ((table : String) (v current : ℕ)
      → Dict.lookup table tx_once.read_snapshot ≡ some v
      → current_version written_once tx_once table ≡ ok (some current)
      → current ≡ v)
    × All
        (λ c. leb tx_once.tx_id c.tx_id ≡ false → written_once.conflict_detector tx_once c ≡ none)
        written_once.recent_committed
commit-isolated_example =
    commit-isolated (pos 2) intent written_once 1 tx_once written-active committed-ok

commit_succeeds_example :
    (commit (pos 2) intent written_once 1).0
    ≡ (check_conflicts written_once tx_once >> validate_snapshot written_once tx_once)
unfolding with_config begin begin_as add_write initialize_if_needed next_tx_id current_epoch_id
    create_epoch capture_snapshot list_tables write_transaction get_epoch
commit_succeeds_example =
    commit_succeeds (pos 2) intent written_once 1 tx_once written-IsSound refl written-active

-- The log when the transaction is active still.
recover_and_apply_lem_example :
    LogSound (recover_and_apply written_once.log).1
    × ((e t : ℕ)
        → stored (recover_and_apply written_once.log).1 e t ≡ settle (stored written_once.log e t))
recover_and_apply_lem_example = recover_and_apply_lem written_once.log written-IsSound.log_sound

-- A transaction on branches, with a write for a branch that does not exist.
abbrev branches : BranchManager
branches = record {
  files = (branch_path "main", new_branch (pos 0) "main" []) ∷ [];
  default_file = some "main";
}

abbrev write_gone : TableWrite ℕ
write_gone = record write_t { branch = some "gone" }

abbrev branched : TransactionManager ℕ
branched = with_config (pos 0) detect_tables new_log new_catalog (some branches)

abbrev doomed : TransactionManager ℕ
doomed = (add_write (begin same (pos 1) branched none).1 1 write_gone).1

abbrev tx_doomed : TransactionRecord ℕ
tx_doomed = record (new_record (pos 1) 1 1 "main") { writes = write_gone ∷ [] }

doomed-active :
    (Dict.lookup 1 doomed.active ≡ some tx_doomed)
    × ((check_conflicts doomed tx_doomed >> validate_snapshot doomed tx_doomed) ≡ ok tt)
    × (doomed.branch_manager ≡ some branches)
    × (Branches.get branches "gone" ≡ err (BranchError.branch_not_found "gone"))
unfolding with_config initialize_if_needed begin begin_as next_tx_id current_epoch_id create_epoch
    capture_snapshot write_transaction get_epoch add_write check_conflicts validate_snapshot
    Branches.get Branches.get_default branch_path
doomed-active = (refl, refl, refl, refl)

doomed-Reachable : Reachable branched doomed
unfolding with_config initialize_if_needed
doomed-Reachable =
    Reachable.goes (Reachable.goes Reachable.stays (Step.begins same (pos 1) none (omega arith)))
      (Step.writes 1 write_gone)

doomed-IsSound : IsSound doomed
doomed-IsSound =
    steps-IsSound branched doomed doomed-Reachable
      (restart-IsSound (pos 0) detect_tables new_log new_catalog (some branches) new_log-Startable)

commit-torn_example :
    let (r, k) = commit (pos 2) intent doomed 1 in
    let n = next_version doomed.catalog "t" in
    (r ≡ err (TransactionError.branch_error (BranchError.branch_not_found "gone")))
    × (k.active ≡ doomed.active)
    × (k.log ≡ doomed.log)
    × (latest_version_num k.catalog "t" ≡ n)
    × (version_at k.catalog "t" n ≡ some (new_version (pos 2) "t" n ("h" ∷ [])))
commit-torn_example =
    let (active, checks, with_branches, gone) = doomed-active in
    commit-torn (pos 2) intent doomed 1 tx_doomed branches write_gone "gone"
      (BranchError.branch_not_found "gone") doomed-IsSound active checks with_branches refl refl
      gone
