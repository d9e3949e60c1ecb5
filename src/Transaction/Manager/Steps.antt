-- ===== src/Transaction/Manager/Steps.antt =====
-- The managers that steps reach are sound.
use unifieddataruntime.Base.{
  subst, ℕ, ◌≡◌, ◌<◌, ◌+◌, refl, sym, ◌∙◌, String, true, Option, none, some, List, [], ◌∷◌, ◌++◌,
  All-append, nat_eq, Result, ok, err, ◌>>◌, arith,
}
use unifieddataruntime.Base.Int.{ℤ}
use unifieddataruntime.Base.Dict
use unifieddataruntime.Base.Dict.{Dict, lookup-insert, lookup-remove}
use unifieddataruntime.Clock.{u64_mod}
use unifieddataruntime.Branch.Manager.{BranchManager}
use unifieddataruntime.Catalog.{FileCatalog}
use unifieddataruntime.Transaction.{
  TransactionRecord, TableWrite, is_active, is_committed, mark_aborted, mark_committed,
}
use unifieddataruntime.Transaction as Record
use unifieddataruntime.Transaction.Conflict.{Conflict}
use unifieddataruntime.Transaction.Epoch.{
  TransactionError, EpochMetadata, record_commit, record_abort,
}
use unifieddataruntime.Transaction.Log.{write_transaction, get_epoch, current_tx_id}
use unifieddataruntime.Transaction.Log.Recovery.{recover_and_apply}
use unifieddataruntime.Transaction.Manager.{
  TransactionManager, with_config, branch_and_snapshot, clear_recent_committed, begin, record_read,
  add_write,
}
use unifieddataruntime.Transaction.Manager.Committing.{
  check_conflicts, validate_snapshot, commit, abort,
}
use unifieddataruntime.Transaction.Manager.Sound.{IsSound, get_epoch-write}
use unifieddataruntime.Transaction.Manager.Begin.{begin-Begun, Begun}
use unifieddataruntime.Transaction.Manager.Ending.{
  length-shrink, All-shrink, change_active-IsSound, ended, ended-IsSound,
}
use unifieddataruntime.Transaction.Manager.Outcome.{
  with_effects, effects, committed, Effects, Finishes, Checked, Outcome, commit-Outcome,
}
use unifieddataruntime.Transaction.Manager.Restart.{
  restart-IsSound, sound-Startable, recover-IsSound,
}

remove-insert :
    {V : Type 0} (t : ℕ) (v : V) (d : Dict ℕ V)
    → Dict.remove t (Dict.insert t v d) ≡ Dict.remove t d
remove-insert t v [] = ground arith
remove-insert t v ((u, w) ∷ d) = ground (arith, remove-insert t v d)

module _ {Json : Type 0} where
  -- An abort of an active transaction always succeeds.
  abort_run :
      (m : TransactionManager Json) (t : ℕ) (reason : String) (tx : TransactionRecord Json)
      → IsSound m
      → Dict.lookup t m.active ≡ some tx
      → (meta : EpochMetadata) × (abort m t reason
          ≡ (ok tt, ended m t (mark_aborted tx reason) (record_abort meta)))
  unfolding abort
  abort_run m t reason tx s k =
      let (i, a, (old, at, c, (meta, g, here))) = s.active_backed t tx k in
      let ab : TransactionRecord Json = mark_aborted tx reason in
      let written : get_epoch (write_transaction m.log ab) tx.epoch_id ≡ ok meta =
        get_epoch-write m.log ab tx.epoch_id ∙ g in
      let gone : Dict.remove tx.tx_id (Dict.insert t ab m.active) ≡ Dict.remove t m.active =
        subst (λ u. Dict.remove u (Dict.insert t ab m.active) ≡ Dict.remove t m.active) (sym i)
          (remove-insert t ab m.active) in
      (meta, rw (abort, k, a, written, gone) refl)

  abort-IsSound :
      (m : TransactionManager Json) (t : ℕ) (reason : String)
      → IsSound m
      → IsSound (abort m t reason).1
  unfolding abort
  abort-IsSound m t reason s = go (Dict.lookup t m.active) refl
    where
      go :
          (o : Option (TransactionRecord Json))
          → Dict.lookup t m.active ≡ o
          → IsSound (abort m t reason).1
      go none k = rw (abort, k) s
      go (some tx) k =
          let (meta, run) = abort_run m t reason tx s k in
          rw (run) (ended-IsSound m t tx (mark_aborted tx reason) (record_abort meta) s k refl refl)

  with_effects-IsSound :
      (m : TransactionManager Json) (c : FileCatalog) (b : Option BranchManager)
      → IsSound m
      → IsSound (record m { catalog = c; branch_manager = b })
  with_effects-IsSound m c b s = record {
    log_sound = s.log_sound;
    given_out = s.given_out;
    epoch_ready = s.epoch_ready;
    active_backed = s.active_backed;
    recent_bounded = s.recent_bounded;
    recent_committed_only = s.recent_committed_only;
  }

  -- A step of the manager, or a change of the catalog and of the branches by others.
  pub data Step : TransactionManager Json → TransactionManager Json → Type 0 where
    begins :
        {m : TransactionManager Json} (trim : String → String) (now : ℤ) (branch : Option String)
        → current_tx_id m.log + 1 < u64_mod
        → Step m (begin trim now m branch).1
    reads :
        {m : TransactionManager Json} (t : ℕ) (table : String) (v : ℕ)
        → Step m (record_read m t table v).1
    writes :
        {m : TransactionManager Json} (t : ℕ) (w : TableWrite Json) → Step m (add_write m t w).1
    commits :
        {m : TransactionManager Json} (now : ℤ) (ids : ℕ → String) (t : ℕ)
        → Step m (commit now ids m t).1
    aborts : {m : TransactionManager Json} (t : ℕ) (reason : String) → Step m (abort m t reason).1
    restarts :
        {m : TransactionManager Json} (now : ℤ)
        (detector : TransactionRecord Json → TransactionRecord Json → Option Conflict)
        → Step m (with_config now detector m.log m.catalog m.branch_manager)
    recovers :
        {m : TransactionManager Json} → Step m (record m { log = (recover_and_apply m.log).1 })
    clears : {m : TransactionManager Json} → Step m (clear_recent_committed m)
    others :
        {m : TransactionManager Json} (c : FileCatalog) (b : Option BranchManager)
        → Step m (record m { catalog = c; branch_manager = b })

  pub data Reachable : TransactionManager Json → TransactionManager Json → Type 0 where
    stays : {m : TransactionManager Json} → Reachable m m
    goes : {m n o : TransactionManager Json} → Reachable m n → Step n o → Reachable m o

  committed-IsSound :
      (now : ℤ) (ids : ℕ → String) (m : TransactionManager Json) (t : ℕ)
      (tx : TransactionRecord Json) (meta : EpochMetadata)
      → IsSound m
      → Dict.lookup t m.active ≡ some tx
      → IsSound (committed now ids m t (mark_committed now tx) meta)
  committed-IsSound now ids m t tx meta s k =
      let r : TransactionRecord Json = mark_committed now tx in
      let e : IsSound (ended m t r (record_commit meta)) =
        ended-IsSound m t tx r (record_commit meta) s k refl refl in
      let recent : List (TransactionRecord Json) = m.recent_committed ++ r ∷ [] in
      record {
        log_sound = e.log_sound;
        given_out = e.given_out;
        epoch_ready = e.epoch_ready;
        active_backed = e.active_backed;
        recent_bounded = length-shrink m.max_recent_committed recent;
        recent_committed_only =
            All-shrink (λ x. is_committed x ≡ true) m.max_recent_committed recent
              (All-append (λ x. is_committed x ≡ true) m.recent_committed (r ∷ [])
                s.recent_committed_only (refl, tt));
      }

  commit-IsSound :
      (now : ℤ) (ids : ℕ → String) (m : TransactionManager Json) (t : ℕ)
      → IsSound m
      → IsSound (commit now ids m t).1
  commit-IsSound now ids m t s =
      go (Dict.lookup t m.active) refl (commit now ids m t) (commit-Outcome now ids m t s)
    where
      finished :
          (tx : TransactionRecord Json) (meta : EpochMetadata)
          → Dict.lookup t m.active ≡ some tx
          → (x : Effects) (r : Result TransactionError (Unit {0}) × TransactionManager Json)
          → Finishes now ids m t (mark_committed now tx) meta x r
          → IsSound r.1
      finished tx meta k (err e, (c, b)) r h =
          subst (λ q. IsSound q.1) (sym h) (with_effects-IsSound m c b s)
      finished tx meta k (ok _, (c, b)) r h =
          subst (λ q. IsSound q.1) (sym h)
            (committed-IsSound now ids (with_effects now ids m c b) t tx meta
              (with_effects-IsSound m c b s) k)

      checked :
          (tx : TransactionRecord Json)
          → Dict.lookup t m.active ≡ some tx
          → (o : Result TransactionError (Unit {0}))
            (r : Result TransactionError (Unit {0}) × TransactionManager Json)
          → Checked now ids m t tx o r
          → IsSound r.1
      checked tx k (err e) r h = subst (λ q. IsSound q.1) (sym h) s
      checked tx k (ok _) r (meta, g, h) =
          finished tx meta k (effects now ids m (mark_committed now tx)) r h

      go :
          (o : Option (TransactionRecord Json))
          → Dict.lookup t m.active ≡ o
          → (r : Result TransactionError (Unit {0}) × TransactionManager Json)
          → Outcome now ids m t o r
          → IsSound r.1
      go none k r h = subst (λ q. IsSound q.1) (sym h) s
      go (some tx) k r h = checked tx k (check_conflicts m tx >> validate_snapshot m tx) r h

  Step-IsSound : (m n : TransactionManager Json) → Step m n → IsSound m → IsSound n
  unfolding record_read add_write
  Step-IsSound m n (Step.begins trim now branch h) s =
      go (branch_and_snapshot trim m branch) (begin trim now m branch)
        (begin-Begun trim now m branch s h)
    where
      go :
          (o : Result TransactionError (String × Dict String ℕ))
          (r : Result TransactionError ℕ × TransactionManager Json)
          → Begun trim now m branch o r
          → IsSound r.1
      go (err x) (r, k) (_, _, _, sound) = sound
      go (ok p) (r, k) (_, _, _, _, _, sound) = sound
  Step-IsSound m n (Step.reads t table v) s =
      change_active-IsSound m t (λ tx. Record.record_read tx table v) (λ r. (refl, refl, refl)) s
  Step-IsSound m n (Step.writes t w) s =
      change_active-IsSound m t (λ tx. Record.add_write tx w) (λ r. (refl, refl, refl)) s
  Step-IsSound m n (Step.commits now ids t) s = commit-IsSound now ids m t s
  Step-IsSound m n (Step.aborts t reason) s = abort-IsSound m t reason s
  Step-IsSound m n (Step.restarts now detector) s =
      restart-IsSound now detector m.log m.catalog m.branch_manager (sound-Startable m s)
  Step-IsSound m n Step.recovers s = recover-IsSound m s
  Step-IsSound m n Step.clears s = record {
    log_sound = s.log_sound;
    given_out = s.given_out;
    epoch_ready = s.epoch_ready;
    active_backed = s.active_backed;
    recent_bounded = omega arith;
    recent_committed_only = tt;
  }
  Step-IsSound m n (Step.others c b) s = with_effects-IsSound m c b s

  -- Whatever is begun, read, written, committed, aborted, recovered or cleared, whatever others do
  -- to the catalog and the branches in between, and if the process restarts, while transaction ids
  -- are left, a sound manager stays sound.
  pub steps-IsSound : (m n : TransactionManager Json) → Reachable m n → IsSound m → IsSound n
  steps-IsSound m n Reachable.stays s = s
  steps-IsSound m n (Reachable.goes {n = k} r step) s =
      Step-IsSound k n step (steps-IsSound m k r s)
