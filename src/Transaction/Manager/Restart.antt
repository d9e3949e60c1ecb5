-- ===== src/Transaction/Manager/Restart.antt =====
-- A manager that starts on a log, new or left by a crash, and one whose log is recovered, is sound.
use unifieddataruntime.Base.{ℕ, ◌≡◌, ◌≤◌, refl, sym, ap, ◌∙◌, Option, none, some, [], nat_eq, arith}
use unifieddataruntime.Base.Int.{ℤ}
use unifieddataruntime.Branch.Manager.{BranchManager}
use unifieddataruntime.Catalog.{FileCatalog}
use unifieddataruntime.Transaction.{TransactionRecord}
use unifieddataruntime.Transaction.Conflict.{Conflict}
use unifieddataruntime.Transaction.Epoch.{single_node}
use unifieddataruntime.Transaction.Log.{
  or_else, StorageConfig, new_config, initialize_if_needed, new_log, TransactionLog, get_epoch,
  current_tx_id,
}
use unifieddataruntime.Transaction.Log.Store.{stored, LogSound}
use unifieddataruntime.Transaction.Log.Scanned.{settle-from, settle-uncommitted}
use unifieddataruntime.Transaction.Log.Recovery.{recover_and_apply}
use unifieddataruntime.Transaction.Log.Recovered.{recover_and_apply-keeps, recover_and_apply_lem}
use unifieddataruntime.Transaction.Manager.{TransactionManager, with_config}
use unifieddataruntime.Transaction.Manager.Sound.{
  sequences-write, HasEpoch-write, LogSound-by, HasEpoch, IsSound,
}

module _ {Json : Type 0} where
  -- `with_config` from the configuration and the log that holds it.
  abbrev configured :
      (TransactionRecord Json → TransactionRecord Json → Option Conflict)
      → FileCatalog
      → Option BranchManager
      → StorageConfig × TransactionLog Json
      → TransactionManager Json
  configured detector c b (q, l) = record {
    log = l;
    config = q.epoch_config;
    active = [];
    recent_committed = [];
    max_recent_committed = q.epoch_config.max_transactions;
    conflict_detector = detector;
    catalog = c;
    branch_manager = b;
  }

  abbrev initialized :
      ℤ → TransactionLog Json → Option StorageConfig → StorageConfig × TransactionLog Json
  initialized now l none =
      (new_config now single_node, record l { config = some (new_config now single_node) })
  initialized now l (some q) = (q, l)

  -- What a log has to be for a manager to start on it.
  pub record Startable (l : TransactionLog Json) : Type 0 where
    pub log_sound : LogSound l
    pub given_out :
        (e t : ℕ) (r : TransactionRecord Json) → stored l e t ≡ some r → t ≤ current_tx_id l
    pub epoch_ready : (e : ℕ) → l.epoch_sequence ≡ some e → HasEpoch l e

  configured-IsSound :
      (detector : TransactionRecord Json → TransactionRecord Json → Option Conflict)
      (c : FileCatalog) (b : Option BranchManager) (q : StorageConfig) (l : TransactionLog Json)
      → Startable l
      → IsSound (configured detector c b (q, l))
  configured-IsSound detector c b q l s = record {
    log_sound = s.log_sound;
    given_out = s.given_out;
    epoch_ready = s.epoch_ready;
    active_backed = λ t r k. ground (arith, k);
    recent_bounded = omega arith;
    recent_committed_only = tt;
  }

  Startable-config :
      (l : TransactionLog Json) (q : StorageConfig)
      → Startable l
      → Startable (record l { config = some q })
  unfolding get_epoch
  Startable-config l q s = record {
    log_sound = LogSound-by l (record l { config = some q }) (λ e t. refl) refl s.log_sound;
    given_out = s.given_out;
    epoch_ready = s.epoch_ready;
  }

  -- A manager that starts on such a log, new or old, is sound.
  pub restart-IsSound :
      (now : ℤ) (detector : TransactionRecord Json → TransactionRecord Json → Option Conflict)
      (l : TransactionLog Json) (c : FileCatalog) (b : Option BranchManager)
      → Startable l
      → IsSound (with_config now detector l c b)
  unfolding with_config initialize_if_needed
  restart-IsSound now detector l c b s = go l.config
    where
      go : (o : Option StorageConfig) → IsSound (configured detector c b (initialized now l o))
      go none =
          configured-IsSound detector c b (new_config now single_node)
            (record l { config = some (new_config now single_node) })
            (Startable-config l (new_config now single_node) s)
      go (some q) = configured-IsSound detector c b q l s

  pub sound-Startable : (m : TransactionManager Json) → IsSound m → Startable m.log
  sound-Startable m s = record {
    log_sound = s.log_sound;
    given_out = s.given_out;
    epoch_ready = s.epoch_ready;
  }

  pub new_log-Startable : Startable new_log
  new_log-Startable = record {
    log_sound = record {
      keyed = λ e t r k. ground (arith, k);
      unique = λ e d t r x k j. ground (arith, k);
      index_stored = λ e t k. ground (arith, k);
      index_complete = λ e t r k c. ground (arith, k);
    };
    given_out = λ e t r k. ground (arith, k);
    epoch_ready = λ e k. ground (arith, k);
  }

  -- What recovery leaves of the sequences and of the epochs.
  abbrev Kept : TransactionLog Json → TransactionLog Json → Type 0
  Kept l k =
      (current_tx_id k ≡ current_tx_id l)
      × (k.epoch_sequence ≡ l.epoch_sequence)
      × ((e : ℕ) → HasEpoch l e → HasEpoch k e)

  recover-Kept : (l : TransactionLog Json) → Kept l (recover_and_apply l).1
  recover-Kept l =
      recover_and_apply-keeps (Kept l)
        (λ k r (ids, current, ready).
          let (drawn, epoch) = sequences-write k r in
          (
            ap (λ q. or_else q 0) drawn ∙ ids,
            epoch ∙ current,
            λ e has. HasEpoch-write k r e (ready e has),
          ))
        l (refl, refl, λ e has. has)

  pub recover-IsSound :
      (m : TransactionManager Json)
      → IsSound m
      → IsSound (record m { log = (recover_and_apply m.log).1 })
  recover-IsSound m s =
      let k : TransactionLog Json = (recover_and_apply m.log).1 in
      let (ids, current, ready) = recover-Kept m.log in
      let (sound, places) = recover_and_apply_lem m.log s.log_sound in
      record {
        log_sound = sound;
        given_out = λ e t r at.
            let (x, old) = settle-from (stored m.log e t) r (sym (places e t) ∙ at) in
            rw (ids) (s.given_out e t x old);
        epoch_ready = λ e q. ready e (s.epoch_ready e (sym current ∙ q));
        active_backed = λ t r q.
            let (i, a, (old, at, c, has)) = s.active_backed t r q in
            let (x, now, un) = settle-uncommitted (stored m.log r.epoch_id r.tx_id) old at c in
            (i, a, (x, places r.epoch_id r.tx_id ∙ now, un, ready r.epoch_id has));
        recent_bounded = s.recent_bounded;
        recent_committed_only = s.recent_committed_only;
      }
