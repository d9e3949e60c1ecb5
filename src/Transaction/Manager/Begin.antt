-- ===== src/Transaction/Manager/Begin.antt =====
-- The begin of a transaction: its id is new, and the manager stays sound.
use unifieddataruntime.Base.{
  subst, ℕ, ◌≡◌, ◌≢◌, ◌≤◌, ◌<◌, ◌+◌, ◌%◌, refl, sym, ap, ◌∙◌, String, true, ◌&&◌, Option, none,
  some, eqb, if◌then◌else◌, nat_eq, Result, ok, err, arith, Bool-cases, Option-cases, inl, inr,
}
use unifieddataruntime.Base.Int.{ℤ}
use unifieddataruntime.Base.Dict
use unifieddataruntime.Base.Dict.{Dict, lookup-insert, lookup-remove}
use unifieddataruntime.Clock.{u64_mod}
use unifieddataruntime.Transaction.{TransactionRecord, new_record, is_active}
use unifieddataruntime.Transaction.Epoch.{TransactionError, EpochMetadata, add_transaction}
use unifieddataruntime.Transaction.Log.{
  or_else, TransactionLog, write_transaction, write_epoch_metadata, get_epoch, current_tx_id,
  next_tx_id, current_epoch_id,
}
use unifieddataruntime.Transaction.Log.Store.{stored, LogSound, stored-write, sound-write}
use unifieddataruntime.Transaction.Manager.{
  TransactionManager, branch_and_snapshot, capture_snapshot, begin_as, begin,
}
use unifieddataruntime.Transaction.Manager.Sound.{
  HasEpoch, Backed, IsSound, stored-metadata, LogSound-by, sound-metadata, Backed-kept,
  HasEpoch-write, HasEpoch-metadata, Opened, current_epoch_id-Opened,
}

-- A transaction that is begun.
module _ {Json : Type 0} (trim : String → String) (now : ℤ) (m : TransactionManager Json)
    (branch : Option String) where
  abbrev pub next_id : ℕ
  next_id = current_tx_id m.log + 1

  abbrev numbered : TransactionLog Json
  numbered = record m.log { sequence = some next_id }

  abbrev opened : ℕ × TransactionLog Json
  opened = current_epoch_id now numbered

  -- The transaction, from its branch and its snapshot.
  abbrev pub begun : String × Dict String ℕ → TransactionRecord Json
  begun p = record (new_record now next_id (opened.0) (p.0)) { read_snapshot = p.1 }

  opened-Opened : IsSound m → Opened numbered opened
  unfolding get_epoch
  opened-Opened s = current_epoch_id-Opened now numbered s.epoch_ready

  opened_sound : IsSound m → LogSound (opened.1)
  opened_sound s =
      let (_, _, same, index, _, _) = opened-Opened s in
      LogSound-by m.log (opened.1) same index s.log_sound

  -- No transaction has the new id.
  opened_fresh :
      IsSound m → (e : ℕ) (r : TransactionRecord Json) → stored (opened.1) e next_id ≢ some r
  opened_fresh s e r at =
      let (_, _, same, _, _, _) = opened-Opened s in
      let old : next_id ≤ current_tx_id m.log =
        s.given_out e next_id r (sym (same e next_id) ∙ at) in
      omega (arith, old)

  module _ (p : String × Dict String ℕ) where
    abbrev logged : TransactionLog Json
    logged = write_transaction (opened.1) (begun p)

    logged_sound : IsSound m → LogSound logged
    logged_sound s =
        sound-write (opened.1) (begun p) (λ e r at. absurd (opened_fresh s e r at))
          (λ i.
            let (r, at, _) = (opened_sound s).index_stored (opened.0) next_id i in
            absurd (opened_fresh s (opened.0) r at))
          (opened_sound s)

    -- The manager after a transaction is begun, from the metadata of its epoch.
    abbrev after_begin : EpochMetadata → TransactionManager Json
    after_begin meta = record m {
      active = Dict.insert next_id (begun p) m.active;
      log = write_epoch_metadata logged (add_transaction meta next_id);
    }

    begin_run :
        (meta : EpochMetadata)
        → next_id < u64_mod
        → branch_and_snapshot trim m branch ≡ ok p
        → get_epoch logged (opened.0) ≡ ok meta
        → begin trim now m branch ≡ (ok next_id, after_begin meta)
    unfolding begin next_tx_id begin_as capture_snapshot
    begin_run meta h b g =
        let unwrapped : next_id % u64_mod ≡ next_id = ground (arith, h) in
        ap (λ t. begin_as t trim now (record m { log = record m.log { sequence = some t } }) branch)
          unwrapped
        ∙ rw (begin_as, b, g) refl

    logged_epoch : IsSound m → HasEpoch logged (opened.0)
    logged_epoch s =
        let (has, _, _, _, _, _) = opened-Opened s in
        HasEpoch-write (opened.1) (begun p) (opened.0) has

    -- What the log has after the begin: the new transaction, and what was there.
    stored-after_begin :
        (meta : EpochMetadata) (e t : ℕ)
        → IsSound m
        → stored (after_begin meta).log e t
          ≡ (if eqb (opened.0) e && eqb next_id t then some (begun p) else stored m.log e t)
    stored-after_begin meta e t s =
        let (_, _, same, _, _, _) = opened-Opened s in
        rw
          (
            stored-metadata logged (add_transaction meta next_id) e t,
            stored-write (opened.1) (begun p) e t,
            same e t,
          )
          refl

    HasEpoch-after_begin :
        (meta : EpochMetadata) (e : ℕ)
        → IsSound m
        → HasEpoch m.log e
        → HasEpoch (after_begin meta).log e
    unfolding get_epoch
    HasEpoch-after_begin meta e s has =
        let (_, _, _, _, _, ready) = opened-Opened s in
        HasEpoch-metadata logged (add_transaction meta next_id) e
          (HasEpoch-write (opened.1) (begun p) e (ready e has))

    after_begin-IsSound :
        (meta : EpochMetadata)
        → get_epoch logged (opened.0) ≡ ok meta
        → meta.epoch_id ≡ opened.0
        → IsSound m
        → IsSound (after_begin meta)
    unfolding write_transaction get_epoch
    after_begin-IsSound meta g here s =
        let (has, current, same, index, sequence, ready) = opened-Opened s in
        let after : TransactionLog Json = (after_begin meta).log in
        let drawn : current_tx_id after ≡ next_id = ap (λ q. or_else q 0) sequence in
        let own : HasEpoch after (opened.0) =
          HasEpoch-metadata logged (add_transaction meta next_id) (opened.0) (logged_epoch s) in
        record {
          log_sound = sound-metadata logged (add_transaction meta next_id) (logged_sound s);
          given_out = λ e t r at.
              rw (drawn) (ground (arith, stored-after_begin meta e t s, at, s.given_out e t r));
          epoch_ready = λ e k.
              let same_epoch : opened.0 ≡ e = ground (arith, current, k) in
              subst (HasEpoch after) same_epoch own;
          active_backed = λ t r k. elim (Bool-cases (eqb next_id t)) [
            | inl h ↦
                let new : begun p ≡ r =
                  ground (arith, lookup-insert next_id t (begun p) m.active, h, k) in
                subst (λ x. (x.tx_id ≡ t) × (is_active x ≡ true) × Backed after x) new
                  (
                    ground (arith, h),
                    refl,
                    (
                      begun p,
                      rw (stored-after_begin meta (opened.0) next_id s) (ground arith),
                      refl,
                      own,
                    ),
                  )
            | inr h ↦
                let old : Dict.lookup t m.active ≡ some r =
                  ground (arith, lookup-insert next_id t (begun p) m.active, h, k) in
                let (i, a, back) = s.active_backed t r old in
                (
                  i,
                  a,
                  Backed-kept m.log after r
                      (rw (stored-after_begin meta r.epoch_id r.tx_id s) (ground (arith, i, h)))
                      (λ q. HasEpoch-after_begin meta r.epoch_id s q) back,
                )
          ];
          recent_bounded = s.recent_bounded;
          recent_committed_only = s.recent_committed_only;
        }

  begin_fails :
      (x : TransactionError)
      → next_id < u64_mod
      → branch_and_snapshot trim m branch ≡ err x
      → begin trim now m branch ≡ (err x, record m { log = opened.1 })
  unfolding begin next_tx_id begin_as capture_snapshot
  begin_fails x h b =
      let unwrapped : next_id % u64_mod ≡ next_id = ground (arith, h) in
      ap (λ t. begin_as t trim now (record m { log = record m.log { sequence = some t } }) branch)
        unwrapped
      ∙ rw (begin_as, b) refl

  begin_fails-IsSound : IsSound m → IsSound (record m { log = opened.1 })
  unfolding get_epoch
  begin_fails-IsSound s =
      let (has, current, same, index, sequence, ready) = opened-Opened s in
      let drawn : current_tx_id (opened.1) ≡ next_id = ap (λ q. or_else q 0) sequence in
      record {
        log_sound = opened_sound s;
        given_out =
            λ e t r at. rw (drawn) (ground (arith, s.given_out e t r (sym (same e t) ∙ at)));
        epoch_ready = λ e k.
            let same_epoch : opened.0 ≡ e = ground (arith, current, k) in
            subst (HasEpoch (opened.1)) same_epoch has;
        active_backed = λ t r k.
            let (i, a, back) = s.active_backed t r k in
            (
              i,
              a,
              Backed-kept m.log (opened.1) r (same r.epoch_id r.tx_id) (ready r.epoch_id) back,
            );
        recent_bounded = s.recent_bounded;
        recent_committed_only = s.recent_committed_only;
      }

  -- What a begin did: where the branch and its snapshot are read, it gives the next id, which no
  -- transaction had, and the transaction is active under it with that snapshot; where they are not,
  -- the error is given. Nothing else that is active changes, the catalog does not, and the manager
  -- is sound.
  abbrev pub Begun :
      Result TransactionError (String × Dict String ℕ)
      → Result TransactionError ℕ × TransactionManager Json
      → Type 0
  Begun (err x) (r, k) = (r ≡ err x) × (k.active ≡ m.active) × (k.catalog ≡ m.catalog) × IsSound k
  Begun (ok p) (r, k) =
      (r ≡ ok next_id)
      × ((e : ℕ) → stored m.log e next_id ≡ none)
      × ((t : ℕ)
          → Dict.lookup t k.active
            ≡ (if eqb next_id t then some (begun p) else Dict.lookup t m.active))
      × (stored k.log (opened.0) next_id ≡ some (begun p))
      × (k.catalog ≡ m.catalog)
      × IsSound k

  begin-ok :
      (p : String × Dict String ℕ)
      → IsSound m
      → next_id < u64_mod
      → branch_and_snapshot trim m branch ≡ ok p
      → Begun (ok p) (begin trim now m branch)
  begin-ok p s h b =
      let (meta, g, here) = logged_epoch p s in
      let k : TransactionManager Json = after_begin p meta in
      let fresh : (e : ℕ) → stored m.log e next_id ≡ none = λ e.
        elim (Option-cases (stored m.log e next_id)) [
          | inl n ↦ n
          | inr (r, at) ↦ let old = s.given_out e next_id r at in absurd (omega (arith, old))
        ] in
      subst (Begun (ok p)) (sym (begin_run p meta h b g)) (
        refl,
        fresh,
        (λ t. lookup-insert next_id t (begun p) m.active),
        rw (stored-after_begin p meta (opened.0) next_id s) (ground arith),
        refl,
        after_begin-IsSound p meta g here s,
      )

  -- A sound manager whose ids are not used up begins a transaction as `Begun` says: where the branch
  -- and its snapshot are read, it gives the next id, which no transaction had, and the transaction
  -- is active under it and in the log; where they are not, the error is given. Nothing else that is
  -- active changes, nor does the catalog, and the manager is sound.
  pub begin-Begun :
      IsSound m
      → next_id < u64_mod
      → Begun (branch_and_snapshot trim m branch) (begin trim now m branch)
  begin-Begun s h = go (branch_and_snapshot trim m branch) refl
    where
      go :
          (o : Result TransactionError (String × Dict String ℕ))
          → branch_and_snapshot trim m branch ≡ o
          → Begun o (begin trim now m branch)
      go (err x) b =
          subst (Begun (err x)) (sym (begin_fails x h b)) (refl, refl, refl, begin_fails-IsSound s)
      go (ok p) b = begin-ok p s h b
