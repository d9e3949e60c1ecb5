-- ===== src/Transaction/Manager/Ending.antt =====
-- How transactions change and end: a change of an active one, a commit and an abort keep the
-- soundness of the manager.
use unifieddataruntime.Base.{
  subst, ℕ, ◌≡◌, ◌≤◌, refl, sym, ap, ◌∙◌, true, false, ◌&&◌, Option, none, some, List, [], ◌∷◌, eqb,
  ltb, length, All, if◌then◌else◌, nat_eq, ok, arith, Bool-cases, inl, inr,
}
use unifieddataruntime.Base.Dict
use unifieddataruntime.Base.Dict.{Dict, lookup-insert, lookup-remove}
use unifieddataruntime.Transaction.{TransactionRecord, is_active}
use unifieddataruntime.Transaction.Epoch.{EpochMetadata}
use unifieddataruntime.Transaction.Log.{
  or_else, TransactionLog, write_transaction, write_epoch_metadata, current_tx_id,
}
use unifieddataruntime.Transaction.Log.Store.{stored, stored-write}
use unifieddataruntime.Transaction.Manager.{TransactionManager, change_active}
use unifieddataruntime.Transaction.Manager.Committing.{shrink}
use unifieddataruntime.Transaction.Manager.Sound.{
  sequences-write, HasEpoch, Backed, IsSound, stored-metadata, sound-metadata, Backed-kept,
  sound-replace, HasEpoch-write, HasEpoch-metadata,
}

pub length-shrink : {A : Type 0} (n : ℕ) (xs : List A) → length (shrink n xs) ≤ n
length-shrink n [] = omega arith
length-shrink n (x ∷ xs) = ground (arith, length-shrink n xs)

pub All-shrink :
    {A : Type 0} (P : A → Type 0) (n : ℕ) (xs : List A) → All P xs → All P (shrink n xs)
All-shrink P n [] h = tt
All-shrink P n (x ∷ xs) h = elim (Bool-cases (ltb n (length (x ∷ xs)))) [
  | inl e ↦ rw (e) (All-shrink P n xs h.1)
  | inr e ↦ rw (e) h
]

module _ {Json : Type 0} where
  change_active_some :
      (m : TransactionManager Json) (t : ℕ) (f : TransactionRecord Json → TransactionRecord Json)
      → ((r : TransactionRecord Json)
          → ((f r).tx_id ≡ r.tx_id) × ((f r).epoch_id ≡ r.epoch_id) × ((f r).status ≡ r.status))
      → (tx : TransactionRecord Json) → Dict.lookup t m.active ≡ some tx
      → is_active tx ≡ true
      → IsSound m
      → IsSound (record m { active = Dict.insert t (f tx) m.active })
  change_active_some m t f same tx k n s =
      let (fi, fe, fs) = same tx in
      let (i, a, (old, at, c, has)) = s.active_backed t tx k in
      record {
        log_sound = s.log_sound;
        given_out = s.given_out;
        epoch_ready = s.epoch_ready;
        active_backed = λ u r q. elim (Bool-cases (eqb t u)) [
          | inl h ↦
              let new : f tx ≡ r = ground (arith, lookup-insert t u (f tx) m.active, h, q) in
              subst (λ x. (x.tx_id ≡ u) × (is_active x ≡ true) × Backed m.log x) new
                (
                  ground (arith, fi, i, h),
                  ground (arith, fs, n),
                  (old, rw (fi, fe) at, c, rw (fe) has),
                )
          | inr h ↦ s.active_backed u r (ground (arith, lookup-insert t u (f tx) m.active, h, q))
        ];
        recent_bounded = s.recent_bounded;
        recent_committed_only = s.recent_committed_only;
      }

  -- A change that leaves the id, the epoch and the status.
  pub change_active-IsSound :
      (m : TransactionManager Json) (t : ℕ) (f : TransactionRecord Json → TransactionRecord Json)
      → ((r : TransactionRecord Json)
          → ((f r).tx_id ≡ r.tx_id) × ((f r).epoch_id ≡ r.epoch_id) × ((f r).status ≡ r.status))
      → IsSound m
      → IsSound (change_active m t f).1
  change_active-IsSound m t f same s = go (Dict.lookup t m.active) refl
    where
      go :
          (o : Option (TransactionRecord Json))
          → Dict.lookup t m.active ≡ o
          → IsSound (change_active m t f).1
      go none k = rw (change_active, k) s
      go (some tx) k = elim (Bool-cases (is_active tx)) [
        | inr n ↦ rw (change_active, k, n) s
        | inl n ↦
            let after : TransactionManager Json = record m {
              active = Dict.insert t (f tx) m.active;
            } in
            let run : change_active m t f ≡ (ok tt, after) = rw (change_active, k, n) refl in
            subst (λ q. IsSound (q.1)) (sym run) (change_active_some m t f same tx k n s)
      ]

  -- The end of a transaction: its last record is written, and it leaves the active ones.
  abbrev pub ended :
      TransactionManager Json → ℕ → TransactionRecord Json → EpochMetadata → TransactionManager Json
  ended m t r meta = record m {
    active = Dict.remove t m.active;
    log = write_epoch_metadata (write_transaction m.log r) meta;
  }

  stored-ended :
      (m : TransactionManager Json) (t : ℕ) (r : TransactionRecord Json) (meta : EpochMetadata)
      (e u : ℕ)
      → stored (ended m t r meta).log e u
        ≡ (if eqb r.epoch_id e && eqb r.tx_id u then some r else stored m.log e u)
  stored-ended m t r meta e u =
      rw (stored-metadata (write_transaction m.log r) meta e u, stored-write m.log r e u) refl

  HasEpoch-ended :
      (m : TransactionManager Json) (t : ℕ) (r : TransactionRecord Json) (meta : EpochMetadata)
      (e : ℕ)
      → HasEpoch m.log e
      → HasEpoch (ended m t r meta).log e
  HasEpoch-ended m t r meta e has =
      HasEpoch-metadata (write_transaction m.log r) meta e (HasEpoch-write m.log r e has)

  pub ended-IsSound :
      (m : TransactionManager Json) (t : ℕ) (tx r : TransactionRecord Json) (meta : EpochMetadata)
      → IsSound m
      → Dict.lookup t m.active ≡ some tx
      → r.tx_id ≡ tx.tx_id
      → r.epoch_id ≡ tx.epoch_id
      → IsSound (ended m t r meta)
  ended-IsSound m t tx r meta s k it ie =
      let (i, a, (old, at, c, has)) = s.active_backed t tx k in
      let l : TransactionLog Json = write_transaction m.log r in
      let place : stored m.log r.epoch_id r.tx_id ≡ some old = rw (it, ie) at in
      let (drawn, current) = sequences-write m.log r in
      let same_id : current_tx_id l ≡ current_tx_id m.log = ap (λ q. or_else q 0) drawn in
      record {
        log_sound = sound-metadata l meta (sound-replace m.log old r s.log_sound place c);
        given_out = λ e u x q. rw (same_id) (
            ground (
              arith,
              stored-ended m t r meta e u,
              q,
              s.given_out e u x,
              s.given_out r.epoch_id r.tx_id old place,
            ));
        epoch_ready = λ e q. HasEpoch-ended m t r meta e (s.epoch_ready e (sym current ∙ q));
        active_backed = λ u x q.
            let live : (eqb t u ≡ false) × (Dict.lookup u m.active ≡ some x) = (
              ground (arith, lookup-remove t u m.active, q),
              ground (arith, lookup-remove t u m.active, q),
            ) in
            let (j, b, back) = s.active_backed u x (live.1) in
            (
              j,
              b,
              Backed-kept m.log (ended m t r meta).log x
                  (rw (stored-ended m t r meta x.epoch_id x.tx_id)
                    (ground (arith, it, i, j, live.0)))
                  (HasEpoch-ended m t r meta x.epoch_id) back,
            );
        recent_bounded = s.recent_bounded;
        recent_committed_only = s.recent_committed_only;
      }
