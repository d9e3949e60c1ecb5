-- ===== src/Transaction/Manager/Isolation.antt =====
-- What a commit that succeeds means, and when it succeeds.
use unifieddataruntime.Base.{
  subst, >>=-eq-ok, ℕ, ◌≡◌, ◌+◌, refl, ap, String, false, Option, none, some, List, [], ◌∷◌, leb,
  string_eq, All, nat_eq, Result, ok, err, ◌>>◌, arith, Bool-cases, Option-cases, inl, inr, ◌==◌,
}
use unifieddataruntime.Base.Int.{ℤ}
use unifieddataruntime.Base.Dict
use unifieddataruntime.Base.Dict.{Dict, lookup-insert, lookup-remove}
use unifieddataruntime.Branch.Manager.{BranchManager}
use unifieddataruntime.Catalog.{FileCatalog}
use unifieddataruntime.Transaction.{TransactionRecord, TableWrite, mark_committed}
use unifieddataruntime.Transaction.Conflict.{Conflict}
use unifieddataruntime.Transaction.Epoch.{TransactionError, EpochMetadata}
use unifieddataruntime.Transaction.Manager.{TransactionManager}
use unifieddataruntime.Transaction.Manager.Committing.{
  changed, check_recent, validate_reads, current_version, check_active, apply_writes,
  update_branch_heads, check_conflicts, validate_snapshot, commit,
}
use unifieddataruntime.Transaction.Manager.Sound.{IsSound}
use unifieddataruntime.Transaction.Manager.Outcome.{
  heads_after, effects, Effects, Finishes, Checked, Outcome, commit-Outcome,
}
use unifieddataruntime.Catalog.{commit_next_version}
use unifieddataruntime.Catalog.Versions.{next_version}
use unifieddataruntime.Catalog.History.{commit_next_version_lem}
use text.Mathlib.TextEquality.{eq_iff}

changed-none : (o : Option ℕ) (v now : ℕ) → o ≡ some now → changed o v ≡ none → now ≡ v
changed-none o v now e h = ground (arith, e, h)

module _ {Json : Type 0} where
  check_recent-All :
      (m : TransactionManager Json) (tx : TransactionRecord Json)
      (cs : List (TransactionRecord Json))
      → check_recent m tx cs ≡ ok tt
      → All (λ c. leb tx.tx_id c.tx_id ≡ false → m.conflict_detector tx c ≡ none) cs
  check_recent-All m tx [] h = tt
  check_recent-All m tx (c ∷ cs) h = go (m.conflict_detector tx c) refl (check_recent-All m tx cs)
    where
      go :
          (o : Option Conflict)
          → m.conflict_detector tx c ≡ o
          → (check_recent m tx cs ≡ ok tt
              → All (λ d. leb tx.tx_id d.tx_id ≡ false → m.conflict_detector tx d ≡ none) cs)
          → All (λ d. leb tx.tx_id d.tx_id ≡ false → m.conflict_detector tx d ≡ none) (c ∷ cs)
      go none k later = ((λ _. k), later (ground (arith, h, k)))
      go (some x) k later = ((λ l. ground (arith, h, k, l)), later (ground (arith, h, k)))

  validate_reads-cons :
      (m : TransactionManager Json) (tx : TransactionRecord Json) (u : String) (w : ℕ)
      (rs : Dict String ℕ)
      → validate_reads m tx ((u, w) ∷ rs) ≡ ok tt
      → (o : Option ℕ) × (current_version m tx u ≡ ok o)
        × (changed o w ≡ none)
        × (validate_reads m tx rs ≡ ok tt)
  validate_reads-cons m tx u w rs h =
      let (o, k, rest) =
        >>=-eq-ok (current_version m tx u)
          (λ current. elim (changed current w) [
            | some now ↦ err (TransactionError.snapshot_conflict u w now)
            | none ↦ validate_reads m tx rs
          ])
          h in
      elim (Option-cases (changed o w)) [
        | inl n ↦ (o, k, n, ground (arith, rest, n))
        | inr (x, n) ↦ absurd (ground (arith, rest, n))
      ]

  validate_reads-current :
      (m : TransactionManager Json) (tx : TransactionRecord Json) (rs : Dict String ℕ)
      → validate_reads m tx rs ≡ ok tt
      → (table : String) (v now : ℕ) → Dict.lookup table rs ≡ some v
      → current_version m tx table ≡ ok (some now)
      → now ≡ v
  validate_reads-current m tx [] h table v now at c = ground (arith, at)
  validate_reads-current m tx ((u, w) ∷ rs) h table v now at c =
      let (o, k, n, rest) = validate_reads-cons m tx u w rs h in
      let later : Dict.lookup table rs ≡ some v → now ≡ v =
        λ e. validate_reads-current m tx rs rest table v now e c in
      elim (Bool-cases (u == table)) [
        | inr d ↦ later (ground (arith, at, d))
        | inl e ↦
            let same : current_version m tx table ≡ ok o =
              subst (λ x. current_version m tx x ≡ ok o) ((eq_iff u table).0 e) k in
            let value : o ≡ some now = ground (arith, same, c) in
            let w_v : w ≡ v = ground (arith, at, e) in
            changed-none o v now value (subst (λ x. changed o x ≡ none) w_v n)
      ]

  commit-checks :
      (now : ℤ) (ids : ℕ → String) (m : TransactionManager Json) (t : ℕ)
      (tx : TransactionRecord Json)
      → Dict.lookup t m.active ≡ some tx
      → (commit now ids m t).0 ≡ ok tt
      → (check_conflicts m tx ≡ ok tt) × (validate_snapshot m tx ≡ ok tt)
  unfolding commit
  commit-checks now ids m t tx k h = go (check_conflicts m tx) refl (validate_snapshot m tx) refl
    where
      go :
          (o : Result TransactionError (Unit {0}))
          → check_conflicts m tx ≡ o
          → (q : Result TransactionError (Unit {0})) → validate_snapshot m tx ≡ q
          → (check_conflicts m tx ≡ ok tt) × (validate_snapshot m tx ≡ ok tt)
      go (err e) a q b = absurd (ground (arith, h, k, a))
      go (ok _) a (err e) b = absurd (ground (arith, h, k, a, b))
      go (ok _) a (ok _) b = (a, b)

  -- A commit that succeeds is isolated: of each table that the transaction read, the version that is
  -- there at the commit, if there is one, is the one that it read; and no transaction with a lower
  -- id among those that committed recently conflicts with it.
  pub commit-isolated :
      (now : ℤ) (ids : ℕ → String) (m : TransactionManager Json) (t : ℕ)
      (tx : TransactionRecord Json)
      → Dict.lookup t m.active ≡ some tx
      → (commit now ids m t).0 ≡ ok tt
      → ((table : String) (v current : ℕ)
          → Dict.lookup table tx.read_snapshot ≡ some v
          → current_version m tx table ≡ ok (some current)
          → current ≡ v)
        × All
            (λ c. leb tx.tx_id c.tx_id ≡ false → m.conflict_detector tx c ≡ none)
            m.recent_committed
  unfolding check_conflicts validate_snapshot
  commit-isolated now ids m t tx k h =
      let (conflicts, reads) = commit-checks now ids m t tx k h in
      let (_, recent, _) =
        >>=-eq-ok (check_recent m tx m.recent_committed) (λ _. check_active m tx m.active)
          conflicts in
      (
        (λ table v current at c.
            validate_reads-current m tx tx.read_snapshot reads table v current at c),
        check_recent-All m tx m.recent_committed recent,
      )

  apply_writes-ok :
      (now : ℤ) (ids : ℕ → String) (i : ℕ) (c : FileCatalog) (ws : List (TableWrite Json))
      (acc : Dict String ℕ)
      → (versions : Dict String ℕ) × ((apply_writes now ids i c ws acc).0 ≡ ok versions)
  apply_writes-ok now ids i c [] acc = (acc, refl)
  apply_writes-ok now ids i c (w ∷ ws) acc =
      let (first, _, _, _, _) = commit_next_version_lem now (ids i) c w.table_name w.chunk_hashes in
      let c' : FileCatalog = (commit_next_version now (ids i) c w.table_name w.chunk_hashes).1 in
      let n : ℕ = next_version c w.table_name in
      let (versions, rest) =
        apply_writes-ok now ids (i + 1) c' ws (Dict.insert w.table_name n acc) in
      (versions, rw (apply_writes, first) rest)

  heads_after-ok :
      (now : ℤ) (ids : ℕ → String) (b : Option BranchManager) (tx : TransactionRecord Json)
      (p : Result TransactionError (Dict String ℕ) × FileCatalog) (versions : Dict String ℕ)
      → b ≡ none
      → p.0 ≡ ok versions
      → (heads_after now ids b tx p).0 ≡ ok tt
  unfolding update_branch_heads
  heads_after-ok now ids none tx (ok v, c) versions n h = refl
  heads_after-ok now ids none tx (err e, c) versions n h = absurd (ground (arith, h))
  heads_after-ok now ids (some b) tx p versions n h = absurd (ground (arith, n))

  effects-ok :
      (now : ℤ) (ids : ℕ → String) (m : TransactionManager Json) (tx : TransactionRecord Json)
      → m.branch_manager ≡ none
      → (effects now ids m tx).0 ≡ ok tt
  effects-ok now ids m tx b =
      let (versions, h) = apply_writes-ok now ids 0 m.catalog tx.writes [] in
      heads_after-ok now ids m.branch_manager tx (apply_writes now ids 0 m.catalog tx.writes [])
        versions b h

  -- Without branches a commit of an active transaction of a sound manager succeeds exactly if both
  -- its checks do, and gives their error if they do not.
  pub commit_succeeds :
      (now : ℤ) (ids : ℕ → String) (m : TransactionManager Json) (t : ℕ)
      (tx : TransactionRecord Json)
      → IsSound m
      → m.branch_manager ≡ none
      → Dict.lookup t m.active ≡ some tx
      → (commit now ids m t).0 ≡ (check_conflicts m tx >> validate_snapshot m tx)
  commit_succeeds now ids m t tx s b k =
      checked (check_conflicts m tx >> validate_snapshot m tx) (commit now ids m t)
        (subst (λ o. Outcome now ids m t o (commit now ids m t)) k (commit-Outcome now ids m t s))
    where
      finished :
          (meta : EpochMetadata) (x : Effects)
          (r : Result TransactionError (Unit {0}) × TransactionManager Json)
          → x.0 ≡ ok tt
          → Finishes now ids m t (mark_committed now tx) meta x r
          → r.0 ≡ ok tt
      finished meta (ok _, (c, d)) r e h = ap (λ q. q.0) h
      finished meta (err x, (c, d)) r e h = absurd (ground (arith, e))

      checked :
          (o : Result TransactionError (Unit {0}))
          (r : Result TransactionError (Unit {0}) × TransactionManager Json)
          → Checked now ids m t tx o r
          → r.0 ≡ o
      checked (err e) r h = ap (λ q. q.0) h
      checked (ok _) r (meta, g, h) =
          finished meta (effects now ids m (mark_committed now tx)) r
            (effects-ok now ids m (mark_committed now tx) b) h
