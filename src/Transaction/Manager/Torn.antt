-- ===== src/Transaction/Manager/Torn.antt =====
-- What a commit leaves behind that fails after its writes were applied.
use unifieddataruntime.Base.{
  ap, subst, ◌∙◌, ℕ, ◌≡◌, refl, String, none, some, [], ◌∷◌, string_eq, nat_eq, ok, err, ◌>>◌,
  ◌>>=◌, arith, beq_refl,
}
use unifieddataruntime.Base.Int.{ℤ}
use unifieddataruntime.Base.Dict
use unifieddataruntime.Base.Dict.{Dict}
use unifieddataruntime.Branch.{set_table_version}
use unifieddataruntime.Branch.Manager
use unifieddataruntime.Branch.Manager.{BranchError, BranchManager, update_head}
use unifieddataruntime.Catalog.{FileCatalog, latest_version_num, new_version, commit_next_version}
use unifieddataruntime.Catalog.Versions.{next_version, version_at}
use unifieddataruntime.Catalog.History.{commit_next_version_lem}
use unifieddataruntime.Transaction.{TransactionRecord, TableWrite, mark_committed}
use unifieddataruntime.Transaction.Epoch.{TransactionError}
use unifieddataruntime.Transaction.Manager.{TransactionManager}
use unifieddataruntime.Transaction.Manager.Committing.{
  apply_writes, set_heads, update_branch_heads, check_conflicts, validate_snapshot, commit,
}
use unifieddataruntime.Transaction.Manager.Sound.{IsSound}
use unifieddataruntime.Transaction.Manager.Outcome.{
  effects, heads_after, with_effects, Finishes, Checked, Outcome, commit-Outcome,
}

update_head-unknown :
    (bm : BranchManager) (b t : String) (v : ℕ) (x : BranchError)
    → Manager.get bm b ≡ err x
    → update_head bm b t v ≡ err x
unfolding update_head
update_head-unknown bm b t v x g =
    ap (λ r. r >>= λ br. ok (Manager.save_branch bm (set_table_version br t v))) g

module _ {Json : Type 0} (now : ℤ) (ids : ℕ → String) where
  heads_after-unknown :
      (bm : BranchManager) (b : String) (x : BranchError) (tx : TransactionRecord Json)
      (w : TableWrite Json) (versions : Dict String ℕ) (c : FileCatalog)
      → tx.writes ≡ w ∷ []
      → w.branch ≡ some b
      → Manager.get bm b ≡ err x
      → heads_after now ids (some bm) tx (ok versions, c)
        ≡ (err (TransactionError.branch_error x), (c, some bm))
  unfolding update_branch_heads
  heads_after-unknown bm b x tx w versions c ws wb g =
      let run : set_heads tx versions (w ∷ []) bm ≡ (err (TransactionError.branch_error x), bm) =
        rw
          (
            set_heads,
            wb,
            update_head-unknown bm b w.table_name
                (elim (Dict.lookup w.table_name versions) [ none ↦ w.new_version | some v ↦ v ]) x
                g,
          )
          refl in
      let all : set_heads tx versions tx.writes bm ≡ (err (TransactionError.branch_error x), bm) =
        ap (λ ws'. set_heads tx versions ws' bm) ws ∙ run in
      ap (λ p. (p.0, (c, some (p.1)))) all

  -- A commit is not atomic. A sound manager with branches commits a transaction that passes both checks
  -- and has one write, for a branch that cannot be read: the commit fails with the error of the
  -- branch, the transaction stays active and the log as it was, and yet the catalog has the new
  -- version of the table as its latest.
  pub commit-torn :
      (m : TransactionManager Json) (t : ℕ) (tx : TransactionRecord Json) (bm : BranchManager)
      (w : TableWrite Json) (b : String) (x : BranchError)
      → IsSound m
      → Dict.lookup t m.active ≡ some tx
      → (check_conflicts m tx >> validate_snapshot m tx) ≡ ok tt
      → m.branch_manager ≡ some bm
      → tx.writes ≡ w ∷ []
      → w.branch ≡ some b
      → Manager.get bm b ≡ err x
      → let (r, k) = commit now ids m t in
        let n = next_version m.catalog w.table_name in
        (r ≡ err (TransactionError.branch_error x))
        × (k.active ≡ m.active)
        × (k.log ≡ m.log)
        × (latest_version_num k.catalog w.table_name ≡ n)
        × (version_at k.catalog w.table_name n
            ≡ some (new_version now w.table_name n w.chunk_hashes))
  commit-torn m t tx bm w b x s k checks hb ws wb g =
      let tx' : TransactionRecord Json = mark_committed now tx in
      let c : FileCatalog =
        (commit_next_version now (ids 0) m.catalog w.table_name w.chunk_hashes).1 in
      let n : ℕ = next_version m.catalog w.table_name in
      let (first, _, versions, latests, _) =
        commit_next_version_lem now (ids 0) m.catalog w.table_name w.chunk_hashes in
      let acc : Dict String ℕ = (w.table_name, n) ∷ [] in
      let one : apply_writes now ids 0 m.catalog (w ∷ []) [] ≡ (ok acc, c) =
        rw (apply_writes, first) refl in
      let applied : apply_writes now ids 0 m.catalog tx'.writes [] ≡ (ok acc, c) =
        ap (λ ws'. apply_writes now ids 0 m.catalog ws' []) ws ∙ one in
      let ends : effects now ids m tx' ≡ (err (TransactionError.branch_error x), (c, some bm)) =
        ap (λ p. heads_after now ids m.branch_manager tx' p) applied
        ∙ (ap (λ o. heads_after now ids o tx' (ok acc, c)) hb
            ∙ heads_after-unknown bm b x tx' w acc c ws wb g) in
      let outcome : Outcome now ids m t (some tx) (commit now ids m t) =
        subst (λ o. Outcome now ids m t o (commit now ids m t)) k (commit-Outcome now ids m t s) in
      let (meta, _, finished) =
        subst (λ o. Checked now ids m t tx o (commit now ids m t)) checks outcome in
      let run : commit now ids m t
          ≡ (err (TransactionError.branch_error x), with_effects now ids m c (some bm)) =
        subst (λ q. Finishes now ids m t tx' meta q (commit now ids m t)) ends finished in
      rw (run) (
        refl,
        refl,
        refl,
        rw (latests w.table_name, beq_refl w.table_name) refl,
        rw (versions w.table_name n, beq_refl w.table_name) (ground arith),
      )
