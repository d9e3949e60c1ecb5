-- ===== src/Catalog/Pending.antt =====
-- The recovery of the intents that crashes leave.
use unifieddataruntime.Base.{
  append_nil, ap, ◌∙◌, ◌+◌, ◌<◌, String, ◌≡◌, refl, Bool, false, not, Option, none, some, List, [],
  ◌++◌, ◌∷◌, string_eq, nat_eq, eqb, if◌then◌else◌, ok, arith, beq_refl, select,
}
use unifieddataruntime.Base.Dict
use unifieddataruntime.Base.Dict.{Dict, lookup-insert, lookup-remove, values, keys}
use unifieddataruntime.Base.HashSet
use unifieddataruntime.Base.Int.{ℤ}
use unifieddataruntime.Clock.{u64_mod}
use unifieddataruntime.Catalog.{
  TableVersion, PendingCommit, TableDir, FileCatalog, new_version, dir_of, latest_version_num,
  remove_pending_intent, commit_next_version, get_version, same_hashes, is_committed, recover_loop,
  recover_pending_commits,
}
use unifieddataruntime.Catalog.Versions.{next_version, version_at}
use unifieddataruntime.Catalog.History.{commit_next_version_lem, version_next}
use unifieddataruntime.Catalog.Soundness.{recover_loop_dirs, IsSound-by, IsSound}
use unifieddataruntime.Base.Sort.{contains-keys}
use mathlib.Core.List.{append_assoc}

-- Whether the latest version of a table has just these chunks.
abbrev pub latest_holds : FileCatalog → String → List String → Bool
latest_holds c t hs =
    if eqb (latest_version_num c t) 0
    then false
    else elim (version_at c t (latest_version_num c t)) [
      | none ↦ false
      | some v ↦ same_hashes v.chunk_hashes hs
    ]

is_committed_lem :
    (c : FileCatalog) (t : String) (hs : List String)
    → IsSound c
    → is_committed c t hs ≡ ok (latest_holds c t hs)
unfolding is_committed get_version
is_committed_lem c t hs s = go (Dict.lookup t c.tables) refl
  where
    go :
        (o : Option TableDir)
        → Dict.lookup t c.tables ≡ o
        → is_committed c t hs ≡ ok (latest_holds c t hs)
    go none h = ground (arith, h)
    go (some d) h = ground (arith, h, s.named t)

-- The intents that the latest versions do not account for.
abbrev pub orphans : FileCatalog → List PendingCommit → List PendingCommit
orphans c ps = select (λ p. not (latest_holds c p.table_name p.chunk_hashes)) ps

recover_loop-cons :
    (id : String) (p : PendingCommit) (ps : Dict String PendingCommit) (acc : List PendingCommit)
    (c : FileCatalog) (done : Bool)
    → is_committed c p.table_name p.chunk_hashes ≡ ok done
    → recover_loop ((id, p) ∷ ps) acc c
      ≡ recover_loop ps (if done then acc else acc ++ p ∷ []) (remove_pending_intent c id)
recover_loop-cons id p ps acc c done h = rw (recover_loop, h) refl

recover_loop_lem :
    (ps : Dict String PendingCommit) (acc : List PendingCommit) (b c : FileCatalog)
    → IsSound c
    → c.tables ≡ b.tables
    → ((recover_loop ps acc c).0 ≡ ok (acc ++ orphans b (values ps)))
      × ((j : String)
          → Dict.lookup j (recover_loop ps acc c).1.pending
            ≡ (if HashSet.contains j (keys ps) then none else Dict.lookup j c.pending))
unfolding remove_pending_intent
recover_loop_lem [] acc b c s e = (rw (append_nil acc) refl, λ j. refl)
recover_loop_lem ((id, p) ∷ ps) acc b c s e =
    let done : Bool = latest_holds b p.table_name p.chunk_hashes in
    let same : latest_holds c p.table_name p.chunk_hashes ≡ done =
      ap (λ ts. latest_holds (record b { tables = ts }) p.table_name p.chunk_hashes) e in
    let acc' : List PendingCommit = if done then acc else acc ++ p ∷ [] in
    let c' : FileCatalog = remove_pending_intent c id in
    let run : recover_loop ((id, p) ∷ ps) acc c ≡ recover_loop ps acc' c' =
      recover_loop-cons id p ps acc c done
        (is_committed_lem c p.table_name p.chunk_hashes s ∙ ap ok same) in
    let (value, rest) = recover_loop_lem ps acc' b c' (IsSound-by c c' (λ t. refl) s) e in
    (
      rw (run, value) (ground (arith, append_assoc acc (p ∷ []) (orphans b (values ps)))),
      λ j. rw (run, rest j) (ground (arith, lookup-remove id j c.pending)),
    )

-- In a sound catalog the recovery succeeds. It gives the intents whose chunks are not those of the
-- latest version of their table, in the order of the scan; afterwards there is no intent, and the
-- tables read as before.
pub recover_pending_commits_lem :
    (c : FileCatalog)
    → IsSound c
    → ((recover_pending_commits c).0 ≡ ok (orphans c (values c.pending)))
      × ((j : String) → Dict.lookup j (recover_pending_commits c).1.pending ≡ none)
      × ((t : String) → dir_of (recover_pending_commits c).1 t ≡ dir_of c t)
unfolding recover_pending_commits
recover_pending_commits_lem c s =
    let (value, rest) = recover_loop_lem c.pending [] c c s refl in
    (
      value,
      (λ j. rw (rest j) (ground (arith, contains-keys j c.pending))),
      recover_loop_dirs c.pending [] c,
    )

is_committed-latest :
    (c : FileCatalog) (t : String) (hs : List String) (v : TableVersion)
    → get_version c t none ≡ ok v
    → 0 < latest_version_num c t
    → is_committed c t hs ≡ ok (same_hashes v.chunk_hashes hs)
unfolding is_committed get_version
is_committed-latest c t hs v e pos = go (Dict.lookup t c.tables) refl
  where
    go :
        (o : Option TableDir)
        → Dict.lookup t c.tables ≡ o
        → is_committed c t hs ≡ ok (same_hashes v.chunk_hashes hs)
    go none h = ground (arith, h, pos)
    go (some d) h = ground (arith, h, pos, e)

-- A commit that completed and was followed by another one of the same table, with version numbers
-- left for both, counts as completed only if the other has the same chunks, though its version is
-- stored.
pub is_committed-overtaken :
    (now : ℤ) (id : String) (c : FileCatalog) (t : String) (hs : List String) (now' : ℤ)
    (id' : String) (hs' : List String)
    → latest_version_num c t + 2 < u64_mod
    → let c₁ = (commit_next_version now id c t hs).1 in
      let c₂ = (commit_next_version now' id' c₁ t hs').1 in
      (is_committed c₂ t hs ≡ ok (same_hashes hs' hs))
      × (version_at c₂ t (latest_version_num c t + 1)
          ≡ some (new_version now t (latest_version_num c t + 1) hs))
is_committed-overtaken now id c t hs now' id' hs' h =
    let c₁ : FileCatalog = (commit_next_version now id c t hs).1 in
    let c₂ : FileCatalog = (commit_next_version now' id' c₁ t hs').1 in
    let (_, _, versions, latests, _) = commit_next_version_lem now id c t hs in
    let (_, read, versions', latests', _) = commit_next_version_lem now' id' c₁ t hs' in
    let first : next_version c t ≡ latest_version_num c t + 1 = ground (arith, h) in
    let at : latest_version_num c₁ t ≡ latest_version_num c t + 1 =
      rw (latests t, beq_refl t) first in
    let second : next_version c₁ t ≡ latest_version_num c t + 2 = rw (at) (ground (arith, h)) in
    let at' : latest_version_num c₂ t ≡ latest_version_num c t + 2 =
      rw (latests' t, beq_refl t) second in
    (
      is_committed-latest c₂ t hs (version_next now' id' c₁ t hs') read (rw (at') (omega arith)),
      rw
          (
            versions' t (latest_version_num c t + 1),
            second,
            versions t (latest_version_num c t + 1),
            first,
            beq_refl t,
          )
          (ground arith),
    )
