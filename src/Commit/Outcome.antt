-- ===== src/Commit/Outcome.antt =====
-- What a local commit and a merge of updates give, on every branch.
use unifieddataruntime.Base.{
  String, ◌≡◌, refl, sym, ◌∙◌, Bool, true, false, Option, none, some, List, [], ◌∷◌, ◌++◌,
  Bool-cases, inl, inr, arith, string_eq, ◌==◌, Result, ok, err, >>=-eq-ok,
}
use unifieddataruntime.Base.Dict
use unifieddataruntime.Base.Dict.{Dict}
use unifieddataruntime.Clock
use unifieddataruntime.Clock.{NodeId, VectorClock}
use unifieddataruntime.Algebra.Types.{F64}
use unifieddataruntime.Commit.{
  AlgebraicOperation, AlgebraicTransaction, VersionedUpdate, LocalCommitError, new_update,
  can_commit_locally, commit_local, group_by_key, check_types, merge_values,
  merge_operations_for_key, resolve, merge_groups, merge_updates, group_updates, merge_clocks,
  merge_all,
}
use unifieddataruntime.Commit.Grouping.{
  Ops, ops_for, HasKey, Keyed, group_by_key-Keyed, group_by_key-Unique, lookup-group_by_key,
  with_ops,
}
use text.Mathlib.TextEquality.{eq_iff}

abbrev pub is_ok : {E A : Type 0} → Result E A → Bool
is_ok (ok _) = true
is_ok (err _) = false

module _ {Float : Type 0} where
  -- All operations of some updates, in order.
  abbrev pub all_ops : List (VersionedUpdate Float) → Ops Float
  all_ops [] = []
  all_ops (u ∷ us) = u.operations ++ all_ops us

  -- A commit that succeeds carries the operations of the transaction, the node and the node's clock
  -- ticked, which the node keeps; one that fails leaves the clock as it was. It succeeds exactly when
  -- the transaction can be committed locally.
  pub commit_local_outcome :
      (tx : AlgebraicTransaction Float) (n : NodeId) (c : VectorClock)
      → let (r, c') = commit_local tx n c in
        (is_ok r ≡ can_commit_locally tx)
        × ((u : VersionedUpdate Float)
            → r ≡ ok u
            → (u ≡ new_update tx.operations c' n) × (c' ≡ Clock.tick c n))
        × ((e : LocalCommitError) → r ≡ err e → c' ≡ c)
  unfolding commit_local can_commit_locally
  commit_local_outcome tx n c = (ground arith, λ u h. ground arith, λ e h. ground arith)

module _ {Float : Type 0} ⦃f : F64 Float⦄ where
  resolve-HasKey :
      (k : String) (os : Ops Float) {o : AlgebraicOperation Float}
      → HasKey k os
      → resolve k os ≡ ok o
      → o.key ≡ k
  unfolding resolve merge_operations_for_key
  resolve-HasKey k [] h e = cc
  resolve-HasKey k (p ∷ []) h e = ground arith
  resolve-HasKey k (p ∷ q ∷ os) h e =
      let (_, _, e₁) = >>=-eq-ok (check_types k p.op_type (q ∷ os)) _ e in
      let (_, _, e₂) = >>=-eq-ok (merge_values k p.op_type p.value (q ∷ os)) _ e₁ in ground arith

  -- What the merged operations on one key are: none where no update has an operation on it, and
  -- else the one operation that its group resolves to.
  abbrev pub PerKey : String → Option (Ops Float) → Ops Float → Type 0
  PerKey k none rs = rs ≡ []
  PerKey k (some os) rs = (o : AlgebraicOperation Float) × (resolve k os ≡ ok o) × (rs ≡ o ∷ [])

  merge_groups-PerKey :
      (gs : Dict String (Ops Float)) (rs : Ops Float) (k : String)
      → Dict.Unique gs
      → Keyed gs
      → merge_groups gs ≡ ok rs
      → PerKey k (Dict.lookup k gs) (ops_for k rs)
  unfolding merge_groups
  merge_groups-PerKey [] rs k u h e = ground arith
  merge_groups-PerKey ((j, os) ∷ gs) rs k u h e =
      let (o, eo, e₁) = >>=-eq-ok (resolve j os) _ e in
      let (rest, er, e₂) = >>=-eq-ok (merge_groups gs) _ e₁ in
      let ih = merge_groups-PerKey gs rest k u.1 h.1 er in
      let jo = resolve-HasKey j os h.0 eo in
      let split : rs ≡ o ∷ rest = ground arith in
      elim (Bool-cases (j == k)) [
        | inl s ↦
            let jk = (eq_iff j k).0 s in
            let gone : Dict.lookup k gs ≡ none = rw (← jk) u.0 in
            let empty : ops_for k rest ≡ [] = rw gone at ih in
            rw s (o, rw (← jk) eo, ground (arith, eq_iff j k))
        | inr d ↦
            let same : ops_for k rs ≡ ops_for k rest = ground (arith, eq_iff j k) in rw (d, same) ih
      ]

  group_by_key-append :
      (xs ys : Ops Float) (m : Dict String (Ops Float))
      → group_by_key (xs ++ ys) m ≡ group_by_key ys (group_by_key xs m)
  unfolding group_by_key
  group_by_key-append [] ys m = refl
  group_by_key-append (x ∷ xs) ys m = group_by_key-append xs ys _

  group_updates-eq :
      (us : List (VersionedUpdate Float)) (m : Dict String (Ops Float))
      → group_updates us m ≡ group_by_key (all_ops us) m
  unfolding group_updates
  group_updates-eq [] m = unfold group_by_key in refl
  group_updates-eq (u ∷ us) m =
      group_updates-eq us (group_by_key u.operations m)
      ∙ sym (group_by_key-append u.operations (all_ops us) m)

  merge_ops-PerKey :
      (os rs : Ops Float) (k : String)
      → merge_groups (group_by_key os []) ≡ ok rs
      → PerKey k (with_ops none (ops_for k os)) (ops_for k rs)
  merge_ops-PerKey os rs k e = rw (lookup-group_by_key os [] k) at (
      merge_groups-PerKey (group_by_key os []) rs k (group_by_key-Unique os [] tt)
        (group_by_key-Keyed os [] tt) e)

  -- A merge of two updates that succeeds holds, for each key: no operation, if neither update has
  -- one on it; else one operation, to which the operations of the first update on the key and then
  -- those of the second resolve. Its clock is the merge of the two clocks.
  pub merge_updates-PerKey :
      (v w r : VersionedUpdate Float)
      → merge_updates v w ≡ ok r
      → ((k : String)
          → PerKey k
              (with_ops none (ops_for k (v.operations ++ w.operations)))
              (ops_for k r.operations))
        × (r.clock ≡ Clock.merge v.clock w.clock)
  unfolding merge_updates
  merge_updates-PerKey v w r e =
      let (rs, er, e₁) =
        >>=-eq-ok (merge_groups (group_by_key w.operations (group_by_key v.operations []))) _ e in
      let same : r.operations ≡ rs = ground arith in
      (
        λ k. rw same (
            merge_ops-PerKey (v.operations ++ w.operations) rs k
              (rw (group_by_key-append v.operations w.operations []) er)),
        ground arith,
      )

  -- A merge of two updates or more at once that succeeds holds, for each key: no operation, if no
  -- update has one on it; else one operation, to which the operations of all updates on the key, in
  -- order, resolve. Its clock is the merge of all the clocks in turn.
  pub merge_all-PerKey :
      (v w : VersionedUpdate Float) (us : List (VersionedUpdate Float)) (r : VersionedUpdate Float)
      → merge_all (v ∷ w ∷ us) ≡ ok r
      → ((k : String)
          → PerKey k (with_ops none (ops_for k (all_ops (v ∷ w ∷ us)))) (ops_for k r.operations))
        × (r.clock ≡ merge_clocks v.clock (w ∷ us))
  unfolding merge_all
  merge_all-PerKey v w us r e =
      let (rs, er, e₁) = >>=-eq-ok (merge_groups (group_updates (v ∷ w ∷ us) [])) _ e in
      let same : r.operations ≡ rs = ground arith in
      (
        λ k. rw same (
            merge_ops-PerKey (all_ops (v ∷ w ∷ us)) rs k
              (rw (← group_updates-eq (v ∷ w ∷ us) []) er)),
        ground arith,
      )
