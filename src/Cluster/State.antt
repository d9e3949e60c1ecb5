-- ===== src/Cluster/State.antt =====
-- Operations of a conforming program commute on a node's state.
use unifieddataruntime.Base.{
  String, ◌≡◌, refl, sym, ap, ◌∙◌, true, Option, none, some, List, [], ◌∷◌, All, string_eq, ◌==◌,
  Bool-cases, inl, inr,
}
use unifieddataruntime.Base.Dict
use unifieddataruntime.Base.Fold.{Commuting, run, run-perm, run-cong}
use unifieddataruntime.Algebra.Types.{OpType, F64, AlgebraicValue}
use unifieddataruntime.Algebra.Same.{SameValue, SameValue-refl, SameValue-trans}
use unifieddataruntime.Algebra.Groups.{
  kind, lattice_supports, joined-kind, joined_comm, joined-cong, joined-swap,
}
use unifieddataruntime.Commit.{AlgebraicOperation}
use unifieddataruntime.Cluster.{State, apply_op, apply_ops}
use unifieddataruntime.Cluster.Discipline.{
  LatticeSchema, Conforms, EntryConforms, StateConforms, entry_step, lookup-apply_op,
}
use text.Mathlib.TextEquality.{eq_iff}
use mathlib.Core.List.{Permᴰ}

module _ {Float : Type 0} where
  -- The same operation type and the same value.
  abbrev pub SameEntry :
      Option (OpType × AlgebraicValue Float) → Option (OpType × AlgebraicValue Float) → Type 0
  SameEntry none none = Unit
  SameEntry (some (t, v)) (some (u, w)) = (t ≡ u) × SameValue v w
  SameEntry _ _ = ⊥

  -- Two states that read the same at every key.
  abbrev pub SameState : State Float → State Float → Type 0
  SameState st st' = (k : String) → SameEntry (Dict.lookup k st) (Dict.lookup k st')

  pub SameEntry-refl : (e : Option (OpType × AlgebraicValue Float)) → SameEntry e e
  SameEntry-refl none = tt
  SameEntry-refl (some (t, v)) = (refl, SameValue-refl v)

  SameEntry-trans :
      (d e e' : Option (OpType × AlgebraicValue Float))
      → SameEntry d e
      → SameEntry e e'
      → SameEntry d e'
  SameEntry-trans none none none h k = tt
  SameEntry-trans (some (t, v)) (some (u, w)) (some (t', v')) h k =
      (h.0 ∙ k.0, SameValue-trans v w v' h.1 k.1)
  SameEntry-trans none none (some _) h k = absurd k
  SameEntry-trans (some _) (some _) none h k = absurd k
  SameEntry-trans none (some _) e h k = absurd h
  SameEntry-trans (some _) none e h k = absurd h

module _ {Float : Type 0} ⦃f : F64 Float⦄ (s : LatticeSchema) where
  entry_step-Conforms :
      (e : Option (OpType × AlgebraicValue Float)) (o : AlgebraicOperation Float)
      → EntryConforms s o.key e
      → Conforms s o
      → EntryConforms s o.key (entry_step e o)
  entry_step-Conforms none o c h = h
  entry_step-Conforms (some (t, v)) o c h = (
    c.0,
    rw h.0 (joined-kind (s.op_of o.key) (s.kind_of o.key) (s.supported o.key) v o.value c.1 h.1),
  )

  entry_step-cong :
      (e e' : Option (OpType × AlgebraicValue Float)) (o : AlgebraicOperation Float)
      → EntryConforms s o.key e
      → Conforms s o
      → SameEntry e e'
      → SameEntry (entry_step e o) (entry_step e' o)
  entry_step-cong none none o c h e = (refl, SameValue-refl o.value)
  entry_step-cong (some (t, v)) (some (t', v')) o c h e =
      let ok_op : lattice_supports o.op_type (kind v) ≡ true = rw (h.0, c.1) (s.supported o.key) in
      (e.0, joined-cong o.op_type v v' o.value ok_op (h.1 ∙ sym c.1) e.1)
  entry_step-cong none (some _) o c h e = absurd e
  entry_step-cong (some _) none o c h e = absurd e

  entry_step-commute :
      (e : Option (OpType × AlgebraicValue Float)) (o p : AlgebraicOperation Float)
      → o.key ≡ p.key
      → EntryConforms s o.key e
      → Conforms s o
      → Conforms s p
      → SameEntry (entry_step (entry_step e o) p) (entry_step (entry_step e p) o)
  entry_step-commute none o p key c h k =
      let op = s.op_of o.key in
      let po : p.op_type ≡ op = k.0 ∙ ap s.op_of (sym key) in
      let pk : kind p.value ≡ s.kind_of o.key = k.1 ∙ ap s.kind_of (sym key) in
      rw (h.0, po)
        (refl, joined_comm op (s.kind_of o.key) (s.supported o.key) o.value p.value h.1 pk)
  entry_step-commute (some (t, v)) o p key c h k =
      let op = s.op_of o.key in
      let po : p.op_type ≡ op = k.0 ∙ ap s.op_of (sym key) in
      let pk : kind p.value ≡ s.kind_of o.key = k.1 ∙ ap s.kind_of (sym key) in
      rw (h.0, po)
        (refl, joined-swap op (s.kind_of o.key) (s.supported o.key) v o.value p.value c.1 h.1 pk)

  apply_op-Conforms :
      (st : State Float) (o : AlgebraicOperation Float)
      → StateConforms s st
      → Conforms s o
      → StateConforms s (apply_op st o)
  apply_op-Conforms st o g h k = rw (lookup-apply_op s st o k g h) (elim (Bool-cases (o.key == k)) [
    | inl e ↦
        rw (e, ← (eq_iff o.key k).0 e) (entry_step-Conforms (Dict.lookup o.key st) o (g o.key) h)
    | inr d ↦ rw d (g k)
  ])

  apply_op-cong :
      (st st' : State Float) (o : AlgebraicOperation Float)
      → StateConforms s st
      → StateConforms s st'
      → Conforms s o
      → SameState st st'
      → SameState (apply_op st o) (apply_op st' o)
  apply_op-cong st st' o g g' h e k =
      rw (lookup-apply_op s st o k g h, lookup-apply_op s st' o k g' h)
        (elim (Bool-cases (o.key == k)) [
          | inl x ↦
              rw (x, ← (eq_iff o.key k).0 x)
                (entry_step-cong (Dict.lookup o.key st) (Dict.lookup o.key st') o (g o.key) h
                  (e o.key))
          | inr d ↦ rw d (e k)
        ])

  apply_op-commute :
      (st : State Float) (o p : AlgebraicOperation Float)
      → StateConforms s st
      → Conforms s o
      → Conforms s p
      → SameState (apply_op (apply_op st o) p) (apply_op (apply_op st p) o)
  apply_op-commute st o p g h k j =
      let go = apply_op-Conforms st o g h in
      let gp = apply_op-Conforms st p g k in
      rw
        (
          lookup-apply_op s (apply_op st o) p j go k,
          lookup-apply_op s (apply_op st p) o j gp h,
          lookup-apply_op s st o j g h,
          lookup-apply_op s st p j g k,
        )
        (elim (Bool-cases (o.key == j)) [
          | inl x ↦ elim (Bool-cases (p.key == j)) [
            | inl y ↦
                let oj = (eq_iff o.key j).0 x in
                rw (x, y, ← oj)
                  (entry_step-commute (Dict.lookup o.key st) o p (oj ∙ sym ((eq_iff p.key j).0 y))
                    (g o.key) h k)
            | inr y ↦ rw (x, y) (SameEntry-refl (entry_step (Dict.lookup j st) o))
          ]
          | inr x ↦ elim (Bool-cases (p.key == j)) [
            | inl y ↦ rw (x, y) (SameEntry-refl (entry_step (Dict.lookup j st) p))
            | inr y ↦ rw (x, y) (SameEntry-refl (Dict.lookup j st))
          ]
        ])

-- The operations of conforming programs as commuting steps.
abbrev commuting_ops : (Float : Type 0) ⦃f : F64 Float⦄ → LatticeSchema → Commuting
commuting_ops Float s = record {
  State = State Float;
  Step = AlgebraicOperation Float;
  step = apply_op;
  Good = StateConforms s;
  Fits = Conforms s;
  Same = SameState;
  same_refl = λ st k. SameEntry-refl (Dict.lookup k st);
  same_trans = λ a b c p q k.
      SameEntry-trans (Dict.lookup k a) (Dict.lookup k b) (Dict.lookup k c) (p k) (q k);
  keep = apply_op-Conforms s;
  cong = apply_op-cong s;
  commute = apply_op-commute s;
}

module _ {Float : Type 0} ⦃f : F64 Float⦄ (s : LatticeSchema) where
  apply_ops-run :
      (st : State Float) (os : List (AlgebraicOperation Float))
      → apply_ops st os ≡ run (commuting_ops Float s) st os
  unfolding apply_ops
  apply_ops-run st [] = refl
  apply_ops-run st (o ∷ os) = apply_ops-run (apply_op st o) os

  -- From two states that read the same, the same operations in two orders lead to states that read
  -- the same.
  pub apply_ops-perm :
      (st st' : State Float) {os ps : List (AlgebraicOperation Float)}
      → StateConforms s st
      → StateConforms s st'
      → SameState st st'
      → All (Conforms s) os
      → Permᴰ os ps
      → SameState (apply_ops st os) (apply_ops st' ps)
  apply_ops-perm st st' {os} {ps} g g' e h p =
      let c = commuting_ops Float s in
      rw (apply_ops-run st os, apply_ops-run st' ps)
        ((commuting_ops Float s).same_trans (run c st os) (run c st' os) (run c st' ps)
          (run-cong c st st' os g g' h e) (run-perm c st' p g' h))
