-- ===== src/Cluster/Convergence.antt =====
-- Nodes that apply the same semilattice updates in any order reach the same state and the same clock.
use unifieddataruntime.Base.{
  ℕ, max, ◌≡◌, refl, sym, ◌∙◌, List, [], ◌∷◌, ◌++◌, All, All-append, arith, string_eq,
}
use unifieddataruntime.Base.Fold.{All-perm}
use unifieddataruntime.Clock
use unifieddataruntime.Clock.{NodeId, VectorClock}
use unifieddataruntime.Clock.Merge.{IsValid, get-merge}
use unifieddataruntime.Algebra.Types.{F64}
use unifieddataruntime.Commit.{AlgebraicOperation, VersionedUpdate}
use unifieddataruntime.Commit.Outcome.{all_ops}
use unifieddataruntime.Cluster.{State, SimulatedNode, apply_op, apply_ops, apply_update}
use unifieddataruntime.Cluster.Discipline.{LatticeSchema, Conforms, StateConforms}
use unifieddataruntime.Cluster.State.{SameState, apply_ops-perm}
use mathlib.Core.List.{Permᴰ, append_assoc}
use mathlib.Core.List.Permᴰ

module _ {Float : Type 0} where
  -- An update that conforms to a lattice schema, with a clock that is a map.
  abbrev pub UpdateConforms : LatticeSchema → VersionedUpdate Float → Type 0
  UpdateConforms s u = All (Conforms s) u.operations × IsValid u.clock

  all_ops-Conforms :
      (s : LatticeSchema) (us : List (VersionedUpdate Float))
      → All (UpdateConforms s) us
      → All (Conforms s) (all_ops us)
  all_ops-Conforms s [] h = tt
  all_ops-Conforms s (u ∷ us) h =
      All-append (Conforms s) u.operations (all_ops us) h.0.0 (all_ops-Conforms s us h.1)

  all_ops-perm :
      {us vs : List (VersionedUpdate Float)} → Permᴰ us vs → Permᴰ (all_ops us) (all_ops vs)
  all_ops-perm Permᴰ.nil = Permᴰ.nil
  all_ops-perm (Permᴰ.cons {a = u} {b = v} {l₁ = us} {l₂ = vs} e p) =
      rw e (Permᴰ.append_left v.operations (all_ops-perm p))
  all_ops-perm (Permᴰ.swap {a = u} {b = v} {l = us} e f) =
      rw (← e, ← f, ← append_assoc, ← append_assoc)
        (Permᴰ.append_right (all_ops us) (Permᴰ.append_comm u.operations v.operations))
  all_ops-perm (Permᴰ.trans p q) = Permᴰ.trans (all_ops-perm p) (all_ops-perm q)

  -- The latest time of a node in some updates.
  abbrev pub latest : NodeId → List (VersionedUpdate Float) → ℕ
  latest j [] = 0
  latest j (u ∷ us) = max (Clock.get u.clock j) (latest j us)

  latest-perm :
      (j : NodeId) {us vs : List (VersionedUpdate Float)} → Permᴰ us vs → latest j us ≡ latest j vs
  latest-perm j Permᴰ.nil = refl
  latest-perm j (Permᴰ.cons {a = u} {b = v} {l₁ = us} {l₂ = vs} e p) = rw (e, latest-perm j p)
  latest-perm j (Permᴰ.swap {a = u} {b = v} {l = us} e f) = rw (e, f) (omega arith)
  latest-perm j (Permᴰ.trans p q) = latest-perm j p ∙ latest-perm j q

module _ {Float : Type 0} ⦃f : F64 Float⦄ where
  -- A node after a list of updates, applied in turn.
  abbrev pub apply_updates :
      SimulatedNode Float → List (VersionedUpdate Float) → SimulatedNode Float
  apply_updates n [] = n
  apply_updates n (u ∷ us) = apply_updates (apply_update n u) us

  apply_ops-append :
      (st : State Float) (os ps : List (AlgebraicOperation Float))
      → apply_ops st (os ++ ps) ≡ apply_ops (apply_ops st os) ps
  unfolding apply_ops
  apply_ops-append st [] ps = refl
  apply_ops-append st (o ∷ os) ps = apply_ops-append (apply_op st o) os ps

  state-apply_updates :
      (n : SimulatedNode Float) (us : List (VersionedUpdate Float))
      → (apply_updates n us).state ≡ apply_ops n.state (all_ops us)
  state-apply_updates n [] = unfold apply_ops in refl
  state-apply_updates n (u ∷ us) =
      state-apply_updates (apply_update n u) us
      ∙ unfold apply_update in sym (apply_ops-append n.state u.operations (all_ops us))

  clock-apply_updates :
      (s : LatticeSchema) (n : SimulatedNode Float) (us : List (VersionedUpdate Float)) (j : NodeId)
      → All (UpdateConforms s) us
      → Clock.get (apply_updates n us).clock j ≡ max (Clock.get n.clock j) (latest j us)
  clock-apply_updates s n [] j h = omega arith
  clock-apply_updates s n (u ∷ us) j h =
      let step : Clock.get (apply_update n u).clock j
          ≡ max (Clock.get n.clock j) (Clock.get u.clock j) =
        unfold apply_update in get-merge n.clock u.clock j h.0.1 in
      omega (arith, clock-apply_updates s (apply_update n u) us j h.1)

  -- Under a lattice schema each key has one semilattice operation (MAX, MIN, UNION or INTERSECT, not ADD
  -- and not MULTIPLY) and one kind of values that it supports (integers, sets or truth values, not
  -- floats). Two nodes whose states conform to such a schema and read the same, and whose clocks show
  -- the same times, apply the same conforming updates, each in an order of its own. Then their states
  -- read the same at every key, and their clocks show the same times.
  pub apply_updates_converge :
      (s : LatticeSchema) (m n : SimulatedNode Float) {us vs : List (VersionedUpdate Float)}
      → StateConforms s m.state
      → StateConforms s n.state
      → SameState m.state n.state
      → ((j : NodeId) → Clock.get m.clock j ≡ Clock.get n.clock j)
      → All (UpdateConforms s) us
      → Permᴰ us vs
      → SameState (apply_updates m us).state (apply_updates n vs).state
        × ((j : NodeId)
            → Clock.get (apply_updates m us).clock j ≡ Clock.get (apply_updates n vs).clock j)
  apply_updates_converge s m n {us} {vs} gm gn same clocks h p = (
    rw (state-apply_updates m us, state-apply_updates n vs)
        (apply_ops-perm s m.state n.state gm gn same (all_ops-Conforms s us h) (all_ops-perm p)),
    λ j. omega (
      arith,
      clocks j,
      clock-apply_updates s m us j h,
      clock-apply_updates s n vs j (All-perm (UpdateConforms s) p h),
      latest-perm j p,
    ),
  )
