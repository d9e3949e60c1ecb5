-- ===== src/Cluster/Delivery.antt =====
-- Delivery of an update: the first one applies it, and a second one changes nothing.
use unifieddataruntime.Base.{◌≡◌, refl, true, false, ok, string_eq, arith, beq_refl}
use unifieddataruntime.Base.HashSet
use unifieddataruntime.Base.HashSet.{contains-insert}
use unifieddataruntime.Algebra.Types.{F64}
use unifieddataruntime.Commit.{AlgebraicTransaction, VersionedUpdate}
use unifieddataruntime.Cluster.{commit, SimulatedNode, generate_update_id, receive_update}

module _ {Float : Type 0} ⦃f : F64 Float⦄ where
  receive_update-contains :
      (n : SimulatedNode Float) (u : VersionedUpdate Float)
      → HashSet.contains (generate_update_id u) (receive_update n u).1.applied_updates ≡ true
  unfolding receive_update
  receive_update-contains n u =
      let i = generate_update_id u in
      ground (arith, contains-insert i i n.applied_updates, beq_refl i)

  receive_update_known :
      (n : SimulatedNode Float) (u : VersionedUpdate Float)
      → HashSet.contains (generate_update_id u) n.applied_updates ≡ true
      → receive_update n u ≡ (false, n)
  unfolding receive_update
  receive_update_known n u e = rw e refl

  -- A received update is known from then on: receiving one with the same id again answers that it is
  -- not new, and changes nothing of the node.
  pub receive_update_twice :
      (n : SimulatedNode Float) (u v : VersionedUpdate Float)
      → generate_update_id v ≡ generate_update_id u
      → receive_update (receive_update n u).1 v ≡ (false, (receive_update n u).1)
  receive_update_twice n u v e =
      receive_update_known (receive_update n u).1 v (rw e (receive_update-contains n u))

  -- A node that has committed an update knows it: receiving it back is not new, and changes nothing.
  pub commit_then_receive :
      (n n' : SimulatedNode Float) (tx : AlgebraicTransaction Float) (u : VersionedUpdate Float)
      → commit n tx ≡ (ok u, n')
      → receive_update n' u ≡ (false, n')
  unfolding commit
  commit_then_receive n n' tx u e = receive_update_known n' u (
      ground (
        arith,
        contains-insert (generate_update_id u) (generate_update_id u) n.applied_updates,
        beq_refl (generate_update_id u),
        e,
      ))
