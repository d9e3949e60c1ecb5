-- ===== src/Algebra/Groups.antt =====
-- Three values merged: the grouping does not matter for the semilattice operations, and matters for
-- the group operations only through overflow. Merging a value with itself.
mod Three
mod Semilattice
mod Idempotent
mod Abelian
mod Joined
pub use Three.{left, right, Agree}
pub use Semilattice.{merge-assoc_semilattice}
pub use Idempotent.{Kind, kind, lattice_supports, merge_idem, merge-lattice_supports}
pub use Abelian.{merge-assoc-Agree, merge_add-assoc_fails}
pub use Joined.{
  joined, merge-joined, joined-kind, joined_comm, joined_assoc, joined_idem, joined-cong,
  joined-swap,
}
