-- ===== src/Clock/Merge.antt =====
-- `tick` and `merge` of a vector clock, read node by node.
use unifieddataruntime.Base.{
  ℕ, ◌+◌, ◌%◌, ◌≤◌, ◌<◌, max, ◌≡◌, ◌≢◌, [], ◌∷◌, arith, ◌==◌, string_eq, if◌then◌else◌,
}
use unifieddataruntime.Base.Dict
use unifieddataruntime.Base.Dict.{Dict, lookup-insert, insert-Unique}
use unifieddataruntime.Clock.{
  NodeId, VectorClock, u64_mod, time_of, get, tick, set, merge_entries, merge,
}
use text.Mathlib.TextEquality.{eq_iff}

-- A clock that a program can build: its map holds each node once.
pub record IsValid (c : VectorClock) : Type 0 where
  pub unique : Dict.Unique c.clocks

-- The pointwise order of clocks.
abbrev pub Leq : VectorClock → VectorClock → Type 0
Leq c d = (n : NodeId) → get c n ≤ get d n

pub tick-IsValid : (c : VectorClock) (n : NodeId) → IsValid c → IsValid (tick c n)
unfolding tick
tick-IsValid c n v = record { unique = insert-Unique n _ c.clocks v.unique }

pub get-set :
    (c : VectorClock) (n j : NodeId) (t : ℕ) → get (set c n t) j ≡ (if n == j then t else get c j)
unfolding set
get-set c n j t = ground (arith, lookup-insert n j t c.clocks)

time_of-insert :
    (m : Dict NodeId ℕ) (n j : NodeId) (t : ℕ)
    → time_of (Dict.insert n t m) j ≡ (if n == j then t else time_of m j)
time_of-insert m n j t = ground (arith, lookup-insert n j t m)

pub get-tick_self :
    (c : VectorClock) (n : NodeId) → get c n + 1 < u64_mod → get (tick c n) n ≡ get c n + 1
unfolding tick
get-tick_self c n h =
    ground (arith, time_of-insert c.clocks n n ((get c n + 1) % u64_mod), eq_iff n n)

pub get-tick_ne : (c : VectorClock) (n j : NodeId) → n ≢ j → get (tick c n) j ≡ get c j
unfolding tick
get-tick_ne c n j h =
    ground (arith, time_of-insert c.clocks n j ((get c n + 1) % u64_mod), eq_iff n j)

time_of-merge_entries :
    (es m : Dict NodeId ℕ) (j : NodeId)
    → Dict.Unique es
    → time_of (merge_entries es m) j ≡ max (time_of m j) (time_of es j)
unfolding merge_entries
time_of-merge_entries [] m j u = omega arith
time_of-merge_entries ((n, t) ∷ es) m j u = ground (
  arith,
  eq_iff n j,
  time_of-insert m n j (max (time_of m n) t),
  time_of-merge_entries es (Dict.insert n (max (time_of m n) t) m) j u.1,
)

-- The merged clock shows each node at the later of its two times.
pub get-merge :
    (c d : VectorClock) (j : NodeId) → IsValid d → get (merge c d) j ≡ max (get c j) (get d j)
unfolding merge
get-merge c d j v = time_of-merge_entries d.clocks c.clocks j v.unique

merge_entries-Unique : (es m : Dict NodeId ℕ) → Dict.Unique m → Dict.Unique (merge_entries es m)
unfolding merge_entries
merge_entries-Unique [] m u = u
merge_entries-Unique ((n, t) ∷ es) m u =
    merge_entries-Unique es (Dict.insert n (max (time_of m n) t) m) (insert-Unique n _ m u)

pub merge-IsValid : (c d : VectorClock) → IsValid c → IsValid (merge c d)
unfolding merge
merge-IsValid c d v = record { unique = merge_entries-Unique d.clocks c.clocks v.unique }

-- Where the second clock is valid, the merged clock is an upper bound of both in the pointwise order, and lies
-- below every clock that is one.
pub merge_least_upper_bound :
    (c d u : VectorClock)
    → IsValid d
    → Leq c (merge c d) × Leq d (merge c d) × (Leq c u → Leq d u → Leq (merge c d) u)
merge_least_upper_bound c d u v = (
  λ n. omega (arith, get-merge c d n v),
  λ n. omega (arith, get-merge c d n v),
  λ p q n. omega (arith, get-merge c d n v, p n, q n),
)

-- After receiving the clock of a message and ticking its own entry, which does not overflow, a
-- node stands strictly after the sender in the pointwise order.
pub receive_then_tick :
    (c d : VectorClock) (n : NodeId)
    → IsValid d
    → get (merge c d) n + 1 < u64_mod
    → Leq d (tick (merge c d) n) × (get d n < get (tick (merge c d) n) n)
receive_then_tick c d n v h = (
  λ j. ground (
    arith,
    eq_iff n j,
    get-merge c d j v,
    get-merge c d n v,
    get-tick_self (merge c d) n h,
    get-tick_ne (merge c d) n j,
  ),
  omega (arith, get-merge c d n v, get-tick_self (merge c d) n h),
)
