-- ===== src/Clock.antt =====
-- rhizo_core/src/distributed/vector_clock.rs: vector clocks. A clock is a map from nodes to logical
-- times, a missing node standing at 0; times are `u64`, so `tick` wraps at 2 ^ 64.
pub mod Order
pub mod Merge
pub mod Tests
use unifieddataruntime.Base.{
  ℕ, ◌+◌, ◌%◌, ◌^◌, max, String, Bool, true, false, ◌&&◌, ◌||◌, Option, none, some, List, [], ◌∷◌,
  ◌++◌, length, all, string_eq, eqb, if◌then◌else◌,
}
use unifieddataruntime.Base.Dict
use unifieddataruntime.Base.Dict.{Dict}
use unifieddataruntime.Base.HashSet
use Prim.Native.Nat.{compare, Ordering}

-- `struct NodeId(String)`
abbrev pub NodeId : Type 0
NodeId = String

pub record VectorClock : Type 0 where
  pub clocks : Dict NodeId ℕ

abbrev pub u64_mod : ℕ
u64_mod = 2 ^ 64

-- `clocks.get(n).copied().unwrap_or(0)`
abbrev pub time_of : Dict NodeId ℕ → NodeId → ℕ
time_of m n = elim (Dict.lookup n m) [ none ↦ 0 | some t ↦ t ]

abbrev pub new : VectorClock
new = record { clocks = [] }

abbrev pub with_node : NodeId → ℕ → VectorClock
with_node n t = record { clocks = Dict.insert n t [] }

abbrev pub get : VectorClock → NodeId → ℕ
get c n = time_of c.clocks n

unfoldable pub tick : VectorClock → NodeId → VectorClock
tick c n = record { clocks = Dict.insert n ((get c n + 1) % u64_mod) c.clocks }

unfoldable pub set : VectorClock → NodeId → ℕ → VectorClock
set c n t = record { clocks = Dict.insert n t c.clocks }

-- The loop of `merge` over the entries of the other clock.
unfoldable pub merge_entries : List (NodeId × ℕ) → Dict NodeId ℕ → Dict NodeId ℕ
merge_entries [] m = m
merge_entries ((n, t) ∷ es) m = merge_entries es (Dict.insert n (max (time_of m n) t) m)

unfoldable pub merge : VectorClock → VectorClock → VectorClock
unfolding merge_entries
merge c other = record { clocks = merge_entries other.clocks c.clocks }

-- The last match of `partial_cmp`, on the two flags.
abbrev pub verdict : Bool → Bool → Option Ordering
verdict true false = some Ordering.lt
verdict false true = some Ordering.gt
verdict false false = some Ordering.eq
verdict true true = none

-- The loop of `partial_cmp` over the nodes of both clocks, with its early return.
unfoldable pub cmp_loop : List NodeId → VectorClock → VectorClock → Bool → Bool → Option Ordering
cmp_loop [] c d less greater = verdict less greater
cmp_loop (n ∷ ns) c d less greater =
    let o = compare (get c n) (get d n) in
    let less' : Bool = elim o [ Ordering.lt ↦ true | _ ↦ less ] in
    let greater' : Bool = elim o [ Ordering.gt ↦ true | _ ↦ greater ] in
    let rest = cmp_loop ns c d less' greater' in if less' && greater' then none else rest

-- The nodes of both clocks, each once.
abbrev pub all_nodes : VectorClock → VectorClock → List NodeId
all_nodes c d = HashSet.of_list (Dict.keys c.clocks ++ Dict.keys d.clocks)

unfoldable pub partial_cmp : VectorClock → VectorClock → Option Ordering
unfolding cmp_loop
partial_cmp c d = cmp_loop (all_nodes c d) c d false false

pub data CausalOrder : Type 0 where
  before after concurrent equal : CausalOrder

unfoldable pub happened_before : VectorClock → VectorClock → Bool
happened_before c d = elim (partial_cmp c d) [
  | some o ↦ elim o [ Ordering.lt ↦ true | _ ↦ false ]
  | none ↦ false
]

abbrev pub happened_after : VectorClock → VectorClock → Bool
happened_after c d = happened_before d c

unfoldable pub concurrent_with : VectorClock → VectorClock → Bool
concurrent_with c d = elim (partial_cmp c d) [ none ↦ true | some _ ↦ false ]

-- `VectorClock::compare`
unfoldable pub compare_clocks : VectorClock → VectorClock → CausalOrder
compare_clocks c d = elim (partial_cmp c d) [
  | some o ↦ elim o [
    | Ordering.lt ↦ CausalOrder.before
    | Ordering.gt ↦ CausalOrder.after
    | Ordering.eq ↦ CausalOrder.equal
  ]
  | none ↦ CausalOrder.concurrent
]

abbrev pub node_count : VectorClock → ℕ
node_count c = length c.clocks

unfoldable pub is_empty : VectorClock → Bool
is_empty c = (elim c.clocks [ [] ↦ true | _ ↦ false ]) || all (λ t. eqb t 0) (Dict.values c.clocks)

-- `VectorClock::max`, `VectorClock::ticked`: the same on a copy.
abbrev pub max_clock : VectorClock → VectorClock → VectorClock
max_clock a b = merge a b

abbrev pub ticked : VectorClock → NodeId → VectorClock
ticked c n = tick c n

unfoldable pub needs_merge : CausalOrder → Bool
needs_merge CausalOrder.concurrent = true
needs_merge _ = false

unfoldable pub should_apply : CausalOrder → Bool
should_apply CausalOrder.before = true
should_apply CausalOrder.concurrent = true
should_apply _ = false
