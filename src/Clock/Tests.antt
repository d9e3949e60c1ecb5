-- ===== src/Clock/Tests.antt =====
-- Runs of the clock's operations, and the theorems on them at concrete clocks.
use unifieddataruntime.Base.{◌≡◌, refl, none, string_eq}
use unifieddataruntime.Clock.{
  VectorClock, tick, merge, merge_entries, cmp_loop, partial_cmp, with_node, get,
}
use unifieddataruntime.Clock.Merge.{IsValid, Leq, merge_least_upper_bound}
use unifieddataruntime.Clock.Order.{Behind, partial_cmp-Describes}

abbrev at_a : VectorClock
at_a = with_node "a" 2

abbrev at_b : VectorClock
at_b = with_node "b" 1

both_ticked : get (tick (merge at_a at_b) "a") "a" ≡ 3
unfolding tick merge merge_entries
both_ticked = refl

apart : partial_cmp at_a at_b ≡ none
unfolding partial_cmp cmp_loop
apart = refl

at_b-IsValid : IsValid at_b
at_b-IsValid = record { unique = (refl, tt) }

partial_cmp-Describes_example : Behind at_a at_b × Behind at_b at_a
unfolding partial_cmp cmp_loop
partial_cmp-Describes_example = partial_cmp-Describes at_a at_b

merge_least_upper_bound_example :
    Leq at_a (merge at_a at_b)
    × Leq at_b (merge at_a at_b)
    × (Leq at_a (with_node "a" 5)
        → Leq at_b (with_node "a" 5)
        → Leq (merge at_a at_b) (with_node "a" 5))
merge_least_upper_bound_example = merge_least_upper_bound at_a at_b (with_node "a" 5) at_b-IsValid
