-- ===== src/Clock/Order.antt =====
-- `partial_cmp` decides the causal order: what each of its four results says of the two clocks.
use unifieddataruntime.Base.{
  ℕ, ◌≤◌, ◌<◌, ◌≡◌, ◌≢◌, ◌↔◌, refl, Bool, true, false, ◌||◌, Option, none, some, List, [], ◌∷◌,
  ◌++◌, any, ltb, arith, string_eq, Bool-cases, inl, inr,
}
use unifieddataruntime.Base.Dict
use unifieddataruntime.Base.Dict.{Dict}
use unifieddataruntime.Base.HashSet
use unifieddataruntime.Base.HashSet.{contains-of_list}
use unifieddataruntime.Clock.{
  NodeId, VectorClock, time_of, get, verdict, cmp_loop, all_nodes, partial_cmp, happened_before,
  concurrent_with,
}
use unifieddataruntime.Clock.Merge.{Leq}
use text.Mathlib.TextEquality.{eq_iff}
use Prim.Native.Nat.{Ordering}

-- Some node has seen less in the first clock than in the second.
abbrev pub Behind : VectorClock → VectorClock → Type 0
Behind c d = (n : NodeId) × (get c n < get d n)

-- What a result of `partial_cmp` says of the clocks.
abbrev pub Describes : VectorClock → VectorClock → Option Ordering → Type 0
Describes c d (some Ordering.lt) = Leq c d × Behind c d
Describes c d (some Ordering.gt) = Leq d c × Behind d c
Describes c d (some Ordering.eq) = Leq c d × Leq d c
Describes c d none = Behind c d × Behind d c

abbrev is_behind : VectorClock → VectorClock → NodeId → Bool
is_behind c d n = ltb (get c n) (get d n)

-- The loop computes the two flags over the whole list, early return or not.
cmp_loop-eq-verdict :
    (ns : List NodeId) (c d : VectorClock) (less greater : Bool)
    → cmp_loop ns c d less greater
      ≡ verdict (less || any (is_behind c d) ns) (greater || any (is_behind d c) ns)
unfolding cmp_loop
cmp_loop-eq-verdict [] c d less greater = ground arith
cmp_loop-eq-verdict (n ∷ ns) c d less greater = ground (
  arith,
  cmp_loop-eq-verdict ns c d less greater,
  cmp_loop-eq-verdict ns c d true greater,
  cmp_loop-eq-verdict ns c d less true,
)

Behind-of_any : (ns : List NodeId) (c d : VectorClock) → any (is_behind c d) ns ≡ true → Behind c d
Behind-of_any [] c d h = absurd (cc h)
Behind-of_any (n ∷ ns) c d h = elim (Bool-cases (is_behind c d n)) [
  | inl e ↦ (n, ground arith)
  | inr e ↦ Behind-of_any ns c d (ground arith)
]

le_of_any :
    (ns : List NodeId) (c d : VectorClock) (n : NodeId)
    → any (is_behind c d) ns ≡ false
    → HashSet.contains n ns ≡ true
    → get d n ≤ get c n
le_of_any [] c d n h m = absurd (cc m)
le_of_any (j ∷ ns) c d n h m = ground (arith, eq_iff j n, le_of_any ns c d n)

contains-append :
    (n : NodeId) (xs ys : List NodeId)
    → HashSet.contains n (xs ++ ys) ≡ (HashSet.contains n xs || HashSet.contains n ys)
contains-append n [] ys = refl
contains-append n (x ∷ xs) ys = ground (arith, contains-append n xs ys)

time_of_absent :
    (m : Dict NodeId ℕ) (n : NodeId) → HashSet.contains n (Dict.keys m) ≡ false → time_of m n ≡ 0
time_of_absent [] n h = refl
time_of_absent ((j, t) ∷ m) n h = ground (arith, time_of_absent m n)

get_outside :
    (c d : VectorClock) (n : NodeId)
    → HashSet.contains n (all_nodes c d) ≡ false
    → (get c n ≡ 0) × (get d n ≡ 0)
get_outside c d n h =
    let ks = Dict.keys c.clocks in
    let js = Dict.keys d.clocks in
    ground (
      arith,
      contains-of_list n (ks ++ js),
      contains-append n ks js,
      time_of_absent c.clocks n,
      time_of_absent d.clocks n,
    )

Leq-of_any : (c d : VectorClock) → any (is_behind c d) (all_nodes c d) ≡ false → Leq d c
Leq-of_any c d h n = elim (Bool-cases (HashSet.contains n (all_nodes c d))) [
  | inl e ↦ le_of_any (all_nodes c d) c d n h e
  | inr e ↦ omega (arith, (get_outside c d n e).0, (get_outside c d n e).1)
]

Leq-of_any' : (c d : VectorClock) → any (is_behind d c) (all_nodes c d) ≡ false → Leq c d
Leq-of_any' c d h n = elim (Bool-cases (HashSet.contains n (all_nodes c d))) [
  | inl e ↦ le_of_any (all_nodes c d) d c n h e
  | inr e ↦ omega (arith, (get_outside c d n e).0, (get_outside c d n e).1)
]

verdict-Describes :
    (c d : VectorClock) (less greater : Bool)
    → (less ≡ true → Behind c d)
    → (less ≡ false → Leq d c)
    → (greater ≡ true → Behind d c)
    → (greater ≡ false → Leq c d)
    → Describes c d (verdict less greater)
verdict-Describes c d true true lt ge gt le = (lt refl, gt refl)
verdict-Describes c d true false lt ge gt le = (le refl, lt refl)
verdict-Describes c d false true lt ge gt le = (ge refl, gt refl)
verdict-Describes c d false false lt ge gt le = (le refl, ge refl)

-- `partial_cmp` answers `Less` when the first clock is at most the second at every node and below
-- it at some node, `Greater` in the opposite case, `Equal` when the clocks agree at every node, and
-- nothing when each is below the other at some node.
pub partial_cmp-Describes : (c d : VectorClock) → Describes c d (partial_cmp c d)
unfolding partial_cmp
partial_cmp-Describes c d = rw (cmp_loop-eq-verdict (all_nodes c d) c d false false) (
    verdict-Describes c d _ _ (Behind-of_any (all_nodes c d) c d) (Leq-of_any c d)
      (Behind-of_any (all_nodes c d) d c) (Leq-of_any' c d))

not-Behind_of_Leq : (c d : VectorClock) → Leq c d → ¬ (Behind d c)
not-Behind_of_Leq c d l (n, h) = omega (arith, l n)

-- Exactly when the first clock is at most the second at every node and below it at some node, the
-- first happened before the second.
pub happened_before_iff :
    (c d : VectorClock) → (happened_before c d ≡ true) ↔ (Leq c d × Behind c d)
unfolding happened_before
happened_before_iff c d = go (partial_cmp c d) (partial_cmp-Describes c d)
  where
    go :
        (o : Option Ordering)
        → Describes c d o
        → (elim o [ some r ↦ (elim r [ Ordering.lt ↦ true | _ ↦ false ]) | none ↦ false ] ≡ true)
          ↔ (Leq c d × Behind c d)
    go (some Ordering.lt) h = (λ _. h, λ _. refl)
    go (some Ordering.gt) h = (λ e. absurd (cc e), λ k. absurd (not-Behind_of_Leq d c h.0 k.1))
    go (some Ordering.eq) h = (λ e. absurd (cc e), λ k. absurd (not-Behind_of_Leq d c h.1 k.1))
    go none h = (λ e. absurd (cc e), λ k. absurd (not-Behind_of_Leq c d k.0 h.1))

-- Exactly when each clock is below the other at some node, the clocks are concurrent.
pub concurrent_with_iff :
    (c d : VectorClock) → (concurrent_with c d ≡ true) ↔ (Behind c d × Behind d c)
unfolding concurrent_with
concurrent_with_iff c d = go (partial_cmp c d) (partial_cmp-Describes c d)
  where
    go :
        (o : Option Ordering)
        → Describes c d o
        → (elim o [ none ↦ true | some _ ↦ false ] ≡ true) ↔ (Behind c d × Behind d c)
    go (some Ordering.lt) h = (λ e. absurd (cc e), λ k. absurd (not-Behind_of_Leq c d h.0 k.1))
    go (some Ordering.gt) h = (λ e. absurd (cc e), λ k. absurd (not-Behind_of_Leq d c h.0 k.0))
    go (some Ordering.eq) h = (λ e. absurd (cc e), λ k. absurd (not-Behind_of_Leq c d h.0 k.1))
    go none h = (λ _. h, λ _. refl)

-- Happened-before is a strict partial order: no clock happened before itself, and where one
-- happened before a second and that before a third, the first happened before the third.
pub happened_before_strict_order :
    (c d u : VectorClock)
    → (happened_before c c ≢ true)
      × (happened_before c d ≡ true → happened_before d u ≡ true → happened_before c u ≡ true)
happened_before_strict_order c d u = (
  λ h. let (l, b) = (happened_before_iff c c).0 h in not-Behind_of_Leq c c l b,
  λ p q.
      let (l, b) = (happened_before_iff c d).0 p in
      let (m, _) = (happened_before_iff d u).0 q in
      (happened_before_iff c u).1 (λ n. omega (arith, l n, m n), (b.0, omega (arith, b.1, m b.0))),
)
