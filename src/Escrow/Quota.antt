-- ===== src/Escrow/Quota.antt =====
-- What a resource grants never exceeds its quota.
use unifieddataruntime.Base.{
  String, ◌≡◌, refl, ◌∙◌, Option, none, some, List, [], ◌∷◌, string_eq, if◌then◌else◌, arith, ◌==◌,
}
use unifieddataruntime.Base.Int.{
  ℤ, pos, ◌+ℤ◌, ◌-ℤ◌, ◌≤ℤ◌, min_ℤ, int_eq, int_laws, -ℤ_parts, +ℤ_assoc, +ℤ_parts,
}
use unifieddataruntime.Base.Dict
use unifieddataruntime.Base.Dict.{lookup-insert}
use unifieddataruntime.Escrow.{
  EscrowResult, is_success, EscrowResource, EscrowManager, consume, refill, try_consume,
}
use text.Mathlib.TextEquality.{eq_iff}

-- What a request is granted.
abbrev pub granted : EscrowResult → ℤ → ℤ
granted answer amount = if is_success answer then amount else pos 0

add_sub : (a b : ℤ) → b +ℤ (a -ℤ b) ≡ a
add_sub a b = omega int_laws

zero_add : (a : ℤ) → pos 0 +ℤ a ≡ a
zero_add a = omega int_laws

bounded : (a b c : ℤ) → a +ℤ b ≡ c → pos 0 ≤ℤ b → a ≤ℤ c
bounded a b c e h = let parts = +ℤ_parts a b in ground (arith, parts, e, h)

module _ {Float Instant : Type 0} where
  -- The quota is between 0 and the allocated one.
  pub record IsSound (r : EscrowResource Float Instant) : Type 0 where
    pub nonnegative : pos 0 ≤ℤ r.available
    pub within : r.available ≤ℤ r.allocated_quota

  consume-IsSound :
      (r : EscrowResource Float Instant) (amount : ℤ) → IsSound r → IsSound (consume r amount).1
  unfolding consume
  consume-IsSound r amount v =
      let low = v.nonnegative in
      let high = v.within in
      record {
        nonnegative = ground (arith, low, high, -ℤ_parts r.available amount);
        within = ground (arith, low, high, -ℤ_parts r.available amount);
      }

  -- A sound resource stays sound when it is asked for any amount, and when it is refilled with an
  -- amount that is not negative; a refill leaves what was asked for, but no more than the allocated
  -- quota.
  pub IsSound-preserved :
      (now : Instant) (r : EscrowResource Float Instant) (amount : ℤ)
      → IsSound r
      → IsSound (consume r amount).1
        × (pos 0 ≤ℤ amount
            → IsSound (refill now r amount)
              × ((refill now r amount).available ≡ min_ℤ amount r.allocated_quota))
  unfolding refill min_ℤ
  IsSound-preserved now r amount v =
      let low = v.nonnegative in
      let high = v.within in
      (
        consume-IsSound r amount v,
        λ h. (
          record {
            nonnegative = ground (arith, low, high, h);
            within = ground (arith, low, high, h);
          },
          refl,
        ),
      )

  -- The answers to a list of requests, added up, with the resource after them.
  abbrev pub serve : EscrowResource Float Instant → List ℤ → ℤ × EscrowResource Float Instant
  serve r [] = (pos 0, r)
  serve r (a ∷ as') =
      let (answer, r') = consume r a in
      let (rest, r'') = serve r' as' in (granted answer a +ℤ rest, r'')

  consume-available :
      (r : EscrowResource Float Instant) (amount : ℤ)
      → granted (consume r amount).0 amount +ℤ (consume r amount).1.available ≡ r.available
  unfolding consume
  consume-available r amount = ground (arith, add_sub r.available amount, zero_add r.available)

  serve-available :
      (r : EscrowResource Float Instant) (as' : List ℤ)
      → (serve r as').0 +ℤ (serve r as').1.available ≡ r.available
  serve-available r [] = zero_add r.available
  serve-available r (a ∷ as') =
      let r' = (consume r a).1 in
      +ℤ_assoc (granted (consume r a).0 a) (serve r' as').0 (serve r' as').1.available
      ∙ rw (serve-available r' as') (consume-available r a)

  serve-IsSound :
      (r : EscrowResource Float Instant) (as' : List ℤ) → IsSound r → IsSound (serve r as').1
  serve-IsSound r [] v = v
  serve-IsSound r (a ∷ as') v = serve-IsSound (consume r a).1 as' (consume-IsSound r a v)

  granted_nonnegative :
      (r : EscrowResource Float Instant) (a : ℤ) → pos 0 ≤ℤ granted (consume r a).0 a
  unfolding consume
  granted_nonnegative r a = ground arith

  serve_nonnegative : (r : EscrowResource Float Instant) (as' : List ℤ) → pos 0 ≤ℤ (serve r as').0
  serve_nonnegative r [] = omega arith
  serve_nonnegative r (a ∷ as') =
      let r' = (consume r a).1 in
      let head = granted_nonnegative r a in let tail = serve_nonnegative r' as' in omega int_laws

  -- A sound resource that answers a list of requests, each of any amount, grants in all what its
  -- quota has gone down by, at least 0 and at most the quota that it had, and is sound afterwards.
  pub serve-within_quota :
      (r : EscrowResource Float Instant) (as' : List ℤ)
      → IsSound r
      → ((serve r as').0 +ℤ (serve r as').1.available ≡ r.available)
        × (pos 0 ≤ℤ (serve r as').0)
        × ((serve r as').0 ≤ℤ r.available)
        × IsSound (serve r as').1
  serve-within_quota r as' v =
      let sum = serve-available r as' in
      let sound = serve-IsSound r as' v in
      let low = sound.nonnegative in
      (
        sum,
        serve_nonnegative r as',
        bounded (serve r as').0 (serve r as').1.available r.available sum low,
        sound,
      )

  -- A request to the manager changes the resource that it names alone, as the resource answers it; an
  -- unknown name changes nothing.
  pub try_consume_frame :
      (m : EscrowManager Float Instant) (id j : String) (amount : ℤ)
      → Dict.lookup j (try_consume m id amount).1.resources ≡ elim (Dict.lookup j m.resources) [
        | none ↦ none
        | some r ↦ if id == j then some (consume r amount).1 else some r
      ]
  unfolding try_consume
  try_consume_frame m id j amount = go (Dict.lookup id m.resources) refl
    where
      go :
          (o : Option (EscrowResource Float Instant))
          → Dict.lookup id m.resources ≡ o
          → Dict.lookup j (try_consume m id amount).1.resources ≡ elim (Dict.lookup j m.resources) [
            | none ↦ none
            | some r ↦ if id == j then some (consume r amount).1 else some r
          ]
      go none e = ground (arith, e, eq_iff id j)
      go (some r) e =
          ground (arith, e, eq_iff id j, lookup-insert id j (consume r amount).1 m.resources)
