-- ===== src/Escrow/Tests.antt =====
-- A resource with a quota of ten, and the theorems on it.
use unifieddataruntime.Base.{ℕ, ◌≡◌, refl, [], ◌∷◌, string_eq, ◌^◌, ◌-◌, arith}
use unifieddataruntime.Base.Int.{pos, negsuc, ◌+ℤ◌, ◌-ℤ◌, ◌≤ℤ◌, min_ℤ}
use unifieddataruntime.Escrow.{
  EscrowResource, EscrowManager, new_resource, wrap_i64, consume, refill,
}
use unifieddataruntime.Escrow.Quota.{IsSound, serve, IsSound-preserved, serve-within_quota}

abbrev stock : EscrowResource ℕ ℕ
stock = new_resource 0 0 "stock" (pos 100) (pos 10)

abbrev manager : EscrowManager ℕ ℕ
manager = record { node_id = "a"; resources = ("stock", stock) ∷ []; node_count = 1 }

stock-IsSound : IsSound stock
stock-IsSound = record { nonnegative = ground arith; within = ground arith }

-- Of ten, seven are granted, then not five, then two.
served : (serve stock (pos 7 ∷ pos 5 ∷ pos 2 ∷ [])).0 ≡ pos 9
unfolding consume ◌+ℤ◌ ◌-ℤ◌
served = refl

wrapped : wrap_i64 (pos (2 ^ 63)) ≡ negsuc (2 ^ 63 - 1)
unfolding wrap_i64
wrapped = refl

IsSound-preserved_example :
    IsSound (consume stock (pos 7)).1
    × (pos 0 ≤ℤ pos 7
        → IsSound (refill 1 stock (pos 7))
          × ((refill 1 stock (pos 7)).available ≡ min_ℤ (pos 7) (pos 10)))
IsSound-preserved_example = IsSound-preserved 1 stock (pos 7) stock-IsSound

serve-within_quota_example :
    ((serve stock (pos 7 ∷ pos 5 ∷ [])).0 +ℤ (serve stock (pos 7 ∷ pos 5 ∷ [])).1.available
      ≡ pos 10)
    × (pos 0 ≤ℤ (serve stock (pos 7 ∷ pos 5 ∷ [])).0)
    × ((serve stock (pos 7 ∷ pos 5 ∷ [])).0 ≤ℤ pos 10)
    × IsSound (serve stock (pos 7 ∷ pos 5 ∷ [])).1
serve-within_quota_example = serve-within_quota stock (pos 7 ∷ pos 5 ∷ []) stock-IsSound
