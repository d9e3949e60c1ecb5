-- ===== src/Escrow.antt =====
-- rhizo_core/src/transaction/escrow.rs: quotas of resources that a node consumes without
-- coordination. Counters are `u64` and amounts `i64`, with the wrap of both written out; `f64` and
-- `Instant` are parameters that the code only stores here, and locks do not fail. The configuration
-- and what reads it, the sizing of quotas from floating-point rates, are left out.
pub mod Quota
pub mod Tests
use unifieddataruntime.Base.{
  ℕ, ◌+◌, ◌-◌, ◌%◌, ◌^◌, max, String, Bool, true, false, not, Option, none, some, List, [], ◌∷◌,
  string_eq, ltb, if◌then◌else◌, Result, ok, err,
}
use unifieddataruntime.Base.Int.{ℤ, pos, negsuc, ◌+ℤ◌, ◌-ℤ◌, leb_ℤ, min_ℤ}
use unifieddataruntime.Base.Dict
use unifieddataruntime.Base.Dict.{Dict}

-- The bits of an integer as a `u64`, and back.
abbrev pub to_u64 : ℤ → ℕ
to_u64 (pos n) = n % 2 ^ 64
to_u64 (negsuc n) = 2 ^ 64 - 1 - n % 2 ^ 64

abbrev pub of_u64 : ℕ → ℤ
of_u64 n = if ltb n (2 ^ 63) then pos n else negsuc (2 ^ 64 - 1 - n)

unfoldable pub wrap_i64 : ℤ → ℤ
wrap_i64 a = of_u64 (to_u64 a)

unfoldable pub next_u64 : ℕ → ℕ
next_u64 n = (n + 1) % 2 ^ 64

pub data EscrowResult : Type 0 where
  success : (remaining : ℤ) → EscrowResult
  quota_exhausted : (requested available : ℤ) → EscrowResult
  resource_not_found invalid_amount : EscrowResult

abbrev pub is_success : EscrowResult → Bool
is_success (EscrowResult.success _) = true
is_success _ = false

abbrev pub needs_coordination : EscrowResult → Bool
needs_coordination (EscrowResult.quota_exhausted _ _) = true
needs_coordination _ = false

pub data EscrowError : Type 0 where
  lock_error config_error resource_exists quota_calculation_error : String → EscrowError

pub record EscrowStats (Float Instant : Type 0) : Type 0 where
  pub local_operations : ℕ
  pub coordination_events : ℕ
  pub total_consumed : ℤ
  pub total_replenished : ℤ
  pub estimated_rate : Float
  pub current_quota : ℤ
  pub last_replenish : Option Instant

pub record EscrowResource (Float Instant : Type 0) : Type 0 where
  pub resource_id : String
  pub available : ℤ
  pub allocated_quota : ℤ
  pub global_total : ℤ
  pub stats : EscrowStats Float Instant
  pub ops_since_estimate : ℕ
  pub last_estimate_time : Instant

pub record EscrowManager (Float Instant : Type 0) : Type 0 where
  pub node_id : String
  pub resources : Dict String (EscrowResource Float Instant)
  pub node_count : ℕ

module _ {Float Instant : Type 0} where
  -- `EscrowResource::new`; `zero` is the default rate.
  abbrev pub new_resource : Float → Instant → String → ℤ → ℤ → EscrowResource Float Instant
  new_resource zero now id total quota = record {
    resource_id = id;
    available = quota;
    allocated_quota = quota;
    global_total = total;
    stats = record {
      local_operations = 0;
      coordination_events = 0;
      total_consumed = pos 0;
      total_replenished = pos 0;
      estimated_rate = zero;
      current_quota = quota;
      last_replenish = some now;
    };
    ops_since_estimate = 0;
    last_estimate_time = now;
  }

  -- `EscrowResource::try_consume`
  unfoldable pub consume :
      EscrowResource Float Instant → ℤ → EscrowResult × EscrowResource Float Instant
  unfolding wrap_i64 next_u64
  consume r amount =
      let tracked = next_u64 r.ops_since_estimate in
      if leb_ℤ amount (pos 0)
      then (EscrowResult.invalid_amount, r)
      else if leb_ℤ amount r.available
      then (
        EscrowResult.success (r.available -ℤ amount),
        record r {
          available = r.available -ℤ amount;
          stats = record r.stats {
            local_operations = next_u64 r.stats.local_operations;
            total_consumed = wrap_i64 (r.stats.total_consumed +ℤ amount);
          };
          ops_since_estimate = tracked;
        },
      )
      else (
        EscrowResult.quota_exhausted amount r.available,
        record r {
          stats = record r.stats { coordination_events = next_u64 r.stats.coordination_events };
          ops_since_estimate = tracked;
        },
      )

  -- `EscrowResource::replenish`
  unfoldable pub refill : Instant → EscrowResource Float Instant → ℤ → EscrowResource Float Instant
  unfolding wrap_i64
  refill now r amount = record r {
    available = min_ℤ amount r.allocated_quota;
    stats = record r.stats {
      total_replenished = wrap_i64 (r.stats.total_replenished +ℤ amount);
      last_replenish = some now;
    };
  }

  -- `EscrowManager::new`
  abbrev pub new_manager : String → EscrowManager Float Instant
  new_manager n = record { node_id = n; resources = []; node_count = 1 }

  abbrev pub set_node_count : EscrowManager Float Instant → ℕ → EscrowManager Float Instant
  set_node_count m n = record m { node_count = max n 1 }

  unfoldable pub register_resource :
      Float
      → Instant
      → EscrowManager Float Instant
      → String
      → ℤ
      → ℤ
      → Result EscrowError (EscrowManager Float Instant)
  register_resource zero now m id total quota =
      if Dict.contains_key id m.resources
      then err (EscrowError.resource_exists id)
      else ok (record m {
        resources = Dict.insert id (new_resource zero now id total quota) m.resources;
      })

  -- `EscrowManager::try_consume`
  unfoldable pub try_consume :
      EscrowManager Float Instant → String → ℤ → EscrowResult × EscrowManager Float Instant
  unfolding consume
  try_consume m id amount = elim (Dict.lookup id m.resources) [
    | none ↦ (EscrowResult.resource_not_found, m)
    | some r ↦
        let (answer, r') = consume r amount in
        (answer, record m { resources = Dict.insert id r' m.resources })
  ]

  -- `EscrowManager::replenish`; the error's text is the id that it names.
  unfoldable pub replenish :
      Instant
      → EscrowManager Float Instant
      → String
      → ℤ
      → Result EscrowError (EscrowManager Float Instant)
  unfolding refill
  replenish now m id amount = elim (Dict.lookup id m.resources) [
    | none ↦ err (EscrowError.lock_error id)
    | some r ↦ ok (record m { resources = Dict.insert id (refill now r amount) m.resources })
  ]

  abbrev pub get_stats : EscrowManager Float Instant → String → Option (EscrowStats Float Instant)
  get_stats m id = elim (Dict.lookup id m.resources) [ none ↦ none | some r ↦ some r.stats ]

  abbrev pub available_quota : EscrowManager Float Instant → String → Option ℤ
  available_quota m id = elim (Dict.lookup id m.resources) [
    | none ↦ none
    | some r ↦ some r.available
  ]
