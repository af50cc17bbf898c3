-- ===== src/Relayer/Fees.antt =====
-- relayer/src/fees.js: what a withdrawal costs the relayer, and what it charges.
-- Lamports and prices are JavaScript numbers there. Each division is exact here: below 2 ^ 53 the
-- rounded quotient of doubles has the same floor and ceiling, and 1.5 * cost is exact below 2 ^ 52.
-- `Math.floor(len * 0.9)` is 9 * len / 10 for every length up to a million.
pub mod Plan
pub mod Percentile
pub mod Rent
use solnado_cash.Base.{
  ℕ, zero, suc, ◌+◌, ◌-◌, ◌*◌, ◌/◌, ℤ, sub_ℕ, min, max, Bool, Option, none, some, List, [], ◌∷◌,
  leb, ltb, ◌==◌, if◌then◌else◌, length, get_or,
}

abbrev pub base_fee : ℕ
base_fee = 5000

abbrev pub compute_units : ℕ
compute_units = 200_000

abbrev pub nullifier_account_size : ℕ
nullifier_account_size = 80

abbrev pub nullifier_rent : ℕ
nullifier_rent = 1_056_640

abbrev pub micro_lamports_per_lamport : ℕ
micro_lamports_per_lamport = 1_000_000

abbrev pub rent_ttl_ms : ℕ
rent_ttl_ms = 10 * 60_000

-- Math.ceil(a / b)
abbrev pub ceil_div : ℕ → ℕ → ℕ
ceil_div a b = (a + (b - 1)) / b

-- What `getRecentPrioritizationFees` does: it throws, resolves to nothing, or to the fees.
pub data FeesReply : Type 0 where
  fees_failed fees_missing : FeesReply
  fees : List ℕ → FeesReply

-- `sort((a, b) => a - b)`
unfoldable pub insert_sorted : ℕ → List ℕ → List ℕ
insert_sorted x [] = x ∷ []
insert_sorted x (y ∷ ys) = if leb x y then x ∷ y ∷ ys else y ∷ insert_sorted x ys

unfoldable pub sort : List ℕ → List ℕ
unfolding insert_sorted
sort [] = []
sort (x ∷ xs) = insert_sorted x (sort xs)

-- The accounts that the request is limited to: none for an empty list.
abbrev pub fee_scope {ℓ} : {K : Type ℓ} → List K → Option (List K)
fee_scope [] = none
fee_scope (k ∷ ks) = some (k ∷ ks)

unfoldable pub percentile_90 : List ℕ → ℕ
unfolding sort
percentile_90 fs = get_or (sort fs) (length (sort fs) * 9 / 10) 0

unfoldable pub priority_of_reply : FeesReply → ℕ
unfolding percentile_90
priority_of_reply fees_failed = 0
priority_of_reply fees_missing = 0
priority_of_reply (fees []) = 0
priority_of_reply (fees (f ∷ fs)) = percentile_90 (f ∷ fs)

unfoldable pub get_priority_fee_per_cu {ℓ} :
    {K : Type ℓ} → (Option (List K) → FeesReply) → List K → ℕ
unfolding priority_of_reply
get_priority_fee_per_cu rpc writable = priority_of_reply (rpc (fee_scope writable))

unfoldable pub priority_fee_lamports : ℕ → ℕ
priority_fee_lamports per_cu = ceil_div (per_cu * compute_units) micro_lamports_per_lamport

unfoldable pub priority_per_cu_from_lamports : ℕ → ℕ
priority_per_cu_from_lamports lamports =
    if leb lamports 0 then 0 else lamports * micro_lamports_per_lamport / compute_units

-- The last rent read for each connection, and when.
pub record Cached : Type 0 where
  pub rent : ℕ
  pub at : ℕ

abbrev pub RentCache : Type 0
RentCache = ℕ → Option Cached

abbrev pub remember : RentCache → ℕ → Cached → RentCache
remember cache conn c j = if j == conn then some c else cache j

-- A clock that went backwards counts as fresh, as a negative difference does.
abbrev pub is_fresh : Option Cached → ℕ → Bool
is_fresh none now = Bool.false
is_fresh (some c) now = ltb (now - c.at) rent_ttl_ms

abbrev pub rent_or_default : Option Cached → ℕ
rent_or_default none = nullifier_rent
rent_or_default (some c) = c.rent

abbrev pub rent_after_read : RentCache → ℕ → ℕ → Option ℕ → ℕ × RentCache
rent_after_read cache conn now none = (rent_or_default (cache conn), cache)
rent_after_read cache conn now (some rent) =
    (rent, remember cache conn (record { rent = rent; at = now }))

-- `rpc` is `getMinimumBalanceForRentExemption`, `none` where it throws. The clock is read twice:
-- when the cache is consulted and when the reply is stored.
unfoldable pub get_nullifier_rent : RentCache → ℕ → ℕ → ℕ → (ℕ → Option ℕ) → ℕ × RentCache
get_nullifier_rent cache conn checked stored rpc =
    if is_fresh (cache conn) checked
    then (rent_or_default (cache conn), cache)
    else rent_after_read cache conn stored (rpc nullifier_account_size)

pub record FeePlan : Type 0 where
  pub applied_priority_per_cu : ℕ
  pub actual_fee : ℕ
  pub degraded : Bool
  pub shortfall : ℕ
  pub subsidy : ℕ

-- `Math.max(0, x - y)` is the truncated subtraction.
unfoldable pub plan_fee : ℕ → ℕ → ℕ → FeePlan
plan_fee fee_max rent estimated =
    let deterministic = base_fee + rent in
    let wanted = priority_fee_lamports estimated in
    let affordable = fee_max - deterministic in
    let applied = priority_per_cu_from_lamports (min wanted affordable) in
    let spent = deterministic + priority_fee_lamports applied in
    let charged = if ltb spent fee_max then spent else fee_max in
    record {
      applied_priority_per_cu = applied;
      actual_fee = charged;
      degraded = ltb affordable wanted;
      shortfall = wanted - affordable;
      subsidy = spent - charged;
    }

unfoldable pub compute_relayer_cost : ℕ → ℕ → ℕ
compute_relayer_cost per_cu rent = base_fee + priority_fee_lamports per_cu + rent

-- Math.ceil(cost * 1.5)
unfoldable pub fee_max_from_cost : ℕ → ℕ
fee_max_from_cost cost = ceil_div (cost * 3) 2

unfoldable pub compute_relayer_fee_max : ℕ → ℕ → ℕ
unfolding compute_relayer_cost fee_max_from_cost
compute_relayer_fee_max per_cu rent = fee_max_from_cost (compute_relayer_cost per_cu rent)

unfoldable pub compute_treasury_fee : ℕ → ℕ
compute_treasury_fee denomination = denomination / 500

unfoldable pub compute_min_user_receives : ℕ → ℕ → ℤ
compute_min_user_receives denomination fee_max =
    sub_ℕ denomination (compute_treasury_fee denomination + fee_max)
