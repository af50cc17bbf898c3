-- ===== src/Relayer/Fees/Plan.antt =====
-- The fee plan of a withdrawal: what is charged, what is spent, and what the relayer can lose.
use solnado_cash.Base.{ℕ, ◌+◌, ◌-◌, ◌*◌, ◌≤◌, ◌<◌, min, ◌≡◌, ◌↔◌, true, arith}
use solnado_cash.Relayer.Fees.{
  base_fee, priority_fee_lamports, priority_per_cu_from_lamports, FeePlan, plan_fee,
  fee_max_from_cost, compute_relayer_cost,
}

-- A budget in lamports survives the way through a price per compute unit.
pub priority_fee_lamports-priority_per_cu_from_lamports :
    (lamports : ℕ) → priority_fee_lamports (priority_per_cu_from_lamports lamports) ≡ lamports
unfolding priority_fee_lamports priority_per_cu_from_lamports
priority_fee_lamports-priority_per_cu_from_lamports lamports = ground arith

module _ (fee_max rent estimated : ℕ) where
  abbrev plan : FeePlan
  plan = plan_fee fee_max rent estimated

  spent_on_priority :
      priority_fee_lamports plan.applied_priority_per_cu
      ≡ min (priority_fee_lamports estimated) (fee_max - (base_fee + rent))
  unfolding plan_fee
  spent_on_priority = priority_fee_lamports-priority_per_cu_from_lamports _

  -- Whatever the ceiling, the rent and the estimate, the charge is at most the ceiling, and charge
  -- and reported subsidy together are exactly what the relayer spends.
  pub plan_fee-accounts :
      (plan.actual_fee ≤ fee_max)
      × (plan.actual_fee + plan.subsidy
          ≡ base_fee + rent + priority_fee_lamports plan.applied_priority_per_cu)
  unfolding plan_fee
  plan_fee-accounts = ground arith

  -- Under a ceiling that covers signature fee and rent, the relayer subsidises nothing and charges
  -- exactly what it spends.
  pub plan_fee-no_subsidy :
      base_fee + rent ≤ fee_max
      → (plan.subsidy ≡ 0)
        × (plan.actual_fee ≡ base_fee + rent + priority_fee_lamports plan.applied_priority_per_cu)
  unfolding plan_fee
  plan_fee-no_subsidy h = ground (
    arith,
    priority_fee_lamports-priority_per_cu_from_lamports
        (min (priority_fee_lamports estimated) (fee_max - (base_fee + rent))),
  )

  -- What is spent on priority and the shortfall add up to what the estimate asks for, and the plan
  -- is degraded exactly when the shortfall is not zero.
  pub plan_fee-shortfall :
      (priority_fee_lamports plan.applied_priority_per_cu + plan.shortfall
        ≡ priority_fee_lamports estimated)
      × ((plan.degraded ≡ true) ↔ (0 < plan.shortfall))
  unfolding plan_fee
  plan_fee-shortfall = ground (
    arith,
    priority_fee_lamports-priority_per_cu_from_lamports
        (min (priority_fee_lamports estimated) (fee_max - (base_fee + rent))),
  )

-- The margin: a ceiling made from a cost is at least the cost, and at most half as much more,
-- rounded up.
pub fee_max_from_cost_bounds :
    (cost : ℕ)
    → (cost ≤ fee_max_from_cost cost)
      × (3 * cost ≤ 2 * fee_max_from_cost cost)
      × (2 * fee_max_from_cost cost ≤ 3 * cost + 1)
unfolding fee_max_from_cost
fee_max_from_cost_bounds cost = ground arith

-- A ceiling quoted for a cost pays the whole priority fee that the cost was computed with: planned at
-- the same rent and estimate, it is not degraded, not subsidised, and charges the cost.
pub plan_fee-quoted :
    (rent estimated fee_max : ℕ)
    → compute_relayer_cost estimated rent ≤ fee_max
    → ((plan_fee fee_max rent estimated).actual_fee ≡ compute_relayer_cost estimated rent)
      × ((plan_fee fee_max rent estimated).shortfall ≡ 0)
      × ((plan_fee fee_max rent estimated).subsidy ≡ 0)
unfolding plan_fee compute_relayer_cost
plan_fee-quoted rent estimated fee_max h = ground (
  arith,
  priority_fee_lamports-priority_per_cu_from_lamports
      (min (priority_fee_lamports estimated) (fee_max - (base_fee + rent))),
)
