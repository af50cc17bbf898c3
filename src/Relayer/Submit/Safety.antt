-- ===== src/Relayer/Submit/Safety.antt =====
-- What holds of every withdrawal that the relayer hands to the cluster.
use mathlib.Core.Path.{subst}
use solnado_cash.Base.{ℕ, ◌+◌, ◌/◌, ◌≤◌, ◌≡◌, sym, ap, ◌∙◌, true, some, arith, pos, take, length}
use solnado_cash.Base.Chain.{Account, reply}
use solnado_cash.Relayer.Fees.{base_fee, priority_fee_lamports, FeePlan, RentCache}
use solnado_cash.Relayer.Fees.Plan.{plan_fee-accounts, plan_fee-no_subsidy}
use solnado_cash.Relayer.Pool.{pool_info, pool_account_len, pool_discriminator}
use solnado_cash.Relayer.Preflight.{Submission}
use solnado_cash.Relayer.Preflight.Verdicts.{IsBound, IsSpent}
use solnado_cash.Relayer.Tx.{Transaction, bigint_to_bytes32}
use solnado_cash.Relayer.Node.{rent_read, Node}
use solnado_cash.Relayer.Request.{Body, three, Request}
use solnado_cash.Relayer.Submit.{handle_submit}
use solnado_cash.Relayer.Submit.Handed.{IsPriced, IsHanded, handle_submit_inv}
use solnado_cash.Relayer.Tx.Built.{price_of, IsBuilt, build_inv}

-- A withdrawal that is the body's own: to its recipient, from its pool, an account of the program
-- whose treasury it pays under whose cap it stays, with a root of that pool and a commitment to this
-- relayer, this ceiling and this recipient, under a proof that verifies.
pub record IsAuthentic (node : Node) (b : Body) (t : Transaction) : Type 0 where
  pub pool_named : node.to_key b.pool_address ≡ some t.pool
  pub recipient_named : node.to_key b.recipient ≡ some t.recipient
  pub own_relayer : t.relayer ≡ node.relayer
  pub account : Account
  pub account_read : node.pool_account t.pool ≡ reply (some account)
  pub owned : account.owner ≡ node.program
  pub long : pool_account_len ≤ length account.bytes
  pub tagged : take 8 account.bytes ≡ pool_discriminator
  pub pays_treasury : t.treasury ≡ (pool_info account.bytes).treasury
  pub capped : t.relayer_fee_max ≤ (pool_info account.bytes).denomination / 50
  pub submission : Submission
  pub own_bytes : submission.pool_bytes ≡ account.bytes
  pub own_signals :
      three b.public_signals ≡ some (submission.nullifier, submission.root, submission.commitment)
  pub own_key : submission.relayer ≡ t.relayer
  pub own_recipient : submission.recipient ≡ t.recipient
  pub own_ceiling : submission.fee_max ≡ t.relayer_fee_max
  pub bound : IsBound node.hash submission
  pub fresh : ¬ IsSpent submission
  pub root_sent : t.root ≡ bigint_to_bytes32 (pos bound.root)
  pub verified : node.verify b.proof b.public_signals ≡ reply true

charge_of_plan :
    (node : Node) (r : Request) (rent : ℕ) (plan : FeePlan)
    → IsPriced node r rent plan
    → (plan.actual_fee ≡ base_fee + rent + priority_fee_lamports plan.applied_priority_per_cu)
      × (plan.actual_fee ≤ r.fee_max)
charge_of_plan node r rent plan priced =
    let exact = (plan_fee-no_subsidy r.fee_max rent _ priced.covered).1 in
    let below = (plan_fee-accounts r.fee_max rent _).0 in
    subst
      (λ p.
        (p.actual_fee ≡ base_fee + rent + priority_fee_lamports p.applied_priority_per_cu)
        × (p.actual_fee ≤ r.fee_max))
      (sym priced.plan_value) (exact, below)

-- Every transaction that the relayer hands to the cluster pays it back: the fee that it takes
-- is exactly the signature fee, the rent that was read and the priority fee at the price that the
-- transaction sets, it is at most the ceiling of the proof, and the wallet was read to hold at least
-- 0.01 SOL.
pub handle_submit-reimbursed :
    (node : Node) (cache : RentCache) (b : Body) (t : Transaction)
    → (handle_submit node cache b).handed ≡ some t
    → (balance : ℕ) × (t.relayer_fee_taken
        ≡ base_fee + (rent_read node cache).0 + priority_fee_lamports (price_of t))
      × (t.relayer_fee_taken ≤ t.relayer_fee_max)
      × (node.get_balance ≡ reply balance)
      × (10_000_000 ≤ balance)
handle_submit-reimbursed node cache b t h =
    let handed : IsHanded node cache b t = handle_submit_inv node cache b t h in
    let priced : IsPriced node handed.request (rent_read node cache).0 handed.approved.plan =
      handed.approved.priced in
    let built : IsBuilt handed.withdrawal t = build_inv _ _ _ _ handed.built in
    let of_plan = subst (λ w. IsBuilt w t) handed.approved.withdrawal_value built in
    let (exact, below) =
      charge_of_plan node handed.request (rent_read node cache).0 handed.approved.plan priced in
    (
      priced.balance,
      of_plan.fee_taken
          ∙ exact
          ∙ ap (λ p. base_fee + (rent_read node cache).0 + priority_fee_lamports p)
              (sym of_plan.price),
      ground (arith, of_plan.fee_taken, of_plan.fee_max, below),
      priced.balance_value,
      priced.funded,
    )
