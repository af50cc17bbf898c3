-- ===== src/Relayer/Quote.antt =====
-- relayer/src/api.js, GET /fee_quote: the ceiling that a client binds into its proof.
pub mod Terms
use solnado_cash.Base.{
  ℕ, ◌+◌, ◌*◌, ◌/◌, min, Bool, not, Option, none, some, List, [], ◌∷◌, ltb, leb, if◌then◌else◌,
}
use solnado_cash.Base.Json.{Json, truthy}
use solnado_cash.Base.Chain.{Key, Reply}
use solnado_cash.Relayer.Response.{
  missing_pool_address, invalid_pool_address, fee_above_pool_cap, internal_error, Quote, Response,
  refusal, refused_with, failure, quoted,
}
use solnado_cash.Relayer.Fees.{
  RentCache, get_nullifier_rent, get_priority_fee_per_cu, compute_relayer_cost, fee_max_from_cost,
  compute_treasury_fee, compute_min_user_receives,
}
use solnado_cash.Relayer.Pool.{PoolInfo, load_pool}
use solnado_cash.Relayer.Tx.{vault_seed}
use solnado_cash.Relayer.Steps.{Step, go, answer, raise, ◌>>=◌, unless, awaited, ok_or}
use solnado_cash.Relayer.Node.{rent_read, Node}
use solnado_cash.Relayer.Submit.{loaded_or}

-- What a quote is made for: the pool's bytes and the vault that a withdrawal write-locks.
pub record Quotable : Type 0 where
  pub pool : PoolInfo
  pub vault : Key

unfoldable pub open_quote : Node → Json → Step Quotable
open_quote node query = do
  named ← unless (not (truthy query)) (refusal 400 missing_pool_address)
  key ← ok_or (node.to_key query) (refusal 400 invalid_pool_address)
  found ← awaited (load_pool node.pool_account node.program key)
  pool ← loaded_or found
  vault ← awaited (node.cluster.find_pda (vault_seed ∷ key ∷ []) node.program)
  go (record { pool = pool; vault = vault })

-- min(cost * margin, cap), refused where the cost itself is above the cap
unfoldable pub ceiling_of : ℕ → ℕ → Step ℕ
ceiling_of cost cap = do
  fits ← unless (ltb cap cost) (refusal 503 fee_above_pool_cap)
  go (if leb (fee_max_from_cost cost) cap then fee_max_from_cost cost else cap)

abbrev pub cost_of : Node → Quotable → ℕ → ℕ
cost_of node q rent =
    compute_relayer_cost (get_priority_fee_per_cu node.fees_rpc (q.vault ∷ node.relayer ∷ [])) rent

abbrev pub terms : Node → PoolInfo → ℕ → ℕ → Quote
terms node pool now fee_max = record {
  relayer_address = node.relayer;
  relayer_fee_max = fee_max;
  valid_until = now + 30_000;
  estimated_user_receives = compute_min_user_receives pool.denomination fee_max;
  treasury_fee = compute_treasury_fee pool.denomination;
  denomination = pool.denomination;
}

unfoldable pub quote_for : Node → Quotable → ℕ → ℕ → Step Quote
unfolding ceiling_of
quote_for node q rent now = do
  fee_max ← ceiling_of (cost_of node q rent) (q.pool.denomination / 50)
  go (terms node q.pool now fee_max)

abbrev pub quote_with_rent : Node → RentCache → ℕ → Step Quotable → Step Quote × RentCache
quote_with_rent node cache now (answer r) = (answer r, cache)
quote_with_rent node cache now (raise e) = (raise e, cache)
quote_with_rent node cache now (go q) =
    let (rent, after) = rent_read node cache in (quote_for node q rent now, after)

abbrev pub quote_response : Step Quote → Response
quote_response (go q) = quoted q
quote_response (answer r) = refused_with r
quote_response (raise e) = failure 500 internal_error

unfoldable pub fee_quote : Node → RentCache → ℕ → Json → Response × RentCache
unfolding open_quote quote_for
fee_quote node cache now query =
    let (step, after) = quote_with_rent node cache now (open_quote node query) in
    (quote_response step, after)
