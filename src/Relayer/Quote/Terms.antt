-- ===== src/Relayer/Quote/Terms.antt =====
-- What a quote promises: a ceiling that the relayer accepts, and what is left for the recipient.
use mathlib.Core.Path.{subst}
use solnado_cash.Base.{
  refl, ℕ, ◌+◌, ◌-◌, ◌*◌, ◌/◌, ◌≤◌, ◌≡◌, ◌↔◌, inl, inr, Bool-cases, [], ◌∷◌, arith, ltb, leb,
  if◌then◌else◌, pos, sub_ℕ-pos, min, ◌<◌, ltb→lt, lt→ltb,
}
use solnado_cash.Base.Chain.{Key}
use solnado_cash.Base.Json.{Json}
use solnado_cash.Relayer.Response.{fee_above_pool_cap, Quote, refusal, quoted}
use solnado_cash.Relayer.Fees.{
  RentCache, get_priority_fee_per_cu, compute_relayer_cost, fee_max_from_cost, compute_treasury_fee,
  compute_min_user_receives, plan_fee,
}
use solnado_cash.Relayer.Fees.Plan.{fee_max_from_cost_bounds, plan_fee-quoted}
use solnado_cash.Relayer.Steps.{Step, go, answer, raise, unless}
use solnado_cash.Relayer.Node.{rent_read, Node}
use solnado_cash.Relayer.Steps.Inversion.{bind_inv, unless_inv, not_less, go-injective}
use solnado_cash.Relayer.Quote.{
  Quotable, open_quote, ceiling_of, cost_of, quote_for, quote_with_rent, quote_response, fee_quote,
}

ceiling_bounds :
    (cost cap fee_max : ℕ)
    → ceiling_of cost cap ≡ go fee_max
    → (fee_max ≡ min (fee_max_from_cost cost) cap) × (cost ≤ fee_max) × (fee_max ≤ cap)
unfolding ceiling_of
ceiling_bounds cost cap fee_max h =
    let (u, fits, chosen) =
      bind_inv (unless (ltb cap cost) (refusal 503 fee_above_pool_cap)) _ _ h in
    let value : (if leb (fee_max_from_cost cost) cap then fee_max_from_cost cost else cap)
        ≡ fee_max =
      go-injective _ _ chosen in
    let fits : cost ≤ cap = not_less cap cost (unless_inv _ _ _ fits) in
    let margin = (fee_max_from_cost_bounds cost).0 in ground (arith, value, fits, margin)

share : (d m : ℕ) → m ≤ d / 50 → (d / 500 + m ≤ d) × (978 * d ≤ 1000 * (d - (d / 500 + m)))
share d m h = ground arith

user_share :
    (denomination fee_max : ℕ)
    → fee_max ≤ denomination / 50
    → (rest : ℕ) × (compute_min_user_receives denomination fee_max ≡ pos rest)
      × (rest + compute_treasury_fee denomination + fee_max ≡ denomination)
      × (978 * denomination ≤ 1000 * rest)
unfolding compute_min_user_receives compute_treasury_fee
user_share denomination fee_max h =
    let (fits, most) = share denomination fee_max h in
    (
      denomination - (denomination / 500 + fee_max),
      sub_ℕ-pos denomination _ fits,
      omega arith,
      most,
    )

-- The terms of a quote: its ceiling is the cost with the margin or the pool's cap, whichever is less,
-- and pays the cost; planned at the rent that was read and the price estimated for the vault, one under
-- it is charged the cost, without subsidy or shortfall; and the recipient is told exactly what is
-- left after the treasury's fee and the ceiling, at least 97.8% of the denomination.
pub record IsFair (node : Node) (rent : ℕ) (q : Quote) : Type 0 where
  pub vault : Key
  pub estimated : ℕ
  pub estimate : estimated ≡ get_priority_fee_per_cu node.fees_rpc (vault ∷ node.relayer ∷ [])
  pub ceiling :
      q.relayer_fee_max
      ≡ min (fee_max_from_cost (compute_relayer_cost estimated rent)) (q.denomination / 50)
  pub pays : compute_relayer_cost estimated rent ≤ q.relayer_fee_max
  pub charged :
      (plan_fee q.relayer_fee_max rent estimated).actual_fee ≡ compute_relayer_cost estimated rent
  pub unsubsidised : (plan_fee q.relayer_fee_max rent estimated).subsidy ≡ 0
  pub undegraded : (plan_fee q.relayer_fee_max rent estimated).shortfall ≡ 0
  pub receives : ℕ
  pub receives_value : q.estimated_user_receives ≡ pos receives
  pub treasury : q.treasury_fee ≡ q.denomination / 500
  pub adds_up : receives + q.treasury_fee + q.relayer_fee_max ≡ q.denomination
  pub most : 978 * q.denomination ≤ 1000 * receives

quote_for-IsFair :
    (node : Node) (p : Quotable) (rent now : ℕ) (q : Quote)
    → quote_for node p rent now ≡ go q
    → IsFair node rent q
unfolding quote_for compute_treasury_fee
quote_for-IsFair node p rent now q h =
    let estimated = get_priority_fee_per_cu node.fees_rpc (p.vault ∷ node.relayer ∷ []) in
    let (fee_max, ceiling, made) =
      bind_inv (ceiling_of (cost_of node p rent) (p.pool.denomination / 50)) _ _ h in
    let (value, pays, capped) = ceiling_bounds _ _ _ ceiling in
    let (receives, receives_value, adds_up, most) = user_share p.pool.denomination fee_max capped in
    let (charged, undegraded, unsubsidised) = plan_fee-quoted rent estimated fee_max pays in
    subst (IsFair node rent) (go-injective _ _ made) (record {
      vault = p.vault;
      estimated = estimated;
      estimate = refl;
      ceiling = value;
      pays = pays;
      charged = charged;
      unsubsidised = unsubsidised;
      undegraded = undegraded;
      receives = receives;
      receives_value = receives_value;
      treasury = refl;
      adds_up = adds_up;
      most = most;
    })

quote_response_inv : (s : Step Quote) (q : Quote) → quote_response s ≡ quoted q → s ≡ go q
quote_response_inv (go p) q h = cc h
quote_response_inv (answer (refusal status code)) q h = absurd (cc h)
quote_response_inv (raise e) q h = absurd (cc h)

with_rent-IsFair :
    (node : Node) (cache : RentCache) (now : ℕ) (s : Step Quotable) (q : Quote)
    → (quote_with_rent node cache now s).0 ≡ go q
    → IsFair node (rent_read node cache).0 q
with_rent-IsFair node cache now (answer r) q h = absurd (cc h)
with_rent-IsFair node cache now (raise e) q h = absurd (cc h)
with_rent-IsFair node cache now (go p) q h = quote_for-IsFair node p _ now q h

pub fee_quote-IsFair :
    (node : Node) (cache : RentCache) (now : ℕ) (query : Json) (q : Quote)
    → (fee_quote node cache now query).0 ≡ quoted q
    → IsFair node (rent_read node cache).0 q
unfolding fee_quote
fee_quote-IsFair node cache now query q h =
    with_rent-IsFair node cache now (open_quote node query) q (quote_response_inv _ q h)

-- A pool that a quote can be made for is refused exactly when the cost alone is above its cap.
pub quote_for-refused :
    (node : Node) (p : Quotable) (rent now : ℕ)
    → (quote_for node p rent now ≡ answer (refusal 503 fee_above_pool_cap))
      ↔ (p.pool.denomination / 50 < cost_of node p rent)
unfolding quote_for ceiling_of
quote_for-refused node p rent now =
    elim (Bool-cases (ltb (p.pool.denomination / 50) (cost_of node p rent))) [
      | inl above ↦ (λ h. ltb→lt _ _ above, λ h. rw above)
      | inr fits ↦ (λ h. absurd (cc (rw fits at h)), λ h. absurd (cc (lt→ltb _ _ h, fits)))
    ]
