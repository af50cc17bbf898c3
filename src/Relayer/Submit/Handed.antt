-- ===== src/Relayer/Submit/Handed.antt =====
-- What a transaction that is handed to the cluster tells of the steps before it.
use mathlib.Core.Path.{subst}
use solnado_cash.Base.{
  ℕ, ◌+◌, ◌/◌, ◌≤◌, ◌≡◌, refl, sym, ap, ◌∙◌, Bool, true, false, some, [], ◌∷◌, ltb,
}
use solnado_cash.Base.Chain.{Key, Reply, reply, throw}
use solnado_cash.Relayer.Response.{refusal, missing_fields, invalid_public_signals, invalid_address}
use solnado_cash.Relayer.Fees.{base_fee, FeePlan, RentCache}
use solnado_cash.Relayer.Pool.{PoolInfo, Loaded, loaded, refused, load_pool}
use solnado_cash.Relayer.Preflight.{Verdict, pass, refuse, preflight}
use solnado_cash.Relayer.Tx.{
  Cluster, Transaction, Withdrawal, build_withdraw, send_withdraw, submit_withdraw, vault_seed,
}
use solnado_cash.Relayer.Steps.{Step, go, answer, raise, unless, ok_or}
use solnado_cash.Relayer.Node.{Node, rent_read}
use solnado_cash.Relayer.Request.{Body, three, lacks_fields, fee_max_of, Request, read_request}
use solnado_cash.Relayer.Submit.{
  loaded_or, open_pool, plan_of, price_request, submission_of, passed_or, verified_or,
  withdrawal_of, approve, admit, with_rent, finish, handle_submit,
}
use solnado_cash.Relayer.Steps.Inversion.{
  not_less, go-injective, bind_inv, unless_inv, awaited_inv, ok_or_inv,
}

pub loaded_inv : (l : Loaded) (p : PoolInfo) → loaded_or l ≡ go p → l ≡ loaded p
loaded_inv (loaded q) p h = ap loaded (go-injective q p h)
loaded_inv (refused s c) p h = absurd (cc h)

passed_inv : (v : Verdict) (u : Unit) → passed_or v ≡ go u → v ≡ pass
passed_inv pass u h = refl
passed_inv (refuse c) u h = absurd (cc h)

verified_inv : (v : Reply Bool) (u : Unit) → verified_or v ≡ go u → v ≡ reply true
verified_inv (reply true) u h = refl
verified_inv (reply false) u h = absurd (cc h)
verified_inv (throw e) u h = absurd (cc h)

-- Pricing goes on only with a plan under a ceiling that covers the fixed cost, and a funded wallet.
pub record IsPriced (node : Node) (r : Request) (rent : ℕ) (plan : FeePlan) : Type 0 where
  pub covered : base_fee + rent ≤ r.fee_max
  pub vault : Key
  pub vault_value : node.cluster.find_pda (vault_seed ∷ r.pool ∷ []) node.program ≡ reply vault
  pub balance : ℕ
  pub balance_value : node.get_balance ≡ reply balance
  pub funded : 10_000_000 ≤ balance
  pub plan_value : plan ≡ plan_of node r rent vault

price_request_inv :
    (node : Node) (r : Request) (rent : ℕ) (plan : FeePlan)
    → price_request node r rent ≡ go plan
    → IsPriced node r rent plan
unfolding price_request
price_request_inv node r rent plan h =
    let (u, covered, h1) = bind_inv _ _ _ h in
    let (vault, vault_value, h2) = bind_inv _ _ _ h1 in
    let (u2, unsubsidised, h3) =
      bind_inv (unless (ltb 0 (plan_of node r rent vault).subsidy) _) _ _ h2 in
    let (balance, balance_value, h4) = bind_inv _ _ _ h3 in
    let (u3, funded, h5) = bind_inv _ _ _ h4 in
    record {
      covered = not_less _ _ (unless_inv _ _ _ covered);
      vault = vault;
      vault_value = awaited_inv _ _ vault_value;
      balance = balance;
      balance_value = awaited_inv _ _ balance_value;
      funded = not_less balance 10_000_000 (unless_inv _ _ _ funded);
      plan_value = sym (go-injective _ _ h5);
    }

-- What approval comes to.
pub record IsApproved (node : Node) (r : Request) (pool : PoolInfo) (rent : ℕ) (w : Withdrawal)
    : Type 0 where
  pub plan : FeePlan
  pub priced : IsPriced node r rent plan
  pub preflighted : preflight node.hash node.throws.bigint (submission_of node r pool) ≡ reply pass
  pub verified : node.verify r.proof r.signals ≡ reply true
  pub withdrawal_value : w ≡ withdrawal_of node r pool plan

approve_inv :
    (node : Node) (r : Request) (pool : PoolInfo) (rent : ℕ) (w : Withdrawal)
    → approve node r pool rent ≡ go w
    → IsApproved node r pool rent w
unfolding approve
approve_inv node r pool rent w h =
    let (plan, priced, h1) = bind_inv (price_request node r rent) _ _ h in
    let (verdict, awaits, h2) = bind_inv _ _ _ h1 in
    let (u, passes, h3) = bind_inv _ _ _ h2 in
    let (u2, verifies, h4) = bind_inv _ _ _ h3 in
    record {
      plan = plan;
      priced = price_request_inv node r rent plan priced;
      preflighted = awaited_inv _ _ awaits ∙ ap reply (passed_inv verdict u passes);
      verified = verified_inv _ _ verifies;
      withdrawal_value = sym (go-injective _ _ h4);
    }

pub record IsOpened (node : Node) (r : Request) (pool : PoolInfo) : Type 0 where
  pub load : load_pool node.pool_account node.program r.pool ≡ reply (loaded pool)
  pub capped : r.fee_max ≤ pool.denomination / 50

open_pool_inv :
    (node : Node) (r : Request) (pool : PoolInfo)
    → open_pool node r ≡ go pool
    → IsOpened node r pool
unfolding open_pool
open_pool_inv node r pool h =
    let (found, load, h1) = bind_inv _ _ _ h in
    let (p, is_loaded, h2) = bind_inv _ _ _ h1 in
    let (u, capped, h3) = bind_inv _ _ _ h2 in
    let same : p ≡ pool = go-injective _ _ h3 in
    record {
      load = awaited_inv _ _ load ∙ ap reply (loaded_inv _ _ is_loaded ∙ ap loaded same);
      capped =
          subst (λ q. r.fee_max ≤ q.denomination / 50) same
            (not_less _ _ (unless_inv _ _ _ capped));
    }

-- The fields of a request are the body's.
pub record IsRead (node : Node) (b : Body) (r : Request) : Type 0 where
  pub proof : r.proof ≡ b.proof
  pub signals : r.signals ≡ b.public_signals
  pub parts : three b.public_signals ≡ some (r.nullifier, r.root, r.commitment)
  pub fee_max : fee_max_of b.relayer_fee_max ≡ go r.fee_max
  pub pool : node.to_key b.pool_address ≡ some r.pool
  pub recipient : node.to_key b.recipient ≡ some r.recipient

read_request_inv :
    (node : Node) (b : Body) (r : Request) → read_request node b ≡ go r → IsRead node b r
unfolding read_request
read_request_inv node b r h =
    let (u, present, h1) = bind_inv (unless (lacks_fields b) (refusal 400 missing_fields)) _ _ h in
    let (signals, parts, h2) =
      bind_inv (ok_or (three b.public_signals) (refusal 400 invalid_public_signals)) _ _ h1 in
    let (fee_max, fee, h3) = bind_inv (fee_max_of b.relayer_fee_max) _ _ h2 in
    let (pool, pool_value, h4) =
      bind_inv (ok_or (node.to_key b.pool_address) (refusal 400 invalid_address)) _ _ h3 in
    let (recipient, recipient_value, h5) =
      bind_inv (ok_or (node.to_key b.recipient) (refusal 400 invalid_address)) _ _ h4 in
    let same = go-injective _ _ h5 in
    subst (λ q. IsRead node b q) same
      (record {
        proof = refl;
        signals = refl;
        parts = ok_or_inv _ _ _ parts;
        fee_max = fee;
        pool = ok_or_inv _ _ _ pool_value;
        recipient = ok_or_inv _ _ _ recipient_value;
      })

-- The withdrawal that a transaction was built from.
pub record IsHanded (node : Node) (cache : RentCache) (b : Body) (t : Transaction) : Type 0 where
  pub request : Request
  pub pool : PoolInfo
  pub withdrawal : Withdrawal
  pub is_read : IsRead node b request
  pub opened : IsOpened node request pool
  pub approved : IsApproved node request pool (rent_read node cache).0 withdrawal
  pub built : build_withdraw node.throws node.cluster withdrawal ≡ reply t

sent_inv :
    (cluster : Cluster) (built : Reply Transaction) (t : Transaction)
    → (send_withdraw cluster built).handed ≡ some t
    → built ≡ reply t
unfolding send_withdraw
sent_inv cluster (throw e) t h = absurd (cc h)
sent_inv cluster (reply u) t h = cc h

finish_inv :
    (node : Node) (cache : RentCache) (s : Step Withdrawal) (t : Transaction)
    → (finish node cache s).handed ≡ some t
    → (w : Withdrawal) × (s ≡ go w) × (build_withdraw node.throws node.cluster w ≡ reply t)
unfolding submit_withdraw
finish_inv node cache (answer r) t h = absurd (cc h)
finish_inv node cache (raise e) t h = absurd (cc h)
finish_inv node cache (go w) t h = (w, refl, sent_inv node.cluster _ t h)

with_rent_inv :
    (node : Node) (cache : RentCache) (s : Step (Request × PoolInfo)) (w : Withdrawal)
    → (with_rent node cache s).0 ≡ go w
    → (r : Request) × (pool : PoolInfo) × (s ≡ go (r, pool))
      × (approve node r pool (rent_read node cache).0 ≡ go w)
with_rent_inv node cache (answer r) w h = absurd (cc h)
with_rent_inv node cache (raise e) w h = absurd (cc h)
with_rent_inv node cache (go (r, pool)) w h = (r, pool, refl, h)

admit_inv :
    (node : Node) (b : Body) (r : Request) (pool : PoolInfo)
    → admit node b ≡ go (r, pool)
    → IsRead node b r × IsOpened node r pool
admit_inv node b r pool h =
    let (q, reads, h1) = bind_inv (read_request node b) _ _ h in
    let (p, opens, h2) = bind_inv (open_pool node q) _ _ h1 in
    let same = go-injective _ _ h2 in
    subst (λ x. IsRead node b x.0 × IsOpened node x.0 x.1) same
      (read_request_inv node b q reads, open_pool_inv node q p opens)

pub handle_submit_inv :
    (node : Node) (cache : RentCache) (b : Body) (t : Transaction)
    → (handle_submit node cache b).handed ≡ some t
    → IsHanded node cache b t
unfolding handle_submit
handle_submit_inv node cache b t h =
    let (w, stepped, built) = finish_inv node _ _ t h in
    let (r, pool, admitted, approved) = with_rent_inv node cache (admit node b) w stepped in
    let (reads, opens) = admit_inv node b r pool admitted in
    record {
      request = r;
      pool = pool;
      withdrawal = w;
      is_read = reads;
      opened = opens;
      approved = approve_inv node r pool (rent_read node cache).0 w approved;
      built = built;
    }
