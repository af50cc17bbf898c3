-- ===== src/Relayer/Submit.antt =====
-- relayer/src/api.js, `handleSubmit`: from a request body to a sent withdrawal or an error. Each part
-- of the handler is a step that goes on, answers early, or raises; an error ends in the `catch` of
-- the handler. The console, and the prose in the answers, are left out.
pub mod Errors
pub mod Handed
pub mod Safety
pub mod Answers
use solnado_cash.Base.{
  ℕ, zero, suc, ◌+◌, ◌-◌, ◌*◌, ◌/◌, ◌^◌, Bool, true, false, not, ◌&&◌, ◌||◌, Option, none, some,
  List, [], ◌∷◌, ltb, leb, ◌==◌, if◌then◌else◌, length, ℤ, pos, negsuc,
}
use solnado_cash.Base.Json.{Json, undefined, str, array, Items, nil, cons, truthy, to_bigint}
use solnado_cash.Base.Chain.{Key, Account, Thrown, Reply, reply, throw}
use solnado_cash.Relayer.Response.{
  ErrorCode, missing_fields, invalid_public_signals, invalid_relayer_fee_max, invalid_address,
  relayer_fee_max_too_high, relayer_fee_below_cost, relayer_busy, invalid_proof, Response, Refusal,
  refusal, refused_with, withdrawn,
}
use solnado_cash.Relayer.Fees.{
  base_fee, FeesReply, get_priority_fee_per_cu, RentCache, get_nullifier_rent, FeePlan, plan_fee,
}
use solnado_cash.Relayer.Pool.{PoolInfo, Loaded, loaded, refused, load_pool}
use solnado_cash.Relayer.Preflight.{Lookup, Verdict, pass, refuse, Submission, preflight}
use solnado_cash.Relayer.Tx.{
  Throws, Cluster, ProofField, plain, groth16, Transaction, Withdrawal, Sent, submit_withdraw,
  vault_seed,
}
use solnado_cash.Relayer.Submit.Errors.{error_response}
use solnado_cash.Relayer.Steps.{Step, go, answer, raise, ◌>>=◌, unless, awaited, ok_or}
use solnado_cash.Relayer.Node.{Node, rent_read}
use solnado_cash.Relayer.Request.{
  Body, proof_truthy, three, is_digit, all_digits, is_fee_text, fee_max_of, Request, lacks_fields,
  read_request,
}

abbrev pub loaded_or : Loaded → Step PoolInfo
loaded_or (loaded p) = go p
loaded_or (refused status code) = answer (refusal status code)

-- The pool, and the ceiling under the program's cap of 2%.
unfoldable pub open_pool : Node → Request → Step PoolInfo
open_pool node r = do
  found ← awaited (load_pool node.pool_account node.program r.pool)
  pool ← loaded_or found
  capped ← unless (ltb (pool.denomination / 50) r.fee_max) (refusal 400 relayer_fee_max_too_high)
  go pool

abbrev pub plan_of : Node → Request → ℕ → Key → FeePlan
plan_of node r rent vault =
    plan_fee r.fee_max rent (get_priority_fee_per_cu node.fees_rpc (vault ∷ node.relayer ∷ []))

-- The ceiling over the cost, the plan, and the relayer's own balance.
unfoldable pub price_request : Node → Request → ℕ → Step FeePlan
price_request node r rent = do
  covered ← unless (ltb r.fee_max (base_fee + rent)) (refusal 400 relayer_fee_below_cost)
  vault ← awaited (node.cluster.find_pda (vault_seed ∷ r.pool ∷ []) node.program)
  unsubsidised ←
      unless (ltb 0 (plan_of node r rent vault).subsidy) (refusal 400 relayer_fee_below_cost)
  balance ← awaited node.get_balance
  funded ← unless (ltb balance 10_000_000) (refusal 503 relayer_busy)
  go (plan_of node r rent vault)

abbrev pub submission_of : Node → Request → PoolInfo → Submission
submission_of node r pool = record {
  pool_bytes = pool.bytes;
  nullifier = r.nullifier;
  root = r.root;
  commitment = r.commitment;
  relayer = node.relayer;
  recipient = r.recipient;
  fee_max = r.fee_max;
  lookup = some (record {
    find_pda = node.find_pda;
    get_account_info = node.nullifier_account;
    program = node.program;
    pool = r.pool;
  });
}

abbrev pub passed_or : Verdict → Step {0} Unit
passed_or pass = go tt
passed_or (refuse code) = answer (refusal 400 code)

-- An error of the verifier and a proof that it rejects are the same answer.
abbrev pub verified_or : Reply Bool → Step {0} Unit
verified_or (throw e) = answer (refusal 400 invalid_proof)
verified_or (reply false) = answer (refusal 400 invalid_proof)
verified_or (reply true) = go tt

abbrev pub withdrawal_of : Node → Request → PoolInfo → FeePlan → Withdrawal
withdrawal_of node r pool plan = record {
  program = node.program;
  relayer = node.relayer;
  pool = r.pool;
  recipient = r.recipient;
  treasury = pool.treasury;
  proof = r.proof;
  nullifier = r.nullifier;
  root = r.root;
  commitment = r.commitment;
  fee_max = r.fee_max;
  fee_taken = plan.actual_fee;
  price = plan.applied_priority_per_cu;
}

-- Everything between the rent and the transaction.
unfoldable pub approve : Node → Request → PoolInfo → ℕ → Step Withdrawal
unfolding price_request
approve node r pool rent = do
  plan ← price_request node r rent
  verdict ← awaited (preflight node.hash node.throws.bigint (submission_of node r pool))
  fresh ← passed_or verdict
  verified ← verified_or (node.verify r.proof r.signals)
  go (withdrawal_of node r pool plan)

abbrev pub admit : Node → Body → Step (Request × PoolInfo)
admit node b = do r ← read_request node b; pool ← open_pool node r; go (r, pool)

-- The rent is read only for a request that comes this far.
abbrev pub with_rent : Node → RentCache → Step (Request × PoolInfo) → Step Withdrawal × RentCache
with_rent node cache (answer r) = (answer r, cache)
with_rent node cache (raise e) = (raise e, cache)
with_rent node cache (go (r, pool)) =
    let (rent, after) = rent_read node cache in (approve node r pool rent, after)

-- What a request comes to: the answer, the transaction that was handed to the cluster, if any, and
-- the rent cache.
pub record Handled : Type 0 where
  pub response : Response
  pub handed : Option Transaction
  pub cache : RentCache

abbrev pub response_of : ℕ → Reply (List ℕ) → Response
response_of fee (reply signature) = withdrawn signature fee
response_of fee (throw e) = error_response e

abbrev pub finish : Node → RentCache → Step Withdrawal → Handled
finish node cache (answer r) = record { response = refused_with r; handed = none; cache = cache }
finish node cache (raise e) = record { response = error_response e; handed = none; cache = cache }
finish node cache (go w) =
    let sent : Sent = submit_withdraw node.throws node.cluster w in
    record { response = response_of w.fee_taken sent.outcome; handed = sent.handed; cache = cache }

unfoldable pub handle_submit : Node → RentCache → Body → Handled
unfolding read_request open_pool approve
handle_submit node cache b =
    let (step, after) = with_rent node cache (admit node b) in finish node after step
