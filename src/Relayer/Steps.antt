-- ===== src/Relayer/Steps.antt =====
-- The parts of a handler in relayer/src/api.js: each goes on with a value, answers early, or raises
-- an error.
pub mod Inversion
use solnado_cash.Base.{
  ℕ, zero, suc, ◌+◌, ◌-◌, ◌*◌, ◌/◌, ◌^◌, Bool, true, false, not, ◌&&◌, ◌||◌, Option, none, some,
  List, [], ◌∷◌, ltb, leb, ◌==◌, if◌then◌else◌, length, ℤ, pos, negsuc,
}
use solnado_cash.Base.Json.{Json, undefined, str, array, Items, nil, cons, truthy, to_bigint}
use solnado_cash.Base.Chain.{Key, Account, Thrown, Reply, reply, throw}
use solnado_cash.Relayer.Response.{
  ErrorCode, missing_fields, invalid_public_signals, invalid_relayer_fee_max, invalid_address,
  relayer_fee_max_too_high, relayer_fee_below_cost, relayer_busy, invalid_proof, Response, Refusal,
  refusal, refused_with, withdrawn,
}
use solnado_cash.Relayer.Fees.{
  base_fee, FeesReply, get_priority_fee_per_cu, RentCache, get_nullifier_rent, FeePlan, plan_fee,
}
use solnado_cash.Relayer.Pool.{PoolInfo, Loaded, loaded, refused, load_pool}
use solnado_cash.Relayer.Preflight.{Lookup, Verdict, pass, refuse, Submission, preflight}
use solnado_cash.Relayer.Tx.{
  Throws, Cluster, ProofField, plain, groth16, Transaction, Withdrawal, Sent, submit_withdraw,
  vault_seed,
}

pub data Step {ℓ} (A : Type ℓ) : Type ℓ where
  go : A → Step A
  answer : Refusal → Step A
  raise : Thrown → Step A

infixl 5 ◌>>=◌
abbrev pub ◌>>=◌ {ℓ κ} : {A : Type ℓ} {B : Type κ} → Step A → (A → Step B) → Step B
go a >>= f = f a
answer r >>= f = answer r
raise e >>= f = raise e

-- An early return where the test holds.
abbrev pub unless : Bool → Refusal → Step {0} Unit
unless true r = answer r
unless false r = go tt

abbrev pub awaited {ℓ} : {A : Type ℓ} → Reply A → Step A
awaited (reply a) = go a
awaited (throw e) = raise e

abbrev pub ok_or {ℓ} : {A : Type ℓ} → Option A → Refusal → Step A
ok_or none r = answer r
ok_or (some a) r = go a
