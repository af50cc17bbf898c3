-- ===== src/Relayer/Response.antt =====
-- The answers of the relayer's API: an HTTP status with the `error` code of the body. The prose of
-- the messages is left out; the numbers that a body carries are kept.
use solnado_cash.Base.{ℕ, ℤ, List}
use solnado_cash.Base.Chain.{Key}

pub data ErrorCode : Type 0 where
  missing_pool_address invalid_pool_address pool_not_found not_a_pool fee_above_pool_cap : ErrorCode
  internal_error nullifier_pending missing_fields invalid_public_signals : ErrorCode
  invalid_relayer_fee_max invalid_address relayer_fee_max_too_high relayer_fee_below_cost :
      ErrorCode
  relayer_busy stale_root invalid_withdrawal_commitment nullifier_spent invalid_proof : ErrorCode
  relayer_fee_exceeds_max fee_invariant_violated relayer_insufficient_funds : ErrorCode
  blockhash_expired account_not_found simulation_failed too_many_requests : ErrorCode
  too_many_attempts_for_note : ErrorCode

pub record Quote : Type 0 where
  pub relayer_address : Key
  pub relayer_fee_max : ℕ
  pub valid_until : ℕ
  pub estimated_user_receives : ℤ
  pub treasury_fee : ℕ
  pub denomination : ℕ

pub data Response : Type 0 where
  failure : ℕ → ErrorCode → Response
  health : ℕ → ℕ → Response
  quoted : Quote → Response
  withdrawn : List ℕ → ℕ → Response

-- An early return with an error.
pub data Refusal : Type 0 where
  refusal : ℕ → ErrorCode → Refusal

abbrev pub refused_with : Refusal → Response
refused_with (refusal status code) = failure status code
