-- ===== src/Relayer/Submit/Errors.antt =====
-- relayer/src/api.js, the `catch` of `handleSubmit`: an error's message is searched for known parts,
-- in order, and gives the answer.
use solnado_cash.Base.{ℕ, Bool, false, ◌||◌, List, [], ◌∷◌, if◌then◌else◌}
use solnado_cash.Base.Text.{codes, includes}
use solnado_cash.Base.Chain.{Thrown}
use solnado_cash.Relayer.Response.{
  ErrorCode, nullifier_spent, stale_root, invalid_proof, invalid_withdrawal_commitment,
  relayer_fee_exceeds_max, fee_invariant_violated, relayer_insufficient_funds, blockhash_expired,
  account_not_found, simulation_failed, internal_error, Response, failure,
}

-- Parts of a message, with the answer for a message that has one of them.
pub record Rule : Type 0 where
  pub parts : List (List ℕ)
  pub status : ℕ
  pub code : ErrorCode

abbrev pub rule : List (List ℕ) → ℕ → ErrorCode → Rule
rule parts status code = record { parts = parts; status = status; code = code }

unfoldable pub rules : List Rule
rules =
    rule (codes "NullifierAlreadySpent" ∷ codes "0x1774" ∷ []) 400 nullifier_spent
    ∷ rule (codes "RootNotFound" ∷ codes "0x1773" ∷ []) 400 stale_root
    ∷ rule (codes "InvalidProof" ∷ codes "0x1775" ∷ codes "0x1776" ∷ []) 400 invalid_proof
    ∷ rule (codes "InvalidWithdrawalCommitment" ∷ codes "0x1777" ∷ []) 400
        invalid_withdrawal_commitment
    ∷ rule (codes "RelayerFeeExceedsMax" ∷ codes "0x1778" ∷ []) 400 relayer_fee_exceeds_max
    ∷ rule (codes "FeeInvariantViolated" ∷ codes "0x1779" ∷ []) 400 fee_invariant_violated
    ∷ rule (codes "insufficient funds" ∷ codes "InsufficientFunds" ∷ []) 503
        relayer_insufficient_funds
    ∷ rule (codes "blockhash" ∷ codes "BlockhashNotFound" ∷ []) 503 blockhash_expired
    ∷ rule (codes "AccountNotFound" ∷ codes "account does not exist" ∷ []) 400 account_not_found
    ∷ rule (codes "Simulation failed" ∷ codes "Transaction simulation failed" ∷ []) 400
        simulation_failed
    ∷ []

unfoldable pub has_any : List ℕ → List (List ℕ) → Bool
has_any message [] = false
has_any message (p ∷ ps) = includes message p || has_any message ps

unfoldable pub first_rule : List ℕ → List Rule → Response
unfolding has_any
first_rule message [] = failure 500 internal_error
first_rule message (r ∷ rs) =
    if has_any message r.parts then failure r.status r.code else first_rule message rs

unfoldable pub error_response : Thrown → Response
unfolding first_rule rules
error_response e = first_rule e.message rules
