-- ===== src/App/Withdraw.antt =====
-- app/src/pages/Withdraw.tsx: `executeWithdraw` with its retries, what it shows for an error, and the check
-- of the recipient in app/src/utils/recipientCheck.ts. The rendering is not modelled. Errors are their
-- messages, as code units; those of the quote's check are given up to their first number, and what
-- follows holds none of the words that are searched for.
pub mod Attempts
pub mod Terms
use Prim.Native.String.{String}
use solnado_cash.Base.{
  ℕ, zero, suc, ◌+◌, ◌-◌, Bool, true, false, ◌&&◌, ◌||◌, Option, none, some, List, [], ◌∷◌, ◌==◌,
  ltb, if◌then◌else◌, length, drop, codes_eq,
}
use solnado_cash.Base.Text.{codes, includes}
use solnado_cash.Base.Json.{is_white, trim_start, trim_end}
use solnado_cash.Base.Chain.{Key}
use solnado_cash.Base.Outcome.{Outcome, ok, err, ◌>>=◌, from_option}
use solnado_cash.Sdk.MerkleTree.{Tree}
use solnado_cash.Sdk.Withdraw.{SecretNote, FeeTerms, CircomInputs, withdraw_inputs}
use solnado_cash.Sdk.Fees.{
  FeeQuote, QuoteError, FeeBreakdown, small_denomination, expired, negative_fee, above_cap,
  nothing_left, inconsistent, validate_fee_quote,
}
use solnado_cash.App.Deposits.{Base58}
use solnado_cash.App.ClusterGate.{Verdict, is_allowed}

abbrev pub confirm_chars : ℕ
confirm_chars = 8

-- address.slice(-CONFIRM_CHARS)
unfoldable pub tail_of : List ℕ → List ℕ
tail_of address = drop (length address - confirm_chars) address

unfoldable pub recipient_confirmed : List ℕ → List ℕ → Bool
unfolding tail_of trim_start trim_end
recipient_confirmed address typed =
    length (tail_of address) == confirm_chars
    && codes_eq (trim_end (trim_start typed)) (tail_of address)

abbrev pub Text : Type 0
Text = List ℕ

abbrev pub max_stale_root_retries : ℕ
max_stale_root_retries = 2

abbrev pub quote_error_text : QuoteError → Text
quote_error_text small_denomination = codes "Denomination must be >= 500 (BF-14)"
quote_error_text expired = codes "Fee quote has expired"
quote_error_text negative_fee = codes "Relayer fee quote is negative"
quote_error_text above_cap = codes "Relayer fee "
quote_error_text nothing_left = codes "Fees would consume the entire withdrawal"
quote_error_text inconsistent = codes "Relayer quote is inconsistent: it claims the user receives "

abbrev pub checked_quote : Outcome QuoteError FeeBreakdown → Outcome Text FeeBreakdown
checked_quote (ok b) = ok b
checked_quote (err e) = err (quote_error_text e)

-- What the page shows for an error.
pub data Explanation : Type 0 where
  no_relayer no_quote not_in_tree bad_address already_spent bad_proof stale_root commitment_mismatch
        fee_above_max invariant_violated relayer_unfunded expired_blockhash no_account
        failed_simulation relayer_busy :
      Explanation
  raw : Text → Explanation

abbrev pub says : Text → String → Bool
says msg s = includes msg (codes s)

-- The chain of tests on the message; `stale_root` is the one that retries.
unfoldable pub explain : Text → Explanation
unfolding includes
explain msg =
    if says msg "Failed to fetch" || says msg "NetworkError"
    then no_relayer
    else if says msg "fee_quote" || says msg "Fee quote"
    then no_quote
    else if says msg "Commitment not found"
    then not_in_tree
    else if says msg "InvalidAddress"
    then bad_address
    else if says msg "NullifierSpent"
    then already_spent
    else if says msg "InvalidProof"
    then bad_proof
    else if says msg "StaleRoot" || says msg "RootNotFound"
    then stale_root
    else if says msg "InvalidWithdrawalCommitment"
    then commitment_mismatch
    else if says msg "RelayerFeeExceedsMax"
    then fee_above_max
    else if says msg "FeeInvariantViolated"
    then invariant_violated
    else if says msg "RelayerInsufficientFunds"
    then relayer_unfunded
    else if says msg "BlockhashExpired"
    then expired_blockhash
    else if says msg "AccountNotFound"
    then no_account
    else if says msg "SimulationFailed"
    then failed_simulation
    else if says msg "RelayerBusy" || says msg "TooManyRequests"
    then relayer_busy
    else raw msg

-- What one attempt meets. `quote` and `tree` are fetched together: where both fail the page may see
-- either error, here the quote's. `prove` gives the public signals, `submit` the relayer's signature and
-- fee, and `confirm` the check on the chain.
pub record Attempt : Type 0 where
  pub cluster : Verdict
  pub blocked_text : Text
  pub quote : Outcome Text FeeQuote
  pub tree : Outcome Text Tree
  pub now : ℕ
  pub prove : CircomInputs → Outcome Text (List ℕ)
  pub submit : CircomInputs → Outcome Text (Base58 × Text)
  pub confirm : Base58 → List ℕ → Outcome Text (Unit {0})

abbrev pub gate : Attempt → Outcome Text (Unit {0})
gate a = if is_allowed a.cluster then ok tt else err a.blocked_text

abbrev pub no_ceiling : Text
no_ceiling =
    codes
      "Internal error: no fee ceiling was recorded from the confirmation screen. Go back and request a fresh quote."

abbrev pub pool_unread : Text
pool_unread =
    codes "The pool has not been read yet, so the amount it pays is unknown. Try again in a moment."

abbrev pub commitment_missing : Text
commitment_missing = codes "Commitment not found in Merkle tree"

-- What a finished withdrawal was made with.
pub record Finished : Type 0 where
  pub tx_sig : Base58
  pub fee_taken : Text
  pub inputs : CircomInputs
  pub breakdown : FeeBreakdown

-- `shown_ceiling` is the figure of the confirmation screen, `pool_denomination` what the pool pays.
module _ (hash : List ℕ → ℕ) (note : SecretNote) (recipient : Key)
    (shown_ceiling pool_denomination : Option ℕ) where
  -- The `try` of one attempt; the quote's ceiling, checked to be no negative number, goes into the proof.
  unfoldable pub attempt_withdraw : Attempt → Outcome Text Finished
  unfolding validate_fee_quote withdraw_inputs
  attempt_withdraw a = do
    on_cluster ← gate a
    quote ← a.quote
    tree ← a.tree
    ceiling ← from_option no_ceiling shown_ceiling
    denomination ← from_option pool_unread pool_denomination
    breakdown ← checked_quote (validate_fee_quote a.now denomination quote (some ceiling))
    inputs ← from_option commitment_missing (
        withdraw_inputs hash note
          (record {
            relayer_address = quote.relayer_address;
            relayer_fee_max = breakdown.relayer_fee_max;
          })
          recipient tree)
    signals ← a.prove inputs
    submitted ← a.submit inputs
    confirmed ← a.confirm submitted.0 signals
    ok (record {
      tx_sig = submitted.0;
      fee_taken = submitted.1;
      inputs = inputs;
      breakdown = breakdown;
    })

  -- The page at the end: done, or with an error. Both say how many attempts were made.
  pub data Ended : Type 0 where
    done : ℕ → Finished → Ended
    stopped : ℕ → Explanation → Ended

  abbrev pub retry_or : Explanation → ℕ → Ended → Ended
  retry_or stale_root n again = again
  retry_or e n again = stopped n e

  abbrev pub conclude : Outcome Text Finished → ℕ → Ended → Ended
  conclude (ok f) n again = done n f
  conclude (err msg) n again = retry_or (explain msg) n again

  -- From the i-th attempt on, with the retries left; `attempts i` is what that attempt meets.
  unfoldable pub execute_from : ℕ → (ℕ → Attempt) → ℕ → Ended
  unfolding attempt_withdraw explain
  execute_from zero attempts i =
      conclude (attempt_withdraw (attempts i)) (i + 1) (stopped (i + 1) stale_root)
  execute_from (suc n) attempts i =
      let again = execute_from n attempts (i + 1) in
      conclude (attempt_withdraw (attempts i)) (i + 1) again

  unfoldable pub execute_withdraw : (ℕ → Attempt) → Ended
  unfolding execute_from
  execute_withdraw attempts = execute_from max_stale_root_retries attempts 0
