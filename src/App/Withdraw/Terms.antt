-- ===== src/App/Withdraw/Terms.antt =====
-- The terms on which a withdrawal is made.
use solnado_cash.Base.{ℕ, ◌≡◌, true, Option, some, List}
use solnado_cash.Base.Chain.{Key}
use solnado_cash.Base.Outcome.{Outcome, ok}
use solnado_cash.Sdk.MerkleTree.{Tree}
use solnado_cash.Sdk.Withdraw.{SecretNote, withdraw_inputs}
use solnado_cash.Sdk.Fees.{FeeQuote}
use solnado_cash.Sdk.Fees.Checked.{IsSound}
use solnado_cash.App.ClusterGate.{is_allowed}
use solnado_cash.App.Withdraw.{Attempt, Finished}

module _ (hash : List ℕ → ℕ) (note : SecretNote) (recipient : Key)
    (shown_ceiling pool_denomination : Option ℕ) where
  -- The terms of a finished withdrawal.
  pub record IsAgreed (a : Attempt) (f : Finished) : Type 0 where
    pub on_cluster : is_allowed a.cluster ≡ true
    pub quote : FeeQuote
    pub tree : Tree
    pub ceiling : ℕ
    pub denomination : ℕ
    pub signals : List ℕ
    pub was_shown : shown_ceiling ≡ some ceiling
    pub is_paid : pool_denomination ≡ some denomination
    pub sound : IsSound a.now denomination quote (some ceiling) f.breakdown
    pub bound :
        withdraw_inputs hash note
          (record {
            relayer_address = quote.relayer_address;
            relayer_fee_max = f.breakdown.relayer_fee_max;
          })
          recipient
          tree
        ≡ some f.inputs
    pub on_chain : a.confirm f.tx_sig signals ≡ ok tt
