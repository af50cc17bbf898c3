-- ===== src/Sdk/Withdraw/Circuit.antt =====
-- The inputs satisfy the withdraw circuit, circuits/withdraw, for every note that was deposited.
use solnado_cash.Base.{ℕ, ◌≡◌, List, [], ◌∷◌}
use solnado_cash.Sdk.MerkleTree.{root}
use solnado_cash.Sdk.MerkleTree.Reference.{fold_path}
use solnado_cash.Sdk.Withdraw.{CircomInputs}

module _ (hash : List ℕ → ℕ) where
  -- The four constraints of the circuit.
  pub record Satisfies (w : CircomInputs) : Type 0 where
    pub nullifier_hashed : w.nullifier_hash ≡ hash (w.nullifier ∷ [])
    pub in_tree :
        fold_path hash
          (hash (w.nullifier ∷ w.secret ∷ w.denomination ∷ []))
          w.path_elements
          w.path_indices
        ≡ w.root
    pub bound :
        w.withdrawal_commitment ≡ hash (w.relayer_address ∷ w.relayer_fee_max ∷ w.recipient ∷ [])
