-- ===== src/Sdk/Withdraw.antt =====
-- sdk/src/proof.js: the inputs of a withdraw proof. `hash` is `poseidonHash`. The prover itself,
-- snarkjs, is not modelled; the inputs are kept as the numbers whose decimal texts it is given.
pub mod Circuit
pub mod Relaying
use solnado_cash.Base.{ℕ, ◌+◌, Option, none, some, List, [], ◌∷◌, take}
use solnado_cash.Base.Buffer.{subarray, big}
use solnado_cash.Base.Chain.{Key}
use solnado_cash.Sdk.MerkleTree.{Tree, MerkleProof, find_leaf, get_proof}

unfoldable pub pubkey_to_field : (List ℕ → ℕ) → Key → ℕ
pubkey_to_field hash key = hash (big (take 16 key) ∷ big (subarray key 16 16) ∷ [])

pub record SecretNote : Type 0 where
  pub nullifier : ℕ
  pub secret : ℕ
  pub denomination : ℕ

-- The part of a relayer's quote that a proof binds.
pub record FeeTerms : Type 0 where
  pub relayer_address : Key
  pub relayer_fee_max : ℕ

pub record CircomInputs : Type 0 where
  pub nullifier_hash : ℕ
  pub root : ℕ
  pub withdrawal_commitment : ℕ
  pub nullifier : ℕ
  pub secret : ℕ
  pub denomination : ℕ
  pub path_elements : List ℕ
  pub path_indices : List ℕ
  pub recipient : ℕ
  pub relayer_address : ℕ
  pub relayer_fee_max : ℕ

module _ (hash : List ℕ → ℕ) where
  unfoldable pub note_commitment : SecretNote → ℕ
  note_commitment note = hash (note.nullifier ∷ note.secret ∷ note.denomination ∷ [])

  unfoldable pub inputs_of : SecretNote → FeeTerms → Key → MerkleProof → CircomInputs
  unfolding pubkey_to_field
  inputs_of note quote recipient p = record {
    nullifier_hash = hash (note.nullifier ∷ []);
    root = p.proof_root;
    withdrawal_commitment = hash (
        pubkey_to_field hash quote.relayer_address
        ∷ quote.relayer_fee_max
        ∷ pubkey_to_field hash recipient
        ∷ []);
    nullifier = note.nullifier;
    secret = note.secret;
    denomination = note.denomination;
    path_elements = p.path_elements;
    path_indices = p.path_indices;
    recipient = pubkey_to_field hash recipient;
    relayer_address = pubkey_to_field hash quote.relayer_address;
    relayer_fee_max = quote.relayer_fee_max;
  }

  abbrev with_proof : SecretNote → FeeTerms → Key → Option MerkleProof → Option CircomInputs
  with_proof note quote recipient none = none
  with_proof note quote recipient (some p) = some (inputs_of note quote recipient p)

  abbrev at_leaf : SecretNote → FeeTerms → Key → Tree → Option ℕ → Option CircomInputs
  at_leaf note quote recipient tree none = none
  at_leaf note quote recipient tree (some i) = with_proof note quote recipient (get_proof tree i)

  -- `none` is the error that the commitment is not in the tree.
  unfoldable pub withdraw_inputs : SecretNote → FeeTerms → Key → Tree → Option CircomInputs
  unfolding inputs_of note_commitment
  withdraw_inputs note quote recipient tree =
      at_leaf note quote recipient tree (find_leaf tree (note_commitment note))
