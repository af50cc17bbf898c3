-- ===== src/Relayer/Node.antt =====
-- What the handlers of relayer/src/api.js ask of the cluster and of the libraries.
use solnado_cash.Base.{ℕ, Bool, Option, List}
use solnado_cash.Base.Json.{Json}
use solnado_cash.Base.Chain.{Key, Account, Reply}
use solnado_cash.Relayer.Fees.{FeesReply, RentCache, get_nullifier_rent}
use solnado_cash.Relayer.Tx.{Throws, Cluster, ProofField}

-- What the handler asks of the cluster and of the libraries. `to_key` is `new PublicKey(value)`,
-- `hash` circomlib's Poseidon, `verify` snarkjs' verifier under the loaded key.
pub record Node : Type 0 where
  pub program : Key
  pub relayer : Key
  pub to_key : Json → Option Key
  pub hash : List ℕ → ℕ
  pub throws : Throws
  pub pool_account : Key → Reply (Option Account)
  pub nullifier_account : Key → Reply (Option Account)
  pub find_pda : List (List ℕ) → Key → Option Key
  pub connection : ℕ
  pub rent_checked : ℕ
  pub rent_stored : ℕ
  pub rent_rpc : ℕ → Option ℕ
  pub fees_rpc : Option (List Key) → FeesReply
  pub get_balance : Reply ℕ
  pub verify : ProofField → Json → Reply Bool
  pub cluster : Cluster

abbrev pub rent_read : Node → RentCache → ℕ × RentCache
rent_read node cache =
    get_nullifier_rent cache node.connection node.rent_checked node.rent_stored node.rent_rpc
