-- ===== src/Relayer/Tx.antt =====
-- relayer/src/tx.js: the withdraw transaction that the relayer signs and sends, and how its outcome
-- is read. Derived addresses, the blockhash, sending and confirming are parameters. Signing, the
-- account list of the instruction and its Borsh encoding are the client library's.
pub mod Built
use solnado_cash.Base.{
  ℕ, zero, suc, ◌+◌, ◌-◌, ◌*◌, ◌%◌, Option, none, some, List, [], ◌∷◌, ◌++◌, map, ltb,
  if◌then◌else◌, length, replicate, ℤ, pos, negsuc, sub_ℕ,
}
use solnado_cash.Base.Radix.{digits}
use solnado_cash.Base.Buffer.{hex64}
use solnado_cash.Base.Json.{Json, to_bigint, digit_char}
use solnado_cash.Base.Text.{codes}
use solnado_cash.Base.Chain.{Key, Thrown, Reply, reply, throw, ◌>>=◌}

abbrev pub bn254_fq : ℕ
bn254_fq = 21888242871839275222246405745257275088696311157297823662689037894645226208583

-- `buf[i] = parseInt(pair, 16)` of two characters, the minus sign being `none`. A store in a byte
-- takes a negative number modulo 256.
abbrev pub parsed_pair : Option ℕ → Option ℕ → ℕ
parsed_pair (some a) (some b) = 16 * a + b
parsed_pair (some a) none = a
parsed_pair none (some b) = (256 - b) % 256
parsed_pair none none = 0

unfoldable pub parsed_pairs : ℕ → List (Option ℕ) → List ℕ
parsed_pairs zero cs = []
parsed_pairs (suc n) (a ∷ b ∷ cs) = parsed_pair a b ∷ parsed_pairs n cs
parsed_pairs (suc n) (a ∷ []) = 0 ∷ parsed_pairs n []
parsed_pairs (suc n) [] = 0 ∷ parsed_pairs n []

-- n.toString(16).padStart(64, "0")
unfoldable pub signed_hex64 : ℤ → List (Option ℕ)
signed_hex64 (pos n) = map some (hex64 n)
signed_hex64 (negsuc n) =
    let ds = digits 16 (n + 1) in replicate (63 - length ds) (some 0) ++ (none ∷ map some ds)

unfoldable pub bigint_to_bytes32 : ℤ → List ℕ
unfolding parsed_pairs signed_hex64
bigint_to_bytes32 n = parsed_pairs 32 (signed_hex64 n)

-- The coordinates of a proof as the client sent them: each an index into `pi_a`, `pi_b` or `pi_c`.
pub record Points : Type 0 where
  pub a0 : Json
  pub a1 : Json
  pub b00 : Json
  pub b01 : Json
  pub b10 : Json
  pub b11 : Json
  pub c0 : Json
  pub c1 : Json

-- A `proof` field: a value without the three points, on which reading a coordinate throws, or one
-- that has them.
pub data ProofField : Type 0 where
  plain : Json → ProofField
  groth16 : Points → ProofField

pub record ProofBytes : Type 0 where
  pub proof_a : List ℕ
  pub proof_b : List ℕ
  pub proof_c : List ℕ

-- What conversions throw: `BigInt` on a value, and reading a coordinate that is not there.
pub record Throws : Type 0 where
  pub bigint : Json → Thrown
  pub property : Thrown

abbrev pub bigint_or : Thrown → Option ℤ → Reply ℤ
bigint_or e none = throw e
bigint_or e (some z) = reply z

unfoldable pub bigint_of : Throws → Json → Reply ℤ
bigint_of throws v = bigint_or (throws.bigint v) (to_bigint v)

-- Fq - y
abbrev pub negated_y : ℤ → ℤ
negated_y (pos y) = sub_ℕ bn254_fq y
negated_y (negsuc y) = pos (bn254_fq + y + 1)

unfoldable pub snarkjs_proof_to_bytes : Throws → ProofField → Reply ProofBytes
unfolding bigint_to_bytes32 bigint_of
snarkjs_proof_to_bytes throws (plain v) = throw throws.property
snarkjs_proof_to_bytes throws (groth16 p) = do
  a0 ← bigint_of throws p.a0
  a1 ← bigint_of throws p.a1
  b01 ← bigint_of throws p.b01
  b00 ← bigint_of throws p.b00
  b11 ← bigint_of throws p.b11
  b10 ← bigint_of throws p.b10
  c0 ← bigint_of throws p.c0
  c1 ← bigint_of throws p.c1
  reply (record {
    proof_a = bigint_to_bytes32 a0 ++ bigint_to_bytes32 (negated_y a1);
    proof_b =
        bigint_to_bytes32 b01
        ++ (bigint_to_bytes32 b00 ++ (bigint_to_bytes32 b11 ++ bigint_to_bytes32 b10));
    proof_c = bigint_to_bytes32 c0 ++ bigint_to_bytes32 c1;
  })

-- "nullifier" and "vault"
abbrev pub nullifier_seed : List ℕ
nullifier_seed = codes "nullifier"

abbrev pub vault_seed : List ℕ
vault_seed = codes "vault"

-- What a withdraw transaction says: the accounts, the arguments and the price of a compute unit.
pub record Transaction : Type 0 where
  pub pool : Key
  pub vault : Key
  pub nullifier_pda : Key
  pub recipient : Key
  pub treasury : Key
  pub relayer : Key
  pub proof : ProofBytes
  pub nullifier_hash : List ℕ
  pub root : List ℕ
  pub withdrawal_commitment : List ℕ
  pub relayer_fee_max : ℕ
  pub relayer_fee_taken : ℕ
  pub unit_price : Option ℕ

-- The number of a custom program error, or another error, with its JSON text.
pub record ChainError : Type 0 where
  pub json : List ℕ
  pub custom : Option ℕ

-- What sending gives: it throws before the cluster has the transaction, confirming it throws, or it
-- is confirmed, reverted or not.
pub data Delivery : Type 0 where
  send_threw confirm_threw : Thrown → Delivery
  confirmed : List ℕ → Option ChainError → Delivery

-- Reading the interface file, building the instruction and asking for a blockhash may throw.
pub record Cluster : Type 0 where
  pub load_idl : Reply {0} Unit
  pub find_pda : List (List ℕ) → Key → Reply Key
  pub instruction : Reply {0} Unit
  pub latest_blockhash : Reply {0} Unit
  pub deliver : Transaction → Delivery

-- " (custom error 0x…)"
abbrev pub custom_suffix : Option ℕ → List ℕ
custom_suffix none = []
custom_suffix (some n) = codes " (custom error 0x" ++ (map digit_char (digits 16 n) ++ codes ")")

abbrev pub reverted : ChainError → Thrown
reverted e = record {
  message = codes "Withdrawal reverted on-chain: " ++ (e.json ++ custom_suffix e.custom);
  logs = [];
}

unfoldable pub signature_of : Delivery → Reply (List ℕ)
signature_of (send_threw e) = throw e
signature_of (confirm_threw e) = throw e
signature_of (confirmed signature none) = reply signature
signature_of (confirmed signature (some e)) = throw (reverted e)

-- The parameters of `submitWithdraw`.
pub record Withdrawal : Type 0 where
  pub program : Key
  pub relayer : Key
  pub pool : Key
  pub recipient : Key
  pub treasury : Key
  pub proof : ProofField
  pub nullifier : Json
  pub root : Json
  pub commitment : Json
  pub fee_max : ℕ
  pub fee_taken : ℕ
  pub price : ℕ

-- Up to the signature: no transaction leaves the relayer before all of it is done.
unfoldable pub build_withdraw : Throws → Cluster → Withdrawal → Reply Transaction
unfolding bigint_of snarkjs_proof_to_bytes bigint_to_bytes32
build_withdraw throws cluster w = do
  idl ← cluster.load_idl
  n ← bigint_of throws w.nullifier
  nullifier_pda ← cluster.find_pda (nullifier_seed ∷ w.pool ∷ bigint_to_bytes32 n ∷ []) w.program
  vault ← cluster.find_pda (vault_seed ∷ w.pool ∷ []) w.program
  proof ← snarkjs_proof_to_bytes throws w.proof
  root ← bigint_of throws w.root
  commitment ← bigint_of throws w.commitment
  instruction ← cluster.instruction
  blockhash ← cluster.latest_blockhash
  reply (record {
    pool = w.pool;
    vault = vault;
    nullifier_pda = nullifier_pda;
    recipient = w.recipient;
    treasury = w.treasury;
    relayer = w.relayer;
    proof = proof;
    nullifier_hash = bigint_to_bytes32 n;
    root = bigint_to_bytes32 root;
    withdrawal_commitment = bigint_to_bytes32 commitment;
    relayer_fee_max = w.fee_max;
    relayer_fee_taken = w.fee_taken;
    unit_price = if ltb 0 w.price then some w.price else none;
  })

-- The signature or the error, with the transaction that was handed to the cluster.
pub record Sent : Type 0 where
  pub outcome : Reply (List ℕ)
  pub handed : Option Transaction

unfoldable pub send_withdraw : Cluster → Reply Transaction → Sent
unfolding signature_of
send_withdraw cluster (throw e) = record { outcome = throw e; handed = none }
send_withdraw cluster (reply t) = record {
  outcome = signature_of (cluster.deliver t);
  handed = some t;
}

unfoldable pub submit_withdraw : Throws → Cluster → Withdrawal → Sent
unfolding build_withdraw send_withdraw
submit_withdraw throws cluster w = send_withdraw cluster (build_withdraw throws cluster w)
