-- ===== src/Relayer/Preflight.antt =====
-- relayer/src/preflight.js: the checks of a submission against on-chain state.
-- `hash` is circomlib's Poseidon on field elements, a parameter. A proof's public signals are JSON
-- values, which `BigInt` converts or throws on; `bigint_error` is the error that it throws.
pub mod Keys
pub mod Roots
pub mod Verdicts
use solnado_cash.Base.{
  ℕ, zero, suc, ◌+◌, ◌-◌, ◌*◌, ◌/◌, Bool, true, false, not, ◌&&◌, ◌||◌, Option, none, some, List,
  [], ◌∷◌, leb, ◌==◌, if◌then◌else◌, length, replicate, take, elem, ℤ, pos, negsuc,
}
use solnado_cash.Base.Radix.{digits}
use solnado_cash.Base.Buffer.{subarray, big, pairs, hex64}
use solnado_cash.Base.Json.{Json, to_bigint}
use solnado_cash.Base.Chain.{Key, Account, Thrown, Reply, reply, throw}
use solnado_cash.Relayer.Response.{
  ErrorCode, stale_root, invalid_withdrawal_commitment, nullifier_spent,
}

abbrev pub root_history_size : ℕ
root_history_size = 256

abbrev pub pool_root_history_offset : ℕ
pool_root_history_offset = 8 + 136

-- The two halves of a public key are hashed.
unfoldable pub pubkey_to_field : (List ℕ → ℕ) → Key → ℕ
pubkey_to_field hash key = hash (big (take 16 key) ∷ big (subarray key 16 16) ∷ [])

-- The entry i of the root ring.
unfoldable pub root_at : List ℕ → ℕ → ℕ
root_at pool_bytes i = big (subarray pool_bytes (pool_root_history_offset + i * 32) 32)

-- The loop from i over the entries left.
unfoldable pub roots_from : ℕ → List ℕ → ℕ → List ℕ
unfolding root_at
roots_from zero pool_bytes i = []
roots_from (suc n) pool_bytes i = root_at pool_bytes i ∷ roots_from n pool_bytes (i + 1)

unfoldable pub read_root_history : List ℕ → List ℕ
unfolding roots_from
read_root_history pool_bytes = roots_from root_history_size pool_bytes 0

-- `Buffer.from(text, "hex")` stops at the first pair that is not hexadecimal, here the minus sign.
unfoldable pub field_to_bytes32 : ℤ → List ℕ
field_to_bytes32 (pos n) = pairs (hex64 n)
field_to_bytes32 (negsuc n) = replicate ((63 - length (digits 16 (n + 1))) / 2) 0

-- "nullifier"
abbrev pub nullifier_seed : List ℕ
nullifier_seed = b'n' ∷ b'u' ∷ b'l' ∷ b'l' ∷ b'i' ∷ b'f' ∷ b'i' ∷ b'e' ∷ b'r' ∷ []

-- What the check of a spent note needs. `find_pda` is `PublicKey.findProgramAddressSync`, which
-- throws on a seed that is too long.
pub record Lookup : Type 0 where
  pub find_pda : List (List ℕ) → Key → Option Key
  pub get_account_info : Key → Reply (Option Account)
  pub program : Key
  pub pool : Key

pub data Verdict : Type 0 where
  pass : Verdict
  refuse : ErrorCode → Verdict

unfoldable pub root_known : List ℕ → ℤ → Bool
unfolding read_root_history
root_known pool_bytes (negsuc n) = false
root_known pool_bytes (pos root) = not (root == 0) && elem root (read_root_history pool_bytes)

abbrev pub is_number : ℤ → ℕ → Bool
is_number (pos n) m = n == m
is_number (negsuc n) m = false

-- A failed lookup lets the submission pass: the program itself refuses a spent note.
abbrev pub spent_account : Reply (Option Account) → Verdict
spent_account (throw e) = pass
spent_account (reply none) = pass
spent_account (reply (some info)) =
    if leb 1 (length info.bytes) then refuse nullifier_spent else pass

abbrev pub spent_pda : Lookup → Option Key → Verdict
spent_pda l none = pass
spent_pda l (some pda) = spent_account (l.get_account_info pda)

abbrev pub spent_bigint : Lookup → Option ℤ → Verdict
spent_bigint l none = pass
spent_bigint l (some z) =
    spent_pda l (l.find_pda (nullifier_seed ∷ l.pool ∷ field_to_bytes32 z ∷ []) l.program)

unfoldable pub check_spent : Option Lookup → Json → Verdict
unfolding field_to_bytes32
check_spent none nullifier = pass
check_spent (some l) nullifier = spent_bigint l (to_bigint nullifier)

unfoldable pub expected_commitment : (List ℕ → ℕ) → Key → ℕ → Key → ℕ
unfolding pubkey_to_field
expected_commitment hash relayer fee_max recipient =
    hash (pubkey_to_field hash relayer ∷ fee_max ∷ pubkey_to_field hash recipient ∷ [])

-- Where `BigInt(text)` throws, so does the check.
abbrev pub converted : Thrown → Option ℤ → (ℤ → Reply Verdict) → Reply Verdict
converted error none k = throw error
converted error (some z) k = k z

pub record Submission : Type 0 where
  pub pool_bytes : List ℕ
  pub nullifier : Json
  pub root : Json
  pub commitment : Json
  pub relayer : Key
  pub recipient : Key
  pub fee_max : ℕ
  pub lookup : Option Lookup

unfoldable pub preflight : (List ℕ → ℕ) → (Json → Thrown) → Submission → Reply Verdict
unfolding root_known expected_commitment check_spent
preflight hash bigint_error s = converted (bigint_error s.root) (to_bigint s.root) λ root.
    if not (root_known s.pool_bytes root)
    then reply (refuse stale_root)
    else converted (bigint_error s.commitment) (to_bigint s.commitment) λ wc.
      if not (is_number wc (expected_commitment hash s.relayer s.fee_max s.recipient))
      then reply (refuse invalid_withdrawal_commitment)
      else reply (check_spent s.lookup s.nullifier)
