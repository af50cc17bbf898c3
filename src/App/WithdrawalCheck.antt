-- ===== src/App/WithdrawalCheck.antt =====
-- app/src/utils/withdrawalCheck.ts: a withdrawal is confirmed against the chain, not on the relayer's word.
-- `decode58` is `bs58.decode`, `find_pda` the address derivation, `answer i` what the RPC says about the
-- signature when it is asked for the i-th time, and `clock i` Date.now() after that. The loop is on fuel.
pub mod Proven
pub mod Nullifier
use solnado_cash.Base.{
  ℕ, zero, suc, ◌+◌, ◌/◌, ◌%◌, Bool, true, false, not, ◌&&◌, ◌||◌, Option, none, some, List, [],
  ◌∷◌, ◌++◌, leb, ltb, ◌==◌, if◌then◌else◌, length, codes_eq,
}
use solnado_cash.Base.Text.{codes}
use solnado_cash.Base.Chain.{Key, Account, key_eq}
use solnado_cash.Base.Outcome.{Outcome, ok, err, ◌>>=◌, from_option}
use solnado_cash.App.Deposits.{Base58}
use solnado_cash.App.Chronology.{has_text}

-- The loop over the bytes from the last to the first: n of them, before those already set.
unfoldable pub bytes_onto : ℕ → ℕ → List ℕ → List ℕ
bytes_onto zero v done = done
bytes_onto (suc n) v done = bytes_onto n (v / 256) ((v % 256) ∷ done)

unfoldable pub nullifier_account : (List (List ℕ) → Key → Option Key) → Key → Key → ℕ → Option Key
unfolding bytes_onto
nullifier_account find_pda program pool nullifier_hash =
    find_pda (codes "nullifier" ∷ pool ∷ bytes_onto 32 nullifier_hash [] ∷ []) program

-- What getTransaction says: an error or no transaction, one without metadata or with an error in it, or
-- one that succeeded, with its keys and those it loaded.
pub data Seen : Type 0 where
  nothing failed_there : Seen
  succeeded : List Base58 → List Base58 → List Base58 → Seen

pub data NotConfirmed : Type 0 where
  not_a_signature no_address failed_on_chain not_this_note not_seen not_spent still_waiting :
      NotConfirmed

abbrev pub is_signature : Option (List ℕ) → Bool
is_signature none = false
is_signature (some bytes) = length bytes == 64

abbrev pub require : Bool → NotConfirmed → Outcome NotConfirmed (Unit {0})
require true e = ok tt
require false e = err e

abbrev pub mentions :
    Base58 → List Base58 → List Base58 → List Base58 → Outcome NotConfirmed (Unit {0})
mentions key keys writable readonly =
    require (has_text key (keys ++ (writable ++ readonly))) not_this_note

-- The body of the loop; `otherwise` is what follows when there is no transaction yet.
abbrev pub judge_seen :
    Base58 → Seen → Outcome NotConfirmed (Unit {0}) → Outcome NotConfirmed (Unit {0})
judge_seen key nothing otherwise = otherwise
judge_seen key failed_there otherwise = err failed_on_chain
judge_seen key (succeeded keys writable readonly) otherwise = mentions key keys writable readonly

-- The loop from the i-th question on.
unfoldable pub wait_for :
    ℕ → Base58 → (ℕ → Seen) → (ℕ → ℕ) → ℕ → ℕ → Outcome NotConfirmed (Unit {0})
unfolding has_text
wait_for zero key answer clock deadline i = err still_waiting
wait_for (suc fuel) key answer clock deadline i =
    let rest = wait_for fuel key answer clock deadline (i + 1) in
    judge_seen key (answer i) (if leb deadline (clock i) then err not_seen else rest)

abbrev pub is_spent : Key → Option Account → Bool
is_spent program none = false
is_spent program (some a) = key_eq a.owner program && not (length a.bytes == 0)

-- `started` is Date.now() before the loop, and `account` the nullifier account's after it.
unfoldable pub confirm_withdrawal_on_chain :
    (Base58 → Option (List ℕ))
    → (List (List ℕ) → Key → Option Key)
    → (Key → Base58)
    → ℕ
    → Key
    → Base58
    → Key
    → ℕ
    → ℕ
    → ℕ
    → (ℕ → Seen)
    → (ℕ → ℕ)
    → (Key → Option Account)
    → Outcome NotConfirmed (Unit {0})
unfolding nullifier_account wait_for
confirm_withdrawal_on_chain decode58 find_pda to_base58 fuel program signature pool nullifier_hash
      started timeout answer clock account =
    do
      shaped ← require (is_signature (decode58 signature)) not_a_signature
      nullifier ← from_option no_address (nullifier_account find_pda program pool nullifier_hash)
      seen ← wait_for fuel (to_base58 nullifier) answer clock (started + timeout) 0
      require (is_spent program (account nullifier)) not_spent
