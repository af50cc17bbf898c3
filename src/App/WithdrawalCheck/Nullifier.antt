-- ===== src/App/WithdrawalCheck/Nullifier.antt =====
-- The account of a nullifier, for the app and for the relayer's preflight.
use solnado_cash.Base.{
  ℕ, zero, suc, ◌+◌, ◌*◌, ◌/◌, ◌%◌, ◌^◌, ◌<◌, ◌≡◌, sym, ap, ◌∙◌, Option, List, [], ◌∷◌, arith,
  length, pos,
}
use native.Mathlib.Nat.{pow-succ'}
use solnado_cash.Base.Radix.{value, value_from}
use solnado_cash.Base.Buffer.{IsBytes, big, pairs, hex64}
use solnado_cash.Base.Buffer.Laws.{
  big-pairs-hex64, length-pairs-hex64, pairs-hex64-IsBytes, big-injective,
}
use solnado_cash.Base.Chain.{Key}
use solnado_cash.Relayer.Preflight.{nullifier_seed, field_to_bytes32}
use solnado_cash.App.WithdrawalCheck.{bytes_onto, nullifier_account}

value-bytes_onto :
    (n v : ℕ) (done : List ℕ)
    → v < 256 ^ n
    → value_from 256 0 (bytes_onto n v done) ≡ value_from 256 v done
unfolding bytes_onto value_from
value-bytes_onto zero v done h = let e : 0 ≡ v = omega arith in ap (λ k. value_from 256 k done) e
value-bytes_onto (suc n) v done h =
    value-bytes_onto n (v / 256) ((v % 256) ∷ done) (omega (arith, pow-succ' 256 n))
    ∙ (let e : v / 256 * 256 + v % 256 ≡ v = omega arith in ap (λ k. value_from 256 k done) e)

bytes_onto-IsBytes : (n v : ℕ) (done : List ℕ) → IsBytes done → IsBytes (bytes_onto n v done)
unfolding bytes_onto
bytes_onto-IsBytes zero v done h = h
bytes_onto-IsBytes (suc n) v done h = bytes_onto-IsBytes n (v / 256) _ (omega arith, h)

length-bytes_onto : (n v : ℕ) (done : List ℕ) → length (bytes_onto n v done) ≡ n + length done
unfolding bytes_onto
length-bytes_onto zero v done = omega arith
length-bytes_onto (suc n) v done = omega (arith, length-bytes_onto n (v / 256) ((v % 256) ∷ done))

-- The account that the app looks at is the one that the relayer derives for the same nullifier, of 32
-- bytes, in the same pool of the same program.
pub nullifier_account-preflight :
    (find_pda : List (List ℕ) → Key → Option Key) (program pool : Key) (nullifier_hash : ℕ)
    → nullifier_hash < 2 ^ 256
    → nullifier_account find_pda program pool nullifier_hash
      ≡ find_pda (nullifier_seed ∷ pool ∷ field_to_bytes32 (pos nullifier_hash) ∷ []) program
unfolding nullifier_account field_to_bytes32 big value
nullifier_account-preflight find_pda program pool n h =
    ap (λ bytes. find_pda (nullifier_seed ∷ pool ∷ bytes ∷ []) program)
      (big-injective (bytes_onto 32 n []) (pairs (hex64 n)) (bytes_onto-IsBytes 32 n [] tt)
        (pairs-hex64-IsBytes n) (length-bytes_onto 32 n [] ∙ sym (length-pairs-hex64 n h))
        (value-bytes_onto 32 n [] (omega arith) ∙ sym (big-pairs-hex64 n h)))
