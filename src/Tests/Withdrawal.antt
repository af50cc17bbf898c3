-- ===== src/Tests/Withdrawal.antt =====
-- app/src/pages/Withdraw.tsx and app/src/utils/withdrawalCheck.ts: a withdrawal whose first root is stale, and
-- the wait for it on the chain.
use solnado_cash.Base.{
  ℕ, zero, suc, ◌+◌, ◌*◌, ◌≡◌, refl, ◌≢◌, Option, none, some, List, [], ◌∷◌, arith, replicate, pos,
  codes_eq,
}
use solnado_cash.Base.Text.{codes}
use solnado_cash.Base.Chain.{Key, Account}
use solnado_cash.Base.Outcome.{Outcome, ok, err}
use solnado_cash.Sdk.MerkleTree.{new_tree, rebuild}
use solnado_cash.Sdk.Withdraw.{SecretNote}
use solnado_cash.Sdk.Fees.{FeeQuote, FeeBreakdown}
use solnado_cash.App.Deposits.{Base58}
use solnado_cash.App.ClusterGate.{acts_on}
use solnado_cash.App.WithdrawalCheck.{
  Seen, nothing, succeeded, still_waiting, NotConfirmed, confirm_withdrawal_on_chain,
}
use solnado_cash.App.WithdrawalCheck.Proven.{
  IsConfirmed, confirm_withdrawal_on_chain-IsConfirmed, confirm_withdrawal_on_chain-ends,
}
use solnado_cash.App.Withdraw.{Text, Attempt, Ended, execute_withdraw}
use solnado_cash.App.Withdraw.Attempts.{IsRun, execute_withdraw-IsRun}

-- An address that is its last seed.
abbrev find_pda : List (List ℕ) → Key → Option Key
find_pda (a ∷ b ∷ c ∷ []) program = some c
find_pda _ program = none

abbrev decode58 : Base58 → Option (List ℕ)
decode58 text = some (replicate 64 1)

-- The transaction is seen at the second question.
abbrev answer : ℕ → Seen
answer zero = nothing
answer (suc i) = succeeded ([] ∷ []) [] []

abbrev clock : ℕ → ℕ
clock i = 1_000 + i * 2_000

abbrev account : Key → Option Account
account key = some (record { owner = 9 ∷ []; bytes = 1 ∷ [] })

abbrev confirm : Outcome NotConfirmed (Unit {0})
confirm =
    confirm_withdrawal_on_chain decode58 find_pda (λ key. []) 3 (9 ∷ []) [] (5 ∷ []) 300 1_000 4_000
      answer clock account

confirms : confirm ≡ ok tt
unfolding confirm_withdrawal_on_chain codes_eq
confirms = refl

confirm_withdrawal_on_chain-IsConfirmed_example :
    IsConfirmed decode58 find_pda
      (λ key. [])
      (9 ∷ [])
      []
      (5 ∷ [])
      300
      1_000
      4_000
      answer
      clock
      account
confirm_withdrawal_on_chain-IsConfirmed_example =
    confirm_withdrawal_on_chain-IsConfirmed decode58 find_pda (λ key. []) (9 ∷ []) [] (5 ∷ []) 300
      1_000 4_000 answer clock account 3 tt confirms

confirm_withdrawal_on_chain-ends_example :
    confirm_withdrawal_on_chain decode58 find_pda
      (λ key. [])
      3
      (9 ∷ [])
      []
      (5 ∷ [])
      300
      1_000
      4_000
      (λ i. nothing)
      clock
      account
    ≢ err still_waiting
confirm_withdrawal_on_chain-ends_example =
    confirm_withdrawal_on_chain-ends decode58 find_pda (λ key. []) (9 ∷ []) [] (5 ∷ []) 300 1_000
      4_000 (λ i. nothing) clock account 2_000 2 (λ i. omega arith) (omega arith)

abbrev quote : FeeQuote
quote = record {
  relayer_address = replicate 32 1;
  relayer_fee_max = pos 1_000;
  valid_until = 50;
  estimated_user_receives = some (pos 97_802);
}

abbrev breakdown : FeeBreakdown
breakdown = record {
  denomination = 99_000;
  treasury_fee = 198;
  relayer_fee_max = 1_000;
  user_receives_min = 97_802;
}

abbrev hash : List ℕ → ℕ
hash [] = 1
hash (x ∷ xs) = x + 2 * hash xs

abbrev note : SecretNote
note = record { nullifier = 3; secret = 4; denomination = 10 }

abbrev submitted : Text → Outcome Text (Base58 × Text)
submitted [] = ok (7 ∷ [], [])
submitted (c ∷ cs) = err (c ∷ cs)

abbrev attempt : Text → Attempt
attempt failure = record {
  cluster = acts_on (codes "devnet") [];
  blocked_text = [];
  quote = ok quote;
  tree = ok (rebuild hash (new_tree hash 2) (hash (3 ∷ 4 ∷ 10 ∷ []) ∷ []));
  now = 20;
  prove = λ inputs. ok (inputs.nullifier_hash ∷ []);
  submit = λ inputs. submitted failure;
  confirm = λ signature signals. ok tt;
}

-- The first attempt's root is stale, the second's is not.
abbrev attempts : ℕ → Attempt
attempts zero = attempt (codes "StaleRoot: the root has rotated out")
attempts (suc i) = attempt []

abbrev recipient : Key
recipient = replicate 32 2

abbrev page : Ended hash note recipient (some 1_200) (some 99_000)
page = execute_withdraw hash note recipient (some 1_200) (some 99_000) attempts

execute_withdraw-IsRun_example :
    IsRun hash note recipient (some 1_200) (some 99_000) attempts 0 2 page
execute_withdraw-IsRun_example =
    execute_withdraw-IsRun hash note recipient (some 1_200) (some 99_000) attempts
