-- ===== src/App/WithdrawalCheck/Proven.antt =====
-- What a confirmed withdrawal proves, and the end of the wait for it.
use solnado_cash.Base.{
  ℕ, zero, suc, ◌+◌, ◌*◌, ◌≤◌, ◌<◌, ◌≡◌, refl, ap, ◌≢◌, inl, inr, Bool, true, false, not, Option,
  none, some, List, ◌++◌, arith, leb, ◌==◌, Bool-cases, length, codes_eq_iff, &&_left, &&_right,
}
use solnado_cash.Base.Chain.{Key, Account, key_eq}
use solnado_cash.Base.Outcome.{
  Outcome, ok, err, bind_inv, bind-ne, err-injective, from_option, from_option_inv, err-ok,
}
use solnado_cash.App.Deposits.{Base58}
use solnado_cash.App.Chronology.{has_text}
use solnado_cash.App.WithdrawalCheck.{
  nullifier_account, Seen, nothing, failed_there, succeeded, NotConfirmed, not_a_signature,
  no_address, not_spent, judge_seen, still_waiting, is_signature, require, mentions, wait_for,
  is_spent, confirm_withdrawal_on_chain,
}

mentions-ends :
    (key : Base58) (keys writable readonly : List Base58)
    → mentions key keys writable readonly ≢ err still_waiting
unfolding has_text
mentions-ends key keys writable readonly h =
    elim (Bool-cases (has_text key (keys ++ (writable ++ readonly)))) [
      | inl there ↦ cc (rw there at h)
      | inr missing ↦ cc (rw missing at h)
    ]

judge_seen-ends :
    (key : Base58) (s : Seen) (otherwise : Outcome NotConfirmed (Unit {0}))
    → otherwise ≢ err still_waiting
    → judge_seen key s otherwise ≢ err still_waiting
unfolding has_text
judge_seen-ends key nothing otherwise h e = h e
judge_seen-ends key failed_there otherwise h e = cc
judge_seen-ends key (succeeded keys writable readonly) otherwise h e =
    mentions-ends key keys writable readonly e

wait_for-ends :
    (fuel k : ℕ) (key : Base58) (answer : ℕ → Seen) (clock : ℕ → ℕ) (deadline i j : ℕ)
    → j ≡ i + k
    → k < fuel
    → deadline ≤ clock j
    → wait_for fuel key answer clock deadline i ≢ err still_waiting
unfolding wait_for
wait_for-ends zero k key answer clock deadline i j e l late = absurd (omega arith)
wait_for-ends (suc fuel) zero key answer clock deadline i j e l late =
    let here : j ≡ i = omega arith in
    let over : leb deadline (clock i) ≡ true = ground (arith, ap clock here) in
    judge_seen-ends key (answer i) _ (λ h. cc (rw over at h))
wait_for-ends (suc fuel) (suc k) key answer clock deadline i j e l late =
    judge_seen-ends key (answer i) _ (λ h. elim (Bool-cases (leb deadline (clock i))) [
      | inl over ↦ cc (rw over at h)
      | inr waiting ↦
          wait_for-ends fuel k key answer clock deadline (i + 1) j (omega arith) (omega arith) late
            (rw waiting at h)
    ])

-- At some question the RPC showed a transaction that succeeded and has the account among its keys.
pub record IsShown (key : Base58) (answer : ℕ → Seen) : Type 0 where
  pub at : ℕ
  pub keys : List Base58
  pub writable : List Base58
  pub readonly : List Base58
  pub shown : answer at ≡ succeeded keys writable readonly
  pub mentioned : has_text key (keys ++ (writable ++ readonly)) ≡ true

judge_seen-IsShown :
    (key : Base58) (answer : ℕ → Seen) (i : ℕ) (s : Seen)
    (otherwise : Outcome NotConfirmed (Unit {0})) (u : Unit {0})
    → answer i ≡ s
    → (otherwise ≡ ok u → IsShown key answer)
    → judge_seen key s otherwise ≡ ok u
    → IsShown key answer
unfolding has_text
judge_seen-IsShown key answer i nothing otherwise u e k h = k h
judge_seen-IsShown key answer i failed_there otherwise u e k h = cc
judge_seen-IsShown key answer i (succeeded keys writable readonly) otherwise u e k h =
    elim (Bool-cases (has_text key (keys ++ (writable ++ readonly)))) [
      | inl there ↦ record {
        at = i;
        keys = keys;
        writable = writable;
        readonly = readonly;
        shown = e;
        mentioned = there;
      }
      | inr missing ↦ err-ok (rw missing at h)
    ]

wait_for-IsShown :
    (fuel : ℕ) (key : Base58) (answer : ℕ → Seen) (clock : ℕ → ℕ) (deadline i : ℕ) (u : Unit {0})
    → wait_for fuel key answer clock deadline i ≡ ok u
    → IsShown key answer
unfolding wait_for
wait_for-IsShown zero key answer clock deadline i u h = cc
wait_for-IsShown (suc fuel) key answer clock deadline i u h =
    judge_seen-IsShown key answer i (answer i) _ u refl
      (λ k. elim (Bool-cases (leb deadline (clock i))) [
        | inl over ↦ err-ok (rw over at k)
        | inr waiting ↦ wait_for-IsShown fuel key answer clock deadline (i + 1) u (rw waiting at k)
      ])
      h

-- The nullifier's account exists under the program, with data.
pub record IsRecorded (program : Key) (found : Option Account) : Type 0 where
  pub spent : Account
  pub exists : found ≡ some spent
  pub owned : spent.owner ≡ program
  pub has_data : length spent.bytes ≢ 0

is_spent-IsRecorded :
    (program : Key) (found : Option Account)
    → is_spent program found ≡ true
    → IsRecorded program found
is_spent-IsRecorded program none h = cc
is_spent-IsRecorded program (some a) h = record {
  spent = a;
  exists = refl;
  owned = (codes_eq_iff a.owner program).0 (&&_left _ _ h);
  has_data =
      (let filled = &&_right (key_eq a.owner program) (not (length a.bytes == 0)) h in
        ground arith);
}

module _ (decode58 : Base58 → Option (List ℕ)) (find_pda : List (List ℕ) → Key → Option Key)
    (to_base58 : Key → Base58) (program : Key) (signature : Base58) (pool : Key)
    (nullifier_hash started timeout : ℕ) (answer : ℕ → Seen) (clock : ℕ → ℕ)
    (account : Key → Option Account) where
  pub record IsConfirmed : Type 0 where
    pub nullifier : Key
    pub derived : nullifier_account find_pda program pool nullifier_hash ≡ some nullifier
    pub landed : IsShown (to_base58 nullifier) answer
    pub recorded : IsRecorded program (account nullifier)

  require_inv : (b : Bool) (e : NotConfirmed) (u : Unit {0}) → require b e ≡ ok u → b ≡ true
  require_inv true e u h = refl
  require_inv false e u h = cc

  require-ne : (b : Bool) (e : NotConfirmed) → e ≢ still_waiting → require b e ≢ err still_waiting
  require-ne true e n h = cc
  require-ne false e n h = n (err-injective h)

  from_option-ne : (o : Option Key) → from_option no_address o ≢ err still_waiting
  from_option-ne none h = cc
  from_option-ne (some k) h = cc

  -- A withdrawal is confirmed only if the RPC showed a transaction under its signature that succeeded and
  -- has this note's nullifier account among its keys, and that account exists under the program, with data.
  pub confirm_withdrawal_on_chain-IsConfirmed :
      (fuel : ℕ) (u : Unit {0})
      → confirm_withdrawal_on_chain decode58 find_pda to_base58 fuel program signature pool
          nullifier_hash started timeout answer clock account
        ≡ ok u
      → IsConfirmed
  unfolding confirm_withdrawal_on_chain
  confirm_withdrawal_on_chain-IsConfirmed fuel u h =
      let (u1, _, rest1) =
        bind_inv (require (is_signature (decode58 signature)) not_a_signature) _ u h in
      let (nullifier, derived, rest2) =
        bind_inv (from_option no_address (nullifier_account find_pda program pool nullifier_hash)) _
          u rest1 in
      let (u2, seen, rest3) =
        bind_inv (wait_for fuel (to_base58 nullifier) answer clock (started + timeout) 0) _ u
          rest2 in
      record {
        nullifier = nullifier;
        derived = from_option_inv no_address _ nullifier derived;
        landed =
            wait_for-IsShown fuel (to_base58 nullifier) answer clock (started + timeout) 0 u2 seen;
        recorded =
            is_spent-IsRecorded program (account nullifier) (require_inv _ not_spent u rest3);
      }

  -- The wait ends: when the clock advances by an interval between two questions, more rounds than the
  -- interval fits into the timeout are enough, and the loop is left by an answer or at the deadline.
  pub confirm_withdrawal_on_chain-ends :
      (interval rounds : ℕ)
      → ((i : ℕ) → started + i * interval ≤ clock i)
      → timeout ≤ rounds * interval
      → confirm_withdrawal_on_chain decode58 find_pda to_base58
          (suc rounds)
          program
          signature
          pool
          nullifier_hash
          started
          timeout
          answer
          clock
          account
        ≢ err still_waiting
  unfolding confirm_withdrawal_on_chain
  confirm_withdrawal_on_chain-ends interval rounds ticks enough =
      bind-ne (require (is_signature (decode58 signature)) not_a_signature) _ still_waiting
        (require-ne _ not_a_signature (λ e. cc))
        (λ u.
          bind-ne (from_option no_address (nullifier_account find_pda program pool nullifier_hash))
            _ still_waiting (from_option-ne _)
            (λ nullifier.
              bind-ne
                (wait_for (suc rounds) (to_base58 nullifier) answer clock (started + timeout) 0) _
                still_waiting
                (wait_for-ends (suc rounds) rounds (to_base58 nullifier) answer clock
                  (started + timeout) 0 rounds (omega arith) (omega arith)
                  (omega (arith, ticks rounds)))
                (λ v. require-ne _ not_spent (λ e. cc))))
