-- ===== src/App/Withdraw/Attempts.antt =====
-- The attempts of a withdrawal, from the first to the one that gives the page.
use solnado_cash.Base.{ℕ, zero, suc, ◌+◌, ◌≤◌, ◌<◌, ◌≡◌, refl, inl, inr, Option, List, arith}
use mathlib.Core.Path.{subst}
use native.Mathlib.Decide.{ℕ_discrete}
use solnado_cash.Base.Chain.{Key}
use solnado_cash.Base.Outcome.{ok, err, Outcome-cases}
use solnado_cash.Sdk.Withdraw.{SecretNote}
use solnado_cash.App.Withdraw.{
  Text, Attempt, Explanation, stale_root, explain, Finished, attempt_withdraw, Ended, done, stopped,
  retry_or, conclude, execute_from, execute_withdraw,
}

module _ (hash : List ℕ → ℕ) (note : SecretNote) (recipient : Key)
    (shown_ceiling pool_denomination : Option ℕ) where
  -- The attempt failed because the tree's root was stale.
  pub record IsRetried (a : Attempt) : Type 0 where
    pub message : Text
    pub fails : attempt_withdraw hash note recipient shown_ceiling pool_denomination a ≡ err message
    pub stale : explain message ≡ stale_root

  -- The page that an attempt leads to when it is the last.
  pub data IsEnd (a : Attempt) (n : ℕ)
      : Ended hash note recipient shown_ceiling pool_denomination → Type 0 where
    finished :
        (f : Finished)
        → attempt_withdraw hash note recipient shown_ceiling pool_denomination a ≡ ok f
        → IsEnd a n (done n f)
    failed :
        (message : Text)
        → attempt_withdraw hash note recipient shown_ceiling pool_denomination a ≡ err message
        → IsEnd a n (stopped n (explain message))

  -- The attempts made from the i-th on: the last gives the page, and those before it had a stale root.
  pub record IsRun (attempts : ℕ → Attempt) (i most : ℕ)
      (page : Ended hash note recipient shown_ceiling pool_denomination) : Type 0 where
    pub last : ℕ
    pub from : i ≤ last
    pub within : last ≤ most
    pub retried : (j : ℕ) → i ≤ j → j < last → IsRetried (attempts j)
    pub ends : IsEnd (attempts last) (last + 1) page

  at_once :
      (attempts : ℕ → Attempt) (i most : ℕ)
      (page : Ended hash note recipient shown_ceiling pool_denomination)
      → i ≤ most
      → IsEnd (attempts i) (i + 1) page
      → IsRun attempts i most page
  at_once attempts i most page l e = record {
    last = i;
    from = omega arith;
    within = l;
    retried = λ j low high. absurd (omega arith);
    ends = e;
  }

  later :
      (attempts : ℕ → Attempt) (i most : ℕ)
      (page : Ended hash note recipient shown_ceiling pool_denomination)
      → IsRetried (attempts i)
      → IsRun attempts (i + 1) most page
      → IsRun attempts i most page
  later attempts i most page r run = record {
    last = run.last;
    from = (let low : i + 1 ≤ run.last = run.from in omega arith);
    within = run.within;
    retried = λ j low high. elim (ℕ_discrete i j) [
      | yes same ↦ subst (λ k. IsRetried (attempts k)) same r
      | no differs ↦ run.retried j (omega arith) high
    ];
    ends = run.ends;
  }

  ended :
      (attempts : ℕ → Attempt) (i : ℕ) (message : Text) (e : Explanation)
      → attempt_withdraw hash note recipient shown_ceiling pool_denomination (attempts i)
        ≡ err message
      → explain message ≡ e
      → IsEnd (attempts i) (i + 1) (stopped (i + 1) e)
  ended attempts i message e h q =
      subst (λ x. IsEnd (attempts i) (i + 1) (stopped (i + 1) x)) q (failed message h)

  retry_or-IsRun :
      (attempts : ℕ → Attempt) (i most : ℕ) (message : Text) (e : Explanation)
      (again : Ended hash note recipient shown_ceiling pool_denomination)
      → attempt_withdraw hash note recipient shown_ceiling pool_denomination (attempts i)
        ≡ err message
      → explain message ≡ e
      → i ≤ most
      → (e ≡ stale_root → IsRun attempts i most again)
      → IsRun attempts i most
          (retry_or hash note recipient shown_ceiling pool_denomination e (i + 1) again)
  retry_or-IsRun attempts i most message stale_root again h q l k = k refl
  retry_or-IsRun attempts i most message _ again h q l k =
      at_once attempts i most _ l (ended attempts i message _ h q)

  conclude-IsRun :
      (attempts : ℕ → Attempt) (i most : ℕ)
      (again : Ended hash note recipient shown_ceiling pool_denomination)
      → i ≤ most
      → (IsRetried (attempts i) → IsRun attempts i most again)
      → IsRun attempts i most (
          conclude hash note recipient shown_ceiling pool_denomination
            (attempt_withdraw hash note recipient shown_ceiling pool_denomination (attempts i))
            (i + 1)
            again)
  unfolding explain
  conclude-IsRun attempts i most again l k =
      elim (Outcome-cases
        (attempt_withdraw hash note recipient shown_ceiling pool_denomination (attempts i))) [
          | inl (f, e) ↦ rw e (at_once attempts i most _ l (finished f e))
          | inr (message, e) ↦ rw e (
              retry_or-IsRun attempts i most message (explain message) again e refl l
                (λ stale. k (record { message = message; fails = e; stale = stale })))
        ]

  execute_from-IsRun :
      (n i : ℕ) (attempts : ℕ → Attempt)
      → IsRun attempts i
          (i + n)
          (execute_from hash note recipient shown_ceiling pool_denomination n attempts i)
  unfolding execute_from
  execute_from-IsRun zero i attempts = conclude-IsRun attempts i (i + 0) _ (omega arith) (λ r.
      at_once attempts i (i + 0) _ (omega arith)
        (ended attempts i r.message stale_root r.fails r.stale))
  execute_from-IsRun (suc n) i attempts =
      conclude-IsRun attempts i (i + suc n) _ (omega arith) (λ r. later attempts i (i + suc n) _ r (
        subst
          (λ m.
            IsRun attempts (i + 1) m
              (execute_from hash note recipient shown_ceiling pool_denomination n attempts (i + 1)))
          (omega arith) (execute_from-IsRun n (i + 1) attempts)))

  -- A withdrawal ends after at most three attempts: every attempt but the last failed because the tree's
  -- root was stale, and the page is the last one's, done or with its error.
  pub execute_withdraw-IsRun :
      (attempts : ℕ → Attempt)
      → IsRun attempts 0 2
          (execute_withdraw hash note recipient shown_ceiling pool_denomination attempts)
  unfolding execute_withdraw
  execute_withdraw-IsRun attempts = execute_from-IsRun 2 0 attempts
