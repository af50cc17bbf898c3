-- ===== src/Monitor/Checks/Integrity.antt =====
-- The vault rule against its meaning: the vault holds its rent and one denomination for each deposit
-- that has not been withdrawn.
use mathlib.Core.Path.{subst}
use solnado_cash.Base.{
  ℕ, ◌+◌, ◌-◌, ◌*◌, ◌/◌, ◌%◌, ◌≤◌, ◌<◌, ◌≡◌, sym, ap, ◌∙◌, ◌≢◌, ◌↔◌, ◌⊎◌, inl, inr, Bool-cases,
  some, [], ◌∷◌, arith, ltb, ◌==◌, All,
}
use solnado_cash.Monitor.Checks.{
  critical, warning, Code, invariant_logic_error, withdrawals_exceed_deposits, integrity_remainder,
  vault_surplus, finding, PoolState, check_vault_integrity,
}

-- Some number of withdrawals, at most the deposits, explains the vault's balance.
pub record IsExplained (p : PoolState) : Type 0 where
  pub withdrawals : ℕ
  pub at_most_deposits : withdrawals ≤ p.deposits
  pub balance :
      p.vault_lamports + withdrawals * p.denomination ≡ p.vault_rent + p.deposits * p.denomination

multiple : (w d : ℕ) → 0 < d → (w * d) % d ≡ 0
multiple w d h = grind arith

difference : (v x e : ℕ) → v + x ≡ e → e - v ≡ x
difference v x e h = omega arith

rent_reached : (v r w n d : ℕ) → v + w * d ≡ r + n * d → w ≤ n → r ≤ v
rent_reached v r w n d e h = grind arith

quotient_of : (w d : ℕ) → 0 < d → w * d / d ≡ w
quotient_of w d h = grind arith

explained_times : (a d : ℕ) → a % d ≡ 0 → a / d * d ≡ a
explained_times a d h = omega arith

at_most : (a d n : ℕ) → 0 < d → a ≤ n * d → a / d ≤ n
at_most a d n h k = grind arith

deeper : (v r w n d : ℕ) → 0 < d → n < w → v + w * d ≡ r + n * d → v < r
deeper v r w n d h k e = grind arith

abbrev expected : PoolState → ℕ
expected p = p.vault_rent + p.deposits * p.denomination

silent_facts :
    (p : PoolState)
    → check_vault_integrity p ≡ []
    → (p.vault_rent ≤ p.vault_lamports)
      × (p.vault_lamports ≤ expected p)
      × ((expected p - p.vault_lamports) % p.denomination ≡ 0)
      × ((expected p - p.vault_lamports) / p.denomination ≤ p.deposits)
unfolding check_vault_integrity
silent_facts p e = ground arith

silent_of_facts :
    (p : PoolState)
    → 0 < p.denomination
    → p.vault_rent ≤ p.vault_lamports
    → p.vault_lamports ≤ expected p
    → (expected p - p.vault_lamports) % p.denomination ≡ 0
    → (expected p - p.vault_lamports) / p.denomination ≤ p.deposits
    → check_vault_integrity p ≡ []
unfolding check_vault_integrity
silent_of_facts p h low high rest most = ground arith

-- For a pool with a denomination, the rule reports nothing exactly when the vault's balance is
-- explained by a number of withdrawals between 0 and the deposits.
pub check_vault_integrity-silent :
    (p : PoolState) → 0 < p.denomination → (check_vault_integrity p ≡ []) ↔ IsExplained p
check_vault_integrity-silent p h = (
  λ e.
      let (low, high, rest, most) = silent_facts p e in
      let times = explained_times (expected p - p.vault_lamports) p.denomination rest in
      record {
        withdrawals = (expected p - p.vault_lamports) / p.denomination;
        at_most_deposits = most;
        balance = omega arith;
      },
  λ x.
      let w = x.withdrawals in
      let d = p.denomination in
      let size = difference p.vault_lamports (w * d) (expected p) x.balance in
      silent_of_facts p h
        (rent_reached p.vault_lamports p.vault_rent w p.deposits d x.balance x.at_most_deposits)
        (let b : p.vault_lamports + w * d ≡ expected p = x.balance in omega arith)
        (ap (λ n. n % d) size ∙ multiple w d h)
        (subst (λ n. n / d ≤ p.deposits) (sym size)
          (subst (λ n. n ≤ p.deposits) (sym (quotient_of w d h)) x.at_most_deposits)),
)

logic_error_bound :
    (p : PoolState)
    → 0 < p.denomination
    → p.vault_rent ≤ p.vault_lamports
    → (expected p - p.vault_lamports) / p.denomination ≤ p.deposits
logic_error_bound p h low =
    at_most (expected p - p.vault_lamports) p.denomination p.deposits h (omega arith)

-- The branch that the code marks as unreachable is: no state makes the rule report its own error.
pub check_vault_integrity-consistent :
    (p : PoolState) → All (λ f. f.code ≢ invariant_logic_error) (check_vault_integrity p)
unfolding check_vault_integrity
check_vault_integrity-consistent p = ground (arith, logic_error_bound p)

-- A vault from which more denominations have left than were deposited is always reported, as such
-- and as critical.
pub check_vault_integrity-drained :
    (p : PoolState) (withdrawals : ℕ)
    → 0 < p.denomination
    → p.deposits < withdrawals
    → p.vault_lamports + withdrawals * p.denomination ≡ p.vault_rent + p.deposits * p.denomination
    → check_vault_integrity p ≡ finding critical withdrawals_exceed_deposits (some p.label) ∷ []
unfolding check_vault_integrity
check_vault_integrity-drained p w h more e =
    ground (arith, deeper p.vault_lamports p.vault_rent w p.deposits p.denomination)

surplus_only :
    (p : PoolState)
    → 0 < p.denomination
    → expected p < p.vault_lamports
    → p.vault_rent ≤ p.vault_lamports
    → check_vault_integrity p ≡ finding warning vault_surplus (some p.label) ∷ []
unfolding check_vault_integrity
surplus_only p h more low = ground arith

silent_or_critical :
    (p : PoolState)
    → 0 < p.denomination
    → p.vault_lamports ≤ expected p
    → (check_vault_integrity p ≡ [])
      ⊎ ((c : Code) × (check_vault_integrity p ≡ finding critical c (some p.label) ∷ []))
unfolding check_vault_integrity
silent_or_critical p h high = elim (Bool-cases (ltb p.vault_lamports p.vault_rent)) [
  | inl drained ↦ inr (withdrawals_exceed_deposits, ground arith)
  | inr funded ↦ elim (Bool-cases ((expected p - p.vault_lamports) % p.denomination == 0)) [
    | inl whole ↦ inl (ground (arith, logic_error_bound p))
    | inr broken ↦ inr (integrity_remainder, ground arith)
  ]
]

alarm_cases :
    (p : PoolState)
    → 0 < p.denomination
    → (expected p < p.vault_lamports
        → p.vault_rent ≤ p.vault_lamports
        → check_vault_integrity p ≡ finding warning vault_surplus (some p.label) ∷ [])
      × (p.vault_lamports ≤ expected p
          → ¬ IsExplained p
          → (c : Code) × (check_vault_integrity p ≡ finding critical c (some p.label) ∷ []))
alarm_cases p h = (
  surplus_only p h,
  λ high unexplained. elim (silent_or_critical p h high) [
    | inl silent ↦ absurd (unexplained ((check_vault_integrity-silent p h).0 silent))
    | inr reported ↦ reported
  ],
)

-- A balance of at most what the deposits put in that no number of withdrawals explains is exactly one
-- critical finding.
pub check_vault_integrity-alarm :
    (p : PoolState)
    → 0 < p.denomination
    → p.vault_lamports ≤ expected p
    → ¬ IsExplained p
    → (c : Code) × (check_vault_integrity p ≡ finding critical c (some p.label) ∷ [])
check_vault_integrity-alarm p pos low unexplained = (alarm_cases p pos).1 low unexplained
