-- ===== src/Monitor/Checks/Rates.antt =====
-- When the rules of a pool throw, and what the outflow and saturation rules report.
use solnado_cash.Base.{
  ℕ, ◌+◌, ◌-◌, ◌*◌, ◌/◌, ◌≤◌, ◌<◌, ◌≡◌, refl, sym, ◌∙◌, ◌↔◌, Option, none, some, List, [], ◌∷◌,
  arith,
}
use solnado_cash.Monitor.Checks.{
  warning, fast_outflow, Finding, finding, PoolState, Previous, outflow_of, check_outflow_rate,
  run_pool_checks, and_outflow, max_denoms_per_window,
}

outflow_known :
    (p : PoolState) (before : ℕ) (previous : Previous)
    → previous.vault_lamports ≡ some before
    → check_outflow_rate p (some previous) ≡ outflow_of p before
unfolding check_outflow_rate
outflow_known p before previous e = ground arith

outflow_throws :
    (p : PoolState) (before : ℕ)
    → (outflow_of p before ≡ none) ↔ ((p.denomination ≡ 0) × (p.vault_lamports < before))
outflow_throws p before = (λ h. ground arith, λ h. ground arith)

and_outflow-none :
    (xs ys : List Finding) (o : Option (List Finding)) → (and_outflow xs ys o ≡ none) ↔ (o ≡ none)
and_outflow-none xs ys none = (λ h. refl, λ h. refl)
and_outflow-none xs ys (some o) = (λ h. absurd (cc), λ h. absurd (cc))

-- The rules of a pool throw exactly when its denomination is zero and its vault holds less than at
-- the last reading: the division that throws comes after the rule that reports the denomination, so
-- that report is lost.
pub run_pool_checks-throws :
    (p : PoolState) (before : ℕ) (previous : Previous)
    → previous.vault_lamports ≡ some before
    → (run_pool_checks p (some previous) ≡ none)
      ↔ ((p.denomination ≡ 0) × (p.vault_lamports < before))
unfolding run_pool_checks
run_pool_checks-throws p before previous e =
    let (there, back) = and_outflow-none _ _ (check_outflow_rate p (some previous)) in
    let known = outflow_known p before previous e in
    (
      λ h. (outflow_throws p before).0 (sym known ∙ there h),
      λ h. back (known ∙ (outflow_throws p before).1 h),
    )

window : (drop d : ℕ) → 0 < d → (5 ≤ drop / d) ↔ (5 * d ≤ drop)
window drop d h = (λ k. grind arith, λ k. grind arith)

fast_of :
    (p : PoolState) (before : ℕ)
    → 0 < p.denomination
    → (outflow_of p before ≡ some (finding warning fast_outflow (some p.label) ∷ []))
      ↔ (5 ≤ (before - p.vault_lamports) / p.denomination)
fast_of p before h = (λ k. ground arith, λ k. fast_when p before h k)
  where
    fast_when :
        (p : PoolState) (before : ℕ)
        → 0 < p.denomination
        → 5 ≤ (before - p.vault_lamports) / p.denomination
        → outflow_of p before ≡ some (finding warning fast_outflow (some p.label) ∷ [])
    fast_when p before h k =
        let enough : 5 * p.denomination ≤ before - p.vault_lamports =
          (window (before - p.vault_lamports) p.denomination h).0 k in
        let drop : p.vault_lamports < before = omega arith in ground arith

-- For a pool with a denomination, fast outflow is reported exactly when at least five denominations
-- have left the vault since the last reading.
pub check_outflow_rate-threshold :
    (p : PoolState) (before : ℕ) (previous : Previous)
    → previous.vault_lamports ≡ some before
    → 0 < p.denomination
    → (check_outflow_rate p (some previous)
        ≡ some (finding warning fast_outflow (some p.label) ∷ []))
      ↔ (p.vault_lamports + max_denoms_per_window * p.denomination ≤ before)
unfolding check_outflow_rate
check_outflow_rate-threshold p before previous e h =
    let known = outflow_known p before previous e in
    let (there, back) = fast_of p before h in
    let (enough, reached) = window (before - p.vault_lamports) p.denomination h in
    (
      λ k. let n = enough (there (sym known ∙ k)) in omega arith,
      λ k. known ∙ back (reached (omega arith)),
    )
