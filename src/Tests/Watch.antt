-- ===== src/Tests/Watch.antt =====
-- monitor/src: the rules and a pass on small states.
use solnado_cash.Base.{ℕ, ◌+◌, ◌*◌, ◌<◌, ◌≡◌, refl, ◌↔◌, none, some, false, List, [], ◌∷◌, arith}
use solnado_cash.Base.Text.{codes}
use solnado_cash.Monitor.Checks.{
  critical, warning, withdrawals_exceed_deposits, relayer_low, Finding, finding, PoolState,
  check_vault_integrity, Watched, Fields, check_authorities, Previous, run_pool_checks,
}
use solnado_cash.Monitor.Checks.Integrity.{IsExplained, check_vault_integrity-silent}
use solnado_cash.Monitor.Checks.Drift.{FieldsUnchanged}
use solnado_cash.Monitor.Checks.Rates.{run_pool_checks-throws}
use solnado_cash.Monitor.Watch.{
  Alerts, emit, Inputs, MonitorState, run_once, read_threw, not_configured,
}
use solnado_cash.Monitor.Watch.{read_pool, finished, current_fields}
use solnado_cash.Monitor.Checks.{nobody, immutable_field_changed}
use solnado_cash.Base.{codes_eq, get_or, ap}
use solnado_cash.Base.Json.{decimal}
use solnado_cash.Monitor.Watch.Alarm.{run_once-drift}

-- Three deposits of 10; the vault's rent is 2.
abbrev pool_with : ℕ → PoolState
pool_with lamports = record {
  label = codes "pool";
  denomination = 10;
  deposits = 3;
  vault_lamports = lamports;
  vault_rent = 2;
  is_paused = false;
}

check_vault_integrity-silent_example :
    (check_vault_integrity (pool_with 12) ≡ []) ↔ IsExplained (pool_with 12)
check_vault_integrity-silent_example = check_vault_integrity-silent (pool_with 12) (omega arith)

-- A rent of 12, and four withdrawals after three deposits.
abbrev drained : PoolState
drained = record (pool_with 0) { vault_rent = 12; vault_lamports = 2 }

not-IsExplained : ¬ IsExplained (pool_with 13)
not-IsExplained e = impossible e.withdrawals e.balance
  where
    impossible : (w : ℕ) → 13 + w * 10 ≡ 2 + 3 * 10 → ⊥
    impossible w h = omega arith

abbrev fields : Fields
fields = record {
  admin = some (codes "a");
  treasury = some (codes "t");
  denomination = some (codes "10");
}

abbrev watched : Watched
watched = record { label = codes "pool"; baseline = some fields; current = some fields }

abbrev previous : Previous
previous = record { vault_lamports = some 62; is_paused = some false }

abbrev undenominated : PoolState
undenominated = record (pool_with 12) { denomination = 0 }

run_pool_checks-throws_example :
    (run_pool_checks undenominated (some previous) ≡ none)
    ↔ ((undenominated.denomination ≡ 0) × (undenominated.vault_lamports < 62))
run_pool_checks-throws_example = run_pool_checks-throws undenominated 62 previous refl

abbrev quiet : Alerts
quiet = λ c p. none

abbrev found : List Finding
found =
    finding critical withdrawals_exceed_deposits (some (codes "pool"))
    ∷ finding warning relayer_low none
    ∷ finding warning relayer_low none
    ∷ []

abbrev state : MonitorState
state = record {
  memories = λ a. some (record { previous = previous; baseline = some fields });
  alerts = quiet;
}

abbrev inputs : Inputs
inputs = record {
  pools = (codes "pool", read_threw) ∷ [];
  expected_authority = none;
  authority = none;
  relayer = not_configured;
  cooldown = 3600;
  now = 10_000;
}

-- The admin of the pool is read as another one.
abbrev settled : MonitorState
settled = record {
  memories = λ a. some (record {
    previous = record { vault_lamports = some 12; is_paused = some false };
    baseline = some fields;
  });
  alerts = quiet;
}

abbrev drifted : Inputs
drifted = record {
  pools = (codes "pool", read_pool (pool_with 12) (codes "x") (codes "t")) ∷ [];
  expected_authority = none;
  authority = some nobody;
  relayer = not_configured;
  cooldown = 3600;
  now = 10_000;
}

abbrev drift : List Finding
drift = finding critical immutable_field_changed (some (codes "pool")) ∷ []

drift_found : (run_once drifted settled).0 ≡ finished drift 1 drift
unfolding run_once run_pool_checks emit codes_eq check_authorities decimal
drift_found = refl

admin_differs :
    ¬ FieldsUnchanged (some fields) (some (current_fields (pool_with 12) (codes "x") (codes "t")))
unfolding current_fields
admin_differs h = let first : ◌≡◌ {A = ℕ} 97 120 = ap (λ text. get_or text 0 0) h.0 in omega arith

run_once-drift_example : 0 < 1
run_once-drift_example =
    run_once-drift drifted settled drift drift 1 [] [] (codes "pool") (pool_with 12) (codes "x")
      (codes "t") fields drift_found refl refl admin_differs
