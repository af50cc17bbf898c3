-- ===== src/Monitor/Watch.antt =====
-- monitor/src/index.js: one pass of the watcher over its pools, and the alerts that it sends. What
-- the chain answers is an argument of a pass; console output is left out.
pub mod Alerts
pub mod Baseline
pub mod Alarm
use solnado_cash.Base.{
  ℕ, zero, suc, ◌+◌, ◌-◌, ◌*◌, Bool, true, false, not, ◌&&◌, Option, none, some, List, [], ◌∷◌,
  ◌++◌, leb, ltb, ◌==◌, if◌then◌else◌, codes_eq, length, get_or,
}
use solnado_cash.Base.Json.{decimal}
use solnado_cash.Base.Buffer.{subarray, read_u64_le}
use solnado_cash.Base.Chain.{Key, key_eq, Account}
use solnado_cash.Monitor.Checks.{
  Text, Severity, critical, warning, info, Code, bad_denomination, withdrawals_exceed_deposits,
  vault_surplus, integrity_remainder, invariant_logic_error, program_immutable,
  upgrade_authority_changed, immutable_field_changed, fast_outflow, pool_saturated,
  pool_near_saturation, relayer_insolvent, relayer_low, pool_paused, pool_unpaused, rpc_error,
  pool_unreadable, Finding, finding, PoolState, Authority, unread, nobody, held_by, Fields, Watched,
  Previous, check_authorities, check_relayer_balance, run_pool_checks,
}

-- Codes are told apart by their number here, by their text in the source.
unfoldable pub code_number : Code → ℕ
code_number bad_denomination = 0
code_number withdrawals_exceed_deposits = 1
code_number vault_surplus = 2
code_number integrity_remainder = 3
code_number invariant_logic_error = 4
code_number program_immutable = 5
code_number upgrade_authority_changed = 6
code_number immutable_field_changed = 7
code_number fast_outflow = 8
code_number pool_saturated = 9
code_number pool_near_saturation = 10
code_number relayer_insolvent = 11
code_number relayer_low = 12
code_number pool_paused = 13
code_number pool_unpaused = 14
code_number rpc_error = 15
code_number pool_unreadable = 16

-- `state.alerts`, by the two parts of a key: the code's number and the pool, "-" where there is none.
abbrev pub Alerts : Type 0
Alerts = ℕ → Text → Option ℕ

abbrev pub pool_part : Option Text → Text
pool_part none = b'-' ∷ []
pool_part (some pool) = pool

abbrev pub alerted_at : Alerts → Finding → Option ℕ
alerted_at alerts f = alerts (code_number f.code) (pool_part f.pool)

abbrev pub touch : Alerts → Finding → ℕ → Alerts
touch alerts f now c p =
    if code_number f.code == c && codes_eq (pool_part f.pool) p then some now else alerts c p

abbrev pub time_or_zero : Option ℕ → ℕ
time_or_zero none = 0
time_or_zero (some t) = t

abbrev pub is_critical : Severity → Bool
is_critical critical = true
is_critical _ = false

-- INFO is only logged.
abbrev pub is_sent : Severity → Bool
is_sent info = false
is_sent _ = true

module _ (cooldown now : ℕ) where
  -- now - last < cooldown, for a finding that is not critical
  abbrev pub suppressed : Alerts → Finding → Bool
  suppressed alerts f =
      not (is_critical f.severity) && ltb now (time_or_zero (alerted_at alerts f) + cooldown)

  pub record Emitted : Type 0 where
    pub criticals : ℕ
    pub alerts : Alerts
    pub sent : List Finding

  unfoldable pub emit : List Finding → Alerts → Emitted
  emit [] alerts = record { criticals = 0; alerts = alerts; sent = [] }
  emit (f ∷ fs) alerts =
      let quiet = suppressed alerts f in
      let rest = emit fs (if quiet then alerts else touch alerts f now) in
      record {
        criticals = (if is_critical f.severity then 1 else 0) + rest.criticals;
        alerts = rest.alerts;
        sent = if not quiet && is_sent f.severity then f ∷ rest.sent else rest.sent;
      }

-- `state.pools[address]`, as far as it is read back.
pub record Memory : Type 0 where
  pub previous : Previous
  pub baseline : Option Fields

abbrev pub Memories : Type 0
Memories = Text → Option Memory

-- What `readPool` gives: it throws, returns an error, or returns the pool with its admin and treasury.
pub data PoolRead : Type 0 where
  read_threw read_refused : PoolRead
  read_pool : PoolState → Text → Text → PoolRead

unfoldable pub current_fields : PoolState → Text → Text → Fields
current_fields pool admin treasury = record {
  admin = some admin;
  treasury = some treasury;
  denomination = some (decimal pool.denomination);
}

abbrev pub previous_of : Option Memory → Option Previous
previous_of none = none
previous_of (some m) = some m.previous

-- prev?.baseline ?? current
abbrev pub baseline_or : Option Memory → Fields → Fields
baseline_or none current = current
baseline_or (some m) current = elim (m.baseline) [ none ↦ current | some b ↦ b ]

abbrev pub store : Memories → Text → Memory → Memories
store memories address m a = if codes_eq address a then some m else memories a

-- The pools of a pass. Where a rule throws the pass is given up, with the memories written so far.
pub record PoolsPass : Type 0 where
  pub findings : List Finding
  pub watched : List Watched
  pub memories : Memories
  pub threw : Bool

abbrev pub memory_of : PoolState → Fields → Memory
memory_of pool baseline = record {
  previous = record { vault_lamports = some pool.vault_lamports; is_paused = some pool.is_paused };
  baseline = some baseline;
}

abbrev pub with_finding : List Finding → PoolsPass → PoolsPass
with_finding fs rest = record rest { findings = fs ++ rest.findings }

abbrev pub with_pool : List Finding → Watched → PoolsPass → PoolsPass
with_pool fs w rest = record rest { findings = fs ++ rest.findings; watched = w ∷ rest.watched }

-- `none`: a rule threw.
abbrev pub with_checks : Option (List Finding) → Watched → Memories → PoolsPass → PoolsPass
with_checks none w memories rest = record {
  findings = [];
  watched = [];
  memories = memories;
  threw = true;
}
with_checks (some fs) w memories rest = with_pool fs w rest

unfoldable pub run_pools : List (Text × PoolRead) → Memories → PoolsPass
unfolding current_fields
run_pools [] memories = record { findings = []; watched = []; memories = memories; threw = false }
run_pools ((address, read_threw) ∷ more) memories =
    with_finding (finding warning rpc_error (some address) ∷ []) (run_pools more memories)
run_pools ((address, read_refused) ∷ more) memories =
    with_finding (finding critical pool_unreadable (some address) ∷ []) (run_pools more memories)
run_pools ((address, read_pool pool admin treasury) ∷ more) memories =
    let current = current_fields pool admin treasury in
    let baseline = baseline_or (memories address) current in
    let rest = run_pools more (store memories address (memory_of pool baseline)) in
    let seen : Watched = record {
      label = pool.label;
      baseline = some baseline;
      current = some current;
    } in
    with_checks (run_pool_checks pool (previous_of (memories address))) seen memories rest

-- `none` where the read throws.
unfoldable pub authority_findings : Option Text → Option Authority → List Watched → List Finding
authority_findings expected none watched =
    finding warning rpc_error none ∷ check_authorities expected unread watched
authority_findings expected (some actual) watched = check_authorities expected actual watched

-- No relayer is configured, or its balance is read, or the read throws.
pub data BalanceRead : Type 0 where
  not_configured balance_threw : BalanceRead
  balance : ℕ → BalanceRead

unfoldable pub balance_findings : BalanceRead → List Finding
balance_findings not_configured = []
balance_findings balance_threw = finding warning rpc_error none ∷ []
balance_findings (balance b) = check_relayer_balance (some b)

pub record MonitorState : Type 0 where
  pub memories : Memories
  pub alerts : Alerts

-- What one pass is given.
pub record Inputs : Type 0 where
  pub pools : List (Text × PoolRead)
  pub expected_authority : Option Text
  pub authority : Option Authority
  pub relayer : BalanceRead
  pub cooldown : ℕ
  pub now : ℕ

pub data PassResult : Type 0 where
  finished : List Finding → ℕ → List Finding → PassResult
  failed : PassResult

abbrev pub all_findings : Inputs → PoolsPass → List Finding
all_findings i pass =
    pass.findings
    ++ (authority_findings i.expected_authority i.authority pass.watched
        ++ balance_findings i.relayer)

-- One pass: the findings, the number of critical ones and what was sent, with the new state.
unfoldable pub run_once : Inputs → MonitorState → PassResult × MonitorState
unfolding run_pools authority_findings balance_findings
run_once i s =
    let pass = run_pools i.pools s.memories in
    let out = emit i.cooldown i.now (all_findings i pass) s.alerts in
    if pass.threw then (failed, record s { memories = pass.memories }) else (
      finished (all_findings i pass) out.criticals out.sent,
      record { memories = pass.memories; alerts = out.alerts },
    )
