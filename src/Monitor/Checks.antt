-- ===== src/Monitor/Checks.antt =====
-- monitor/src/checks.js: the rules, as functions from a state to findings. BigInt values are natural
-- numbers here, since they are read from unsigned fields. A finding is kept with its severity, code
-- and pool; the prose of its message is left out.
pub mod Integrity
pub mod Drift
pub mod Rates
use solnado_cash.Base.{
  ℕ, zero, suc, ◌+◌, ◌-◌, ◌*◌, ◌/◌, ◌%◌, Bool, true, false, not, ◌&&◌, Option, none, some, List, [],
  ◌∷◌, ◌++◌, leb, ltb, ◌==◌, if◌then◌else◌, codes_eq,
}

-- A label, an address or a decimal text.
abbrev pub Text : Type 0
Text = List ℕ

pub data Severity : Type 0 where
  critical warning info : Severity

pub data Code : Type 0 where
  bad_denomination withdrawals_exceed_deposits vault_surplus integrity_remainder : Code
  invariant_logic_error program_immutable upgrade_authority_changed : Code
  immutable_field_changed fast_outflow pool_saturated pool_near_saturation : Code
  relayer_insolvent relayer_low pool_paused pool_unpaused rpc_error pool_unreadable : Code

pub record Finding : Type 0 where
  pub severity : Severity
  pub code : Code
  pub pool : Option Text

abbrev pub finding : Severity → Code → Option Text → Finding
finding s c p = record { severity = s; code = c; pool = p }

pub record PoolState : Type 0 where
  pub label : Text
  pub denomination : ℕ
  pub deposits : ℕ
  pub vault_lamports : ℕ
  pub vault_rent : ℕ
  pub is_paused : Bool

unfoldable pub check_vault_integrity : PoolState → List Finding
check_vault_integrity p =
    let expected = p.vault_rent + p.deposits * p.denomination in
    let numerator = expected - p.vault_lamports in
    if leb p.denomination 0
    then finding critical bad_denomination (some p.label) ∷ []
    else if ltb p.vault_lamports p.vault_rent
    then finding critical withdrawals_exceed_deposits (some p.label) ∷ []
    else if ltb expected p.vault_lamports
    then finding warning vault_surplus (some p.label) ∷ []
    else if not (numerator % p.denomination == 0)
    then finding critical integrity_remainder (some p.label) ∷ []
    else if ltb p.deposits (numerator / p.denomination)
    then finding critical invariant_logic_error (some p.label) ∷ []
    else []

-- What was read of the program's upgrade authority: `undefined` where the read failed or found no
-- program, `null` where there is none.
pub data Authority : Type 0 where
  unread nobody : Authority
  held_by : Text → Authority

-- The fields that cannot change, each as `String(value)`, `none` for `undefined`.
pub record Fields : Type 0 where
  pub admin : Option Text
  pub treasury : Option Text
  pub denomination : Option Text

pub record Watched : Type 0 where
  pub label : Text
  pub baseline : Option Fields
  pub current : Option Fields

abbrev pub is_authority : Authority → Text → Bool
is_authority (held_by key) expected = codes_eq key expected
is_authority _ expected = false

unfoldable pub check_upgrade_authority : Option Text → Authority → List Finding
check_upgrade_authority none actual = []
check_upgrade_authority (some expected) nobody = finding info program_immutable none ∷ []
check_upgrade_authority (some expected) actual =
    if not (is_authority actual expected)
    then finding critical upgrade_authority_changed none ∷ []
    else []

abbrev pub field_changed : Text → Option Text → Option Text → List Finding
field_changed label (some before) (some now) =
    if not (codes_eq before now)
    then finding critical immutable_field_changed (some label) ∷ []
    else []
field_changed label _ _ = []

-- `pool.baseline?.[field]` is `undefined` where there is no baseline.
abbrev pub fields_changed : Text → Option Fields → Option Fields → List Finding
fields_changed label (some b) (some c) =
    field_changed label b.admin c.admin
    ++ (field_changed label b.treasury c.treasury
        ++ field_changed label b.denomination c.denomination)
fields_changed label _ _ = []

unfoldable pub check_fields : List Watched → List Finding
check_fields [] = []
check_fields (w ∷ ws) = fields_changed w.label w.baseline w.current ++ check_fields ws

unfoldable pub check_authorities : Option Text → Authority → List Watched → List Finding
unfolding check_upgrade_authority check_fields
check_authorities expected actual pools =
    check_upgrade_authority expected actual ++ check_fields pools

-- What the state file holds of a pool's last reading; a field may be missing from an older file.
pub record Previous : Type 0 where
  pub vault_lamports : Option ℕ
  pub is_paused : Option Bool

abbrev pub max_denoms_per_window : ℕ
max_denoms_per_window = 5

-- `none` is the RangeError of a division by 0n.
abbrev pub outflow_of : PoolState → ℕ → Option (List Finding)
outflow_of p before =
    if leb before p.vault_lamports
    then some []
    else if p.denomination == 0
    then none
    else if leb max_denoms_per_window ((before - p.vault_lamports) / p.denomination)
    then some (finding warning fast_outflow (some p.label) ∷ [])
    else some []

unfoldable pub check_outflow_rate : PoolState → Option Previous → Option (List Finding)
check_outflow_rate p none = some []
check_outflow_rate p (some previous) = elim (previous.vault_lamports) [
  | none ↦ some []
  | some before ↦ outflow_of p before
]

abbrev pub saturation_threshold : ℕ
saturation_threshold = 950_000

unfoldable pub check_saturation : PoolState → List Finding
check_saturation p =
    if leb saturation_threshold p.deposits
    then finding warning pool_saturated (some p.label) ∷ []
    else if leb (saturation_threshold - 1000) p.deposits
    then finding warning pool_near_saturation (some p.label) ∷ []
    else []

abbrev pub critical_lamports : ℕ
critical_lamports = 10_000_000

abbrev pub warn_lamports : ℕ
warn_lamports = 100_000_000

unfoldable pub check_relayer_balance : Option ℕ → List Finding
check_relayer_balance none = []
check_relayer_balance (some balance) =
    if ltb balance critical_lamports
    then finding critical relayer_insolvent none ∷ []
    else if ltb balance warn_lamports
    then finding warning relayer_low none ∷ []
    else []

abbrev pub same_bool : Bool → Bool → Bool
same_bool true b = b
same_bool false b = not b

abbrev pub pause_of : PoolState → Option Bool → List Finding
pause_of p none = []
pause_of p (some before) =
    if same_bool before p.is_paused
    then []
    else finding info (if p.is_paused then pool_paused else pool_unpaused) (some p.label) ∷ []

unfoldable pub check_pause_state : PoolState → Option Previous → List Finding
check_pause_state p none = []
check_pause_state p (some previous) = pause_of p previous.is_paused

abbrev pub and_outflow : List Finding → List Finding → Option (List Finding) → Option (List Finding)
and_outflow before after none = none
and_outflow before after (some outflow) = some (before ++ (outflow ++ after))

-- `none` where a rule throws.
unfoldable pub run_pool_checks : PoolState → Option Previous → Option (List Finding)
unfolding check_vault_integrity check_outflow_rate check_saturation check_pause_state
run_pool_checks p previous =
    and_outflow (check_vault_integrity p) (check_saturation p ++ check_pause_state p previous)
      (check_outflow_rate p previous)
