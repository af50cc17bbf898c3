-- ===== src/Monitor/Watch/Alarm.antt =====
-- A pool that left its recorded baseline raises the alarm in the pass that reads it.
use mathlib.Core.Path.{subst}
use solnado_cash.Base.{
  ℕ, ◌+◌, ◌≤◌, ◌<◌, ◌≡◌, refl, sym, ◌∙◌, ◌⊎◌, inl, inr, false, Bool-cases, Option, none, some, List,
  [], ◌∷◌, ◌++◌, arith, All, codes_eq,
}
use solnado_cash.Monitor.Checks.{
  Text, Finding, PoolState, Authority, unread, Fields, Watched, field_changed, fields_changed,
  check_fields, check_authorities, check_upgrade_authority, run_pool_checks,
}
use solnado_cash.Monitor.Checks.Drift.{FieldsUnchanged, check_fields_iff}
use solnado_cash.Monitor.Watch.{
  PoolRead, read_threw, read_refused, read_pool, current_fields, Memories, previous_of, with_checks,
  PoolsPass, run_pools, authority_findings, balance_findings, emit, Inputs, MonitorState,
  all_findings, finished, run_once,
}
use solnado_cash.Monitor.Watch.Alerts.{count_criticals, emit-criticals}
use solnado_cash.Monitor.Watch.Baseline.{baseline_of, baseline_or_kept, store_keeps}

count_criticals-append :
    (xs ys : List Finding) → count_criticals (xs ++ ys) ≡ count_criticals xs + count_criticals ys
count_criticals-append [] ys = omega arith
count_criticals-append (x ∷ xs) ys = omega (arith, count_criticals-append xs ys)

-- Every list that a rule on fields gives is empty or holds a critical finding.
abbrev Alarms : List Finding → Type 0
Alarms fs = (fs ≡ []) ⊎ (0 < count_criticals fs)

Alarms-append : (xs ys : List Finding) → Alarms xs → Alarms ys → Alarms (xs ++ ys)
Alarms-append xs ys (inr h) k = inr (omega (arith, count_criticals-append xs ys))
Alarms-append xs ys (inl h) (inr k) = inr (omega (arith, count_criticals-append xs ys))
Alarms-append xs ys (inl h) (inl k) = inl (rw (h, k))

field_changed-Alarms : (label : Text) (b c : Option Text) → Alarms (field_changed label b c)
field_changed-Alarms label none c = inl refl
field_changed-Alarms label (some b) none = inl refl
field_changed-Alarms label (some b) (some c) = elim (Bool-cases (codes_eq b c)) [
  | inl same ↦ inl (rw same)
  | inr other ↦ inr (rw other (omega arith))
]

fields_changed-Alarms : (label : Text) (b c : Option Fields) → Alarms (fields_changed label b c)
fields_changed-Alarms label none c = inl refl
fields_changed-Alarms label (some b) none = inl refl
fields_changed-Alarms label (some b) (some c) =
    Alarms-append (field_changed label b.admin c.admin) _
      (field_changed-Alarms label b.admin c.admin)
      (Alarms-append (field_changed label b.treasury c.treasury) _
        (field_changed-Alarms label b.treasury c.treasury)
        (field_changed-Alarms label b.denomination c.denomination))

check_fields-Alarms : (ws : List Watched) → Alarms (check_fields ws)
unfolding check_fields
check_fields-Alarms [] = inl refl
check_fields-Alarms (w ∷ ws) =
    Alarms-append (fields_changed w.label w.baseline w.current) (check_fields ws)
      (fields_changed-Alarms w.label w.baseline w.current) (check_fields-Alarms ws)

module _ (address : Text) (pool : PoolState) (admin treasury : Text) (b : Fields) where
  threw_not :
      (checked : Option (List Finding)) (w : Watched) (memories : Memories) (rest : PoolsPass)
      → (with_checks checked w memories rest).threw ≡ false
      → All
          (λ w. FieldsUnchanged w.baseline w.current)
          (with_checks checked w memories rest).watched
      → (rest.threw ≡ false)
        × FieldsUnchanged w.baseline w.current
        × All (λ w. FieldsUnchanged w.baseline w.current) rest.watched
  threw_not none w memories rest h a = absurd (cc h)
  threw_not (some fs) w memories rest h a = (h, a.0, a.1)

  unchanged :
      (before after : List (Text × PoolRead)) (memories : Memories)
      → baseline_of (memories address) ≡ some b
      → (run_pools (before ++ (address, read_pool pool admin treasury) ∷ after) memories).threw
        ≡ false
      → All
          (λ w. FieldsUnchanged w.baseline w.current)
          (run_pools (before ++ (address, read_pool pool admin treasury) ∷ after) memories).watched
      → FieldsUnchanged (some b) (some (current_fields pool admin treasury))
  unfolding run_pools current_fields
  unchanged [] after memories h t a =
      let (more, here, rest) =
        threw_not (run_pool_checks pool (previous_of (memories address))) _ memories _ t a in
      subst (λ f. FieldsUnchanged (some f) (some (current_fields pool admin treasury)))
        (baseline_or_kept (memories address) b (current_fields pool admin treasury) h) here
  unchanged ((other, read_threw) ∷ before) after memories h t a =
      unchanged before after memories h t a
  unchanged ((other, read_refused) ∷ before) after memories h t a =
      unchanged before after memories h t a
  unchanged ((other, read_pool p q r) ∷ before) after memories h t a =
      let (more, here, rest) =
        threw_not (run_pool_checks p (previous_of (memories other))) _ memories _ t a in
      unchanged before after _ (store_keeps memories other address p (current_fields p q r) b h)
        more rest

  drift_alarms :
      (before after : List (Text × PoolRead)) (memories : Memories)
      → baseline_of (memories address) ≡ some b
      → (run_pools (before ++ (address, read_pool pool admin treasury) ∷ after) memories).threw
        ≡ false
      → ¬ FieldsUnchanged (some b) (some (current_fields pool admin treasury))
      → 0
        < count_criticals (
            check_fields
              (run_pools
                (before ++ (address, read_pool pool admin treasury) ∷ after)
                memories).watched)
  drift_alarms before after memories h t n =
      elim (check_fields-Alarms
        (run_pools (before ++ (address, read_pool pool admin treasury) ∷ after) memories).watched) [
          | inr alarm ↦ alarm
          | inl silent ↦
              absurd (n (unchanged before after memories h t ((check_fields_iff _).0 silent)))
        ]

authority_counts :
    (expected : Option Text) (authority : Option Authority) (ws : List Watched)
    → count_criticals (check_fields ws) ≤ count_criticals (authority_findings expected authority ws)
unfolding authority_findings check_authorities
authority_counts expected none ws =
    omega
      (arith, count_criticals-append (check_upgrade_authority expected unread) (check_fields ws))
authority_counts expected (some a) ws =
    omega (arith, count_criticals-append (check_upgrade_authority expected a) (check_fields ws))

count_of :
    (fs gs : List Finding) (c d : ℕ) (sent more : List Finding)
    → finished fs c sent ≡ finished gs d more
    → d ≡ c
count_of fs gs c d sent more h = cc h

finished_inv :
    (i : Inputs) (s : MonitorState) (fs sent : List Finding) (criticals : ℕ)
    → (run_once i s).0 ≡ finished fs criticals sent
    → ((run_pools i.pools s.memories).threw ≡ false)
      × (criticals
          ≡ (emit i.cooldown i.now
              (all_findings i (run_pools i.pools s.memories))
              s.alerts).criticals)
unfolding run_once
finished_inv i s fs sent criticals h = elim (Bool-cases ((run_pools i.pools s.memories).threw)) [
  | inl threw ↦ absurd (cc (rw threw at h))
  | inr whole ↦ (whole, count_of _ _ _ _ _ _ (rw whole at h))
]

-- If a pool's recorded baseline differs from what a pass reads of its admin, its treasury or its
-- denomination, and the pass finishes, it counts at least one critical finding, whatever the other
-- pools, the authority and the balance are.
pub run_once-drift :
    (i : Inputs) (s : MonitorState) (fs sent : List Finding) (criticals : ℕ)
    → (before after : List (Text × PoolRead)) (address : Text) (pool : PoolState)
    → (admin treasury : Text) (b : Fields) → (run_once i s).0 ≡ finished fs criticals sent
    → i.pools ≡ before ++ (address, read_pool pool admin treasury) ∷ after
    → baseline_of (s.memories address) ≡ some b
    → ¬ FieldsUnchanged (some b) (some (current_fields pool admin treasury))
    → 0 < criticals
run_once-drift i s fs sent criticals before after address pool admin treasury b done pools h n =
    let (whole, counted) = finished_inv i s fs sent criticals done in
    let pass : PoolsPass = run_pools i.pools s.memories in
    let alarm : 0 < count_criticals (check_fields pass.watched) =
      subst (λ ps. 0 < count_criticals (check_fields (run_pools ps s.memories).watched)) (sym pools)
        (drift_alarms address pool admin treasury b before after s.memories h
          (subst (λ ps. (run_pools ps s.memories).threw ≡ false) pools whole) n) in
    let found = authority_findings i.expected_authority i.authority pass.watched in
    let all : criticals ≡ count_criticals (all_findings i pass) =
      counted ∙ (emit-criticals i.cooldown i.now (all_findings i pass) s.alerts).1 in
    omega (
      arith,
      alarm,
      all,
      authority_counts i.expected_authority i.authority pass.watched,
      count_criticals-append pass.findings (found ++ balance_findings i.relayer),
      count_criticals-append found (balance_findings i.relayer),
    )
