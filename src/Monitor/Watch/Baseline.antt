-- ===== src/Monitor/Watch/Baseline.antt =====
-- What a pass keeps: the baseline of a pool, once it is set.
use solnado_cash.Base.{
  ◌≡◌, inl, inr, ap, Bool-cases, Option, none, some, List, [], ◌∷◌, codes_eq, codes_eq_iff,
}
use solnado_cash.Monitor.Checks.{Text, Finding, PoolState, Fields, Watched, run_pool_checks}
use solnado_cash.Monitor.Watch.{
  PoolRead, read_threw, read_refused, read_pool, current_fields, Memory, Memories, baseline_or,
  store, memory_of, previous_of, with_checks, PoolsPass, run_pools, Inputs, MonitorState, run_once,
}

abbrev pub baseline_of : Option Memory → Option Fields
baseline_of none = none
baseline_of (some m) = m.baseline

pub baseline_or_kept :
    (m : Option Memory) (b current : Fields) → baseline_of m ≡ some b → baseline_or m current ≡ b
baseline_or_kept none b current h = absurd (cc h)
baseline_or_kept (some m) b current h = rw h

pub store_keeps :
    (memories : Memories) (address a : Text) (pool : PoolState) (current b : Fields)
    → baseline_of (memories a) ≡ some b
    → baseline_of
        (store memories address (memory_of pool (baseline_or (memories address) current)) a)
      ≡ some b
store_keeps memories address a pool current b h = elim (Bool-cases (codes_eq address a)) [
  | inl same ↦
      let here = (codes_eq_iff address a).0 same in
      rw (same, here) (ap some (baseline_or_kept (memories a) b current h))
  | inr other ↦ rw other h
]

with_checks_keeps :
    (checked : Option (List Finding)) (w : Watched) (memories : Memories) (rest : PoolsPass)
    → (a : Text) (b : Fields) → baseline_of (memories a) ≡ some b
    → baseline_of (rest.memories a) ≡ some b
    → baseline_of ((with_checks checked w memories rest).memories a) ≡ some b
with_checks_keeps none w memories rest a b before after = before
with_checks_keeps (some fs) w memories rest a b before after = after

pub run_pools_keeps :
    (pools : List (Text × PoolRead)) (memories : Memories) (a : Text) (b : Fields)
    → baseline_of (memories a) ≡ some b
    → baseline_of ((run_pools pools memories).memories a) ≡ some b
unfolding run_pools current_fields
run_pools_keeps [] memories a b h = h
run_pools_keeps ((address, read_threw) ∷ more) memories a b h = run_pools_keeps more memories a b h
run_pools_keeps ((address, read_refused) ∷ more) memories a b h =
    run_pools_keeps more memories a b h
run_pools_keeps ((address, read_pool pool admin treasury) ∷ more) memories a b h =
    with_checks_keeps (run_pool_checks pool (previous_of (memories address))) _ memories _ a b h (
      run_pools_keeps more _ a b
        (store_keeps memories address a pool (current_fields pool admin treasury) b h))

-- A pool's recorded baseline survives every pass, whatever the pass reads, and also when it fails.
pub run_once-baseline :
    (i : Inputs) (s : MonitorState) (a : Text) (b : Fields)
    → baseline_of (s.memories a) ≡ some b
    → baseline_of ((run_once i s).1.memories a) ≡ some b
unfolding run_once
run_once-baseline i s a b h = elim (Bool-cases ((run_pools i.pools s.memories).threw)) [
  | inl threw ↦ rw threw (run_pools_keeps i.pools s.memories a b h)
  | inr whole ↦ rw whole (run_pools_keeps i.pools s.memories a b h)
]
