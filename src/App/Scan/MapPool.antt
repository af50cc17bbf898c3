-- ===== src/App/Scan/MapPool.antt =====
-- app/src/utils/merkle.ts, `mapPool`: the workers that fetch the transactions concurrently. A worker runs
-- without interruption from one `await` to the next; which worker goes on next is not determined.
pub mod Steady
pub mod Interleaved
pub mod Bounded
use solnado_cash.Base.{
  ℕ, zero, suc, ◌≡◌, ◌+◌, min, Option, none, some, List, length, get_elem?, set, replicate, leb,
  if◌then◌else◌,
}
use solnado_cash.Base.Outcome.{Outcome, ok, err}

-- A worker is at the head of its loop, waits for the call on the item of an index, has returned, or has
-- thrown.
pub data Worker : Type 0 where
  ready : Worker
  waiting : ℕ → Worker
  returned : Worker
  thrown : Worker

-- `rejection` is the state of the promise that Promise.all makes: the first error wins. An empty slot of
-- the results is `none`.
pub record Pool {ℓ κ} (E : Type ℓ) (R : Type κ) : Type (ℓ ⊔ κ) where
  pub next : ℕ
  pub completed : ℕ
  pub results : List (Option R)
  pub workers : List Worker
  pub rejection : Option E

-- From the head of the loop to the call, or to the return.
unfoldable pub proceed {ℓ κ} : {E : Type ℓ} {R : Type κ} → ℕ → ℕ → Pool E R → Pool E R
proceed total w p = record p {
  next = suc p.next;
  workers = set p.workers w (if leb total p.next then returned else waiting p.next);
}

abbrev pub first_error {ℓ} : {E : Type ℓ} → E → Option E → Option E
first_error e none = some e
first_error e (some earlier) = some earlier

-- From the answer of the call to the head of the loop.
unfoldable pub settle {ℓ κ} : {E : Type ℓ} {R : Type κ} → ℕ → ℕ → Outcome E R → Pool E R → Pool E R
settle w i (ok r) p = record p {
  completed = suc p.completed;
  results = set p.results i (some r);
  workers = set p.workers w ready;
}
settle w i (err e) p = record p {
  workers = set p.workers w thrown;
  rejection = first_error e p.rejection;
}

unfoldable pub start {ℓ κ} : {E : Type ℓ} {R : Type κ} → ℕ → ℕ → Pool E R
start limit total = record {
  next = 0;
  completed = 0;
  results = replicate total none;
  workers = replicate (min limit total) ready;
  rejection = none;
}

-- The states that a run reaches after a number of steps, whichever worker takes each of them.
pub data IsReached {ℓ κ μ} {T : Type μ} {E : Type ℓ} {R : Type κ} (items : List T) (limit : ℕ)
    (fn : T → Outcome E R) : ℕ → Pool E R → Type (ℓ ⊔ κ ⊔ μ) where
  starts : IsReached items limit fn 0 (start limit (length items))
  proceeds :
      (steps w : ℕ) (p : Pool E R)
      → get_elem? p.workers w ≡ some ready
      → IsReached items limit fn steps p
      → IsReached items limit fn (suc steps) (proceed (length items) w p)
  settles :
      (steps w i : ℕ) (item : T) (p : Pool E R)
      → get_elem? p.workers w ≡ some (waiting i)
      → get_elem? items i ≡ some item
      → IsReached items limit fn steps p
      → IsReached items limit fn (suc steps) (settle w i (fn item) p)

-- What Promise.all gives once every worker has ended.
unfoldable pub outcome {ℓ κ} : {E : Type ℓ} {R : Type κ} → Pool E R → Outcome E (List (Option R))
outcome p = elim p.rejection [ none ↦ ok p.results | some e ↦ err e ]

abbrev pub IsEnded : Worker → Type 0
IsEnded ready = ⊥
IsEnded (waiting i) = ⊥
IsEnded returned = Unit
IsEnded thrown = Unit
