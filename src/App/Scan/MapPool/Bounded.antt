-- ===== src/App/Scan/MapPool/Bounded.antt =====
-- A run of the pool goes on until every worker has ended, and it ends.
use mathlib.Core.Path.{subst}
use solnado_cash.Base.{
  ℕ, zero, suc, ◌≡◌, refl, ◌+◌, ◌-◌, ◌*◌, ◌≤◌, ◌<◌, min, ◌⊎◌, inl, inr, some, List, [], ◌∷◌, length,
  get_elem?, set, replicate, arith, leb, get_elem?-lt, Bool-cases, leb→le,
}
use solnado_cash.Base.Outcome.{Outcome, ok, err}
use solnado_cash.App.Scan.MapPool.{
  Worker, ready, waiting, returned, thrown, Pool, proceed, settle, start, IsReached, starts,
  proceeds, settles, IsEnded,
}
use solnado_cash.App.Scan.MapPool.Steady.{IsSteady, reached-IsSteady}
use solnado_cash.App.Scan.MapPool.Interleaved.{IsOver}

-- The steps of a worker before its next turn at the items.
abbrev rank : Worker → ℕ
rank ready = 1
rank (waiting i) = 2
rank returned = 0
rank thrown = 0

abbrev load : List Worker → ℕ
load [] = 0
load (v ∷ vs) = rank v + load vs

load-set :
    (vs : List Worker) (w : ℕ) (v u : Worker)
    → get_elem? vs w ≡ some v
    → load (set vs w u) + rank v ≡ load vs + rank u
load-set [] w v u h = cc
load-set (x ∷ vs) zero v u h = let is : x ≡ v = cc h in rw is (omega arith)
load-set (x ∷ vs) (suc w) v u h = omega (arith, load-set vs w v u h)

load-replicate : (n : ℕ) → load (replicate n ready) ≡ n
load-replicate zero = refl
load-replicate (suc n) = omega (arith, load-replicate n)

-- A worker that can go on.
data IsLive (vs : List Worker) : Type 0 where
  can_proceed : (w : ℕ) → get_elem? vs w ≡ some ready → IsLive vs
  can_settle : (w i : ℕ) → get_elem? vs w ≡ some (waiting i) → IsLive vs

IsLive-cons : (x : Worker) (vs : List Worker) → IsLive vs → IsLive (x ∷ vs)
IsLive-cons x vs (can_proceed w h) = can_proceed (suc w) h
IsLive-cons x vs (can_settle w i h) = can_settle (suc w) i h

abbrev AllEnded : List Worker → Type 0
AllEnded vs = (w : ℕ) (v : Worker) → get_elem? vs w ≡ some v → IsEnded v

AllEnded-cons : (x : Worker) (vs : List Worker) → IsEnded x → AllEnded vs → AllEnded (x ∷ vs)
AllEnded-cons x vs ended h zero v k = subst IsEnded (cc k) ended
AllEnded-cons x vs ended h (suc w) v k = h w v k

IsLive-or_ended : (vs : List Worker) → IsLive vs ⊎ AllEnded vs
IsLive-or_ended [] = inr (λ w v h. cc h)
IsLive-or_ended (ready ∷ vs) = inl (can_proceed 0 refl)
IsLive-or_ended (waiting i ∷ vs) = inl (can_settle 0 i refl)
IsLive-or_ended (returned ∷ vs) = elim (IsLive-or_ended vs) [
  | inl live ↦ inl (IsLive-cons returned vs live)
  | inr ended ↦ inr (AllEnded-cons returned vs tt ended)
]
IsLive-or_ended (thrown ∷ vs) = elim (IsLive-or_ended vs) [
  | inl live ↦ inl (IsLive-cons thrown vs live)
  | inr ended ↦ inr (AllEnded-cons thrown vs tt ended)
]

module _ {ℓ κ μ} {T : Type μ} {E : Type ℓ} {R : Type κ} (fn : T → Outcome E R) (items : List T)
    (limit : ℕ) where
  -- What is still to do, at two steps an item.
  abbrev to_do : Pool E R → ℕ
  to_do p = load p.workers + 2 * (length items - p.next)

  proceed-to_do :
      (p : Pool E R) (w : ℕ)
      → get_elem? p.workers w ≡ some ready
      → suc (to_do (proceed (length items) w p)) ≤ to_do p
  unfolding proceed
  proceed-to_do p w h = elim (Bool-cases (leb (length items) p.next)) [
    | inl over ↦ rw over (omega (arith, load-set p.workers w ready returned h, leb→le _ _ over))
    | inr more ↦
        let lt : p.next < length items = ground arith in
        rw more (omega (arith, load-set p.workers w ready (waiting p.next) h))
  ]

  settle-to_do :
      (p : Pool E R) (w i : ℕ) (o : Outcome E R)
      → get_elem? p.workers w ≡ some (waiting i)
      → suc (to_do (settle w i o p)) ≤ to_do p
  unfolding settle
  settle-to_do p w i (ok r) h = omega (arith, load-set p.workers w (waiting i) ready h)
  settle-to_do p w i (err e) h = omega (arith, load-set p.workers w (waiting i) thrown h)

  reached-to_do :
      (steps : ℕ) (p : Pool E R)
      → IsReached items limit fn steps p
      → steps + to_do p ≤ 2 * length items + min limit (length items)
  unfolding start
  reached-to_do _ _ starts = omega (arith, load-replicate (min limit (length items)))
  reached-to_do _ _ (proceeds steps w p h r) =
      omega (arith, proceed-to_do p w h, reached-to_do steps p r)
  reached-to_do _ _ (settles steps w i item p h at_i r) =
      omega (arith, settle-to_do p w i (fn item) h, reached-to_do steps p r)

  IsReached-next :
      (steps : ℕ) (p : Pool E R)
      → IsReached items limit fn steps p
      → IsOver p ⊎ ((q : Pool E R) × IsReached items limit fn (suc steps) q)
  IsReached-next steps p reached = elim (IsLive-or_ended p.workers) [
    | inr ended ↦ inl ended
    | inl (can_proceed w h) ↦ inr (_, proceeds steps w p h reached)
    | inl (can_settle w i h) ↦
        let s : IsSteady items limit fn p = reached-IsSteady items limit fn steps p reached in
        let (item, there) = get_elem?-lt items i (s.claimed w i h) in
        inr (_, settles steps w i item p h there reached)
  ]

-- A run takes at most two steps an item and one a worker, whatever the order, and as long as some worker has
-- not ended there is a next step.
pub IsReached-ends {ℓ κ μ} :
    {T : Type μ} {E : Type ℓ} {R : Type κ} (fn : T → Outcome E R) (items : List T) (limit steps : ℕ)
    (p : Pool E R)
    → IsReached items limit fn steps p
    → (steps ≤ 2 * length items + min limit (length items))
      × (IsOver p ⊎ ((q : Pool E R) × IsReached items limit fn (suc steps) q))
IsReached-ends fn items limit steps p reached = (
  omega (arith, reached-to_do fn items limit steps p reached),
  IsReached-next fn items limit steps p reached,
)
