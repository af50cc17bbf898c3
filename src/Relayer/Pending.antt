-- ===== src/Relayer/Pending.antt =====
-- relayer/src/api.js, POST /submit_proof around `handleSubmit`: the set of notes whose submission is
-- in progress. The check and the insertion run before anything is awaited, the deletion when the
-- handler is done, however it ends; between them other requests arrive.
pub mod Exclusion
use solnado_cash.Base.{
  ℕ, ◌≡◌, Bool, true, false, not, ◌&&◌, ◌||◌, List, [], ◌∷◌, ◌++◌, if◌then◌else◌, codes_eq, length,
}
use solnado_cash.Base.Json.{Json}
use solnado_cash.Base.Chain.{Reply, reply, throw}
use solnado_cash.Relayer.Response.{
  nullifier_pending, internal_error, Response, Refusal, refusal, failure, health,
}
use solnado_cash.Relayer.RateLimit.{invalid, nullifier_key}

-- The keys of the set, the newest first, and the nullifiers of the requests whose handler runs.
pub record Guard : Type 0 where
  pub pending : List (List ℕ)
  pub running : List Json

unfoldable pub has : List (List ℕ) → List ℕ → Bool
has [] key = false
has (k ∷ ks) key = codes_eq k key || has ks key

unfoldable pub delete : List (List ℕ) → List ℕ → List (List ℕ)
delete [] key = []
delete (k ∷ ks) key = let rest = delete ks key in if codes_eq k key then rest else k ∷ rest

abbrev pub is_guarded : Json → Bool
is_guarded nullifier = not (codes_eq (nullifier_key nullifier) invalid)

-- A request is refused, or its handler starts.
pub data Arrival : Type 0 where
  turned_away : Refusal → Arrival
  started : Guard → Arrival

unfoldable pub arrive : Json → Guard → Arrival
unfolding has
arrive nullifier g =
    if is_guarded nullifier
    then (if has g.pending (nullifier_key nullifier)
        then turned_away (refusal 409 nullifier_pending)
        else started (record {
          pending = nullifier_key nullifier ∷ g.pending;
          running = nullifier ∷ g.running;
        }))
    else started (record g { running = nullifier ∷ g.running })

-- `finally`, for one of the running handlers.
unfoldable pub finish : List Json → Json → List Json → List (List ℕ) → Guard
unfolding delete
finish before nullifier after pending = record {
  pending = if is_guarded nullifier then delete pending (nullifier_key nullifier) else pending;
  running = before ++ after;
}

-- The states that the relayer can be in: it starts with an empty set, requests arrive, and running
-- handlers finish, in any order.
pub data IsReachable : Guard → Type 0 where
  starts : IsReachable (record { pending = []; running = [] })
  arrives :
      (nullifier : Json) (g g2 : Guard)
      → IsReachable g
      → arrive nullifier g ≡ started g2
      → IsReachable g2
  finishes :
      (before : List Json) (nullifier : Json) (after : List Json) (pending : List (List ℕ))
      → IsReachable (record { pending = pending; running = before ++ nullifier ∷ after })
      → IsReachable (finish before nullifier after pending)

-- GET /health
unfoldable pub get_health : Reply ℕ → Guard → Response
get_health (reply balance) g = health balance (length g.pending)
get_health (throw e) g = failure 500 internal_error
