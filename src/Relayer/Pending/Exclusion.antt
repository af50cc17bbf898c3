-- ===== src/Relayer/Pending/Exclusion.antt =====
-- One handler at a time for a note, and no note that stays blocked.
use solnado_cash.Base.{ℕ, ◌≡◌, false, List, [], ◌∷◌, if◌then◌else◌}
use solnado_cash.Base.Json.{Json}
use solnado_cash.Relayer.RateLimit.{nullifier_key}
use solnado_cash.Relayer.Pending.{Guard, has, is_guarded}

-- The keys of the guarded ones among the running requests.
abbrev pub keys_of : List Json → List (List ℕ)
keys_of [] = []
keys_of (n ∷ ns) = if is_guarded n then nullifier_key n ∷ keys_of ns else keys_of ns

abbrev pub IsDistinct : List (List ℕ) → Type 0
IsDistinct [] = Unit
IsDistinct (k ∷ ks) = (has ks k ≡ false) × IsDistinct ks

-- What holds of every state: the pending keys are those of the guarded requests that run, and no two
-- of them are the same.
pub record IsConsistent (g : Guard) : Type 0 where
  pub of_running : g.pending ≡ keys_of g.running
  pub distinct : IsDistinct g.pending
