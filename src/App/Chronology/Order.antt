-- ===== src/App/Chronology/Order.antt =====
-- The order in which the deposits without an index come back.
use solnado_cash.Base.{ℕ, ◌≡◌, true, List, [], ◌∷◌, map, All}
use mathlib.Core.List.{Perm}
use mathlib.Core.List.Perm
use solnado_cash.Base.Outcome.{Outcome, ok, traverse}
use solnado_cash.App.Deposits.{Base58, ScanError}
use solnado_cash.App.Chronology.{Entry, Placed, place, Positions, locate_all, slots_of, not_after}

-- Every element is not after those that follow it.
abbrev pub IsOrdered : Positions → List Placed → Type 0
IsOrdered known [] = Unit
IsOrdered known (a ∷ rest) = All (λ b. not_after known a b ≡ true) rest × IsOrdered known rest

-- The deposits as the RPC placed them, the positions it gave, and the order found for them.
pub record IsChronological (block_signatures : ℕ → Outcome ScanError (List Base58))
    (entries : List Entry) (leaves : List ℕ) : Type 0 where
  pub placed : List Placed
  pub known : Positions
  pub sorted : List Placed
  pub all_placed : traverse place entries ≡ ok placed
  pub located : locate_all block_signatures (slots_of [] placed) placed [] ≡ ok known
  pub same : Perm sorted placed
  pub ordered : IsOrdered known sorted
  pub shown : leaves ≡ map (λ (p : Placed). p.leaf) sorted
