-- ===== src/App/Chronology.antt =====
-- app/src/utils/merkle.ts, `chronological`: the order of the deposits that carried no index.
-- `block_signatures` is `connection.getBlockSignatures`, a parameter.
pub mod Order
use solnado_cash.Base.{
  ℕ, zero, suc, ◌+◌, Bool, true, false, ◌&&◌, ◌||◌, Option, none, some, List, [], ◌∷◌, ◌++◌, map,
  ltb, leb, ◌==◌, if◌then◌else◌, length, codes_eq, elem,
}
use solnado_cash.Base.Outcome.{Outcome, ok, err, ◌>>=◌, from_option, traverse}
use solnado_cash.App.Deposits.{Base58, ScanError, no_slot, not_in_block}

pub record Entry : Type 0 where
  pub leaf : ℕ
  pub slot : Option ℕ
  pub signature : Base58
  pub order : ℕ

pub record Placed : Type 0 where
  pub leaf : ℕ
  pub slot : ℕ
  pub signature : Base58
  pub order : ℕ

unfoldable pub place : Entry → Outcome ScanError Placed
place e = do
  s ← from_option (no_slot e.signature) e.slot
  ok (record { leaf = e.leaf; slot = s; signature = e.signature; order = e.order })

unfoldable pub has_text : Base58 → List Base58 → Bool
has_text t [] = false
has_text t (u ∷ us) = codes_eq u t || has_text t us

-- The keys of `sigsBySlot` in the order they were first set, from those set so far.
unfoldable pub slots_of : List ℕ → List Placed → List ℕ
slots_of seen [] = seen
slots_of seen (p ∷ ps) = slots_of (if elem p.slot seen then seen else seen ++ p.slot ∷ []) ps

-- sigsBySlot.get(slot), in the same order.
unfoldable pub signatures_at : ℕ → List Base58 → List Placed → List Base58
unfolding has_text
signatures_at s seen [] = seen
signatures_at s seen (p ∷ ps) =
    signatures_at s
      (if p.slot == s
        then (if has_text p.signature seen then seen else seen ++ p.signature ∷ [])
        else seen)
      ps

-- block.signatures.indexOf(s), `none` for -1
unfoldable pub index_in : Base58 → ℕ → List Base58 → Option ℕ
index_in t i [] = none
index_in t i (u ∷ us) = if codes_eq u t then some i else index_in t (i + 1) us

-- `blockPosition`, the newest entry first.
abbrev pub Positions : Type 0
Positions = List (Base58 × ℕ)

unfoldable pub position_of : Base58 → Positions → ℕ
position_of t [] = 0
position_of t ((u, p) ∷ ps) = if codes_eq u t then p else position_of t ps

-- The inner loop, over the signatures of one slot.
unfoldable pub locate : ℕ → List Base58 → List Base58 → Positions → Outcome ScanError Positions
unfolding index_in
locate s block [] known = ok known
locate s block (t ∷ ts) known = do
  p ← from_option (not_in_block s t) (index_in t 0 block)
  locate s block ts ((t, p) ∷ known)

unfoldable pub locate_slot :
    (ℕ → Outcome ScanError (List Base58))
    → ℕ
    → List Base58
    → Positions
    → Outcome ScanError Positions
unfolding locate
locate_slot block_signatures s signatures known =
    if ltb (length signatures) 2
    then ok known
    else (do block ← block_signatures s; locate s block signatures known)

unfoldable pub locate_all :
    (ℕ → Outcome ScanError (List Base58))
    → List ℕ
    → List Placed
    → Positions
    → Outcome ScanError Positions
unfolding locate_slot signatures_at
locate_all block_signatures [] ps known = ok known
locate_all block_signatures (s ∷ ss) ps known = do
  more ← locate_slot block_signatures s (signatures_at s [] ps) known
  locate_all block_signatures ss ps more

-- The comparison: slot, then place in the block, then place in the transaction.
unfoldable pub not_after : Positions → Placed → Placed → Bool
unfolding position_of
not_after known a b =
    ltb a.slot b.slot
    || a.slot == b.slot
      && (ltb (position_of a.signature known) (position_of b.signature known)
          || position_of a.signature known == position_of b.signature known && leb a.order b.order)

-- The stable sort: an element goes before the first that it is not after.
unfoldable pub put_in_order : Positions → Placed → List Placed → List Placed
unfolding not_after
put_in_order known a [] = a ∷ []
put_in_order known a (b ∷ bs) =
    let rest = put_in_order known a bs in if not_after known a b then a ∷ b ∷ bs else b ∷ rest

unfoldable pub sort_placed : Positions → List Placed → List Placed
unfolding put_in_order
sort_placed known [] = []
sort_placed known (a ∷ as_later) = put_in_order known a (sort_placed known as_later)

unfoldable pub chronological :
    (ℕ → Outcome ScanError (List Base58)) → List Entry → Outcome ScanError (List ℕ)
unfolding traverse place locate_all slots_of sort_placed
chronological block_signatures entries = do
  placed ← traverse place entries
  known ← locate_all block_signatures (slots_of [] placed) placed []
  ok (map (λ (p : Placed). p.leaf) (sort_placed known placed))
