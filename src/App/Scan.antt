-- ===== src/App/Scan.antt =====
-- app/src/utils/merkle.ts, `scanDeposits`: a pool's transaction history, and the deposits found in it.
-- The RPC's answers are parameters; `traverse` stands for `mapPool`, which MapPool models. The loop over
-- the pages of signatures is on fuel.
pub mod Pages
pub mod MapPool
use solnado_cash.Base.{
  ℕ, zero, suc, ◌+◌, Bool, true, false, Option, none, some, List, [], ◌∷◌, ◌++◌, map, if◌then◌else◌,
}
use mathlib.Core.List.{reverse}
use solnado_cash.Base.Outcome.{Outcome, ok, err, ◌>>=◌, traverse}
use solnado_cash.App.Deposits.{
  Base58, RawTransaction, Meta, Event, ScanError, still_reading, Indexed, Sorted, sort_deposits,
}
use solnado_cash.App.Chronology.{Entry, chronological}

pub record SignatureInfo : Type 0 where
  pub signature : Base58
  pub failed : Bool

-- `signatures before until` is `getSignaturesForAddress` of the pool with the limit 1000, the newest
-- first; `transaction` the raw `getTransaction`, with its error thrown.
pub record Rpc : Type 0 where
  pub signatures : Option Base58 → Option Base58 → Outcome ScanError (List SignatureInfo)
  pub transaction : Base58 → Outcome ScanError (Option RawTransaction)
  pub block_signatures : ℕ → Outcome ScanError (List Base58)

unfoldable pub last_signature : SignatureInfo → List SignatureInfo → Base58
last_signature s [] = s.signature
last_signature s (t ∷ ts) = last_signature t ts

unfoldable pub collect :
    ℕ
    → Rpc
    → Option Base58
    → Option Base58
    → List SignatureInfo
    → Outcome ScanError (List SignatureInfo)
unfolding last_signature
collect zero rpc until before found = err still_reading
collect (suc fuel) rpc until before found = do
  batch ← rpc.signatures before until
  elim batch [
    | [] ↦ ok found
    | s ∷ ss ↦ collect fuel rpc until (some (last_signature s ss)) (found ++ s ∷ ss)
  ]

unfoldable pub newest : List SignatureInfo → Option Base58
newest [] = none
newest (s ∷ ss) = some s.signature

unfoldable pub successful : List SignatureInfo → List Base58
successful [] = []
successful (s ∷ ss) = let rest = successful ss in if s.failed then rest else s.signature ∷ rest

pub record Found : Type 0 where
  pub indexed : List Indexed
  pub entries : List Entry

pub record ScanResult : Type 0 where
  pub indexed : List Indexed
  pub unindexed : List ℕ
  pub newest_signature : Option Base58

abbrev pub entry_of : RawTransaction → Base58 → ℕ × ℕ → Entry
entry_of tx signature (leaf, k) = record {
  leaf = leaf;
  slot = tx.slot;
  signature = signature;
  order = k;
}

abbrev pub nothing_found : Found
nothing_found = record { indexed = []; entries = [] }

module _ (decode58 : Base58 → Option (List ℕ)) (parse_logs : List (List ℕ) → List Event)
    (program_key pool_key : Base58) where
  unfoldable pub read_meta : RawTransaction → Base58 → Option Meta → Outcome ScanError Found
  unfolding sort_deposits
  read_meta tx signature none = ok nothing_found
  read_meta tx signature (some m) = if m.failed then ok nothing_found else (do
    s ← sort_deposits decode58 program_key parse_logs pool_key tx m
    ok (record { indexed = s.indexed; entries = map (entry_of tx signature) s.unindexed }))

  unfoldable pub read_transaction : Base58 → Option RawTransaction → Outcome ScanError Found
  unfolding read_meta
  read_transaction signature none = ok nothing_found
  read_transaction signature (some tx) = read_meta tx signature tx.meta

  -- txs.forEach, over the fetched transactions and their signatures
  unfoldable pub read_all : List Base58 → List (Option RawTransaction) → Outcome ScanError Found
  unfolding read_transaction
  read_all (s ∷ ss) (tx ∷ txs) = do
    here ← read_transaction s tx
    later ← read_all ss txs
    ok (record { indexed = here.indexed ++ later.indexed; entries = here.entries ++ later.entries })
  read_all _ _ = ok nothing_found

  unfoldable pub scan_deposits : ℕ → Rpc → Option Base58 → Outcome ScanError ScanResult
  unfolding collect successful traverse read_all chronological newest
  scan_deposits fuel rpc until = do
    all ← collect fuel rpc until none []
    txs ← traverse rpc.transaction (successful (reverse all))
    found ← read_all (successful (reverse all)) txs
    unindexed ← chronological rpc.block_signatures found.entries
    ok (record { indexed = found.indexed; unindexed = unindexed; newest_signature = newest all })
