-- ===== src/App/Rebuild.antt =====
-- app/src/utils/merkle.ts, `assemble`, `buildTree` and `rebuildMerkleTree`: the leaves in their order,
-- and the tree that is checked against the chain. `hash` is circomlib's Poseidon. A scan's answer is
-- an argument of each of the three calls, since the RPC may answer them differently.
pub mod Assemble
pub mod Recover
use solnado_cash.Base.{
  ℕ, zero, suc, ◌+◌, Bool, true, false, ◌&&◌, Option, none, some, List, [], ◌∷◌, map, ltb, ◌==◌,
  if◌then◌else◌, length, get_elem?,
}
use solnado_cash.Base.Chain.{Account}
use solnado_cash.Base.Outcome.{Outcome, ok, err, ◌>>=◌}
use solnado_cash.Sdk.MerkleTree.{Tree, tree_depth, new_tree, rebuild}
use solnado_cash.Sdk.PoolState.{Mismatch, PoolTreeState, read_pool_tree_state, match_state}
use solnado_cash.App.Deposits.{Base58, ScanError, Indexed}
use solnado_cash.App.Scan.{ScanResult}
use solnado_cash.App.LeafCache.{
  Item, LeafCache, load_cache, save_cache, clear_cache, leaf_to_bigint,
}

-- `byIndex`, a Map from indices to leaves.
abbrev pub ByIndex : Type 0
ByIndex = ℕ → Option ℕ

abbrev pub put : ℕ → ℕ → ByIndex → ByIndex
put i leaf m j = if i == j then some leaf else m j

unfoldable pub put_indexed : List Indexed → ByIndex → ByIndex
put_indexed [] m = m
put_indexed (d ∷ ds) m = put_indexed ds (put d.leaf_index d.leaf m)

abbrev pub is_known : Option ℕ → Bool
is_known none = false
is_known (some leaf) = true

-- The indices below i + n that are not known, from i on.
unfoldable pub holes : ℕ → ℕ → ByIndex → List ℕ
holes i zero m = []
holes i (suc n) m = let rest = holes (i + 1) n m in if is_known (m i) then rest else i ∷ rest

unfoldable pub fill : List ℕ → List ℕ → ByIndex → ByIndex
fill (h ∷ hs) (leaf ∷ leaves) m = fill hs leaves (put h leaf m)
fill _ _ m = m

abbrev pub until_gap : Option ℕ → List ℕ → List ℕ
until_gap none rest = []
until_gap (some leaf) rest = leaf ∷ rest

-- The leaves from i on, up to the first gap.
unfoldable pub dense : ℕ → ℕ → ByIndex → List ℕ
dense i zero m = []
dense i (suc n) m = until_gap (m i) (dense (i + 1) n m)

unfoldable pub fill_holes : List ℕ → List ℕ → ByIndex → ByIndex
unfolding fill
fill_holes hs leaves m =
    if ltb 0 (length hs) && length hs == length leaves then fill hs leaves m else m

unfoldable pub assemble : List ℕ → ScanResult → ℕ → List ℕ
unfolding put_indexed holes fill_holes dense
assemble base scan next_index =
    let known = put_indexed scan.indexed (get_elem? base) in
    dense 0 next_index (fill_holes (holes 0 next_index known) scan.unindexed known)

pub data RebuildError : Type 0 where
  pool_not_found : RebuildError
  not_scanned : ScanError → RebuildError
  mismatched : Mismatch → RebuildError

abbrev pub or_else {ℓ} : {A : Type ℓ} → Option A → Option A → Option A
or_else none b = b
or_else (some a) b = some a

-- An error, and whether the cache was cleared before it.
pub record Failure : Type 0 where
  pub error : RebuildError
  pub cleared : Bool

abbrev pub scanned {ℓ} : {A : Type ℓ} → Bool → Outcome ScanError A → Outcome Failure A
scanned cleared (ok a) = ok a
scanned cleared (err e) = err (record { error = not_scanned e; cleared = cleared })

abbrev pub matched {ℓ} : {A : Type ℓ} → Bool → Outcome Mismatch A → Outcome Failure A
matched cleared (ok a) = ok a
matched cleared (err e) = err (record { error = mismatched e; cleared = cleared })

-- The leaves and the newest signature, and whether the cache was cleared on the way.
pub record Gathered : Type 0 where
  pub leaves : List ℕ
  pub newest_signature : Option Base58
  pub cleared : Bool

-- A scan from the beginning.
unfoldable pub gather_all : Outcome ScanError ScanResult → ℕ → Outcome Failure Gathered
unfolding assemble
gather_all full next_index = do
  s ← scanned true full
  ok (record {
    leaves = assemble [] s next_index;
    newest_signature = s.newest_signature;
    cleared = true;
  })

-- The cached leaves, or those with the new deposits, or a full scan when some are still missing.
unfoldable pub gather :
    LeafCache
    → (Option Base58 → Outcome ScanError ScanResult)
    → Outcome ScanError ScanResult
    → ℕ
    → Outcome Failure Gathered
unfolding assemble gather_all
gather cached newer full next_index =
    let known = map leaf_to_bigint cached.leaves in
    if length known == next_index
    then ok (record { leaves = known; newest_signature = cached.last_signature; cleared = false })
    else (do
      s ← scanned false (newer cached.last_signature)
      (if length (assemble known s next_index) == next_index
          then ok (record {
            leaves = assemble known s next_index;
            newest_signature = or_else s.newest_signature cached.last_signature;
            cleared = false;
          })
          else gather_all full next_index))

pub record Rebuilt : Type 0 where
  pub tree : Tree
  pub leaves : List ℕ
  pub newest_signature : Option Base58
  pub cleared : Bool

module _ (hash : List ℕ → ℕ) where
  unfoldable pub build_tree : List ℕ → Tree
  build_tree leaves = rebuild hash (new_tree hash tree_depth) leaves

  unfoldable pub built : Gathered → Rebuilt
  unfolding build_tree
  built g = record {
    tree = build_tree g.leaves;
    leaves = g.leaves;
    newest_signature = g.newest_signature;
    cleared = g.cleared;
  }

  unfoldable pub verify_built : Rebuilt → PoolTreeState → Outcome Failure Rebuilt
  unfolding match_state
  verify_built r state = do v ← matched r.cleared (match_state r.tree state); ok r

  -- The `catch` around the check: one more scan from the beginning, when a cache was used.
  unfoldable pub rescan :
      LeafCache
      → Outcome ScanError ScanResult
      → PoolTreeState
      → Outcome Failure Rebuilt
      → Outcome Failure Rebuilt
  unfolding verify_built built gather_all
  rescan cached again state (ok r) = ok r
  rescan cached again state (err e) =
      if length cached.leaves == 0
      then err e
      else (do full ← gather_all again state.next_index; verify_built (built full) state)

  -- `newer` is the scan back to a signature, `full` and `again` the two scans of the whole history.
  unfoldable pub rebuild_merkle_tree :
      Option Account
      → LeafCache
      → (Option Base58 → Outcome ScanError ScanResult)
      → Outcome ScanError ScanResult
      → Outcome ScanError ScanResult
      → Outcome Failure Rebuilt
  unfolding read_pool_tree_state gather rescan built verify_built
  rebuild_merkle_tree none cached newer full again =
      err (record { error = pool_not_found; cleared = false })
  rebuild_merkle_tree (some account) cached newer full again = do
    state ← matched false (read_pool_tree_state account.bytes)
    g ← gather cached newer full state.next_index
    rescan cached again state (verify_built (built g) state)

  -- The cache after the rebuild: saved when it succeeds.
  unfoldable pub cache_after : Bool → Bool → Outcome Failure Rebuilt → Item → Item
  unfolding save_cache clear_cache
  cache_after writes removes (ok r) item =
      save_cache writes r.leaves r.newest_signature
        (if r.cleared then clear_cache removes item else item)
  cache_after writes removes (err e) item = if e.cleared then clear_cache removes item else item
