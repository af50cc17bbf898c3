-- ===== src/Tests/Rebuild.antt =====
-- app/src/utils/merkle.ts and leafCache.ts: pools of two deposits, rebuilt from scans and from a cache. The
-- hash is a sum here, so that the runs can be read.
use solnado_cash.Base.{
  ℕ, ◌+◌, ◌*◌, ◌≡◌, refl, true, false, none, some, Option, List, [], ◌∷◌, ◌++◌, arith, map,
  replicate, take, codes_eq, if◌then◌else◌, elem,
}
use solnado_cash.Base.Radix.{value}
use solnado_cash.Base.Buffer.{big, little}
use solnado_cash.Base.Json.{Json, string_to_bigint}
use solnado_cash.Base.Chain.{Account}
use solnado_cash.Base.Outcome.{Outcome, ok}
use solnado_cash.Sdk.MerkleTree.{rebuild, new_tree}
use solnado_cash.Sdk.PoolState.{PoolTreeState, read_pool_tree_state, match_state, ring_from}
use solnado_cash.App.Deposits.{Base58, ScanError}
use solnado_cash.App.Scan.{ScanResult, SignatureInfo, Rpc, collect}
use solnado_cash.App.Scan.Pages.{HasPages, collect-all}
use solnado_cash.App.LeafCache.{missing, LeafCache, load_cache, save_cache, leaf_to_bigint}
use solnado_cash.App.LeafCache.Trust.{load_cache-save_cache}
use solnado_cash.App.Rebuild.{
  put_indexed, holes, fill, fill_holes, dense, assemble, build_tree, rebuild_merkle_tree, Rebuilt,
}
use solnado_cash.App.Rebuild.Recover.{
  IsVerified, Passes, rebuild_merkle_tree-IsVerified, rebuild_merkle_tree-recovers,
}

abbrev hash : List ℕ → ℕ
hash [] = 1
hash (x ∷ xs) = x + 2 * hash xs

abbrev truth : List ℕ
truth = 5 ∷ 7 ∷ []

-- The second deposit has an event, the first has none.
abbrev scan : ScanResult
scan = record {
  indexed = record { leaf = 7; leaf_index = 1 } ∷ [];
  unindexed = 5 ∷ [];
  newest_signature = some (b'n' ∷ []);
}

-- Nothing without an event can fill the gap.
abbrev gap : ScanResult
gap = record {
  indexed = record { leaf = 7; leaf_index = 1 } ∷ [];
  unindexed = [];
  newest_signature = none;
}

assemble-gap : assemble [] gap 2 ≡ []
unfolding assemble holes put_indexed fill_holes fill dense
assemble-gap = refl

-- A pool account with two deposits, whose newest root is the tree's.
abbrev pool_bytes : List ℕ
pool_bytes =
    replicate 88 0
    ++ (2 ∷ replicate 55 0)
    ++ replicate 27 0
    ++ (1 ∷ 159 ∷ 168 ∷ 55 ∷ 51 ∷ [])
    ++ replicate 8160 0

abbrev account : Account
account = record { owner = []; bytes = pool_bytes }

-- A cache whose one leaf is wrong.
abbrev stale : LeafCache
stale = record { leaves = replicate 64 b'1' ∷ replicate 64 b'2' ∷ []; last_signature = none }

abbrev nothing_new : Option Base58 → Outcome ScanError ScanResult
nothing_new until = ok (record { indexed = []; unindexed = []; newest_signature = none })

rebuilds :
    (r : Rebuilt) × (rebuild_merkle_tree hash (some account) stale nothing_new (ok scan) (ok scan)
      ≡ ok r)
unfolding rebuild_merkle_tree read_pool_tree_state ring_from little rebuild new_tree big value
    leaf_to_bigint string_to_bigint elem
rebuilds = (_, refl)

rebuild_merkle_tree-IsVerified_example :
    (state : PoolTreeState) × (read_pool_tree_state account.bytes ≡ ok state)
    × IsVerified hash rebuilds.0 state
rebuild_merkle_tree-IsVerified_example =
    rebuild_merkle_tree-IsVerified hash account stale nothing_new (ok scan) (ok scan) rebuilds.0
      rebuilds.1

abbrev state : PoolTreeState
state = record { next_index = 2; current_root_index = 0; roots = ring_from pool_bytes 0 256 }

reads : read_pool_tree_state account.bytes ≡ ok state
unfolding read_pool_tree_state little
reads = refl

scan-Passes : Passes hash scan state
unfolding match_state build_tree rebuild assemble new_tree ring_from big value
scan-Passes = record { verified = _; passes = refl }

rebuild_merkle_tree-recovers_example :
    (r : Rebuilt) × (rebuild_merkle_tree hash (some account) stale nothing_new (ok scan) (ok scan)
      ≡ ok r)
rebuild_merkle_tree-recovers_example =
    rebuild_merkle_tree-recovers hash account state stale nothing_new _ scan scan reads scan-Passes
      scan-Passes refl (λ e. absurd (omega arith))

load_cache-save_cache_example :
    (map leaf_to_bigint (load_cache (save_cache true truth (some (b'n' ∷ [])) missing)).leaves
      ≡ truth)
    × ((load_cache (save_cache true truth (some (b'n' ∷ [])) missing)).last_signature
        ≡ some (b'n' ∷ []))
load_cache-save_cache_example =
    load_cache-save_cache truth (some (b'n' ∷ [])) missing (omega arith)
      (omega arith, (omega arith, tt))

-- Three signatures on pages of two.
abbrev third : SignatureInfo
third = record { signature = b'3' ∷ []; failed = false }

abbrev second : SignatureInfo
second = record { signature = b'2' ∷ []; failed = true }

abbrev first : SignatureInfo
first = record { signature = b'1' ∷ []; failed = false }

abbrev history : List SignatureInfo
history = third ∷ second ∷ first ∷ []

abbrev page_after : Option Base58 → List SignatureInfo
page_after none = third ∷ second ∷ []
page_after (some signature) =
    if codes_eq signature (b'3' ∷ [])
    then second ∷ first ∷ []
    else if codes_eq signature (b'2' ∷ [])
    then first ∷ []
    else []

abbrev rpc : Rpc
rpc = record {
  signatures = λ before until. ok (page_after before);
  transaction = λ signature. ok none;
  block_signatures = λ slot. ok [];
}

rpc-HasPages : HasPages rpc none 2 history
unfolding codes_eq
rpc-HasPages = record { first_page = refl; next_page = pages }
  where
    pages :
        (newer : List SignatureInfo) (s : SignatureInfo) (older : List SignatureInfo)
        → history ≡ newer ++ s ∷ older
        → ◌≡◌ {A = Outcome ScanError (List SignatureInfo)}
            (ok (page_after (some s.signature)))
            (ok (take 2 older))
    pages [] s older e =
        let here : s ≡ third = cc in
        let after : older ≡ second ∷ first ∷ [] = cc in rw (here, after) refl
    pages (x ∷ []) s older e =
        let here : s ≡ second = cc in let after : older ≡ first ∷ [] = cc in rw (here, after) refl
    pages (x ∷ y ∷ []) s older e =
        let here : s ≡ first = cc in let after : older ≡ [] = cc in rw (here, after) refl
    pages (x ∷ y ∷ z ∷ []) s older e = cc
    pages (x ∷ y ∷ z ∷ w ∷ rest) s older e = cc

collect-all_example : collect 4 rpc none none [] ≡ ok history
collect-all_example = collect-all rpc none 1 history 4 rpc-HasPages (omega arith)
