-- ===== src/Sdk/PoolState.antt =====
-- sdk/src/proof.ts, the check of a rebuilt tree against the pool's account: `readPoolTreeState` and
-- `verifyTreeMatchesPool`. Lengths and indices are below 2 ^ 53, so `Number` of one is itself.
use solnado_cash.Base.{ℕ, zero, suc, ◌+◌, ◌*◌, List, [], ◌∷◌, ltb, ◌==◌, if◌then◌else◌, length}
use solnado_cash.Base.Buffer.{read_u64_le, subarray, big}
use solnado_cash.Base.Outcome.{Outcome, ok, err, ◌>>=◌, from_option}
use solnado_cash.Sdk.MerkleTree.{Tree, next_index, root, index_of}

abbrev pub root_history_size : ℕ
root_history_size = 256

abbrev pub pool_next_index_offset : ℕ
pool_next_index_offset = 8 + 80

abbrev pub pool_current_root_index_offset : ℕ
pool_current_root_index_offset = 8 + 128

abbrev pub pool_root_history_offset : ℕ
pool_root_history_offset = 8 + 136

abbrev pub pool_min_len : ℕ
pool_min_len = pool_root_history_offset + root_history_size * 32

pub record PoolTreeState : Type 0 where
  pub next_index : ℕ
  pub current_root_index : ℕ
  pub roots : List ℕ

-- What the two functions throw, with the numbers in the message.
pub data Mismatch : Type 0 where
  too_small : ℕ → Mismatch
  incomplete : ℕ → ℕ → Mismatch
  unknown_root : Mismatch

-- The slots of the ring from i on.
unfoldable pub ring_from : List ℕ → ℕ → ℕ → List ℕ
ring_from pool_data i zero = []
ring_from pool_data i (suc n) =
    big (subarray pool_data (pool_root_history_offset + i * 32) 32) ∷ ring_from pool_data (i + 1) n

unfoldable pub read_pool_tree_state : List ℕ → Outcome Mismatch PoolTreeState
unfolding ring_from
read_pool_tree_state pool_data =
    if ltb (length pool_data) pool_min_len
    then err (too_small (length pool_data))
    else ok (record {
      next_index = read_u64_le pool_data pool_next_index_offset;
      current_root_index = read_u64_le pool_data pool_current_root_index_offset;
      roots = ring_from pool_data 0 root_history_size;
    })

pub record Verified : Type 0 where
  pub verified_root : ℕ
  pub leaf_count : ℕ
  pub root_index : ℕ

-- The part of `verifyTreeMatchesPool` after the account was read.
unfoldable pub match_state : Tree → PoolTreeState → Outcome Mismatch Verified
unfolding root index_of
match_state tree state =
    if next_index tree == state.next_index
    then (do
      i ← from_option unknown_root (index_of (root tree) 0 state.roots)
      ok (record { verified_root = root tree; leaf_count = next_index tree; root_index = i }))
    else err (incomplete (next_index tree) state.next_index)

unfoldable pub verify_tree_matches_pool : Tree → List ℕ → Outcome Mismatch Verified
unfolding read_pool_tree_state match_state
verify_tree_matches_pool tree pool_data = do
  state ← read_pool_tree_state pool_data
  match_state tree state
