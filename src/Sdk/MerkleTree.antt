-- ===== src/Sdk/MerkleTree.antt =====
-- sdk/src/proof.js: the Merkle tree of a pool's deposits. `hash` is `poseidonHash`, circomlib's
-- Poseidon on a list of field elements, a parameter. A tree is built after `initPoseidon`, so the
-- errors of a use before it are left out.
pub mod Reference
pub mod Insert
pub mod Proofs
pub mod Search
use solnado_cash.Base.{
  ℕ, zero, suc, ◌+◌, ◌-◌, ◌*◌, ◌/◌, ◌%◌, Bool, true, false, Option, none, some, List, [], ◌∷◌, ◌++◌,
  map, ltb, ◌==◌, if◌then◌else◌, length, get_or, set, replicate,
}

abbrev pub tree_depth : ℕ
tree_depth = 20

pub record Tree : Type 0 where
  pub depth : ℕ
  pub zeros : List ℕ
  pub layers : List (List ℕ)

abbrev pub layer : Tree → ℕ → List ℕ
layer t level = get_or t.layers level []

abbrev pub next_index : Tree → ℕ
next_index t = length (layer t 0)

-- `nodeAt` on one layer: its entry, or the empty subtree's value.
abbrev pub node_in : ℕ → List ℕ → ℕ → ℕ
node_in z nodes index = if ltb index (length nodes) then get_or nodes index 0 else z

unfoldable pub node_at : Tree → ℕ → ℕ → ℕ
node_at t level index = node_in (get_or t.zeros level 0) (layer t level) index

unfoldable pub root : Tree → ℕ
unfolding node_at
root t = if length (layer t 0) == 0 then get_or t.zeros t.depth 0 else node_at t t.depth 0

-- Overwrite the parent, or push it.
abbrev pub put_parent : List ℕ → ℕ → ℕ → List ℕ
put_parent nodes index parent =
    if ltb index (length nodes) then set nodes index parent else nodes ++ parent ∷ []

-- indexOf: the first place of a leaf from place i on, `none` for -1.
unfoldable pub index_of : ℕ → ℕ → List ℕ → Option ℕ
index_of leaf i [] = none
index_of leaf i (x ∷ xs) = if x == leaf then some i else index_of leaf (i + 1) xs

unfoldable pub find_leaf : Tree → ℕ → Option ℕ
unfolding index_of
find_leaf t leaf = index_of leaf 0 (layer t 0)

unfoldable pub indices_of : ℕ → ℕ → List ℕ → List ℕ
indices_of leaf i [] = []
indices_of leaf i (x ∷ xs) =
    let rest = indices_of leaf (i + 1) xs in if x == leaf then i ∷ rest else rest

unfoldable pub find_all_leaves : Tree → ℕ → List ℕ
unfolding indices_of
find_all_leaves t leaf = indices_of leaf 0 (layer t 0)

unfoldable pub has_leaf : Tree → ℕ → Bool
unfolding find_leaf
has_leaf t leaf = elim (find_leaf t leaf) [ none ↦ false | some i ↦ true ]

pub record Step : Type 0 where
  pub element : ℕ
  pub index : ℕ

pub record MerkleProof : Type 0 where
  pub path_elements : List ℕ
  pub path_indices : List ℕ
  pub proof_root : ℕ
  pub leaf_index : ℕ

-- The loop of `getProof` from a level, over the levels left.
unfoldable pub climb : ℕ → Tree → ℕ → ℕ → List Step
unfolding node_at
climb zero t level current = []
climb (suc n) t level current =
    let is_right = current % 2 == 1 in
    let sibling = if is_right then current - 1 else current + 1 in
    record { element = node_at t level sibling; index = if is_right then 1 else 0 }
    ∷ climb n t (level + 1) (current / 2)

unfoldable pub get_proof : Tree → ℕ → Option MerkleProof
unfolding climb root
get_proof t leaf_index =
    let steps = climb t.depth t 0 leaf_index in
    if ltb leaf_index (length (layer t 0))
    then some (record {
      path_elements = map (λ s. s.element) steps;
      path_indices = map (λ s. s.index) steps;
      proof_root = root t;
      leaf_index = leaf_index;
    })
    else none

module _ (hash : List ℕ → ℕ) where
  -- zeros[i] = poseidonHash(zeros[i - 1], zeros[i - 1]), from z on
  unfoldable pub build_zeros : ℕ → ℕ → List ℕ
  build_zeros zero z = z ∷ []
  build_zeros (suc n) z = z ∷ build_zeros n (hash (z ∷ z ∷ []))

  unfoldable pub new_tree : ℕ → Tree
  unfolding build_zeros
  new_tree depth = record {
    depth = depth;
    zeros = build_zeros depth 0;
    layers = replicate (suc depth) [];
  }

  -- The loop of `insert` from a level above 0, over the levels left. The clause names the level below.
  unfoldable pub raise : ℕ → ℕ → ℕ → Tree → Tree
  unfolding node_at
  raise zero below current t = t
  raise (suc n) below current t =
      let parent_index = current / 2 in
      let left = node_at t below (parent_index * 2) in
      let right = node_at t below (parent_index * 2 + 1) in
      let nodes = put_parent (layer t (suc below)) parent_index (hash (left ∷ right ∷ [])) in
      raise n (suc below) parent_index (record t { layers = set t.layers (suc below) nodes })

  unfoldable pub insert : Tree → ℕ → Tree × ℕ
  unfolding raise
  insert t leaf =
      let index = length (layer t 0) in
      (raise t.depth 0 index (record t { layers = set t.layers 0 (layer t 0 ++ leaf ∷ []) }), index)

  -- The tree that a client rebuilds from the deposit events.
  unfoldable pub rebuild : Tree → List ℕ → Tree
  unfolding insert
  rebuild t [] = t
  rebuild t (leaf ∷ leaves) = rebuild (insert t leaf).0 leaves
