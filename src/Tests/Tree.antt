-- ===== src/Tests/Tree.antt =====
-- sdk/src/proof.js: a tree of depth two with three deposits, and a withdrawal from it. The hash is a
-- sum here, so that the runs can be read.
use solnado_cash.Base.{
  ℕ, zero, suc, ◌+◌, ◌*◌, ◌≤◌, ◌<◌, ◌^◌, ◌≡◌, refl, ◌↔◌, true, none, some, Option, List, [], ◌∷◌,
  ◌++◌, arith, length, elem, replicate,
}
use solnado_cash.Base.Radix.{value, value_from}
use solnado_cash.Base.Buffer.{IsBytes, big}
use solnado_cash.Base.Json.{Json}
use solnado_cash.Base.Chain.{Key, Thrown, reply}
use solnado_cash.Sdk.MerkleTree.{
  Tree, layer, new_tree, insert, rebuild, root, get_proof, MerkleProof,
}
use solnado_cash.Sdk.MerkleTree.Reference.{fold_path}
use solnado_cash.Sdk.MerkleTree.Insert.{
  IsTreeOf, new_tree-IsTreeOf, insert-IsTreeOf, rebuild-IsTreeOf,
}
use solnado_cash.Sdk.MerkleTree.Proofs.{get_proof-verifies}
use solnado_cash.Sdk.Withdraw.{SecretNote, FeeTerms, inputs_of}
use solnado_cash.Sdk.Withdraw.Relaying.{posted, inputs_of-preflight}
use solnado_cash.Relayer.Preflight.{preflight, pass, Submission, Lookup, root_at}
use solnado_cash.Relayer.Preflight.Keys.{IsKey}
use solnado_cash.Relayer.Preflight.Roots.{InRing}
use solnado_cash.Relayer.Preflight.Verdicts.{IsSpent}

abbrev hash : List ℕ → ℕ
hash [] = 1
hash (x ∷ xs) = x + 2 * hash xs

empty-IsTreeOf : IsTreeOf hash (new_tree hash 2) []
empty-IsTreeOf = new_tree-IsTreeOf hash 2

insert-IsTreeOf_example :
    IsTreeOf hash (insert hash (new_tree hash 2) 5).0 (5 ∷ [])
    × ((insert hash (new_tree hash 2) 5).1 ≡ 0)
insert-IsTreeOf_example = insert-IsTreeOf hash (new_tree hash 2) [] 5 empty-IsTreeOf

abbrev note : SecretNote
note = record { nullifier = 3; secret = 4; denomination = 10 }

abbrev leaves : List ℕ
leaves = 5 ∷ hash (3 ∷ 4 ∷ 10 ∷ []) ∷ 7 ∷ []

abbrev tree : Tree
tree = rebuild hash (new_tree hash 2) leaves

tree-IsTreeOf : IsTreeOf hash tree leaves
tree-IsTreeOf = rebuild-IsTreeOf hash (new_tree hash 2) [] leaves empty-IsTreeOf

tree_fits : length leaves ≤ 2 ^ tree.depth
unfolding rebuild insert new_tree
tree_fits = omega arith

get_proof-verifies_example :
    (p : MerkleProof) × (get_proof tree 2 ≡ some p)
    × (fold_path hash 7 p.path_elements p.path_indices ≡ p.proof_root)
    × (p.proof_root ≡ root tree)
    × (p.leaf_index ≡ 2)
get_proof-verifies_example =
    get_proof-verifies hash tree leaves 2 tree-IsTreeOf tree_fits (omega arith)

seven_stored : elem 7 (layer tree 0) ≡ true
unfolding rebuild new_tree elem
seven_stored = refl

abbrev recipient : Key
recipient = replicate 32 3

abbrev terms : FeeTerms
terms = record { relayer_address = replicate 32 8; relayer_fee_max = 2_000_000 }

-- The withdrawal of the first leaf's proof, posted to the quoting relayer.
abbrev path : MerkleProof
path = record {
  path_elements = 59 ∷ 11 ∷ [];
  path_indices = 0 ∷ 0 ∷ [];
  proof_root = 153;
  leaf_index = 0;
}

abbrev pool_bytes : List ℕ
pool_bytes = replicate 175 0 ++ (153 ∷ [])

abbrev error : Json → Thrown
error = λ v. record { message = []; logs = [] }

abbrev posted_inputs : Submission
posted_inputs =
    posted (inputs_of hash note terms (replicate 32 3) path) pool_bytes (replicate 32 8) 2_000_000
      (replicate 32 3) none

inputs_of-preflight_example :
    (preflight hash error posted_inputs ≡ reply pass)
    ↔ ((0 < 153) × InRing pool_bytes 153 × ¬ IsSpent posted_inputs)
inputs_of-preflight_example =
    inputs_of-preflight hash error note terms (replicate 32 3) path pool_bytes none

root-InRing : InRing pool_bytes 153
unfolding root_at big value value_from
root-InRing = record { place = 0; in_range = omega arith; found = refl }

posted_inputs_pass : preflight hash error posted_inputs ≡ reply pass
posted_inputs_pass =
    (inputs_of-preflight hash error note terms (replicate 32 3) path pool_bytes none).1
      (omega arith, root-InRing, λ s. not_found s.via_lookup)
  where
    not_found : {l : Lookup} → ◌≡◌ {A = Option Lookup} none (some l) → ⊥
    not_found e = cc e

replicate-IsKey : (b : ℕ) → b < 256 → IsKey (replicate 32 b)
replicate-IsKey b h = record { size = refl; bytes = replicate-IsBytes 32 b h }
  where
    replicate-IsBytes : (n b : ℕ) → b < 256 → IsBytes (replicate n b)
    replicate-IsBytes zero b h = tt
    replicate-IsBytes (suc n) b h = (h, replicate-IsBytes n b h)
