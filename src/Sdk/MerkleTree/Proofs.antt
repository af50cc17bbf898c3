-- ===== src/Sdk/MerkleTree/Proofs.antt =====
-- The root of a stored tree, the paths that it hands out, and what a path proves.
use solnado_cash.Base.{
  ℕ, zero, suc, ◌+◌, ◌-◌, ◌*◌, ◌/◌, ◌%◌, ◌^◌, ◌≤◌, ◌<◌, ◌≡◌, refl, sym, ap, ◌∙◌, ◌≢◌, inl, inr,
  none, some, List, [], ◌∷◌, arith, map, ◌==◌, if◌then◌else◌, length, get_or, Bool-cases, lt→ltb,
  ge→ltb,
}
use mathlib.Core.Path.{ap₂}
use native.Mathlib.Nat.{pow-suc, pow-zero}
use solnado_cash.Sdk.MerkleTree.{Tree, layer, node_at, root, Step, MerkleProof, climb, get_proof}
use solnado_cash.Sdk.MerkleTree.Reference.{
  size, node, empty_value, node-empty, node_in_lem, fold_path,
}
use solnado_cash.Sdk.MerkleTree.Insert.{IsTreeOf}

abbrev elements : List Step → List ℕ
elements = map (λ s. s.element)

abbrev sides : List Step → List ℕ
sides = map (λ s. s.index)

same_list :
    (xs ys : List ℕ) → length xs ≡ length ys → ((i : ℕ) → get_or xs i 0 ≡ get_or ys i 0) → xs ≡ ys
same_list [] [] l h = refl
same_list [] (y ∷ ys) l h = absurd (omega arith)
same_list (x ∷ xs) [] l h = absurd (omega arith)
same_list (x ∷ xs) (y ∷ ys) l h =
    ap₂ (λ a rest. a ∷ rest) (h 0) (same_list xs ys (omega arith) (λ i. h (suc i)))

module _ (hash : List ℕ → ℕ) where
  node_at-node :
      (t : Tree) (leaves : List ℕ) (l i : ℕ)
      → IsTreeOf hash t leaves
      → l ≤ t.depth
      → node_at t l i ≡ node hash l i leaves
  unfolding node_at
  node_at-node t leaves l i h d = (h.level l d).shows i

  stored_leaves :
      (t : Tree) (leaves : List ℕ) → IsTreeOf hash t leaves → length (layer t 0) ≡ length leaves
  unfolding size
  stored_leaves t leaves h = (h.level 0 (omega arith)).stored

  -- The lowest layer is the list of the leaves.
  pub layer-leaves : (t : Tree) (leaves : List ℕ) → IsTreeOf hash t leaves → layer t 0 ≡ leaves
  unfolding size node empty_value
  layer-leaves t leaves h =
      let zero_value : get_or t.zeros 0 0 ≡ 0 = h.shape.zeros_value 0 (omega arith) in
      same_list (layer t 0) leaves (stored_leaves t leaves h) λ i.
        ap (get_or (layer t 0) i) (sym zero_value)
        ∙ sym (node_in_lem (get_or t.zeros 0 0) (layer t 0) i)
        ∙ (h.level 0 (omega arith)).shows i

  empty_leaves : (leaves : List ℕ) → length leaves ≡ 0 → leaves ≡ []
  empty_leaves [] h = refl
  empty_leaves (x ∷ xs) h = absurd (omega arith)

  -- The root of a stored tree is the top node of the complete tree of its leaves, also when there
  -- are none.
  pub root-node :
      (t : Tree) (leaves : List ℕ) → IsTreeOf hash t leaves → root t ≡ node hash t.depth 0 leaves
  unfolding root
  root-node t leaves h = elim (Bool-cases (length (layer t 0) == 0)) [
    | inl empty ↦
        let none_left : length leaves ≡ 0 = ground (arith, stored_leaves t leaves h) in
        rw empty (
          h.shape.zeros_value t.depth (omega arith)
          ∙ sym (node-empty hash t.depth 0)
          ∙ ap (node hash t.depth 0) (sym (empty_leaves leaves none_left)))
    | inr more ↦ rw more (node_at-node t leaves t.depth 0 h (omega arith))
  ]

  -- One step of a path: the sibling on the side that the index says gives the parent.
  climb_step :
      (l i : ℕ) (leaves : List ℕ)
      → (if (if i % 2 == 1 then 1 else 0) == 1
          then hash
              (node hash l (if i % 2 == 1 then i - 1 else i + 1) leaves ∷ node hash l i leaves ∷ [])
          else hash (
              node hash l i leaves ∷ node hash l (if i % 2 == 1 then i - 1 else i + 1) leaves ∷ []))
        ≡ node hash (suc l) (i / 2) leaves
  unfolding node
  climb_step l i leaves = elim (Bool-cases (i % 2 == 1)) [
    | inl right ↦
        let odd : i - 1 ≡ i / 2 * 2 = ground arith in
        let self : i ≡ i / 2 * 2 + 1 = ground arith in
        rw right (ap₂ (λ a b. hash (node hash l a leaves ∷ node hash l b leaves ∷ [])) odd self)
    | inr left ↦
        let self : i ≡ i / 2 * 2 = ground arith in
        let even : i + 1 ≡ i / 2 * 2 + 1 = ground arith in
        rw left (ap₂ (λ a b. hash (node hash l a leaves ∷ node hash l b leaves ∷ [])) self even)
  ]

  fold_path-climb :
      (n l i : ℕ) (t : Tree) (leaves : List ℕ)
      → IsTreeOf hash t leaves
      → l + n ≡ t.depth
      → i < 2 ^ n
      → fold_path hash (node hash l i leaves) (elements (climb n t l i)) (sides (climb n t l i))
        ≡ node hash t.depth 0 leaves
  unfolding climb
  fold_path-climb zero l i t leaves h e b =
      ap₂ (λ a j. node hash a j leaves) (omega arith) (omega (arith, pow-zero 2))
  fold_path-climb (suc n) l i t leaves h e b =
      let sibling = if i % 2 == 1 then i - 1 else i + 1 in
      let shown : node_at t l sibling ≡ node hash l sibling leaves =
        node_at-node t leaves l sibling h (omega arith) in
      let up : suc l ≡ l + 1 = omega arith in
      let rest = climb n t (l + 1) (i / 2) in
      ap
        (λ s.
          fold_path hash
            (if (if i % 2 == 1 then 1 else 0) == 1
              then hash (s ∷ node hash l i leaves ∷ [])
              else hash (node hash l i leaves ∷ s ∷ []))
            (elements rest) (sides rest))
        shown
      ∙ ap (λ c. fold_path hash c (elements rest) (sides rest))
          (climb_step l i leaves ∙ ap (λ m. node hash m (i / 2) leaves) up)
      ∙ fold_path-climb n (l + 1) (i / 2) t leaves h (omega arith) (omega (arith, pow-suc 2 n))

  leaf_folds :
      (t : Tree) (leaves : List ℕ) (i : ℕ)
      → IsTreeOf hash t leaves
      → i < 2 ^ t.depth
      → fold_path hash
          (get_or leaves i 0)
          (elements (climb t.depth t 0 i))
          (sides (climb t.depth t 0 i))
        ≡ node hash t.depth 0 leaves
  unfolding node
  leaf_folds t leaves i h b = fold_path-climb t.depth 0 i t leaves h (omega arith) b

  get_proof-cases :
      (t : Tree) (leaves : List ℕ) (i : ℕ)
      → IsTreeOf hash t leaves
      → length leaves ≤ 2 ^ t.depth
      → ((length leaves ≤ i → get_proof t i ≡ none)
          × (i < length leaves
              → (p : MerkleProof) × (get_proof t i ≡ some p)
                × (fold_path hash (get_or leaves i 0) p.path_elements p.path_indices ≡ p.proof_root)
                × (p.proof_root ≡ root t)
                × (p.leaf_index ≡ i)))
  unfolding get_proof
  get_proof-cases t leaves i h fits =
      let stored = stored_leaves t leaves h in
      (
        λ out. rw (ge→ltb i (length (layer t 0)) (omega arith)),
        λ inside. (
          record {
            path_elements = elements (climb t.depth t 0 i);
            path_indices = sides (climb t.depth t 0 i);
            proof_root = root t;
            leaf_index = i;
          },
          rw (lt→ltb i (length (layer t 0)) (omega arith)),
          leaf_folds t leaves i h (omega arith) ∙ sym (root-node t leaves h),
          refl,
          refl,
        ),
      )

  -- Two different lists with one hash.
  pub record HashCollision : Type 0 where
    pub first : List ℕ
    pub second : List ℕ
    pub different : first ≢ second
    pub same : hash first ≡ hash second

  -- The place that the indices of a path spell, lowest level first.
  abbrev pub place_of : List ℕ → ℕ
  place_of [] = 0
  place_of (b ∷ bs) = place_of bs * 2 + (if b == 1 then 1 else 0)

  -- In a tree of at most 2 ^ depth leaves every stored leaf has a proof: folding its path from the
  -- leaf, as the circuit does, gives the root that it names, which is the root of the tree.
  pub get_proof-verifies :
      (t : Tree) (leaves : List ℕ) (i : ℕ)
      → IsTreeOf hash t leaves
      → length leaves ≤ 2 ^ t.depth
      → i < length leaves
      → (p : MerkleProof) × (get_proof t i ≡ some p)
        × (fold_path hash (get_or leaves i 0) p.path_elements p.path_indices ≡ p.proof_root)
        × (p.proof_root ≡ root t)
        × (p.leaf_index ≡ i)
  get_proof-verifies t leaves i stored fits inside =
      (get_proof-cases t leaves i stored fits).1 inside
