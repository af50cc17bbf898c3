-- ===== src/Sdk/MerkleTree/Insert.antt =====
-- Insertion keeps the stored layers those of the complete tree.
use Prim.Native.Nat.add
use solnado_cash.Base.{
  ℕ, zero, suc, ◌+◌, ◌*◌, ◌/◌, ◌≤◌, ◌<◌, ◌≡◌, refl, sym, ap, ◌∙◌, ◌≢◌, List, [], ◌∷◌, ◌++◌, arith,
  ◌==◌, length, get_or, set, replicate, Bool-cases, inl, inr, get_or-set_self, get_or-set_ne,
  length-set, length-replicate, get_or-snoc_self, ge→ltb,
}
use mathlib.Core.Path.{ap₂, subst}
use mathlib.Core.List.{append_assoc, append-nil}
use solnado_cash.Sdk.MerkleTree.{
  Tree, layer, node_at, put_parent, build_zeros, new_tree, raise, insert, rebuild,
}
use solnado_cash.Sdk.MerkleTree.Reference.{
  size, place, node, empty_value, node-empty, IsLayer, put_parent-IsLayer, node_in_lem,
}

module _ (hash : List ℕ → ℕ) where
  -- The stored zeros are the empty subtrees' values, and there is a layer for each level.
  pub record IsShaped (t : Tree) : Type 0 where
    pub layers_count : length t.layers ≡ suc t.depth
    pub zeros_value : (l : ℕ) → l ≤ t.depth → get_or t.zeros l 0 ≡ empty_value hash l

  abbrev pub LayerOf : Tree → ℕ → List ℕ → Type 0
  LayerOf t l leaves = IsLayer hash (get_or t.zeros l 0) (layer t l) l leaves

  -- The tree stores the leaves, in their order, with every node above them.
  pub record IsTreeOf (t : Tree) (leaves : List ℕ) : Type 0 where
    pub shape : IsShaped t
    pub level : (l : ℕ) → l ≤ t.depth → LayerOf t l leaves

  get_or-build_zeros :
      (n k l : ℕ)
      → l ≤ n
      → get_or (build_zeros hash n (empty_value hash k)) l 0 ≡ empty_value hash (k + l)
  unfolding build_zeros empty_value
  get_or-build_zeros zero k zero h = ap (empty_value hash) (omega arith)
  get_or-build_zeros zero k (suc l) h = absurd (omega arith)
  get_or-build_zeros (suc n) k zero h = ap (empty_value hash) (omega arith)
  get_or-build_zeros (suc n) k (suc l) h =
      get_or-build_zeros n (suc k) l (omega arith) ∙ ap (empty_value hash) (omega arith)

  get_or-replicate : (n l : ℕ) → get_or (replicate {A = List ℕ} n []) l [] ≡ []
  get_or-replicate zero l = refl
  get_or-replicate (suc n) zero = refl
  get_or-replicate (suc n) (suc l) = get_or-replicate n l

  size_zero : (l : ℕ) → size l 0 ≡ 0
  unfolding size
  size_zero zero = refl
  size_zero (suc l) = omega (arith, size_zero l)

  IsLayer-nil :
      (z l : ℕ) (nodes : List ℕ) → nodes ≡ [] → z ≡ empty_value hash l → IsLayer hash z nodes l []
  IsLayer-nil z l nodes e h = record {
    stored = ap length e ∙ sym (size_zero l);
    shows = λ i. node_in_lem z nodes i ∙ ap (λ n. get_or n i z) e ∙ h ∙ sym (node-empty hash l i);
  }

  -- A new tree of any depth is the tree of no leaves.
  pub new_tree-IsTreeOf : (depth : ℕ) → IsTreeOf (new_tree hash depth) []
  unfolding new_tree empty_value
  new_tree-IsTreeOf depth =
      let zeros = λ (l : ℕ) (h : l ≤ depth).
        get_or-build_zeros depth 0 l h ∙ ap (empty_value hash) (add.zero l) in
      record {
        shape = record { layers_count = length-replicate (suc depth) []; zeros_value = zeros };
        level = λ l h. IsLayer-nil _ l _ (get_or-replicate (suc depth) l) (zeros l h);
      }

  -- Levels below one hold the new leaves, the others the old ones.
  record IsStage (t : Tree) (below : ℕ) (leaves : List ℕ) (x : ℕ) : Type 0 where
    stage_shape : IsShaped t
    done : (l : ℕ) → l ≤ below → l ≤ t.depth → LayerOf t l (leaves ++ x ∷ [])
    todo : (l : ℕ) → below < l → l ≤ t.depth → LayerOf t l leaves

  abbrev with_layer : Tree → ℕ → List ℕ → Tree
  with_layer t l nodes = record t { layers = set t.layers l nodes }

  with_layer-IsShaped :
      (t : Tree) (l : ℕ) (nodes : List ℕ) → IsShaped t → IsShaped (with_layer t l nodes)
  with_layer-IsShaped t l nodes s = record {
    layers_count = length-set t.layers l nodes ∙ s.layers_count;
    zeros_value = s.zeros_value;
  }

  kept :
      (t : Tree) (m : ℕ) (nodes : List ℕ) (l : ℕ) (ls : List ℕ)
      → m ≢ l
      → LayerOf t l ls
      → LayerOf (with_layer t m nodes) l ls
  kept t m nodes l ls n old =
      subst (λ k. IsLayer hash (get_or t.zeros l 0) k l ls)
        (sym (get_or-set_ne t.layers m l nodes [] n)) old

  module _ (t : Tree) (below x : ℕ) (leaves : List ℕ) (s : IsStage t below leaves x) where
    abbrev k : ℕ
    k = place (suc below) (length leaves)

    abbrev parent : ℕ
    parent = hash (node_at t below (k * 2) ∷ node_at t below (k * 2 + 1) ∷ [])

    abbrev nodes : List ℕ
    nodes = put_parent (layer t (suc below)) k parent

    node_at_below :
        below ≤ t.depth → (i : ℕ) → node_at t below i ≡ node hash below i (leaves ++ x ∷ [])
    unfolding node_at
    node_at_below h i = (s.done below (omega arith) h).shows i

    new-IsLayer :
        suc below ≤ t.depth
        → IsLayer hash (get_or t.zeros (suc below) 0) nodes (suc below) (leaves ++ x ∷ [])
    unfolding node
    new-IsLayer h =
        put_parent-IsLayer hash _ (suc below) x _ leaves parent (s.todo (suc below) (omega arith) h)
          (ap₂ (λ a b. hash (a ∷ b ∷ [])) (node_at_below (omega arith) (k * 2))
            (node_at_below (omega arith) (k * 2 + 1)))

    placed :
        suc below ≤ t.depth
        → LayerOf (with_layer t (suc below) nodes) (suc below) (leaves ++ x ∷ [])
    placed h =
        let count : length t.layers ≡ suc t.depth = s.stage_shape.layers_count in
        subst (λ m. IsLayer hash (get_or t.zeros (suc below) 0) m (suc below) (leaves ++ x ∷ []))
          (sym (get_or-set_self t.layers (suc below) nodes [] (omega arith))) (new-IsLayer h)

    IsStage-step :
        suc below ≤ t.depth → IsStage (with_layer t (suc below) nodes) (suc below) leaves x
    IsStage-step h = record {
      stage_shape = with_layer-IsShaped t (suc below) nodes s.stage_shape;
      done = λ l le ld. elim (Bool-cases (l == suc below)) [
        | inl here ↦
            let same : suc below ≡ l = ground arith in
            subst (λ j. LayerOf (with_layer t (suc below) nodes) j (leaves ++ x ∷ [])) same
              (placed h)
        | inr there ↦ kept t (suc below) nodes l _ (ground arith) (s.done l (ground arith) ld)
      ];
      todo = λ l lt ld. kept t (suc below) nodes l leaves (omega arith) (s.todo l (omega arith) ld);
    }

  raise-IsTreeOf :
      (n below x : ℕ) (t : Tree) (leaves : List ℕ)
      → below + n ≡ t.depth
      → IsStage t below leaves x
      → IsTreeOf (raise hash n below (place below (length leaves)) t) (leaves ++ x ∷ [])
  unfolding raise place
  raise-IsTreeOf zero below x t leaves e s = record {
    shape = s.stage_shape;
    level = λ l h. s.done l (omega arith) h;
  }
  raise-IsTreeOf (suc n) below x t leaves e s =
      raise-IsTreeOf n (suc below) x _ leaves (omega arith)
        (IsStage-step t below x leaves s (omega arith))

  depth-raise : (n below current : ℕ) (t : Tree) → (raise hash n below current t).depth ≡ t.depth
  unfolding raise
  depth-raise zero below current t = refl
  depth-raise (suc n) below current t = depth-raise n (suc below) (current / 2) _

  pub leaf_layer :
      (t : Tree) (leaves : List ℕ) → IsTreeOf t leaves → length (layer t 0) ≡ length leaves
  unfolding size
  leaf_layer t leaves h = (h.level 0 (omega arith)).stored

  pushed : (nodes : List ℕ) (n x : ℕ) → length nodes ≡ n → put_parent nodes n x ≡ nodes ++ x ∷ []
  pushed nodes n x e = rw (ge→ltb n (length nodes) (omega arith))

  first-IsLayer :
      (z x : ℕ) (nodes leaves : List ℕ)
      → IsLayer hash z nodes 0 leaves
      → IsLayer hash z (nodes ++ x ∷ []) 0 (leaves ++ x ∷ [])
  unfolding node size
  first-IsLayer z x nodes leaves h =
      let size_same : length nodes ≡ length leaves = h.stored in
      subst (λ m. IsLayer hash z m 0 (leaves ++ x ∷ [])) (pushed nodes (length leaves) x size_same)
        (unfold place in
          put_parent-IsLayer hash z 0 x nodes leaves x h (sym (get_or-snoc_self leaves x 0)))

  first-IsStage :
      (t : Tree) (leaves : List ℕ) (x : ℕ)
      → IsTreeOf t leaves
      → IsStage (with_layer t 0 (layer t 0 ++ x ∷ [])) 0 leaves x
  first-IsStage t leaves x h = record {
    stage_shape = with_layer-IsShaped t 0 _ h.shape;
    done = done_at;
    todo = λ l lt ld. kept t 0 _ l leaves (omega arith) (h.level l ld);
  }
    where
      done_at :
          (l : ℕ)
          → l ≤ 0
          → l ≤ t.depth
          → LayerOf (with_layer t 0 (layer t 0 ++ x ∷ [])) l (leaves ++ x ∷ [])
      done_at zero le ld =
          let count : length t.layers ≡ suc t.depth = h.shape.layers_count in
          subst (λ m. IsLayer hash (get_or t.zeros 0 0) m 0 (leaves ++ x ∷ []))
            (sym (get_or-set_self t.layers 0 (layer t 0 ++ x ∷ []) [] (omega arith)))
            (first-IsLayer _ x (layer t 0) leaves (h.level 0 (omega arith)))
      done_at (suc l) le ld = absurd (omega arith)

  -- Inserting a leaf gives the tree of the leaves with the new one at the end, at any depth, and
  -- returns the new leaf's place.
  pub insert-IsTreeOf :
      (t : Tree) (leaves : List ℕ) (x : ℕ)
      → IsTreeOf t leaves
      → IsTreeOf (insert hash t x).0 (leaves ++ x ∷ []) × ((insert hash t x).1 ≡ length leaves)
  unfolding insert place
  insert-IsTreeOf t leaves x h =
      let count = leaf_layer t leaves h in
      (
        subst
            (λ m.
              IsTreeOf (raise hash t.depth 0 m (with_layer t 0 (layer t 0 ++ x ∷ [])))
                (leaves ++ x ∷ []))
            (sym count)
            (raise-IsTreeOf t.depth 0 x (with_layer t 0 (layer t 0 ++ x ∷ [])) leaves (omega arith)
              (first-IsStage t leaves x h)),
        count,
      )

  -- A tree rebuilt from deposits is the tree of its old leaves followed by the deposits in order.
  pub rebuild-IsTreeOf :
      (t : Tree) (leaves more : List ℕ)
      → IsTreeOf t leaves
      → IsTreeOf (rebuild hash t more) (leaves ++ more)
  unfolding rebuild
  rebuild-IsTreeOf t leaves [] h = rw append-nil h
  rebuild-IsTreeOf t leaves (x ∷ more) h = subst (IsTreeOf _) (append_assoc leaves (x ∷ []) more) (
      rebuild-IsTreeOf (insert hash t x).0 (leaves ++ x ∷ []) more (insert-IsTreeOf t leaves x h).0)

  pub depth-rebuild : (t : Tree) (more : List ℕ) → (rebuild hash t more).depth ≡ t.depth
  unfolding rebuild insert
  depth-rebuild t [] = refl
  depth-rebuild t (x ∷ more) =
      depth-rebuild (insert hash t x).0 more ∙ depth-raise t.depth 0 (length (layer t 0)) _
