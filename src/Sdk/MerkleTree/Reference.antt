-- ===== src/Sdk/MerkleTree/Reference.antt =====
-- The tree by its definition, as the program and the circuit see it: a complete binary tree of the
-- leaves, padded with zeros, and the fold of a path as circuits/merkle computes it.
use solnado_cash.Base.{
  ℕ, zero, suc, ◌+◌, ◌*◌, ◌/◌, ◌≤◌, ◌<◌, ◌≡◌, refl, sym, ap, ◌∙◌, ◌≢◌, List, [], ◌∷◌, ◌++◌, arith,
  ltb, ◌==◌, if◌then◌else◌, length, get_or, Bool-cases, inl, inr, ltb→lt, get_or-snoc_ne,
  get_or-set_self, get_or-set_ne, get_or-snoc_self, get_or-out, length-set, length-append,
}
use mathlib.Core.Path.{ap₂}
use solnado_cash.Sdk.MerkleTree.{node_in, put_parent}

-- How many nodes of a level are stored, and where the path of leaf n passes.
unfoldable pub size : ℕ → ℕ → ℕ
size zero n = n
size (suc level) n = (size level n + 1) / 2

unfoldable pub place : ℕ → ℕ → ℕ
place zero n = n
place (suc level) n = place level n / 2

pub place-size : (level n : ℕ) → (place level n ≤ size level n) × (size level n ≤ place level n + 1)
unfolding place size
place-size zero n = omega arith
place-size (suc level) n = let (low, high) = place-size level n in (omega arith, omega arith)

pub size_next : (level n : ℕ) → size level (n + 1) ≡ place level n + 1
unfolding place size
size_next zero n = refl
size_next (suc level) n = omega (arith, size_next level n)

module _ (hash : List ℕ → ℕ) where
  unfoldable pub node : ℕ → ℕ → List ℕ → ℕ
  node zero i leaves = get_or leaves i 0
  node (suc level) i leaves = hash (node level (i * 2) leaves ∷ node level (i * 2 + 1) leaves ∷ [])

  unfoldable pub empty_value : ℕ → ℕ
  empty_value zero = 0
  empty_value (suc level) = hash (empty_value level ∷ empty_value level ∷ [])

  pub node-empty : (level i : ℕ) → node level i [] ≡ empty_value level
  unfolding node empty_value
  node-empty zero i = refl
  node-empty (suc level) i =
      ap₂ (λ a b. hash (a ∷ b ∷ [])) (node-empty level (i * 2)) (node-empty level (i * 2 + 1))

  -- A new leaf changes only the nodes above it.
  pub node-snoc :
      (level i x : ℕ) (leaves : List ℕ)
      → i ≢ place level (length leaves)
      → node level i (leaves ++ x ∷ []) ≡ node level i leaves
  unfolding node place
  node-snoc zero i x leaves h = get_or-snoc_ne leaves i x 0 h
  node-snoc (suc level) i x leaves h =
      ap₂ (λ a b. hash (a ∷ b ∷ [])) (node-snoc level (i * 2) x leaves (λ e. h (omega arith)))
        (node-snoc level (i * 2 + 1) x leaves (λ e. h (omega arith)))

  -- A stored layer shows the nodes of a level.
  pub record IsLayer (z : ℕ) (nodes : List ℕ) (level : ℕ) (leaves : List ℕ) : Type 0 where
    pub stored : length nodes ≡ size level (length leaves)
    pub shows : (i : ℕ) → node_in z nodes i ≡ node level i leaves

get_or_inside :
    (nodes : List ℕ) (i a b : ℕ) → i < length nodes → get_or nodes i a ≡ get_or nodes i b
get_or_inside [] i a b h = elim h [ ]
get_or_inside (x ∷ xs) zero a b h = refl
get_or_inside (x ∷ xs) (suc i) a b h = get_or_inside xs i a b (omega arith)

pub node_in_lem : (z : ℕ) (nodes : List ℕ) (i : ℕ) → node_in z nodes i ≡ get_or nodes i z
node_in_lem z nodes i = elim (Bool-cases (ltb i (length nodes))) [
  | inl inside ↦ rw inside (get_or_inside nodes i 0 z (ltb→lt i _ inside))
  | inr outside ↦ rw outside (sym (get_or-out nodes i z (ground arith)))
]

get_or-put_parent_self :
    (z : ℕ) (nodes : List ℕ) (k p : ℕ) → k ≤ length nodes → get_or (put_parent nodes k p) k z ≡ p
get_or-put_parent_self z nodes k p h = elim (Bool-cases (ltb k (length nodes))) [
  | inl inside ↦ rw inside (get_or-set_self nodes k p z (ltb→lt k _ inside))
  | inr outside ↦
      let e : k ≡ length nodes = ground arith in
      rw outside (ap (λ j. get_or (nodes ++ p ∷ []) j z) e ∙ get_or-snoc_self nodes p z)
]

get_or-put_parent_ne :
    (z : ℕ) (nodes : List ℕ) (k p i : ℕ)
    → k ≤ length nodes
    → i ≢ k
    → get_or (put_parent nodes k p) i z ≡ get_or nodes i z
get_or-put_parent_ne z nodes k p i h n = elim (Bool-cases (ltb k (length nodes))) [
  | inl inside ↦ rw inside (get_or-set_ne nodes k i p z (λ e. n (sym e)))
  | inr outside ↦
      let e : k ≡ length nodes = ground arith in
      rw outside (get_or-snoc_ne nodes i p z (λ f. n (f ∙ sym e)))
]

length-put_parent :
    (nodes : List ℕ) (k p : ℕ)
    → k ≤ length nodes
    → length nodes ≤ k + 1
    → length (put_parent nodes k p) ≡ k + 1
length-put_parent nodes k p h l = ground (arith, length-set nodes k p, length-append nodes (p ∷ []))

module _ (hash : List ℕ → ℕ) (z level x : ℕ) (nodes leaves : List ℕ) where
  -- Writing the right value at the place of the new leaf's path turns a layer of the old leaves into a
  -- layer of the new ones.
  pub put_parent-IsLayer :
      (p : ℕ)
      → IsLayer hash z nodes level leaves
      → p ≡ node hash level (place level (length leaves)) (leaves ++ x ∷ [])
      → IsLayer hash z (put_parent nodes (place level (length leaves)) p) level (leaves ++ x ∷ [])
  put_parent-IsLayer p old e =
      let k = place level (length leaves) in
      let (low, high) = place-size level (length leaves) in
      let stored : length nodes ≡ size level (length leaves) = old.stored in
      let fits : k ≤ length nodes = omega arith in
      record {
        stored =
            length-put_parent nodes k p fits (omega arith)
            ∙ sym (size_next level (length leaves))
            ∙ ap (size level) (sym (length-append leaves (x ∷ [])));
        shows = λ i. node_in_lem z _ i ∙ elim (Bool-cases (i == k)) [
          | inl here ↦
              let same : i ≡ k = ground arith in
              ap (λ j. get_or (put_parent nodes k p) j z) same
              ∙ get_or-put_parent_self z nodes k p fits
              ∙ e
              ∙ ap (λ j. node hash level j (leaves ++ x ∷ [])) (sym same)
          | inr there ↦
              let other : i ≢ k = ground arith in
              get_or-put_parent_ne z nodes k p i fits other
              ∙ sym (node_in_lem z nodes i)
              ∙ old.shows i
              ∙ sym (node-snoc hash level i x leaves other)
        ];
      }

-- circuits/merkle: the fold of a path, where an index 1 puts the sibling on the left.
abbrev pub fold_path : (List ℕ → ℕ) → ℕ → List ℕ → List ℕ → ℕ
fold_path hash current (e ∷ es) (b ∷ bs) =
    fold_path hash (if b == 1 then hash (e ∷ current ∷ []) else hash (current ∷ e ∷ [])) es bs
fold_path hash current _ _ = current
