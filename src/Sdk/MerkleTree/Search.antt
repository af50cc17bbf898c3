-- ===== src/Sdk/MerkleTree/Search.antt =====
-- Finding a commitment among the leaves.
use Prim.Native.Nat.add
use mathlib.Core.Path.{subst}
use solnado_cash.Base.{
  ℕ, zero, suc, ◌+◌, ◌<◌, ◌≡◌, refl, sym, ◌∙◌, ◌≢◌, inl, inr, Bool, true, false, Option, none, some,
  List, [], ◌∷◌, arith, ◌==◌, elem, length, get_or, Bool-cases,
}
use solnado_cash.Sdk.MerkleTree.{Tree, layer, index_of, find_leaf, has_leaf}

index_of-none : (leaf i : ℕ) (xs : List ℕ) → index_of leaf i xs ≡ none → elem leaf xs ≡ false
unfolding index_of elem
index_of-none leaf i [] h = refl
index_of-none leaf i (x ∷ xs) h = ground (arith, index_of-none leaf (i + 1) xs)

-- The place found is the first that holds the leaf.
pub record IsFirst (leaf i : ℕ) (xs : List ℕ) : Type 0 where
  pub inside : i < length xs
  pub holds : get_or xs i 0 ≡ leaf
  pub first : (j : ℕ) → j < i → get_or xs j 0 ≢ leaf

index_of-IsFirst :
    (leaf i j : ℕ) (xs : List ℕ)
    → index_of leaf i xs ≡ some j
    → (k : ℕ) × (j ≡ i + k) × IsFirst leaf k xs
unfolding index_of
index_of-IsFirst leaf i j [] h = absurd (cc)
index_of-IsFirst leaf i j (x ∷ xs) h = elim (Bool-cases (x == leaf)) [
  | inl here ↦ (
    0,
    ground arith,
    record { inside = omega arith; holds = ground arith; first = λ m lt. absurd (omega arith) },
  )
  | inr there ↦
      let (k, e, f) = index_of-IsFirst leaf (i + 1) j xs (rw there at h) in
      (
        suc k,
        omega arith,
        record {
          inside = (let p : k < length xs = f.inside in omega arith);
          holds = f.holds;
          first = first_after x leaf k xs (ground arith) f.first;
        },
      )
]
  where
    first_after :
        (x leaf k : ℕ) (xs : List ℕ)
        → x ≢ leaf
        → ((j : ℕ) → j < k → get_or xs j 0 ≢ leaf)
        → (j : ℕ) → j < suc k
        → get_or (x ∷ xs) j 0 ≢ leaf
    first_after x leaf k xs n f zero lt = n
    first_after x leaf k xs n f (suc j) lt = f j (omega arith)

abbrev is_found : Option ℕ → Bool
is_found o = elim o [ none ↦ false | some i ↦ true ]

found-elem : (leaf i : ℕ) (xs : List ℕ) → is_found (index_of leaf i xs) ≡ elem leaf xs
unfolding index_of elem
found-elem leaf i [] = refl
found-elem leaf i (x ∷ xs) = ground (arith, found-elem leaf (i + 1) xs)

pub find_leaf-IsFirst :
    (t : Tree) (leaf : ℕ)
    → ((i : ℕ) → find_leaf t leaf ≡ some i → IsFirst leaf i (layer t 0))
      × (has_leaf t leaf ≡ elem leaf (layer t 0))
unfolding has_leaf
find_leaf-IsFirst t leaf = (
  λ i e.
      let (k, same, f) = index_of-IsFirst leaf 0 i (layer t 0) e in
      subst (λ m. IsFirst leaf m (layer t 0)) (sym (same ∙ add.zero k)) f,
  found-elem leaf 0 (layer t 0),
)

found_some : (o : Option ℕ) → is_found o ≡ true → (i : ℕ) × (o ≡ some i)
found_some none h = absurd (cc)
found_some (some i) h = (i, refl)

found_none : (o : Option ℕ) → is_found o ≡ false → o ≡ none
found_none none h = refl
found_none (some i) h = absurd (cc)

-- A stored leaf is found, at its first place.
pub find_leaf-stored :
    (t : Tree) (leaf : ℕ)
    → elem leaf (layer t 0) ≡ true
    → (i : ℕ) × (find_leaf t leaf ≡ some i) × IsFirst leaf i (layer t 0)
unfolding find_leaf
find_leaf-stored t leaf h =
    let (i, e) = found_some (find_leaf t leaf) (found-elem leaf 0 (layer t 0) ∙ h) in
    (i, e, (find_leaf-IsFirst t leaf).0 i e)

pub find_leaf-absent :
    (t : Tree) (leaf : ℕ) → elem leaf (layer t 0) ≡ false → find_leaf t leaf ≡ none
unfolding find_leaf
find_leaf-absent t leaf h = found_none (find_leaf t leaf) (found-elem leaf 0 (layer t 0) ∙ h)
