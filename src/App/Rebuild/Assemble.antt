-- ===== src/App/Rebuild/Assemble.antt =====
-- `assemble` against the leaves that the chain holds: what it needs to give all of them back, and when
-- its answer counts as complete.
use solnado_cash.Base.{
  ℕ, zero, suc, ◌+◌, ◌≤◌, ◌<◌, ◌≡◌, refl, ap, ◌∙◌, ◌≢◌, ◌↔◌, ◌⊎◌, inl, inr, ◌||◌, true, none, some,
  List, [], ◌∷◌, arith, Option-cases, length, get_elem?, get_or, elem, ==_iff, lt→ltb,
}
use native.Mathlib.Decide.{ℕ_discrete}
use solnado_cash.App.Scan.{ScanResult}
use solnado_cash.App.Rebuild.{
  ByIndex, put, put_indexed, is_known, holes, fill, fill_holes, dense, assemble,
}

-- What the map knows agrees with the leaves of the chain, where those reach.
abbrev pub Agrees : List ℕ → ByIndex → Type 0
Agrees truth m = (i leaf : ℕ) → m i ≡ some leaf → get_or truth i leaf ≡ leaf

abbrev pub leaf_at : List ℕ → ℕ → ℕ
leaf_at truth i = get_or truth i 0

elem-holes :
    (i n j : ℕ) (m : ByIndex) → i ≤ j → j < i + n → m j ≡ none → elem j (holes i n m) ≡ true
unfolding holes elem
elem-holes i zero j m h k e = absurd (omega arith)
elem-holes i (suc n) j m h k e = ground (arith, elem-holes (i + 1) n j m)

fill_holes-exact :
    (hs leaves : List ℕ) (m : ByIndex)
    → length hs ≡ length leaves
    → fill_holes hs leaves m ≡ fill hs leaves m
unfolding fill_holes fill
fill_holes-exact [] leaves m h = refl
fill_holes-exact (x ∷ xs) leaves m h =
    rw (lt→ltb 0 (suc (length xs)) (omega arith), (==_iff (suc (length xs)) (length leaves)).1 h)

length-dense : (i n : ℕ) (m : ByIndex) → length (dense i n m) ≤ n
unfolding dense
length-dense i zero m = omega arith
length-dense i (suc n) m = elim (Option-cases (m i)) [
  | inl e ↦ rw e (omega arith)
  | inr (leaf, e) ↦ rw e (omega (arith, length-dense (i + 1) n m))
]

-- A gap shortens the prefix; without one it is whole.
length-dense_iff : (i n : ℕ) (m : ByIndex) → (length (dense i n m) ≡ n) ↔ (holes i n m ≡ [])
unfolding dense holes
length-dense_iff i zero m = (λ h. refl, λ h. refl)
length-dense_iff i (suc n) m = elim (Option-cases (m i)) [
  | inl e ↦ rw e (λ h. absurd (omega arith), λ h. cc)
  | inr (leaf, e) ↦
      let ih = length-dense_iff (i + 1) n m in rw e (λ h. ih.0 (omega arith), λ h. ap suc (ih.1 h))
]

-- The number of leaves never passes the pool's count.
pub length-assemble :
    (base : List ℕ) (scan : ScanResult) (n : ℕ) → length (assemble base scan n) ≤ n
unfolding assemble
length-assemble base scan n = length-dense 0 n _

fill-known :
    (hs leaves : List ℕ) (m : ByIndex) (j : ℕ)
    → length hs ≡ length leaves
    → is_known (fill hs leaves m j) ≡ (elem j hs || is_known (m j))
unfolding fill elem
fill-known [] leaves m j h = refl
fill-known (x ∷ xs) [] m j h = absurd (omega arith)
fill-known (x ∷ xs) (leaf ∷ leaves) m j h =
    fill-known xs leaves (put x leaf m) j (omega arith) ∙ grind (arith, ==_iff x j)

holes-nil :
    (i n : ℕ) (m : ByIndex)
    → ((j : ℕ) → i ≤ j → j < i + n → is_known (m j) ≡ true)
    → holes i n m ≡ []
unfolding holes
holes-nil i zero m h = refl
holes-nil i (suc n) m h =
    rw (h i (omega arith) (omega arith))
      (holes-nil (i + 1) n m (λ j a b. h j (omega arith) (omega arith)))

holes-filled :
    (n : ℕ) (leaves : List ℕ) (m : ByIndex)
    → length (holes 0 n m) ≡ length leaves
    → holes 0 n (fill (holes 0 n m) leaves m) ≡ []
holes-filled n leaves m h = holes-nil 0 n _ (λ j a b.
    fill-known (holes 0 n m) leaves m j h ∙ elim (Option-cases (m j)) [
      | inl e ↦ rw (elem-holes 0 n j m a b e)
      | inr (leaf, e) ↦ grind arith
    ])

fill_holes-other :
    (hs leaves : List ℕ) (m : ByIndex) → length hs ≢ length leaves → fill_holes hs leaves m ≡ m
unfolding fill_holes
fill_holes-other hs leaves m h = ground arith

complete_iff :
    (n : ℕ) (leaves : List ℕ) (m : ByIndex)
    → (length (dense 0 n (fill_holes (holes 0 n m) leaves m)) ≡ n)
      ↔ ((holes 0 n m ≡ []) ⊎ (length (holes 0 n m) ≡ length leaves))
complete_iff n leaves m = elim (ℕ_discrete (length (holes 0 n m)) (length leaves)) [
  | yes same ↦ rw (fill_holes-exact (holes 0 n m) leaves m same) (
    λ h. inr same,
    λ h. (length-dense_iff 0 n (fill (holes 0 n m) leaves m)).1 (holes-filled n leaves m same),
  )
  | no differs ↦ rw (fill_holes-other (holes 0 n m) leaves m differs) (
    λ h. inl ((length-dense_iff 0 n m).0 h),
    λ h. elim h [ inl e ↦ (length-dense_iff 0 n m).1 e | inr e ↦ absurd (differs e) ],
  )
]

-- The answer has one leaf for every index below the pool's count exactly when no index is missing, or
-- the deposits without an index are as many as the missing indices.
pub assemble_complete_iff :
    (base : List ℕ) (scan : ScanResult) (n : ℕ)
    → (length (assemble base scan n) ≡ n) ↔ (
        (holes 0 n (put_indexed scan.indexed (get_elem? base)) ≡ [])
        ⊎ (length (holes 0 n (put_indexed scan.indexed (get_elem? base))) ≡ length scan.unindexed))
unfolding assemble
assemble_complete_iff base scan n =
    complete_iff n scan.unindexed (put_indexed scan.indexed (get_elem? base))
