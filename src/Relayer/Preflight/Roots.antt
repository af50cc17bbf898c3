-- ===== src/Relayer/Preflight/Roots.antt =====
-- The root ring of a pool: which roots are found, and that they are those the program wrote.
use solnado_cash.Base.{
  ℕ, zero, suc, ◌+◌, ◌*◌, ◌^◌, ◌<◌, ◌≡◌, refl, sym, ap, ◌∙◌, ◌↔◌, inl, inr, true, Bool-cases, List,
  [], ◌∷◌, ◌++◌, arith, ==_iff, ◌==◌, elem, length, take, drop, All,
}
use mathlib.Core.Path.{ap₂}
use mathlib.Core.List.{append_assoc}
use solnado_cash.Relayer.Pool.Layout.{at_root_history}
use solnado_cash.Base.Buffer.{big, pairs, hex64}
use solnado_cash.Base.Buffer.Laws.{
  drop_part, take_part, drop-drop, big-pairs-hex64, length-pairs-hex64,
}
use solnado_cash.Base.Chain.{PoolLayout, HasSizes, serialize}
use solnado_cash.Relayer.Preflight.{
  root_at, roots_from, read_root_history, root_history_size, pool_root_history_offset,
}

-- The root stands at some place of the ring.
pub record InRing (pool_bytes : List ℕ) (root : ℕ) : Type 0 where
  pub place : ℕ
  pub in_range : place < root_history_size
  pub found : root_at pool_bytes place ≡ root

same_place : (bs : List ℕ) (root a b : ℕ) → a ≡ b → root_at bs a ≡ root → root_at bs b ≡ root
same_place bs root a b e h = ap (root_at bs) (sym e) ∙ h

elem_of_place :
    (n i j : ℕ) (pool_bytes : List ℕ) (root : ℕ)
    → root_at pool_bytes (i + j) ≡ root
    → j < n
    → elem root (roots_from n pool_bytes i) ≡ true
unfolding elem roots_from
elem_of_place zero i j bs root e h = elim h [ ]
elem_of_place (suc n) i zero bs root e h =
    rw ((==_iff _ _).1 (same_place bs root (i + 0) i (omega arith) e))
elem_of_place (suc n) i (suc j) bs root e h = elim (Bool-cases (root_at bs i == root)) [
  | inl here ↦ rw here
  | inr there ↦ rw there (
      elem_of_place n (i + 1) j bs root (same_place bs root (i + suc j) (i + 1 + j) (omega arith) e)
        (omega arith))
]

place_of_elem :
    (n i : ℕ) (pool_bytes : List ℕ) (root : ℕ)
    → elem root (roots_from n pool_bytes i) ≡ true
    → (j : ℕ) × (j < n) × (root_at pool_bytes (i + j) ≡ root)
unfolding elem roots_from
place_of_elem zero i bs root h = cc
place_of_elem (suc n) i bs root h = elim (Bool-cases (root_at bs i == root)) [
  | inl here ↦ (0, omega arith, same_place bs root i (i + 0) (omega arith) ((==_iff _ _).0 here))
  | inr there ↦
      let (j, lt, e) = place_of_elem n (i + 1) bs root (rw there at h) in
      (suc j, omega arith, same_place bs root (i + 1 + j) (i + suc j) (omega arith) e)
]

pub elem-read_root_history :
    (pool_bytes : List ℕ) (root : ℕ)
    → (elem root (read_root_history pool_bytes) ≡ true) ↔ InRing pool_bytes root
unfolding read_root_history
elem-read_root_history bs root = (
  λ h.
      let (j, lt, e) = place_of_elem root_history_size 0 bs root h in
      record { place = j; in_range = lt; found = same_place bs root (0 + j) j (omega arith) e },
  λ r.
      elem_of_place root_history_size 0 r.place bs root
        (same_place bs root r.place (0 + r.place) (omega arith) r.found) r.in_range,
)

-- The ring as the program stores it: 32 bytes for each root, most significant byte first.
abbrev pub ring : List ℕ → List ℕ
ring [] = []
ring (r ∷ rs) = pairs (hex64 r) ++ ring rs

ring_step :
    (rs rest pool_bytes : List ℕ) (i : ℕ)
    → All (λ r. r < 2 ^ 256) rs
    → drop (pool_root_history_offset + i * 32) pool_bytes ≡ ring rs ++ rest
    → roots_from (length rs) pool_bytes i ≡ rs
unfolding roots_from root_at
ring_step [] rest bs i h e = refl
ring_step (r ∷ rs) rest bs i (hr, h) e =
    let size = length-pairs-hex64 r hr in
    let split = e ∙ append_assoc (pairs (hex64 r)) (ring rs) rest in
    let head =
      ap (λ l. big (take 32 l)) split ∙ ap big (take_part 32 _ _ size) ∙ big-pairs-hex64 r hr in
    let next : pool_root_history_offset + (i + 1) * 32
        ≡ pool_root_history_offset + i * 32 + (32 + 0) =
      omega arith in
    let tail =
      ap (λ n. drop n bs) next
      ∙ drop-drop (pool_root_history_offset + i * 32) (32 + 0) bs
      ∙ ap (drop (32 + 0)) split
      ∙ drop_part 32 0 _ _ size in
    ap₂ (λ x xs. x ∷ xs) head (ring_step rs rest bs (i + 1) h tail)

-- From a pool account laid out as state.rs declares it, whose ring holds 256 roots, the relayer
-- reads exactly those roots in their order.
pub read_root_history-serialize :
    (p : PoolLayout) (rs : List ℕ)
    → HasSizes p
    → p.root_history ≡ ring rs
    → length rs ≡ root_history_size
    → All (λ r. r < 2 ^ 256) rs
    → read_root_history (serialize p) ≡ rs
unfolding read_root_history
read_root_history-serialize p rs s e n h =
    ap (λ k. roots_from k (serialize p) 0) (sym n)
    ∙ ring_step rs p.filled_subtrees (serialize p) 0 h
        (at_root_history p s ∙ ap (λ l. l ++ p.filled_subtrees) e)
