-- ===== src/Base/Buffer/Laws.antt =====
-- Fields of a buffer that is put together from parts, and the bytes of a number.
use Prim.Native.Nat.add
use solnado_cash.Base.{
  ℕ, zero, suc, ◌+◌, ◌*◌, ◌^◌, ◌<◌, ◌≡◌, refl, ap, ◌∙◌, List, [], ◌∷◌, ◌++◌, arith, length,
  replicate, take, drop, All, All-append, take-append,
}
use solnado_cash.Base.Radix.{
  value, value_from, value-digits, value-pad_start, value-lt, value-injective, length-pad_start,
  length-digits, digits, digits-below, pad_start,
}
use solnado_cash.Base.Buffer.{IsBytes, big, pairs, hex64}

module _ {ℓ} {A : Type ℓ} where
  -- A part of known length is skipped whole.
  pub drop_part : (n m : ℕ) (xs ys : List A) → length xs ≡ n → drop (n + m) (xs ++ ys) ≡ drop m ys
  drop_part zero m [] ys h = ap (λ k. drop k ys) (add.zero m)
  drop_part zero m (x ∷ xs) ys h = absurd (omega arith)
  drop_part (suc n) m [] ys h = absurd (omega arith)
  drop_part (suc n) m (x ∷ xs) ys h =
      ap (λ k. drop k (x ∷ xs ++ ys)) (add.suc n m) ∙ drop_part n m xs ys (omega arith)

  pub drop-drop : (n m : ℕ) (xs : List A) → drop (n + m) xs ≡ drop m (drop n xs)
  drop-drop zero m xs = ap (λ k. drop k xs) (add.zero m)
  drop-drop (suc n) zero [] = ap (λ k. drop k []) (add.suc n 0)
  drop-drop (suc n) (suc m) [] = ap (λ k. drop k []) (add.suc n (suc m))
  drop-drop (suc n) m (x ∷ xs) = ap (λ k. drop k (x ∷ xs)) (add.suc n m) ∙ drop-drop n m xs

  pub take_part : (n : ℕ) (xs ys : List A) → length xs ≡ n → take n (xs ++ ys) ≡ xs
  take_part n xs ys h = rw (← h) (take-append xs ys)

pairs-value :
    (k n : ℕ) (ds : List ℕ) → length ds ≡ k + k → value_from 256 n (pairs ds) ≡ value_from 16 n ds
unfolding value_from pairs
pairs-value zero n [] h = refl
pairs-value zero n (d ∷ ds) h = absurd (omega arith)
pairs-value (suc k) n [] h = absurd (omega arith)
pairs-value (suc k) n (d ∷ []) h = absurd (omega arith)
pairs-value (suc k) n (d ∷ e ∷ ds) h =
    pairs-value k (n * 256 + (d * 16 + e)) ds (omega arith)
    ∙ ap (λ m. value_from 16 m ds) (omega arith)

length-pairs : (k : ℕ) (ds : List ℕ) → length ds ≡ k + k → length (pairs ds) ≡ k
unfolding pairs
length-pairs zero [] h = refl
length-pairs zero (d ∷ ds) h = absurd (omega arith)
length-pairs (suc k) [] h = absurd (omega arith)
length-pairs (suc k) (d ∷ []) h = absurd (omega arith)
length-pairs (suc k) (d ∷ e ∷ ds) h = omega (arith, length-pairs k ds (omega arith))

pairs-IsBytes : (ds : List ℕ) → All (λ d. d < 16) ds → IsBytes (pairs ds)
unfolding pairs
pairs-IsBytes [] h = tt
pairs-IsBytes (d ∷ []) h = tt
pairs-IsBytes (d ∷ e ∷ ds) (hd, (he, h)) = (omega arith, pairs-IsBytes ds h)

replicate-below : (n : ℕ) → All (λ d. d < 16) (replicate n 0)
replicate-below zero = tt
replicate-below (suc n) = (omega arith, replicate-below n)

pub length-hex64 : (n : ℕ) → n < 2 ^ 256 → length (hex64 n) ≡ 64
unfolding hex64
length-hex64 n h = length-pad_start 64 (digits 16 n) (length-digits 16 n 63 (omega arith) h)

pub hex64-below : (n : ℕ) → All (λ d. d < 16) (hex64 n)
unfolding hex64 pad_start
hex64-below n = All-append (λ d. d < 16) _ _ (replicate-below _) (digits-below 16 n (omega arith))

pub value-hex64 : (n : ℕ) → value 16 (hex64 n) ≡ n
unfolding hex64
value-hex64 n = value-pad_start 16 64 (digits 16 n) ∙ value-digits 16 n (omega arith)

-- The 32 bytes of a 256-bit number.
pub big-pairs-hex64 : (n : ℕ) → n < 2 ^ 256 → big (pairs (hex64 n)) ≡ n
unfolding big value
big-pairs-hex64 n h =
    pairs-value 32 0 (hex64 n) (length-hex64 n h) ∙ (unfold value in value-hex64 n)

pub length-pairs-hex64 : (n : ℕ) → n < 2 ^ 256 → length (pairs (hex64 n)) ≡ 32
length-pairs-hex64 n h = length-pairs 32 (hex64 n) (length-hex64 n h)

pub pairs-hex64-IsBytes : (n : ℕ) → IsBytes (pairs (hex64 n))
pairs-hex64-IsBytes n = pairs-IsBytes (hex64 n) (hex64-below n)

pub big-lt : (bs : List ℕ) → IsBytes bs → big bs < 256 ^ length bs
unfolding big
big-lt bs h = value-lt 256 bs h

-- Buffers of one length with one big-endian value are equal.
pub big-injective :
    (xs ys : List ℕ) → IsBytes xs → IsBytes ys → length xs ≡ length ys → big xs ≡ big ys → xs ≡ ys
unfolding big
big-injective xs ys hx hy l e = value-injective 256 xs ys hx hy l e

pub take_all : (n : ℕ) (xs : List ℕ) → length xs ≡ n → take n xs ≡ xs
take_all zero [] h = refl
take_all zero (x ∷ xs) h = absurd (omega arith)
take_all (suc n) [] h = refl
take_all (suc n) (x ∷ xs) h = ap (λ l. x ∷ l) (take_all n xs (omega arith))
