-- ===== src/Base/Radix.antt =====
-- Positional notation: the value of a list of digits, most significant first, and the digits of a
-- number. It serves `BigInt.prototype.toString`, `padStart`, and the byte loops of the program.
use Prim.Native.Nat.{ℕ, zero, suc, ◌+◌, ◌-◌, ◌*◌, ◌/◌, ◌%◌, ◌^◌, ◌≤◌, ◌<◌}
use mathlib.Core.Path.{◌≡◌, refl, ap, ◌∙◌}
use mathlib.Core.List.{List, [], ◌∷◌, ◌++◌}
use native.Mathlib.Omega.{arith}
use native.Mathlib.Nat.{pow-zero, pow-succ'}
use mathlib.Core.Logic.{inl, inr}
use solnado_cash.Base.Tests.{ltb, ltb→lt, lt→ltb, Bool-cases, if◌then◌else◌}
use solnado_cash.Base.Lists.{length, replicate, length-append, length-replicate, All}

-- for (const b of digits) n = n * base + b
unfoldable pub value_from : ℕ → ℕ → List ℕ → ℕ
value_from b n [] = n
value_from b n (d ∷ ds) = value_from b (n * b + d) ds

unfoldable pub value : ℕ → List ℕ → ℕ
unfolding value_from
value b ds = value_from b 0 ds

-- The digits of n in front of the digits already written.
unfoldable pub digits_onto : ℕ → ℕ → ℕ → List ℕ → List ℕ
digits_onto zero b n acc = acc
digits_onto (suc fuel) b n acc =
    let more = digits_onto fuel b (n / b) ((n % b) ∷ acc) in if ltb n b then n ∷ acc else more

-- Zero has one digit. A number has fewer digits than its successor has units.
unfoldable pub digits : ℕ → ℕ → List ℕ
unfolding digits_onto
digits b n = digits_onto (suc n) b n []

-- `padStart(w, "0")` on a list of digits.
unfoldable pub pad_start : ℕ → List ℕ → List ℕ
pad_start w ds = replicate (w - length ds) 0 ++ ds

pub value_from-append :
    (b n : ℕ) (xs ys : List ℕ) → value_from b n (xs ++ ys) ≡ value_from b (value_from b n xs) ys
unfolding value_from
value_from-append b n [] ys = refl
value_from-append b n (x ∷ xs) ys = value_from-append b (n * b + x) xs ys

div_step : (b n : ℕ) → n / b * b + n % b ≡ n
div_step b n = omega arith

zero_step : (b n : ℕ) → 0 * b + n ≡ n
zero_step b n = omega arith

div_smaller : (b n fuel : ℕ) → 2 ≤ b → b ≤ n → n < suc fuel → n / b < fuel
div_smaller b n fuel hb h k = grind arith

pub value_from-digits_onto :
    (fuel b n : ℕ) (acc : List ℕ)
    → n < fuel
    → 2 ≤ b
    → value_from b 0 (digits_onto fuel b n acc) ≡ value_from b n acc
unfolding value_from digits_onto
value_from-digits_onto zero b n acc h hb = elim h [ ]
value_from-digits_onto (suc fuel) b n acc h hb = elim (Bool-cases (ltb n b)) [
  | inl less ↦ rw less (ap (λ m. value_from b m acc) (zero_step b n))
  | inr more ↦ rw more (
      value_from-digits_onto fuel b (n / b) ((n % b) ∷ acc)
        (div_smaller b n fuel hb (ground arith) h) hb
      ∙ ap (λ m. value_from b m acc) (div_step b n))
]

-- Reading back the digits of n gives n.
pub value-digits : (b n : ℕ) → 2 ≤ b → value b (digits b n) ≡ n
unfolding value digits
value-digits b n hb = value_from-digits_onto (suc n) b n [] (omega arith) hb

digits_onto-below :
    (fuel b n : ℕ) (acc : List ℕ)
    → n < fuel
    → 2 ≤ b
    → All (λ d. d < b) acc
    → All (λ d. d < b) (digits_onto fuel b n acc)
unfolding digits_onto
digits_onto-below zero b n acc h hb k = elim h [ ]
digits_onto-below (suc fuel) b n acc h hb k = elim (Bool-cases (ltb n b)) [
  | inl less ↦ rw less (ltb→lt n b less, k)
  | inr more ↦ rw more (
      digits_onto-below fuel b (n / b) ((n % b) ∷ acc) (div_smaller b n fuel hb (ground arith) h) hb
        (omega arith, k))
]

pub digits-below : (b n : ℕ) → 2 ≤ b → All (λ d. d < b) (digits b n)
unfolding digits
digits-below b n hb = digits_onto-below (suc n) b n [] (omega arith) hb tt

div_lt : (b n m : ℕ) → 2 ≤ b → n < b * m → n / b < m
div_lt b n m hb h = grind arith

pow_one : (b : ℕ) → b ^ 1 ≡ b
pow_one b = pow-succ' b 0 ∙ ap (λ p. b * p) (pow-zero b) ∙ omega arith

length-digits_onto :
    (fuel b n w : ℕ) (acc : List ℕ)
    → n < fuel
    → 2 ≤ b
    → n < b ^ suc w
    → length (digits_onto fuel b n acc) ≤ suc w + length acc
unfolding digits_onto
length-digits_onto zero b n w acc h hb k = elim h [ ]
length-digits_onto (suc fuel) b n zero acc h hb k =
    rw (lt→ltb n b (omega (arith, pow_one b))) (omega arith)
length-digits_onto (suc fuel) b n (suc w) acc h hb k = elim (Bool-cases (ltb n b)) [
  | inl less ↦ rw less (omega arith)
  | inr more ↦ rw more (
      omega (
        arith,
        length-digits_onto fuel b (n / b) w ((n % b) ∷ acc)
            (div_smaller b n fuel hb (ground arith) h) hb
            (div_lt b n (b ^ suc w) hb (omega (arith, pow-succ' b (suc w)))),
      ))
]

length-digits_onto_pos :
    (fuel b n : ℕ) (acc : List ℕ) → 0 < length acc → 0 < length (digits_onto fuel b n acc)
unfolding digits_onto
length-digits_onto_pos zero b n acc h = h
length-digits_onto_pos (suc fuel) b n acc h =
    ground (arith, length-digits_onto_pos fuel b (n / b) ((n % b) ∷ acc))

pub length-digits_pos : (b n : ℕ) → 0 < length (digits b n)
unfolding digits digits_onto
length-digits_pos b n = ground (arith, length-digits_onto_pos n b (n / b) ((n % b) ∷ []))

-- A number below b ^ w has at most w digits, where w is not zero.
pub length-digits : (b n w : ℕ) → 2 ≤ b → n < b ^ suc w → length (digits b n) ≤ suc w
unfolding digits
length-digits b n w hb k = omega (arith, length-digits_onto (suc n) b n w [] (omega arith) hb k)

replicate-value : (b k : ℕ) (ds : List ℕ) → value_from b 0 (replicate k 0 ++ ds) ≡ value_from b 0 ds
unfolding value_from
replicate-value b zero ds = refl
replicate-value b (suc k) ds =
    ap (λ m. value_from b m (replicate k 0 ++ ds)) (zero_step b 0) ∙ replicate-value b k ds

pub value-pad_start : (b w : ℕ) (ds : List ℕ) → value b (pad_start w ds) ≡ value b ds
unfolding value pad_start
value-pad_start b w ds = replicate-value b (w - length ds) ds

pub length-pad_start : (w : ℕ) (ds : List ℕ) → length ds ≤ w → length (pad_start w ds) ≡ w
unfolding pad_start
length-pad_start w ds h = omega (
  arith,
  length-append {0} (replicate (w - length ds) 0) ds,
  length-replicate {0} {A = ℕ} (w - length ds) 0,
)

unique_digit : (b n m x y : ℕ) → x < b → y < b → n * b + x ≡ m * b + y → n ≡ m
unique_digit b n m x y hx hy e = grind arith

unique_rest : (b n m x y : ℕ) → n ≡ m → n * b + x ≡ m * b + y → x ≡ y
unique_rest b n m x y d e = omega (arith, ap (λ (t : ℕ). t * b) d)

value_from-injective :
    (b n m : ℕ) (xs ys : List ℕ)
    → All (λ d. d < b) xs
    → All (λ d. d < b) ys
    → length xs ≡ length ys
    → value_from b n xs ≡ value_from b m ys
    → (n ≡ m) × (xs ≡ ys)
unfolding value_from
value_from-injective b n m [] [] hx hy l e = (e, refl)
value_from-injective b n m [] (y ∷ ys) hx hy l e = absurd (omega arith)
value_from-injective b n m (x ∷ xs) [] hx hy l e = absurd (omega arith)
value_from-injective b n m (x ∷ xs) (y ∷ ys) hx hy l e =
    let (top, rest) =
      value_from-injective b (n * b + x) (m * b + y) xs ys hx.1 hy.1 (omega arith) e in
    let same = unique_digit b n m x y hx.0 hy.0 top in
    (same, cc (unique_rest b n m x y same top, rest))

-- Two lists of equally many digits with one value are the same list.
pub value-injective :
    (b : ℕ) (xs ys : List ℕ)
    → All (λ d. d < b) xs
    → All (λ d. d < b) ys
    → length xs ≡ length ys
    → value b xs ≡ value b ys
    → xs ≡ ys
unfolding value
value-injective b xs ys hx hy l e = (value_from-injective b 0 0 xs ys hx hy l e).1

digit_bound : (b n x m p : ℕ) → n < m → x < b → (n * b + x + 1) * p ≤ m * (b * p)
digit_bound b n x m p h k =
    let lower : n * b + x + 1 ≤ m * b = grind arith in
    let scaled : (n * b + x + 1) * p ≤ m * b * p = grind arith in omega arith

value_from-lt :
    (b n : ℕ) (ds : List ℕ) → All (λ d. d < b) ds → value_from b n ds < suc n * b ^ length ds
unfolding value_from
value_from-lt b n [] h = omega (arith, ap (λ p. suc n * p) (pow-zero b))
value_from-lt b n (d ∷ ds) h = omega (
  arith,
  value_from-lt b (n * b + d) ds h.1,
  digit_bound b n d (suc n) (b ^ length ds) (omega arith) h.0,
  ap (λ p. suc n * p) (pow-succ' b (length ds)),
)

pub value-lt : (b : ℕ) (ds : List ℕ) → All (λ d. d < b) ds → value b ds < b ^ length ds
unfolding value
value-lt b ds h = omega (arith, value_from-lt b 0 ds h)
