-- ===== src/Relayer/Preflight/Keys.antt =====
-- The two halves that are hashed for a public key determine the key (H-2).
use mathlib.Core.Path.{subst}
use solnado_cash.Base.{
  ℕ, zero, suc, ◌-◌, ◌^◌, ◌≤◌, ◌<◌, ◌≡◌, refl, sym, ap, ◌∙◌, ◌≢◌, List, [], ◌∷◌, ◌++◌, arith,
  length, take, drop, All,
}
use solnado_cash.Base.Buffer.{IsBytes, subarray, big}
use solnado_cash.Base.Buffer.Laws.{take_all, big-lt, big-injective}
use solnado_cash.Base.Chain.{Key}
use solnado_cash.Relayer.Preflight.{pubkey_to_field}

-- A key has 32 bytes.
pub record IsKey (k : Key) : Type 0 where
  pub size : length k ≡ 32
  pub bytes : IsBytes k

take-IsBytes : (n : ℕ) (xs : List ℕ) → IsBytes xs → IsBytes (take n xs)
take-IsBytes zero xs h = tt
take-IsBytes (suc n) [] h = tt
take-IsBytes (suc n) (x ∷ xs) (b, h) = (b, take-IsBytes n xs h)

drop-IsBytes : (n : ℕ) (xs : List ℕ) → IsBytes xs → IsBytes (drop n xs)
drop-IsBytes zero xs h = h
drop-IsBytes (suc n) [] h = tt
drop-IsBytes (suc n) (x ∷ xs) (b, h) = drop-IsBytes n xs h

length-take_le : (n : ℕ) (xs : List ℕ) → n ≤ length xs → length (take n xs) ≡ n
length-take_le zero xs h = refl
length-take_le (suc n) [] h = absurd (omega arith)
length-take_le (suc n) (x ∷ xs) h = ap suc (length-take_le n xs (omega arith))

length-drop_le : (n : ℕ) (xs : List ℕ) → length (drop n xs) ≡ length xs - n
length-drop_le zero xs = omega arith
length-drop_le (suc n) [] = omega arith
length-drop_le (suc n) (x ∷ xs) = omega (arith, length-drop_le n xs)

take-append-drop : (n : ℕ) (xs : List ℕ) → take n xs ++ drop n xs ≡ xs
take-append-drop zero xs = refl
take-append-drop (suc n) [] = refl
take-append-drop (suc n) (x ∷ xs) = ap (λ l. x ∷ l) (take-append-drop n xs)

abbrev pub halves : Key → List ℕ
halves k = big (take 16 k) ∷ big (subarray k 16 16) ∷ []

module _ (a b : Key) (ha : IsKey a) (hb : IsKey b) where
  low_half : (k : Key) → IsKey k → subarray k 16 16 ≡ drop 16 k
  low_half k h = take_all 16 (drop 16 k) (let s = h.size in omega (arith, length-drop_le 16 k))

  halves-injective :
      big (take 16 a) ≡ big (take 16 b) → big (subarray a 16 16) ≡ big (subarray b 16 16) → a ≡ b
  halves-injective hi lo =
      let sa : length a ≡ 32 = ha.size in
      let sb : length b ≡ 32 = hb.size in
      let top : take 16 a ≡ take 16 b =
        big-injective (take 16 a) (take 16 b) (take-IsBytes 16 a ha.bytes)
          (take-IsBytes 16 b hb.bytes)
          (length-take_le 16 a (omega arith) ∙ sym (length-take_le 16 b (omega arith))) hi in
      let rest : drop 16 a ≡ drop 16 b =
        big-injective (drop 16 a) (drop 16 b) (drop-IsBytes 16 a ha.bytes)
          (drop-IsBytes 16 b hb.bytes) (omega (arith, length-drop_le 16 a, length-drop_le 16 b))
          (ap big (sym (low_half a ha)) ∙ lo ∙ ap big (low_half b hb)) in
      sym (take-append-drop 16 a)
      ∙ ap (λ t. t ++ drop 16 a) top
      ∙ ap (λ t. take 16 b ++ t) rest
      ∙ take-append-drop 16 b

half_bound : (k : Key) → IsKey k → All (λ x. x < 2 ^ 128) (halves k)
half_bound k h =
    let s : length k ≡ 32 = h.size in
    let low = take-IsBytes 16 (drop 16 k) (drop-IsBytes 16 k h.bytes) in
    let high = take-IsBytes 16 k h.bytes in
    let size_high = length-take_le 16 k (omega arith) in
    let size_low = length-take_le 16 (drop 16 k) (omega (arith, length-drop_le 16 k)) in
    (
      subst (λ n. big (take 16 k) < 256 ^ n) size_high (big-lt (take 16 k) high),
      (subst (λ n. big (subarray k 16 16) < 256 ^ n) size_low (big-lt (subarray k 16 16) low), tt),
    )

-- Two different lists of 128-bit numbers with one hash.
pub record Collision (hash : List ℕ → ℕ) : Type 0 where
  pub first : List ℕ
  pub second : List ℕ
  pub first_small : All (λ x. x < 2 ^ 128) first
  pub second_small : All (λ x. x < 2 ^ 128) second
  pub different : first ≢ second
  pub same : hash first ≡ hash second

-- Two different keys can share a field element only through a collision of the hash itself, on
-- numbers below 2 ^ 128, which no reduction into the field identifies.
pub pubkey_to_field-Collision :
    (hash : List ℕ → ℕ) (a b : Key)
    → IsKey a
    → IsKey b
    → a ≢ b
    → pubkey_to_field hash a ≡ pubkey_to_field hash b
    → Collision hash
unfolding pubkey_to_field
pubkey_to_field-Collision hash a b ha hb ne e = record {
  first = halves a;
  second = halves b;
  first_small = half_bound a ha;
  second_small = half_bound b hb;
  different = λ p. ne (halves-injective a b ha hb (cc p) (cc p));
  same = e;
}
