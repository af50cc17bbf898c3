-- ===== src/Relayer/RateLimit/Notes.antt =====
-- One note has one key, however its nullifier is written.
use mathlib.Core.Path.{subst}
use solnado_cash.Base.{
  ltb→lt, ℕ, ◌≤◌, ◌<◌, ◌≡◌, refl, sym, ap, ◌≢◌, ◌↔◌, none, some, List, arith, length, length-map,
  ltb, ◌==◌, ℤ, pos, negsuc, All, inl, inr, Bool-cases, ◌||◌, Option,
}
use solnado_cash.Base.Radix.{digits, length-digits, length-digits_pos}
use solnado_cash.Base.Json.{Json, str, string_to_bigint, decimal, digit_char}
use solnado_cash.Base.Json.Laws.{
  string_to_bigint-decimal, decimal-injective, decimal-IsDecimal, IsDecimal,
}
use solnado_cash.Relayer.RateLimit.{bn254_fr, invalid, key_of_bigint, nullifier_key}

-- The text is a nullifier hash: at most 80 characters that convert to a field element.
pub record IsNote (cs : List ℕ) (n : ℕ) : Type 0 where
  pub not_empty : 0 < length cs
  pub not_long : length cs ≤ 80
  pub converts : string_to_bigint cs ≡ some (pos n)
  pub in_field : n < bn254_fr

key_of_note : (cs : List ℕ) (n : ℕ) → IsNote cs n → nullifier_key (str cs) ≡ decimal n
unfolding nullifier_key
key_of_note cs n h = ground (arith, h.converts)

-- Two spellings of nullifier hashes share a key exactly when they are one field element.
pub nullifier_key-same :
    (xs ys : List ℕ) (n m : ℕ)
    → IsNote xs n
    → IsNote ys m
    → (nullifier_key (str xs) ≡ nullifier_key (str ys)) ↔ (n ≡ m)
nullifier_key-same xs ys n m hx hy = (
  λ e. decimal-injective n m (cc (e, key_of_note xs n hx, key_of_note ys m hy)),
  λ e. cc (key_of_note xs n hx, key_of_note ys m hy, ap decimal e),
)

not-IsDecimal : ¬ All IsDecimal invalid
not-IsDecimal h = omega arith

decimal-ne-invalid : (n : ℕ) → decimal n ≢ invalid
decimal-ne-invalid n e = not-IsDecimal (subst (All IsDecimal) e (decimal-IsDecimal n))

length-decimal : (n : ℕ) → n < bn254_fr → length (decimal n) ≤ 80
unfolding decimal
length-decimal n h =
    omega (
      arith,
      length-map digit_char (digits 10 n),
      length-digits 10 n 79 (omega arith) (omega arith),
    )

decimal_pos : (n : ℕ) → 0 < length (decimal n)
unfolding decimal
decimal_pos n = omega (arith, length-map digit_char (digits 10 n), length-digits_pos 10 n)

-- The key of a note is itself a spelling of the note, and the key of no note is the word that marks
-- everything else.
pub nullifier_key-canonical :
    (xs : List ℕ) (n : ℕ)
    → IsNote xs n
    → IsNote (nullifier_key (str xs)) n × (nullifier_key (str xs) ≢ invalid)
nullifier_key-canonical xs n h =
    subst (λ k. IsNote k n × (k ≢ invalid)) (sym (key_of_note xs n h))
      (
        record {
          not_empty = decimal_pos n;
          not_long = length-decimal n h.in_field;
          converts = string_to_bigint-decimal n;
          in_field = h.in_field;
        },
        decimal-ne-invalid n,
      )

key_of_bigint-note :
    (z : Option ℤ) → key_of_bigint z ≢ invalid → (n : ℕ) × (z ≡ some (pos n)) × (n < bn254_fr)
key_of_bigint-note none h = absurd (h refl)
key_of_bigint-note (some (negsuc n)) h = absurd (h refl)
key_of_bigint-note (some (pos n)) h = elim (Bool-cases (ltb n bn254_fr)) [
  | inl less ↦ (n, refl, ltb→lt n bn254_fr less)
  | inr more ↦ absurd (h (rw more))
]

short_enough :
    (cs : List ℕ)
    → nullifier_key (str cs) ≢ invalid
    → (0 < length cs) × (length cs ≤ 80) × (key_of_bigint (string_to_bigint cs) ≢ invalid)
unfolding nullifier_key
short_enough cs h = elim (Bool-cases (length cs == 0 || ltb 80 (length cs))) [
  | inl refused ↦ absurd (h (rw refused))
  | inr kept ↦ (ground arith, ground arith, rw kept at h)
]

-- A value that is keyed as a note is the text of one.
pub nullifier_key-guarded :
    (v : Json) → nullifier_key v ≢ invalid → (cs : List ℕ) × (n : ℕ) × (v ≡ str cs) × IsNote cs n
nullifier_key-guarded (str cs) h =
    let (low, high, converts) = short_enough cs h in
    let (n, z, below) = key_of_bigint-note (string_to_bigint cs) converts in
    (cs, n, refl, record { not_empty = low; not_long = high; converts = z; in_field = below })
nullifier_key-guarded _ h = absurd (h (unfold nullifier_key in refl))
