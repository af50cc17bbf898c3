-- ===== src/Base/Json/Laws.antt =====
-- Printing a number in decimal and converting the text back.
use solnado_cash.Base.{
  ℕ, ◌+◌, ◌*◌, ◌≤◌, ◌<◌, ◌≡◌, refl, ap, ◌∙◌, false, some, List, [], ◌∷◌, arith, lt→ltb, pos, All,
  map, elem, length,
}
use solnado_cash.Base.Radix.{
  digits, length-digits_pos, digits-below, value, value_from, value-digits,
}
use solnado_cash.Base.Json.{
  is_white, trim_start, trim_end, digit_value, read_digits, decimal_literal, integer_literal,
  string_to_bigint, digit_char, decimal, as_pos,
}

pub digit_value-digit_char : (d : ℕ) → d < 16 → digit_value (digit_char d) ≡ d
unfolding digit_value digit_char
digit_value-digit_char d h = ground arith

-- Reading the characters of digits gives their value, in every base up to 16.
pub read_digits-digit_char :
    (b n : ℕ) (ds : List ℕ)
    → b ≤ 16
    → All (λ d. d < b) ds
    → read_digits b n (map digit_char ds) ≡ some (value_from b n ds)
unfolding read_digits value_from
read_digits-digit_char b n [] hb h = refl
read_digits-digit_char b n (d ∷ ds) hb (hd, h) =
    let e : digit_value (digit_char d) ≡ d = digit_value-digit_char d (omega arith) in
    rw (e, lt→ltb d b hd) (read_digits-digit_char b (n * b + d) ds hb h)

-- The characters 0 to 9.
abbrev pub IsDecimal : ℕ → Type 0
IsDecimal c = (b'0' ≤ c) × (c ≤ b'9')

is_white-IsDecimal : (c : ℕ) → IsDecimal c → is_white c ≡ false
unfolding is_white elem
is_white-IsDecimal c h = ground arith

trim_start-IsDecimal : (cs : List ℕ) → All IsDecimal cs → trim_start cs ≡ cs
unfolding trim_start
trim_start-IsDecimal [] h = refl
trim_start-IsDecimal (c ∷ cs) (hc, h) = rw (is_white-IsDecimal c hc)

trim_end-IsDecimal : (cs : List ℕ) → All IsDecimal cs → trim_end cs ≡ cs
unfolding trim_end
trim_end-IsDecimal [] h = refl
trim_end-IsDecimal (c ∷ []) (hc, h) = rw (is_white-IsDecimal c hc)
trim_end-IsDecimal (c ∷ d ∷ ds) (hc, h) = rw (trim_end-IsDecimal (d ∷ ds) h)

decimal_literal-IsDecimal :
    (c : ℕ) (cs : List ℕ)
    → IsDecimal c
    → decimal_literal (c ∷ cs) ≡ as_pos (read_digits 10 0 (c ∷ cs))
decimal_literal-IsDecimal c cs h = ground arith

integer_literal-IsDecimal :
    (c : ℕ) (cs : List ℕ)
    → All IsDecimal (c ∷ cs)
    → integer_literal (c ∷ cs) ≡ as_pos (read_digits 10 0 (c ∷ cs))
unfolding integer_literal
integer_literal-IsDecimal c [] (hc, h) = decimal_literal-IsDecimal c [] hc
integer_literal-IsDecimal c (d ∷ ds) (hc, (hd, h)) =
    ground (arith, decimal_literal-IsDecimal c (d ∷ ds) hc)

-- A text of decimal digits alone is converted to the number that it spells.
pub string_to_bigint-IsDecimal :
    (c : ℕ) (cs : List ℕ)
    → All IsDecimal (c ∷ cs)
    → string_to_bigint (c ∷ cs) ≡ as_pos (read_digits 10 0 (c ∷ cs))
unfolding string_to_bigint
string_to_bigint-IsDecimal c cs h =
    ap (λ t. integer_literal (trim_end t)) (trim_start-IsDecimal (c ∷ cs) h)
    ∙ ap integer_literal (trim_end-IsDecimal (c ∷ cs) h)
    ∙ integer_literal-IsDecimal c cs h

digit_char-IsDecimal : (ds : List ℕ) → All (λ d. d < 10) ds → All IsDecimal (map digit_char ds)
unfolding digit_char
digit_char-IsDecimal [] h = tt
digit_char-IsDecimal (d ∷ ds) (hd, h) = (ground arith, digit_char-IsDecimal ds h)

pub decimal-IsDecimal : (n : ℕ) → All IsDecimal (decimal n)
unfolding decimal
decimal-IsDecimal n = digit_char-IsDecimal (digits 10 n) (digits-below 10 n (omega arith))

string_to_bigint-chars :
    (ds : List ℕ)
    → 0 < length ds
    → All (λ d. d < 10) ds
    → string_to_bigint (map digit_char ds) ≡ some (pos (value 10 ds))
unfolding value
string_to_bigint-chars [] l h = elim l [ ]
string_to_bigint-chars (d ∷ ds) l h =
    string_to_bigint-IsDecimal (digit_char d) (map digit_char ds) (digit_char-IsDecimal (d ∷ ds) h)
    ∙ ap as_pos (read_digits-digit_char 10 0 (d ∷ ds) (omega arith) h)

-- `BigInt(n.toString())` is n.
pub string_to_bigint-decimal : (n : ℕ) → string_to_bigint (decimal n) ≡ some (pos n)
unfolding decimal
string_to_bigint-decimal n =
    string_to_bigint-chars (digits 10 n) (length-digits_pos 10 n) (digits-below 10 n (omega arith))
    ∙ ap (λ m. some (pos m)) (value-digits 10 n (omega arith))

-- Different numbers print differently.
pub decimal-injective : (n m : ℕ) → decimal n ≡ decimal m → n ≡ m
decimal-injective n m e =
    cc (ap string_to_bigint e, string_to_bigint-decimal n, string_to_bigint-decimal m)
