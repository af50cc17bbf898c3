-- ===== src/Sdk/Note/Hex.antt =====
-- Hexadecimal texts of a fixed width and their values.
use solnado_cash.Base.{
  ℕ, zero, suc, ◌^◌, ◌<◌, ◌≡◌, refl, ap, ◌∙◌, true, false, some, List, [], ◌∷◌, arith, ◌==◌, All,
  All-append, map, elem, length, replicate, length-map,
}
use solnado_cash.Base.Radix.{
  digits, pad_start, digits-below, value, value-digits, value-pad_start, length-pad_start,
  length-digits,
}
use solnado_cash.Base.Json.{
  is_white, trim_end, read_digits, integer_literal, string_to_bigint, digit_char, as_pos,
}
use solnado_cash.Base.Json.Laws.{read_digits-digit_char}
use solnado_cash.Sdk.Note.{is_hex, all_hex, hex_to_bigint, as_natural}

-- The characters of digits are hexadecimal, not white, and not the separator.
abbrev pub IsHexText : List ℕ → Type 0
IsHexText = All (λ c. (is_hex c ≡ true) × (is_white c ≡ false) × ((c == b'_') ≡ false))

pub digit_char-IsHexText : (ds : List ℕ) → All (λ d. d < 16) ds → IsHexText (map digit_char ds)
unfolding digit_char is_white elem
digit_char-IsHexText [] h = tt
digit_char-IsHexText (d ∷ ds) (hd, h) =
    ((ground arith, ground arith, ground arith), digit_char-IsHexText ds h)

pub all_hex-IsHexText : (cs : List ℕ) → IsHexText cs → all_hex cs ≡ true
unfolding all_hex
all_hex-IsHexText [] h = refl
all_hex-IsHexText (c ∷ cs) (hc, h) = rw (hc.0, all_hex-IsHexText cs h)

trim_end-IsHexText : (cs : List ℕ) → IsHexText cs → trim_end cs ≡ cs
unfolding trim_end
trim_end-IsHexText [] h = refl
trim_end-IsHexText (c ∷ []) (hc, h) = rw hc.1
trim_end-IsHexText (c ∷ d ∷ ds) (hc, h) = rw (trim_end-IsHexText (d ∷ ds) h)

replicate-below : (n : ℕ) → All (λ d. d < 16) (replicate n 0)
replicate-below zero = tt
replicate-below (suc n) = (omega arith, replicate-below n)

pub pad_start-below :
    (w : ℕ) (ds : List ℕ) → All (λ d. d < 16) ds → All (λ d. d < 16) (pad_start w ds)
unfolding pad_start
pad_start-below w ds h = All-append (λ d. d < 16) (replicate _ 0) ds (replicate-below _) h

prefixed : (cs : List ℕ) → IsHexText cs → trim_end (b'0' ∷ b'x' ∷ cs) ≡ b'0' ∷ b'x' ∷ cs
unfolding trim_end is_white elem
prefixed [] h = refl
prefixed (c ∷ cs) h = rw (trim_end-IsHexText (c ∷ cs) h)

literal :
    (c : ℕ) (cs : List ℕ)
    → IsHexText (c ∷ cs)
    → string_to_bigint (b'0' ∷ b'x' ∷ c ∷ cs) ≡ as_pos (read_digits 16 0 (c ∷ cs))
unfolding string_to_bigint is_white elem
literal c cs h = ap integer_literal (prefixed (c ∷ cs) h)

-- A text of digits after "0x" is converted to their value.
pub hex_to_bigint-digit_char :
    (ds : List ℕ)
    → 0 < length ds
    → All (λ d. d < 16) ds
    → hex_to_bigint (map digit_char ds) ≡ some (value 16 ds)
unfolding hex_to_bigint value
hex_to_bigint-digit_char [] l h = elim l [ ]
hex_to_bigint-digit_char (d ∷ ds) l h = ap as_natural (
    literal (digit_char d) (map digit_char ds) (digit_char-IsHexText (d ∷ ds) h)
    ∙ ap as_pos (read_digits-digit_char 16 0 (d ∷ ds) (omega arith) h))

-- A number that fits in w + 1 digits, padded: its text has that length, and reads back.
pub padded_text :
    (w n : ℕ)
    → n < 16 ^ suc w
    → (length (map digit_char (pad_start (suc w) (digits 16 n))) ≡ suc w)
      × IsHexText (map digit_char (pad_start (suc w) (digits 16 n)))
      × (hex_to_bigint (map digit_char (pad_start (suc w) (digits 16 n))) ≡ some n)
padded_text w n h =
    let ds : List ℕ = pad_start (suc w) (digits 16 n) in
    let below : All (λ d. d < 16) ds = pad_start-below _ _ (digits-below 16 n (omega arith)) in
    let long : length ds ≡ suc w =
      length-pad_start (suc w) (digits 16 n) (length-digits 16 n w (omega arith) h) in
    (
      length-map digit_char ds ∙ long,
      digit_char-IsHexText ds below,
      hex_to_bigint-digit_char ds (omega (arith, long)) below
          ∙ ap some (value-pad_start 16 (suc w) (digits 16 n) ∙ value-digits 16 n (omega arith)),
    )
