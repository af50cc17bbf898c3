-- ===== src/Base/Json.antt =====
-- JavaScript values that come out of `JSON.parse`, their truth value, and `BigInt(value)`.
pub mod Laws
use solnado_cash.Base.{
  ℕ, zero, suc, ◌+◌, ◌-◌, ◌*◌, Bool, true, false, ◌||◌, ◌&&◌, Option, none, some, List, [], ◌∷◌,
  ◌++◌, leb, ltb, ◌==◌, if◌then◌else◌, ℤ, pos, negsuc, elem, length, map,
}
use solnado_cash.Base.Radix.{digits, value}

mutual
  pub data Json : Type 0 where
    undefined null object fraction : Json
    boolean : Bool → Json
    -- A number with an integer value.
    int : ℤ → Json
    -- The UTF-16 code units of a string.
    str : List ℕ → Json
    array : Items → Json

  pub data Items : Type 0 where
    nil : Items
    cons : Json → Items → Items

abbrev pub items : List Json → Items
items [] = nil
items (x ∷ xs) = cons x (items xs)

unfoldable pub truthy : Json → Bool
truthy undefined = false
truthy null = false
truthy object = true
truthy fraction = true
truthy (boolean b) = b
truthy (int (pos zero)) = false
truthy (int _) = true
truthy (str []) = false
truthy (str (c ∷ cs)) = true
truthy (array xs) = true

-- `StrWhiteSpaceChar` and `LineTerminator`.
abbrev pub white_space : List ℕ
white_space =
    9 ∷ 10 ∷ 11 ∷ 12 ∷ 13 ∷ 32 ∷ 0xa0 ∷ 0x1680 ∷ 0x2000 ∷ 0x2001 ∷ 0x2002 ∷ 0x2003 ∷ 0x2004 ∷ 0x2005
    ∷ 0x2006 ∷ 0x2007 ∷ 0x2008 ∷ 0x2009 ∷ 0x200a ∷ 0x2028 ∷ 0x2029 ∷ 0x202f ∷ 0x205f ∷ 0x3000
    ∷ 0xfeff ∷ []

unfoldable pub is_white : ℕ → Bool
is_white c = elem c white_space

unfoldable pub trim_start : List ℕ → List ℕ
unfolding is_white
trim_start [] = []
trim_start (c ∷ cs) = if is_white c then trim_start cs else c ∷ cs

-- White space at the end goes: nothing is kept of a rest that is all white.
unfoldable pub trim_end : List ℕ → List ℕ
unfolding is_white
trim_end [] = []
trim_end (c ∷ cs) = elim (trim_end cs) [
  | [] ↦ if is_white c then [] else c ∷ []
  | d ∷ ds ↦ c ∷ d ∷ ds
]

-- The value of a digit character, at most 36.
unfoldable pub digit_value : ℕ → ℕ
digit_value c =
    if leb b'0' c && leb c b'9'
    then c - b'0'
    else if leb b'a' c && leb c b'z'
    then c - b'a' + 10
    else if leb b'A' c && leb c b'Z'
    then c - b'A' + 10
    else 36

-- The value of a run of digits in a base, from n.
unfoldable pub read_digits : ℕ → ℕ → List ℕ → Option ℕ
unfolding digit_value
read_digits b n [] = some n
read_digits b n (c ∷ cs) =
    let rest = read_digits b (n * b + digit_value c) cs in
    if ltb (digit_value c) b then rest else none

abbrev pub read_some_digits : ℕ → List ℕ → Option ℕ
read_some_digits b [] = none
read_some_digits b (c ∷ cs) = read_digits b 0 (c ∷ cs)

abbrev pub as_pos : Option ℕ → Option ℤ
as_pos none = none
as_pos (some n) = some (pos n)

-- -0n is 0n.
abbrev pub negated : Option ℕ → Option ℤ
negated none = none
negated (some zero) = some (pos zero)
negated (some (suc n)) = some (negsuc n)

abbrev pub decimal_literal : List ℕ → Option ℤ
decimal_literal [] = some (pos 0)
decimal_literal (c ∷ cs) =
    if c == b'-'
    then negated (read_some_digits 10 cs)
    else if c == b'+'
    then as_pos (read_some_digits 10 cs)
    else as_pos (read_digits 10 0 (c ∷ cs))

-- `StringIntegerLiteral`: a prefixed literal has no sign; an empty text is zero.
unfoldable pub integer_literal : List ℕ → Option ℤ
unfolding read_digits
integer_literal (z ∷ x ∷ ds) =
    if z == b'0' && (x == b'x' || x == b'X')
    then as_pos (read_some_digits 16 ds)
    else if z == b'0' && (x == b'o' || x == b'O')
    then as_pos (read_some_digits 8 ds)
    else if z == b'0' && (x == b'b' || x == b'B')
    then as_pos (read_some_digits 2 ds)
    else decimal_literal (z ∷ x ∷ ds)
integer_literal cs = decimal_literal cs

-- `StringToBigInt`, `none` where `BigInt` throws.
unfoldable pub string_to_bigint : List ℕ → Option ℤ
unfolding trim_start trim_end integer_literal
string_to_bigint cs = integer_literal (trim_end (trim_start cs))

-- The character of a digit below 16, and `n.toString()`.
unfoldable pub digit_char : ℕ → ℕ
digit_char d = if ltb d 10 then d + b'0' else d - 10 + b'a'

unfoldable pub decimal : ℕ → List ℕ
unfolding digits digit_char
decimal n = map digit_char (digits 10 n)

-- `BigInt(value)`. An array is converted through `join(",")`, which for one item is the item's text
-- and for more has a comma in it.
unfoldable mutual
  pub to_bigint : Json → Option ℤ
  to_bigint undefined = none
  to_bigint null = none
  to_bigint object = none
  to_bigint fraction = none
  to_bigint (boolean true) = some (pos 1)
  to_bigint (boolean false) = some (pos 0)
  to_bigint (int z) = some z
  to_bigint (str cs) = string_to_bigint cs
  to_bigint (array xs) = joined xs

  pub joined : Items → Option ℤ
  joined nil = some (pos 0)
  joined (cons x nil) = item_text x
  joined (cons x (cons y ys)) = none

  pub item_text : Json → Option ℤ
  item_text undefined = some (pos 0)
  item_text null = some (pos 0)
  item_text object = none
  item_text fraction = none
  item_text (boolean b) = none
  item_text (int z) = some z
  item_text (str cs) = string_to_bigint cs
  item_text (array xs) = joined xs
