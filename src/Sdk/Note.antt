-- ===== src/Sdk/Note.antt =====
-- sdk/src/note.js: secret notes, their sampling, and the text that a depositor keeps. `to_base58` is
-- `PublicKey.toBase58` and `of_base58` is `new PublicKey(text)`, `none` where it throws. Random bytes
-- are an argument. An error is `none`.
pub mod Hex
pub mod Codec
use solnado_cash.Base.{
  ℕ, zero, suc, ◌+◌, ◌-◌, Bool, true, false, not, ◌&&◌, ◌||◌, Option, none, some, List, [], ◌∷◌,
  ◌++◌, map, ltb, leb, ◌==◌, if◌then◌else◌, length, take, drop, ℤ, pos,
}
use solnado_cash.Base.Radix.{digits, pad_start}
use solnado_cash.Base.Buffer.{big, hex64}
use solnado_cash.Base.Json.{digit_char, string_to_bigint}
use solnado_cash.Base.Text.{codes, starts_with}
use solnado_cash.Base.Chain.{Key}

abbrev pub bn254_field_order : ℕ
bn254_field_order = 21888242871839275222246405745257275088548364400416034343698204186575808495617

abbrev pub note_prefix : List ℕ
note_prefix = codes "sndo_"

-- The loop over the attempts left; `draw` gives the 32 bytes of each attempt.
unfoldable pub sample : (ℕ → List ℕ) → ℕ → ℕ → Option ℕ
sample draw zero attempt = none
sample draw (suc n) attempt =
    let rest = sample draw n (attempt + 1) in
    if ltb (big (draw attempt)) bn254_field_order then some (big (draw attempt)) else rest

unfoldable pub random_field_element : (ℕ → List ℕ) → Option ℕ
unfolding sample
random_field_element draw = sample draw 128 0

pub record Note : Type 0 where
  pub encoded : List ℕ
  pub nullifier : ℕ
  pub secret : ℕ
  pub denomination : ℕ
  pub pool_address : Key

unfoldable pub bigint_to_hex64 : ℕ → List ℕ
bigint_to_hex64 n = map digit_char (hex64 n)

unfoldable pub denom_hex : ℕ → List ℕ
denom_hex n = map digit_char (pad_start 16 (digits 16 n))

abbrev pub as_natural : Option ℤ → Option ℕ
as_natural (some (pos n)) = some n
as_natural _ = none

-- BigInt("0x" + hex)
unfoldable pub hex_to_bigint : List ℕ → Option ℕ
hex_to_bigint hex = as_natural (string_to_bigint (b'0' ∷ b'x' ∷ hex))

unfoldable pub encode_note : (Key → List ℕ) → Note → List ℕ
unfolding bigint_to_hex64 denom_hex
encode_note to_base58 note =
    note_prefix
    ++ (to_base58 note.pool_address
        ++ (b'_'
            ∷ (denom_hex note.denomination
                ++ (b'_' ∷ (bigint_to_hex64 note.nullifier ++ bigint_to_hex64 note.secret)))))

abbrev pub numbered : (Key → List ℕ) → ℕ → Key → Option ℕ → Option ℕ → Option Note
numbered to_base58 denomination pool (some nullifier) (some secret) = some (record {
  encoded = encode_note to_base58 (record {
    encoded = [];
    nullifier = nullifier;
    secret = secret;
    denomination = denomination;
    pool_address = pool;
  });
  nullifier = nullifier;
  secret = secret;
  denomination = denomination;
  pool_address = pool;
})
numbered to_base58 denomination pool _ _ = none

-- The nullifier is drawn first, then the secret.
unfoldable pub generate_note : (Key → List ℕ) → (ℕ → List ℕ) → (ℕ → List ℕ) → ℕ → Key → Option Note
unfolding encode_note random_field_element
generate_note to_base58 draw again denomination pool =
    if ltb denomination 500
    then none
    else numbered to_base58 denomination pool (random_field_element draw)
        (random_field_element again)

abbrev pub onto_first : ℕ → List (List ℕ) → List (List ℕ)
onto_first c [] = (c ∷ []) ∷ []
onto_first c (p ∷ ps) = (c ∷ p) ∷ ps

-- text.split("_")
unfoldable pub split : List ℕ → List (List ℕ)
split [] = [] ∷ []
split (c ∷ cs) = let rest = split cs in if c == b'_' then [] ∷ rest else onto_first c rest

abbrev pub is_hex : ℕ → Bool
is_hex c = (leb b'0' c && leb c b'9') || (leb b'a' c && leb c b'f')

unfoldable pub all_hex : List ℕ → Bool
all_hex [] = true
all_hex (c ∷ cs) = is_hex c && all_hex cs

-- The bounds of the field, and the note.
abbrev pub within_field : List ℕ → Key → Option ℕ → Option ℕ → Option ℕ → Option Note
within_field encoded pool (some denomination) (some nullifier) (some secret) =
    if not (ltb nullifier bn254_field_order)
    then none
    else if not (ltb secret bn254_field_order)
    then none
    else some (record {
      encoded = encoded;
      nullifier = nullifier;
      secret = secret;
      denomination = denomination;
      pool_address = pool;
    })
within_field encoded pool _ _ _ = none

-- A text of the tested length is not empty, so `+` in the patterns adds nothing.
unfoldable pub decode_numbers : List ℕ → List ℕ → List ℕ → Option Key → Option Note
unfolding all_hex hex_to_bigint
decode_numbers encoded denom preimage none = none
decode_numbers encoded denom preimage (some pool) =
    if not (length denom == 16) || not (all_hex denom)
    then none
    else if not (length preimage == 128)
    then none
    else if not (all_hex preimage)
    then none
    else within_field encoded pool (hex_to_bigint denom) (hex_to_bigint (take 64 preimage))
        (hex_to_bigint (drop 64 preimage))

abbrev pub decode_parts : (List ℕ → Option Key) → List ℕ → List (List ℕ) → Option Note
decode_parts of_base58 encoded (pool ∷ denom ∷ preimage ∷ []) =
    decode_numbers encoded denom preimage (of_base58 pool)
decode_parts of_base58 encoded _ = none

unfoldable pub decode_note : (List ℕ → Option Key) → List ℕ → Option Note
unfolding split decode_numbers
decode_note of_base58 encoded =
    if not (starts_with encoded note_prefix)
    then none
    else decode_parts of_base58 encoded (split (drop 5 encoded))
