-- ===== src/Sdk/Note/Codec.antt =====
-- A note survives its text, and a text is only decoded to a note in the field.
use mathlib.Core.Path.{subst}
use solnado_cash.Base.{
  ℕ, ◌^◌, ◌<◌, ◌≡◌, refl, sym, ap, ◌∙◌, inl, inr, Bool, true, false, not, ◌||◌, Bool-cases, Option,
  none, some, List, [], ◌∷◌, ◌++◌, arith, ltb, ltb→lt, lt→ltb, ◌==◌, if◌then◌else◌, All, All-append,
  length, length-append, take, drop, take-append, drop-append,
}
use solnado_cash.Base.Buffer.{hex64}
use solnado_cash.Base.Text.{starts_with}
use solnado_cash.Base.Chain.{Key}
use solnado_cash.Sdk.Note.{
  bn254_field_order, note_prefix, Note, bigint_to_hex64, denom_hex, hex_to_bigint, encode_note,
  split, all_hex, within_field, decode_numbers, decode_parts, decode_note,
}
use solnado_cash.Sdk.Note.Hex.{IsHexText, all_hex-IsHexText, padded_text}

-- No character is the separator.
abbrev pub IsPlain : List ℕ → Type 0
IsPlain = All (λ c. (c == b'_') ≡ false)

IsHexText-IsPlain : (cs : List ℕ) → IsHexText cs → IsPlain cs
IsHexText-IsPlain [] h = tt
IsHexText-IsPlain (c ∷ cs) (hc, h) = (hc.2, IsHexText-IsPlain cs h)

split_last : (cs : List ℕ) → IsPlain cs → split cs ≡ cs ∷ []
unfolding split
split_last [] h = refl
split_last (c ∷ cs) (hc, h) = rw (hc, split_last cs h)

split_part : (cs rest : List ℕ) → IsPlain cs → split (cs ++ b'_' ∷ rest) ≡ cs ∷ split rest
unfolding split
split_part [] rest h = refl
split_part (c ∷ cs) rest (hc, h) = rw (hc, split_part cs rest h)

split_three :
    (a b c : List ℕ)
    → IsPlain a
    → IsPlain b
    → IsPlain c
    → split (a ++ (b'_' ∷ (b ++ (b'_' ∷ c)))) ≡ a ∷ b ∷ c ∷ []
split_three a b c ha hb hc =
    split_part a _ ha ∙ ap (λ ps. a ∷ ps) (split_part b c hb ∙ ap (λ ps. b ∷ ps) (split_last c hc))

prefix_starts : (rest : List ℕ) → starts_with (note_prefix ++ rest) note_prefix ≡ true
unfolding starts_with
prefix_starts rest = refl

in_width : (n : ℕ) → n < bn254_field_order → n < 16 ^ 64
in_width n h = omega arith

decoded :
    (encoded d n s : List ℕ) (pool : Key) (denomination nullifier secret : ℕ)
    → (length d ≡ 16)
    → IsHexText d
    → hex_to_bigint d ≡ some denomination
    → (length n ≡ 64)
    → IsHexText n
    → hex_to_bigint n ≡ some nullifier
    → (length s ≡ 64)
    → IsHexText s
    → hex_to_bigint s ≡ some secret
    → nullifier < bn254_field_order
    → secret < bn254_field_order
    → decode_numbers encoded d (n ++ s) (some pool)
      ≡ some (record {
        encoded = encoded;
        nullifier = nullifier;
        secret = secret;
        denomination = denomination;
        pool_address = pool;
      })
unfolding decode_numbers
decoded encoded d n s pool denomination nullifier secret ld hd vd ln hn vn ls hs vs bn bs =
    let total : length (n ++ s) ≡ 128 = omega (arith, length-append n s, ln, ls) in
    let hex : all_hex (n ++ s) ≡ true = all_hex-IsHexText (n ++ s) (All-append _ n s hn hs) in
    let first : hex_to_bigint (take 64 (n ++ s)) ≡ some nullifier =
      ap hex_to_bigint (ap (λ k. take k (n ++ s)) (sym ln) ∙ take-append n s) ∙ vn in
    let second : hex_to_bigint (drop 64 (n ++ s)) ≡ some secret =
      ap hex_to_bigint (ap (λ k. drop k (n ++ s)) (sym ln) ∙ drop-append n s) ∙ vs in
    rw (
      ld,
      all_hex-IsHexText d hd,
      total,
      hex,
      vd,
      first,
      second,
      lt→ltb nullifier bn254_field_order bn,
      lt→ltb secret bn254_field_order bs,
    )

decode_body :
    (of_base58 : List ℕ → Option Key) (rest pool d p : List ℕ)
    → split rest ≡ pool ∷ d ∷ p ∷ []
    → decode_note of_base58 (note_prefix ++ rest)
      ≡ decode_numbers (note_prefix ++ rest) d p (of_base58 pool)
unfolding decode_note starts_with
decode_body of_base58 rest pool d p h = ap (decode_parts of_base58 (note_prefix ++ rest)) h

-- Encoding a note of field elements and a 64-bit denomination and decoding the text gives the note
-- back, with that text, if the pool's address has no underscore in base58 and reads back from it.
pub decode_note-encode_note :
    (to_base58 : Key → List ℕ) (of_base58 : List ℕ → Option Key) (note : Note)
    → IsPlain (to_base58 note.pool_address)
    → of_base58 (to_base58 note.pool_address) ≡ some note.pool_address
    → note.nullifier < bn254_field_order
    → note.secret < bn254_field_order
    → note.denomination < 2 ^ 64
    → decode_note of_base58 (encode_note to_base58 note)
      ≡ some (record note { encoded = encode_note to_base58 note })
unfolding decode_note encode_note denom_hex bigint_to_hex64 hex64
decode_note-encode_note to_base58 of_base58 note plain reads_back bn bs bd =
    let pool : List ℕ = to_base58 note.pool_address in
    let d : List ℕ = denom_hex note.denomination in
    let n : List ℕ = bigint_to_hex64 note.nullifier in
    let s : List ℕ = bigint_to_hex64 note.secret in
    let (ld, hd, vd) = padded_text 15 note.denomination (omega arith) in
    let (ln, hn, vn) = padded_text 63 note.nullifier (in_width note.nullifier bn) in
    let (ls, hs, vs) = padded_text 63 note.secret (in_width note.secret bs) in
    let parts : split (pool ++ (b'_' ∷ (d ++ (b'_' ∷ (n ++ s))))) ≡ pool ∷ d ∷ (n ++ s) ∷ [] =
      split_three pool d (n ++ s) plain (IsHexText-IsPlain d hd)
        (IsHexText-IsPlain (n ++ s) (All-append _ n s hn hs)) in
    decode_body of_base58 (pool ++ (b'_' ∷ (d ++ (b'_' ∷ (n ++ s))))) pool d (n ++ s) parts
    ∙ ap (decode_numbers (encode_note to_base58 note) d (n ++ s)) reads_back
    ∙ decoded (encode_note to_base58 note) d n s note.pool_address note.denomination note.nullifier
        note.secret ld hd vd ln hn vn ls hs vs bn bs

-- The secrets are in the field, and the note keeps its text.
abbrev pub IsSound : List ℕ → Note → Type 0
IsSound encoded note =
    (note.nullifier < bn254_field_order)
    × (note.secret < bn254_field_order)
    × (note.encoded ≡ encoded)

some-injective : (m n : Note) → some m ≡ some n → m ≡ n
some-injective m n h = cc h

within_field-IsSound :
    (encoded : List ℕ) (pool : Key) (d n s : Option ℕ) (note : Note)
    → within_field encoded pool d n s ≡ some note
    → IsSound encoded note
within_field-IsSound encoded pool none n s note h = absurd (cc h)
within_field-IsSound encoded pool (some d) none s note h = absurd (cc h)
within_field-IsSound encoded pool (some d) (some n) none note h = absurd (cc h)
within_field-IsSound encoded pool (some d) (some n) (some s) note h =
    elim (Bool-cases (ltb n bn254_field_order)) [
      | inr large ↦ absurd (cc (rw large at h))
      | inl first ↦ elim (Bool-cases (ltb s bn254_field_order)) [
        | inr large ↦ absurd (cc (rw (first, large) at h))
        | inl second ↦
            subst (IsSound encoded) (some-injective _ note (rw (first, second) at h))
              (ltb→lt n _ first, ltb→lt s _ second, refl)
      ]
    ]

refused :
    (b : Bool) (o : Option Note) (note : Note) → (if b then none else o) ≡ some note → o ≡ some note
refused true o note h = absurd (cc h)
refused false o note h = h

decode_numbers-IsSound :
    (encoded d p : List ℕ) (pool : Option Key) (note : Note)
    → decode_numbers encoded d p pool ≡ some note
    → IsSound encoded note
unfolding decode_numbers
decode_numbers-IsSound encoded d p none note h = absurd (cc h)
decode_numbers-IsSound encoded d p (some pool) note h =
    within_field-IsSound encoded pool (hex_to_bigint d) (hex_to_bigint (take 64 p))
      (hex_to_bigint (drop 64 p)) note
      (refused (not (all_hex p)) _ note (
        refused (not (length p == 128)) _ note
          (refused (not (length d == 16) || not (all_hex d)) _ note h)))

decode_parts-IsSound :
    (of_base58 : List ℕ → Option Key) (encoded : List ℕ) (ps : List (List ℕ)) (note : Note)
    → decode_parts of_base58 encoded ps ≡ some note
    → IsSound encoded note
decode_parts-IsSound of_base58 encoded [] note h = absurd (cc h)
decode_parts-IsSound of_base58 encoded (a ∷ []) note h = absurd (cc h)
decode_parts-IsSound of_base58 encoded (a ∷ b ∷ []) note h = absurd (cc h)
decode_parts-IsSound of_base58 encoded (a ∷ b ∷ c ∷ []) note h =
    decode_numbers-IsSound encoded b c (of_base58 a) note h
decode_parts-IsSound of_base58 encoded (a ∷ b ∷ c ∷ e ∷ ps) note h = absurd (cc h)

-- A text is only decoded to a note whose nullifier and secret are field elements, and the note keeps
-- the text.
pub decode_note-IsSound :
    (of_base58 : List ℕ → Option Key) (encoded : List ℕ) (note : Note)
    → decode_note of_base58 encoded ≡ some note
    → IsSound encoded note
unfolding decode_note
decode_note-IsSound of_base58 encoded note h =
    decode_parts-IsSound of_base58 encoded (split (drop 5 encoded)) note
      (refused (not (starts_with encoded note_prefix)) _ note h)
