-- ===== src/App/LeafCache/Trust.antt =====
-- What a load gives back after a save, and that it never gives a malformed leaf.
use solnado_cash.Base.{
  ℕ, ◌^◌, ◌≤◌, ◌<◌, ◌≡◌, refl, ap, ◌∙◌, true, Option, some, List, [], ◌∷◌, map, arith, ge→ltb,
  length, All, length-map,
}
use solnado_cash.Base.Buffer.{hex64}
use solnado_cash.Base.Buffer.Laws.{hex64-below, length-hex64}
use solnado_cash.Base.Json.{Json, digit_char}
use solnado_cash.Sdk.Note.{bigint_to_hex64}
use solnado_cash.Sdk.Note.Hex.{padded_text}
use solnado_cash.App.Deposits.{Base58}
use solnado_cash.App.LeafCache.{
  Item, max_cached_leaves, all_lower_hex, leaf_text, leaf_texts, load_cache, save_cache,
  leaf_to_bigint, or_zero,
}

digit_char-lower : (ds : List ℕ) → All (λ d. d < 16) ds → all_lower_hex (map digit_char ds) ≡ true
unfolding digit_char all_lower_hex
digit_char-lower [] h = refl
digit_char-lower (d ∷ ds) h = ground (arith, digit_char-lower ds h.1)

saved_text :
    (v : ℕ) → v < 2 ^ 256 → leaf_text (Json.str (bigint_to_hex64 v)) ≡ some (bigint_to_hex64 v)
unfolding leaf_text bigint_to_hex64
saved_text v h =
    let long : length (map digit_char (hex64 v)) ≡ 64 =
      length-map digit_char (hex64 v) ∙ length-hex64 v h in
    rw (long, digit_char-lower (hex64 v) (hex64-below v)) refl

saved_texts :
    (leaves : List ℕ)
    → All (λ v. v < 2 ^ 256) leaves
    → leaf_texts (map (λ v. Json.str (bigint_to_hex64 v)) leaves)
      ≡ some (map bigint_to_hex64 leaves)
unfolding leaf_texts
saved_texts [] h = refl
saved_texts (v ∷ vs) h = rw (saved_text v h.0, saved_texts vs h.1) refl

leaf_to_bigint-hex64 : (v : ℕ) → v < 2 ^ 256 → leaf_to_bigint (bigint_to_hex64 v) ≡ v
unfolding leaf_to_bigint bigint_to_hex64 hex64
leaf_to_bigint-hex64 v h = ap or_zero (padded_text 63 v (omega arith)).2

map-leaf_to_bigint :
    (leaves : List ℕ)
    → All (λ v. v < 2 ^ 256) leaves
    → map leaf_to_bigint (map bigint_to_hex64 leaves) ≡ leaves
map-leaf_to_bigint [] h = refl
map-leaf_to_bigint (v ∷ vs) h = rw (leaf_to_bigint-hex64 v h.0, map-leaf_to_bigint vs h.1) refl

-- After a save that the storage accepts, of at most 20,000 leaves of 32 bytes, a load gives the same
-- leaves in the same order, and the same signature.
pub load_cache-save_cache :
    (leaves : List ℕ) (last : Option Base58) (item : Item)
    → length leaves ≤ max_cached_leaves
    → All (λ v. v < 2 ^ 256) leaves
    → (map leaf_to_bigint (load_cache (save_cache true leaves last item)).leaves ≡ leaves)
      × ((load_cache (save_cache true leaves last item)).last_signature ≡ last)
unfolding load_cache save_cache
load_cache-save_cache leaves last item few small =
    rw (ge→ltb max_cached_leaves (length leaves) few, saved_texts leaves small)
      (map-leaf_to_bigint leaves small, refl)

-- A text of 64 lower-case hexadecimal digits.
abbrev pub IsLeafText : List ℕ → Type 0
IsLeafText t = (length t ≡ 64) × (all_lower_hex t ≡ true)
