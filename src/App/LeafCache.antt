-- ===== src/App/LeafCache.antt =====
-- app/src/utils/leafCache.ts: the cache of a pool's leaves in localStorage, under one key for a program
-- and a pool. `writes` and `removes` say whether the storage accepts the call; a call that throws
-- changes nothing.
pub mod Trust
use solnado_cash.Base.{
  ℕ, Bool, true, false, ◌&&◌, ◌||◌, Option, none, some, List, [], ◌∷◌, map, ltb, leb, ◌==◌,
  if◌then◌else◌, length,
}
use solnado_cash.Base.Json.{Json}
use solnado_cash.Sdk.Note.{bigint_to_hex64, hex_to_bigint}
use solnado_cash.App.Deposits.{Base58}

abbrev pub max_cached_leaves : ℕ
max_cached_leaves = 20_000

-- The leaves as 64 hexadecimal digits, and the newest signature scanned.
pub record LeafCache : Type 0 where
  pub leaves : List (List ℕ)
  pub last_signature : Option Base58

-- What getItem and JSON.parse give: nothing, a failure, or an object. Its leaves are `none` when
-- they are no array.
pub data Item : Type 0 where
  missing unreadable : Item
  payload : Option (List Json) → Option Base58 → Item

abbrev pub cold : LeafCache
cold = record { leaves = []; last_signature = none }

abbrev pub is_lower_hex : ℕ → Bool
is_lower_hex c = leb b'0' c && leb c b'9' || leb b'a' c && leb c b'f'

unfoldable pub all_lower_hex : List ℕ → Bool
all_lower_hex [] = true
all_lower_hex (c ∷ cs) = is_lower_hex c && all_lower_hex cs

-- typeof l === 'string' && /^[0-9a-f]{64}$/.test(l)
unfoldable pub leaf_text : Json → Option (List ℕ)
unfolding all_lower_hex
leaf_text (Json.str cs) = if length cs == 64 && all_lower_hex cs then some cs else none
leaf_text _ = none

abbrev pub cons_both {ℓ} : {A : Type ℓ} → Option A → Option (List A) → Option (List A)
cons_both (some x) (some xs) = some (x ∷ xs)
cons_both _ _ = none

abbrev pub checked : Option (List (List ℕ)) → Option Base58 → LeafCache
checked none last = cold
checked (some texts) last = record { leaves = texts; last_signature = last }

unfoldable pub leaf_texts : List Json → Option (List (List ℕ))
unfolding leaf_text
leaf_texts [] = some []
leaf_texts (j ∷ js) = cons_both (leaf_text j) (leaf_texts js)

unfoldable pub load_cache : Item → LeafCache
unfolding leaf_texts
load_cache missing = cold
load_cache unreadable = cold
load_cache (payload none last) = cold
load_cache (payload (some js) last) = checked (leaf_texts js) last

unfoldable pub save_cache : Bool → List ℕ → Option Base58 → Item → Item
unfolding bigint_to_hex64
save_cache writes leaves last item =
    if ltb max_cached_leaves (length leaves)
    then item
    else if writes
    then payload (some (map (λ v. Json.str (bigint_to_hex64 v)) leaves)) last
    else item

unfoldable pub clear_cache : Bool → Item → Item
clear_cache removes item = if removes then missing else item

abbrev pub or_zero : Option ℕ → ℕ
or_zero none = 0
or_zero (some n) = n

-- BigInt("0x" + hex), of a text that the load accepted.
unfoldable pub leaf_to_bigint : List ℕ → ℕ
unfolding hex_to_bigint
leaf_to_bigint hex = or_zero (hex_to_bigint hex)
