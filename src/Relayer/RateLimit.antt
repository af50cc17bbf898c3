-- ===== src/Relayer/RateLimit.antt =====
-- relayer/src/ratelimit.js: the key under which a note is counted.
pub mod Notes
use solnado_cash.Base.{
  ℕ, Bool, ◌&&◌, ◌||◌, Option, none, some, List, [], ◌∷◌, ltb, leb, ◌==◌, if◌then◌else◌, length, ℤ,
  pos, negsuc,
}
use solnado_cash.Base.Json.{Json, str, string_to_bigint, decimal}

abbrev pub bn254_fr : ℕ
bn254_fr = 21888242871839275222246405745257275088548364400416034343698204186575808495617

-- "invalid"
abbrev pub invalid : List ℕ
invalid = b'i' ∷ b'n' ∷ b'v' ∷ b'a' ∷ b'l' ∷ b'i' ∷ b'd' ∷ []

abbrev pub key_of_bigint : Option ℤ → List ℕ
key_of_bigint none = invalid
key_of_bigint (some (negsuc n)) = invalid
key_of_bigint (some (pos n)) = if ltb n bn254_fr then decimal n else invalid

unfoldable pub nullifier_key : Json → List ℕ
nullifier_key (str cs) =
    if length cs == 0 || ltb 80 (length cs) then invalid else key_of_bigint (string_to_bigint cs)
nullifier_key _ = invalid
