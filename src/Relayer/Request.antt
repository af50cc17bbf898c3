-- ===== src/Relayer/Request.antt =====
-- relayer/src/api.js, the first part of `handleSubmit`: the fields of a request body.
use solnado_cash.Base.{
  ℕ, Bool, true, false, not, ◌&&◌, ◌||◌, Option, none, some, List, [], ◌∷◌, ltb, leb, ◌==◌, length,
  ℤ, pos,
}
use solnado_cash.Base.Json.{Json, str, array, nil, cons, truthy, to_bigint}
use solnado_cash.Base.Chain.{Key}
use solnado_cash.Relayer.Response.{
  missing_fields, invalid_public_signals, invalid_relayer_fee_max, invalid_address, refusal,
}
use solnado_cash.Relayer.Tx.{ProofField, plain, groth16}
use solnado_cash.Relayer.Steps.{Step, go, answer, ◌>>=◌, unless, ok_or}
use solnado_cash.Relayer.Node.{Node}

-- The five fields that are read of the body.
pub record Body : Type 0 where
  pub proof : ProofField
  pub public_signals : Json
  pub pool_address : Json
  pub recipient : Json
  pub relayer_fee_max : Json

abbrev pub proof_truthy : ProofField → Bool
proof_truthy (plain v) = truthy v
proof_truthy (groth16 p) = true

-- The three items of an array of three.
abbrev pub three : Json → Option (Json × Json × Json)
three (array (cons a (cons b (cons c nil)))) = some (a, b, c)
three _ = none

abbrev pub is_digit : ℕ → Bool
is_digit c = leb b'0' c && leb c b'9'

abbrev pub all_digits : List ℕ → Bool
all_digits [] = true
all_digits (c ∷ cs) = is_digit c && all_digits cs

-- /^(0|[1-9][0-9]{0,19})$/
unfoldable pub is_fee_text : List ℕ → Bool
is_fee_text [] = false
is_fee_text (c ∷ cs) =
    (c == b'0' && length cs == 0)
    || ((leb b'1' c && leb c b'9') && all_digits cs && leb (length cs) 19)

abbrev pub fee_number : Option ℤ → Option ℕ
fee_number (some (pos n)) = some n
fee_number _ = none

-- `BigInt` of a text that passes never throws and is never negative.
unfoldable pub fee_max_of : Json → Step ℕ
unfolding is_fee_text
fee_max_of (str cs) = do
  form ← unless (not (is_fee_text cs)) (refusal 400 invalid_relayer_fee_max)
  n ← ok_or (fee_number (to_bigint (str cs))) (refusal 400 invalid_relayer_fee_max)
  size ← unless (ltb 0xffff_ffff_ffff_ffff n) (refusal 400 invalid_relayer_fee_max)
  go n
fee_max_of _ = answer (refusal 400 invalid_relayer_fee_max)

-- What is known of a request once its fields are read.
pub record Request : Type 0 where
  pub proof : ProofField
  pub signals : Json
  pub nullifier : Json
  pub root : Json
  pub commitment : Json
  pub fee_max : ℕ
  pub pool : Key
  pub recipient : Key

abbrev pub lacks_fields : Body → Bool
lacks_fields b =
    not (proof_truthy b.proof)
    || (not (truthy b.public_signals) || (not (truthy b.pool_address) || not (truthy b.recipient)))

unfoldable pub read_request : Node → Body → Step Request
unfolding fee_max_of
read_request node b = do
  present ← unless (lacks_fields b) (refusal 400 missing_fields)
  signals ← ok_or (three b.public_signals) (refusal 400 invalid_public_signals)
  fee_max ← fee_max_of b.relayer_fee_max
  pool ← ok_or (node.to_key b.pool_address) (refusal 400 invalid_address)
  recipient ← ok_or (node.to_key b.recipient) (refusal 400 invalid_address)
  go (record {
    proof = b.proof;
    signals = b.public_signals;
    nullifier = signals.0;
    root = signals.1;
    commitment = signals.2;
    fee_max = fee_max;
    pool = pool;
    recipient = recipient;
  })
