-- ===== src/App/RelayerClient.antt =====
-- app/src/hooks/useRelayer.ts: the client's requests to the relayer, from what `fetch` gave. `decode58` is
-- `bs58.decode`. Texts are code units; a body that is no object is left out.

use solnado_cash.Base.{
  ℕ, Bool, true, false, ◌&&◌, Option, none, some, List, [], ◌∷◌, ◌==◌, if◌then◌else◌, length,
  codes_eq, pos,
}
use solnado_cash.Base.Text.{codes}
use solnado_cash.Base.Json.{Json, truthy}
use solnado_cash.Base.Outcome.{Outcome, ok, err, ◌>>=◌}
use solnado_cash.App.Deposits.{Base58}

-- The fields of a body by name, `undefined` for one that is missing.
abbrev pub Body : Type 0
Body = List ℕ → Json

-- What fetch gave in the time allowed: an answer with its status, or nothing. The body is `none` when it
-- is not JSON.
pub record Response : Type 0 where
  pub is_ok : Bool
  pub status : ℕ
  pub body : Option Body

pub data Fetched : Type 0 where
  timed_out : Fetched
  failed : List ℕ → Fetched
  responded : Response → Fetched

pub data ClientError : Type 0 where
  no_answer : ClientError
  unreachable : List ℕ → ClientError
  not_json : ClientError
  quote_refused : Json → ClientError
  missing_field : List ℕ → ClientError
  submission_refused : Json → Json → Json → ClientError
  no_signature invalid_signature : ClientError

unfoldable pub fetch_with_timeout : Fetched → Outcome ClientError Response
fetch_with_timeout timed_out = err no_answer
fetch_with_timeout (failed message) = err (unreachable message)
fetch_with_timeout (responded res) = ok res

unfoldable pub parse_json : Option Body → Outcome ClientError Body
parse_json none = err not_json
parse_json (some body) = ok body

abbrev pub is_missing : Json → Bool
is_missing Json.undefined = true
is_missing Json.null = true
is_missing _ = false

unfoldable pub require_fields : List (List ℕ) → Body → Outcome ClientError Body
require_fields [] body = ok body
require_fields (f ∷ fs) body =
    let rest = require_fields fs body in if is_missing (body f) then err (missing_field f) else rest

abbrev pub quote_fields : List (List ℕ)
quote_fields = codes "relayerAddress" ∷ codes "relayerFeeMax" ∷ codes "estimatedUserReceives" ∷ []

unfoldable pub fetch_fee_quote : Fetched → Outcome ClientError Body
unfolding fetch_with_timeout parse_json require_fields
fetch_fee_quote fetched = do
  res ← fetch_with_timeout fetched
  body ← parse_json res.body
  (if res.is_ok
      then require_fields quote_fields body
      else err (
          quote_refused (
            if truthy (body (codes "error"))
            then body (codes "error")
            else Json.str (codes "Failed to get fee quote"))))

unfoldable pub is_transaction_signature : (Base58 → Option (List ℕ)) → Base58 → Bool
is_transaction_signature decode58 value = elim (decode58 value) [
  | none ↦ false
  | some bytes ↦ length bytes == 64
]

-- The signature and the fee of a submission that succeeded.
pub record Submitted : Type 0 where
  pub tx_signature : Base58
  pub fee_taken : Json

unfoldable pub read_signature : (Base58 → Option (List ℕ)) → Json → Outcome ClientError Base58
unfolding is_transaction_signature
read_signature decode58 (Json.str []) = err no_signature
read_signature decode58 (Json.str (c ∷ cs)) =
    if is_transaction_signature decode58 (c ∷ cs) then ok (c ∷ cs) else err invalid_signature
read_signature decode58 _ = err no_signature

-- The code is the body's error, or the status.
abbrev pub refusal_code : ℕ → Json → Json
refusal_code status e = if truthy e then e else Json.int (pos status)

unfoldable pub submit_proof : (Base58 → Option (List ℕ)) → Fetched → Outcome ClientError Submitted
unfolding fetch_with_timeout parse_json read_signature
submit_proof decode58 fetched = do
  res ← fetch_with_timeout fetched
  body ← parse_json res.body
  (if res.is_ok
      then (do
        sig ← read_signature decode58 (body (codes "txSignature"))
        ok (record { tx_signature = sig; fee_taken = body (codes "feeTaken") }))
      else err (
          submission_refused (refusal_code res.status (body (codes "error")))
            (body (codes "message")) (body (codes "logs"))))

abbrev pub is_text : List ℕ → Json → Bool
is_text expected (Json.str cs) = codes_eq cs expected
is_text expected _ = false

abbrev pub status_is_ok : Outcome ClientError Body → Bool
status_is_ok (ok body) = is_text (codes "ok") (body (codes "status"))
status_is_ok (err e) = false

abbrev pub healthy : Outcome ClientError Response → Bool
healthy (err e) = false
healthy (ok res) = res.is_ok && status_is_ok (parse_json res.body)

unfoldable pub check_relayer_health : Fetched → Bool
unfolding fetch_with_timeout parse_json
check_relayer_health fetched = healthy (fetch_with_timeout fetched)
