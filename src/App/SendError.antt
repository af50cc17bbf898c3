-- ===== src/App/SendError.antt =====
-- app/src/pages/Deposit.tsx: what a failed `sendTransaction` proves. Of the errors, the parts that the code
-- reads; texts are code units.
use Prim.Native.String.{String}
use solnado_cash.Base.{
  ℕ, Bool, true, false, ◌||◌, Option, none, some, List, [], ◌==◌, if◌then◌else◌, codes_eq,
}
use solnado_cash.Base.Text.{codes, starts_with}

-- The web3.js class of an error; the program logs are those of its transactionError, when an array.
pub data ErrorClass : Type 0 where
  send_transaction_error : List (List ℕ) → ErrorClass
  json_rpc_error other_error : ErrorClass

pub record JsError : Type 0 where
  pub class : ErrorClass
  pub name : List ℕ
  pub code : Option ℕ
  pub message : List ℕ

-- What was thrown: no object, an error without an inner one, or one with its `error`.
pub data SendError : Type 0 where
  primitive : SendError
  plain : JsError → SendError
  wrapping : JsError → SendError → SendError

abbrev pub is_named : String → JsError → Bool
is_named s e = codes_eq e.name (codes s)

abbrev pub is_rpc_class : ErrorClass → Bool
is_rpc_class (send_transaction_error logs) = true
is_rpc_class json_rpc_error = true
is_rpc_class other_error = false

abbrev pub is_code_4001 : Option ℕ → Bool
is_code_4001 none = false
is_code_4001 (some code) = code == 4001

abbrev pub is_wallet_origin : JsError → Bool
is_wallet_origin e =
    if is_rpc_class e.class
    then false
    else if is_named "SendTransactionError" e || is_named "SolanaJSONRPCError" e
    then false
    else is_code_4001 e.code

unfoldable pub is_wallet_origin_rejection : SendError → Bool
is_wallet_origin_rejection primitive = false
is_wallet_origin_rejection (plain e) = is_wallet_origin e
is_wallet_origin_rejection (wrapping e cause) = is_wallet_origin e

unfoldable pub is_wallet_rejection : SendError → Bool
unfolding is_wallet_origin_rejection
is_wallet_rejection primitive = false
is_wallet_rejection (plain e) =
    if is_named "WalletSignTransactionError" e
    then true
    else if is_named "WalletSendTransactionError" e
    then false
    else is_wallet_origin e
is_wallet_rejection (wrapping e cause) =
    if is_named "WalletSignTransactionError" e
    then true
    else if is_named "WalletSendTransactionError" e
    then is_wallet_origin_rejection cause
    else is_wallet_origin e

-- The error that `provesNotBroadcast` and `simulationLogs` look at.
abbrev pub unwrapped : SendError → SendError
unwrapped primitive = primitive
unwrapped (plain e) = if is_named "WalletSendTransactionError" e then primitive else plain e
unwrapped (wrapping e cause) =
    if is_named "WalletSendTransactionError" e then cause else wrapping e cause

abbrev pub is_failed_simulation : ErrorClass → List ℕ → Bool
is_failed_simulation (send_transaction_error logs) message =
    starts_with message (codes "Simulation failed")
is_failed_simulation _ message = false

abbrev pub failed_simulation : SendError → Bool
failed_simulation primitive = false
failed_simulation (plain e) = is_failed_simulation e.class e.message
failed_simulation (wrapping e cause) = is_failed_simulation e.class e.message

unfoldable pub proves_not_broadcast : SendError → Bool
unfolding starts_with
proves_not_broadcast err = failed_simulation (unwrapped err)

abbrev pub logs_of_class : ErrorClass → List (List ℕ)
logs_of_class (send_transaction_error logs) = logs
logs_of_class json_rpc_error = []
logs_of_class other_error = []

abbrev pub logs_of : SendError → List (List ℕ)
logs_of primitive = []
logs_of (plain e) = logs_of_class e.class
logs_of (wrapping e cause) = logs_of_class e.class

unfoldable pub simulation_logs : SendError → List (List ℕ)
simulation_logs err = logs_of (unwrapped err)
