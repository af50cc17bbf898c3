-- ===== src/Tests/Vault.antt =====
-- app/src: notes in the browser's storage, a deposit, and the order of deposits in one slot.
use solnado_cash.Base.{ℕ, ◌≡◌, refl, true, false, none, some, List, [], ◌∷◌, codes_eq}
use solnado_cash.Base.Text.{codes}
use solnado_cash.Base.Chain.{Key}
use solnado_cash.Base.Outcome.{Outcome, ok, err}
use solnado_cash.App.Deposits.{Base58, ScanError}
use solnado_cash.App.Chronology.{Entry}
use solnado_cash.App.NoteVault.{
  PendingNote, sent, confirmed, Vault, read_one, Action, stage, mark, clear, act_all,
}
use solnado_cash.App.NoteVault.Kept.{IsStored, act_all-IsStored}
use solnado_cash.App.Rebuild.{Rebuilt, Failure, pool_not_found}
use solnado_cash.App.ClusterGate.{
  genesis_hashes, get, verify_cluster, identified_after, Call, acts_on, wrong_cluster,
}
use solnado_cash.App.ClusterGate.Identified.{verify_cluster-allowed}
use solnado_cash.App.SendError.{plain, wrapping, JsError, json_rpc_error, other_error}
use solnado_cash.App.Deposit.{World, Screen, confirm, handle_deposit, ready, failed}
use solnado_cash.App.Deposit.Outcomes.{IsKept, handle_deposit-IsKept}

-- Two deposits of one slot, listed against the block's order.
abbrev entries : List Entry
entries =
    record { leaf = 7; slot = some 9; signature = b'b' ∷ []; order = 0 }
    ∷ record { leaf = 5; slot = some 9; signature = b'a' ∷ []; order = 0 }
    ∷ []

abbrev block : ℕ → Outcome ScanError (List Base58)
block slot = ok ((b'a' ∷ []) ∷ (b'b' ∷ []) ∷ [])

abbrev mine : List ℕ
mine = codes "sndo_mine"

abbrev other : List ℕ
other = codes "sndo_other"

abbrev stored : PendingNote
stored = record {
  note = mine;
  pool_address = [];
  denomination_sol = 1;
  signature = none;
  status = sent;
  created_at = 10;
  sent_at = some 20;
  session = none;
}

abbrev vault : Vault
vault = stored ∷ []

mine-IsStored : IsStored mine vault
unfolding read_one codes_eq
mine-IsStored = (stored, refl)

-- Two tabs stage, mark and clear notes in turn.
abbrev tabs : List Action
tabs =
    stage true 30 [] (record { note = other; pool_address = []; denomination_sol = 1 })
    ∷ mark true 40 mine confirmed none
    ∷ mark false 41 other sent none
    ∷ clear true other
    ∷ []

act_all-IsStored_example : IsStored mine (act_all tabs vault)
act_all-IsStored_example =
    act_all-IsStored tabs mine vault ((λ e. e), ((λ e. e), ((λ e. e), ((λ e. cc), tt))))
      mine-IsStored

-- An RPC that cannot be read.
abbrev no_tree : Key → Outcome Failure Rebuilt
no_tree pool = err (record { error = pool_not_found; cleared = false })

abbrev devnet : List ℕ
devnet = codes "devnet"

abbrev devnet_hash : List ℕ
devnet_hash = codes "EtWTRABZaYq6iMfeYKouRu166VU2xqa1wcaWoxPkrZBG"

abbrev answered : Call
answered = record { endpoint = []; answer = some devnet_hash }

abbrev silent : Call
silent = record { endpoint = []; answer = none }

-- The endpoint answered once, and is remembered when it is silent.
verify_cluster-allowed_example : get devnet genesis_hashes ≡ some devnet_hash
unfolding verify_cluster identified_after codes_eq
verify_cluster-allowed_example =
    verify_cluster-allowed (λ e. devnet_hash) devnet (answered ∷ []) silent ((λ hash e. cc), tt)
      (λ hash e. cc) refl

abbrev before : Screen
before = record {
  step = confirm;
  secret_note = [];
  error = none;
  tx_sig = none;
  confirm_unknown = false;
  deposited_this_session = false;
}

-- An RPC that answers like a wallet.
abbrev liar : JsError
liar = record {
  class = json_rpc_error;
  name = codes "Error";
  code = some 4001;
  message = codes "User rejected the request";
}

abbrev wrapper : JsError
wrapper = record {
  class = other_error;
  name = codes "WalletSendTransactionError";
  code = none;
  message = liar.message;
}

abbrev world : World
world = record {
  cluster = acts_on devnet devnet_hash;
  balance = some 2_000_000;
  denomination = 1_000_000;
  prepared = ready (record { note = other; pool_address = []; denomination_sol = 1 });
  session = [];
  staged_at = 60;
  marked_at = 61;
  works = λ i. true;
  send = failed (wrapping wrapper (plain liar));
  confirms = false;
}

handle_deposit-IsKept_example : IsKept world (handle_deposit world before vault).vault
unfolding handle_deposit codes_eq
handle_deposit-IsKept_example = handle_deposit-IsKept world before vault refl

abbrev on_mainnet : World
on_mainnet = record world { cluster = wrong_cluster (some (codes "mainnet-beta")) }
