-- ===== src/App/Deposit.antt =====
-- app/src/pages/Deposit.tsx: `handleDeposit` as one function of what the wallet, the RPC and the storage
-- answer. The rendering is not modelled. Texts are code units.
pub mod Outcomes
use Prim.Native.String.{String}
use solnado_cash.Base.{
  ℕ, ◌+◌, Bool, true, false, not, ◌&&◌, ◌||◌, Option, none, some, List, [], ◌∷◌, ◌++◌, ◌==◌,
  if◌then◌else◌, codes_eq,
}
use solnado_cash.Base.Text.{codes, starts_with, includes}
use solnado_cash.App.SendError.{
  SendError, is_wallet_rejection, plain, primitive, proves_not_broadcast, simulation_logs, wrapping,
}
use solnado_cash.App.ClusterGate.{Verdict, acts_on, wrong_cluster, unverified}
use solnado_cash.App.WalletCluster.{
  WalletVerdict, can_pay, insufficient, unreadable, check_wallet_can_deposit,
}
use solnado_cash.App.NoteVault.{
  Vault, Staged, sent, confirmed, stage_note, mark_note_status, clear_note,
}

pub record PoolFlags : Type 0 where
  pub is_paused : Bool
  pub is_saturated : Bool

-- The pool has been read, and neither flag is set.
abbrev pub open_for_deposits : Option PoolFlags → Bool
open_for_deposits none = false
open_for_deposits (some flags) = not flags.is_paused && not flags.is_saturated

-- `has_address`, `has_error` and `has_block` say whether the text is there; an empty address is none.
unfoldable pub deposit_can_continue : Bool → Bool → Bool → Option PoolFlags → Bool → Bool → Bool
deposit_can_continue has_address loading has_error info cluster_allowed has_block =
    has_address
    && (not loading
        && (not has_error && (open_for_deposits info && (cluster_allowed && not has_block))))

pub data Page : Type 0 where
  select confirm processing note_shown next : Page

pub data Message : Type 0 where
  cannot_save blocked cancelled not_enough_sol pool_paused pool_full rejected_before_sending
        maybe_saved :
      Message

-- The parts of the page's state that the handler sets.
pub record Screen : Type 0 where
  pub step : Page
  pub secret_note : List ℕ
  pub error : Option Message
  pub tx_sig : Option (List ℕ)
  pub confirm_unknown : Bool
  pub deposited_this_session : Bool

pub data SendResult : Type 0 where
  signed : List ℕ → SendResult
  failed : SendError → SendResult

-- The note and its transaction, or what a call before the staging threw.
pub data Prepared : Type 0 where
  ready : Staged → Prepared
  not_ready : SendError → Prepared

-- What the handler meets on its way. `works` says whether the storage accepts the handler's first,
-- second and third write.
pub record World : Type 0 where
  pub cluster : Verdict
  pub balance : Option ℕ
  pub denomination : ℕ
  pub prepared : Prepared
  pub session : List ℕ
  pub staged_at : ℕ
  pub marked_at : ℕ
  pub works : ℕ → Bool
  pub send : SendResult
  pub confirms : Bool

pub record Done : Type 0 where
  pub screen : Screen
  pub vault : Vault
  -- Whether `sendTransaction` was called.
  pub was_sent : Bool

-- What the outer `catch` catches: one of the gates' errors, or another.
pub data Caught : Type 0 where
  by_gate : Caught
  thrown : SendError → Caught

abbrev pub message_of : SendError → List ℕ
message_of primitive = codes "Transaction failed"
message_of (plain e) = e.message
message_of (wrapping e cause) = e.message

-- logs.join(' ')
unfoldable pub joined : List (List ℕ) → List ℕ
joined [] = []
joined (line ∷ []) = line
joined (line ∷ more ∷ lines) = line ++ b' ' ∷ joined (more ∷ lines)

unfoldable pub reason_of : SendError → List ℕ
unfolding simulation_logs joined
reason_of err = message_of err ++ b' ' ∷ joined (simulation_logs err)

abbrev pub says : String → SendError → Bool
says s err = includes (reason_of err) (codes s)

unfoldable pub error_message : Caught → Message
unfolding is_wallet_rejection reason_of includes proves_not_broadcast
error_message by_gate = blocked
error_message (thrown err) =
    if is_wallet_rejection err
    then cancelled
    else if says "insufficient" err || says "not enough" err
    then not_enough_sol
    else if says "PoolPaused" err
    then pool_paused
    else if says "PoolSaturated" err || says "TreeFull" err
    then pool_full
    else if proves_not_broadcast err
    then rejected_before_sending
    else maybe_saved

abbrev pub catch_error : Caught → Screen → Screen
catch_error err screen = record screen { error = some (error_message err); step = confirm }

abbrev pub show_note : Bool → Screen → Screen
show_note unknown screen = record screen {
  step = note_shown;
  confirm_unknown = unknown || screen.confirm_unknown;
  deposited_this_session = true;
}

-- The inner `catch`: the note is given up only when the wallet itself refused.
abbrev pub after_failure : World → List ℕ → SendError → Screen → Vault → Done
after_failure w note err screen vault =
    if is_wallet_rejection err
    then record {
      screen = catch_error (thrown err) (record screen { secret_note = [] });
      vault = clear_note (w.works 1) note vault;
      was_sent = true;
    }
    else if proves_not_broadcast err
    then record {
      screen = catch_error (thrown err) (record screen { secret_note = [] });
      vault = vault;
      was_sent = true;
    }
    else record {
      screen = show_note true screen;
      vault = mark_note_status (w.works 1) w.marked_at note sent none vault;
      was_sent = true;
    }

-- confirmTransaction, and the second marking when it succeeds.
abbrev pub after_signing : World → List ℕ → List ℕ → Screen → Vault → Done
after_signing w note sig screen vault = record {
  screen = show_note (not w.confirms) (record screen { tx_sig = some sig });
  vault =
      (if w.confirms
        then mark_note_status (w.works 2) w.marked_at note confirmed (some sig) vault
        else vault);
  was_sent = true;
}

abbrev pub after_sending : World → List ℕ → SendResult → Screen → Vault → Done
after_sending w note (failed err) screen vault = after_failure w note err screen vault
after_sending w note (signed sig) screen vault =
    after_signing w note sig screen
      (mark_note_status (w.works 1) w.marked_at note sent (some sig) vault)

abbrev pub send_staged : World → Staged → Screen → Bool × Vault → Done
send_staged w staged screen (false, vault) = record {
  screen = record screen { error = some cannot_save; step = confirm };
  vault = vault;
  was_sent = false;
}
send_staged w staged screen (true, vault) =
    after_sending w staged.note w.send (record screen { secret_note = staged.note }) vault

abbrev pub stopped : Caught → Screen → Vault → Done
stopped err screen vault = record {
  screen = catch_error err screen;
  vault = vault;
  was_sent = false;
}

abbrev pub after_gates : World → Prepared → Screen → Vault → Done
after_gates w (not_ready err) screen vault = stopped (thrown err) screen vault
after_gates w (ready staged) screen vault =
    send_staged w staged screen (stage_note (w.works 0) w.staged_at w.session staged vault)

abbrev pub after_balance : World → WalletVerdict → Screen → Vault → Done
after_balance w (can_pay balance) screen vault = after_gates w w.prepared screen vault
after_balance w (insufficient balance required) screen vault = stopped by_gate screen vault
after_balance w (unreadable required) screen vault = stopped by_gate screen vault

abbrev pub after_cluster : World → Verdict → Screen → Vault → Done
after_cluster w (acts_on cluster hash) screen vault =
    after_balance w (check_wallet_can_deposit w.balance w.denomination) screen vault
after_cluster w (wrong_cluster cluster) screen vault = stopped by_gate screen vault
after_cluster w unverified screen vault = stopped by_gate screen vault

-- The handler, with a pool that has an address and a connected wallet.
unfoldable pub handle_deposit : World → Screen → Vault → Done
unfolding stage_note mark_note_status clear_note error_message check_wallet_can_deposit
handle_deposit w screen vault =
    after_cluster w w.cluster
      (record screen { step = processing; error = none; confirm_unknown = false }) vault
