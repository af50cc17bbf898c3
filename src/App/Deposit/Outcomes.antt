-- ===== src/App/Deposit/Outcomes.antt =====
-- What a deposit leaves behind, on each of its ways out.
use solnado_cash.Base.{
  ℕ, ◌≡◌, refl, ◌⊎◌, inl, inr, Bool, true, false, Option, none, some, List, Bool-cases,
}
use solnado_cash.App.ClusterGate.{Verdict, acts_on, wrong_cluster, unverified}
use solnado_cash.App.WalletCluster.{
  WalletVerdict, can_pay, insufficient, unreadable, check_wallet_can_deposit,
}
use solnado_cash.App.NoteVault.{
  Vault, Staged, sent, confirmed, stage_note, mark_note_status, write_one, mark, act,
}
use solnado_cash.App.NoteVault.Kept.{IsStored, act-IsStored, read_one-set_item_self}
use solnado_cash.App.SendError.{SendError, is_wallet_rejection, proves_not_broadcast}
use solnado_cash.App.Deposit.{
  World, Screen, Done, SendResult, signed, failed, Prepared, ready, not_ready, confirm, blocked,
  error_message, after_failure, after_sending, send_staged, after_gates, after_balance,
  after_cluster, handle_deposit,
}

-- The wallet itself refused to sign the deposit.
abbrev pub IsRefused : SendResult → Type 0
IsRefused (signed sig) = ⊥
IsRefused (failed err) = is_wallet_rejection err ≡ true

-- The handler was past the gates and the staging with this note.
abbrev pub IsStagedFor : Prepared → List ℕ → Type 0
IsStagedFor (ready staged) note = staged.note ≡ note
IsStagedFor (not_ready err) note = ⊥

-- The note that was staged is stored, unless the wallet refused.
abbrev pub IsKept : World → Vault → Type 0
IsKept w vault =
    (note : List ℕ) × IsStagedFor w.prepared note × (IsRefused w.send ⊎ IsStored note vault)

keeps_mark :
    (works : Bool) (now : ℕ) (note : List ℕ) (vault : Vault) (sig : Option (List ℕ))
    → IsStored note vault
    → IsStored note (mark_note_status works now note sent sig vault)
      × ((again : Bool)
          → IsStored note (
              mark_note_status again now note confirmed sig
                (mark_note_status works now note sent sig vault)))
unfolding act
keeps_mark works now note vault sig h =
    let first : IsStored note (mark_note_status works now note sent sig vault) =
      act-IsStored (mark works now note sent sig) note vault (λ e. e) h in
    (first, λ again. act-IsStored (mark again now note confirmed sig) note _ (λ e. e) first)

after_failure-IsStored :
    (w : World) (note : List ℕ) (err : SendError) (screen : Screen) (vault : Vault)
    → IsStored note vault
    → (is_wallet_rejection err ≡ true) ⊎ IsStored note (after_failure w note err screen vault).vault
unfolding error_message
after_failure-IsStored w note err screen vault h = elim (Bool-cases (is_wallet_rejection err)) [
  | inl refused ↦ inl refused
  | inr other ↦ inr (
      rw other (elim (Bool-cases (proves_not_broadcast err)) [
        | inl proved ↦ rw proved h
        | inr unknown ↦ rw unknown (keeps_mark (w.works 1) w.marked_at note vault none h).0
      ]))
]

after_sending-IsStored :
    (w : World) (note : List ℕ) (s : SendResult) (screen : Screen) (vault : Vault)
    → IsStored note vault
    → IsRefused s ⊎ IsStored note (after_sending w note s screen vault).vault
unfolding mark_note_status
after_sending-IsStored w note (failed err) screen vault h =
    after_failure-IsStored w note err screen vault h
after_sending-IsStored w note (signed sig) screen vault h =
    let kept = keeps_mark (w.works 1) w.marked_at note vault (some sig) h in
    inr (elim (Bool-cases w.confirms) [
      | inl confirmed_there ↦ rw confirmed_there (kept.1 (w.works 2))
      | inr timed_out ↦ rw timed_out kept.0
    ])

stage_note-IsStored :
    (works : Bool) (now : ℕ) (session : List ℕ) (staged : Staged) (vault : Vault)
    → (stage_note works now session staged vault).0 ≡ true
    → IsStored staged.note (stage_note works now session staged vault).1
unfolding stage_note write_one
stage_note-IsStored false now session staged vault h = cc
stage_note-IsStored true now session staged vault h = (_, read_one-set_item_self _ vault)

send_staged-IsStored :
    (w : World) (staged : Staged) (screen : Screen) (written : Bool × Vault)
    → (written.0 ≡ true → IsStored staged.note written.1)
    → (send_staged w staged screen written).was_sent ≡ true
    → IsRefused w.send ⊎ IsStored staged.note (send_staged w staged screen written).vault
send_staged-IsStored w staged screen (false, vault) k h = cc
send_staged-IsStored w staged screen (true, vault) k h =
    after_sending-IsStored w staged.note w.send _ vault (k refl)

after_gates-IsKept :
    (w : World) (p : Prepared) (screen : Screen) (vault : Vault)
    → w.prepared ≡ p
    → (after_gates w p screen vault).was_sent ≡ true
    → IsKept w (after_gates w p screen vault).vault
unfolding stage_note
after_gates-IsKept w (not_ready err) screen vault e h = cc
after_gates-IsKept w (ready staged) screen vault e h = (
  staged.note,
  rw e refl,
  send_staged-IsStored w staged screen (stage_note (w.works 0) w.staged_at w.session staged vault)
      (stage_note-IsStored (w.works 0) w.staged_at w.session staged vault) h,
)

after_balance-IsKept :
    (w : World) (v : WalletVerdict) (screen : Screen) (vault : Vault)
    → (after_balance w v screen vault).was_sent ≡ true
    → IsKept w (after_balance w v screen vault).vault
after_balance-IsKept w (can_pay balance) screen vault h =
    after_gates-IsKept w w.prepared screen vault refl h
after_balance-IsKept w (insufficient balance required) screen vault h = cc
after_balance-IsKept w (unreadable required) screen vault h = cc

after_cluster-IsKept :
    (w : World) (v : Verdict) (screen : Screen) (vault : Vault)
    → (after_cluster w v screen vault).was_sent ≡ true
    → IsKept w (after_cluster w v screen vault).vault
after_cluster-IsKept w (acts_on cluster hash) screen vault h =
    after_balance-IsKept w (check_wallet_can_deposit w.balance w.denomination) screen vault h
after_cluster-IsKept w (wrong_cluster cluster) screen vault h = cc
after_cluster-IsKept w unverified screen vault h = cc

-- Once the deposit was handed to the wallet, its note is in the storage when the handler ends, whatever
-- the wallet, the RPC and the storage answered, unless the wallet itself refused to sign.
pub handle_deposit-IsKept :
    (w : World) (screen : Screen) (vault : Vault)
    → (handle_deposit w screen vault).was_sent ≡ true
    → IsKept w (handle_deposit w screen vault).vault
unfolding handle_deposit
handle_deposit-IsKept w screen vault h = after_cluster-IsKept w w.cluster _ vault h

-- The verdicts of the two gates.
abbrev pub may_pay : WalletVerdict → Bool
may_pay (can_pay balance) = true
may_pay (insufficient balance required) = false
may_pay (unreadable required) = false

-- What a blocked deposit leaves: no event and no stored note, the note still on the screen, the confirmation
-- page, and the message of the gate.
pub record IsBlocked (before : Screen) (vault : Vault) (d : Done) : Type 0 where
  pub not_sent : d.was_sent ≡ false
  pub same_vault : d.vault ≡ vault
  pub same_note : d.screen.secret_note ≡ before.secret_note
  pub at_confirm : d.screen.step ≡ confirm
  pub told : d.screen.error ≡ some blocked
