-- ===== src/App/Reconcile.antt =====
-- app/src/utils/noteReconcile.ts: the pending notes checked against the chain. `of_base58` reads an
-- address, `hash` is Poseidon, `rebuilt` the answer of `rebuildMerkleTree` for a pool, `clock` Date.now()
-- when a note is looked at, and `works` whether the storage accepts a write then.
pub mod Judged
use solnado_cash.Base.{
  ℕ, zero, suc, ◌+◌, ◌*◌, Bool, true, false, Option, none, some, List, [], ◌∷◌, ltb, if◌then◌else◌,
}
use solnado_cash.Base.Chain.{Key}
use solnado_cash.Base.Outcome.{Outcome, ok, err}
use solnado_cash.Sdk.MerkleTree.{has_leaf}
use solnado_cash.Sdk.Note.{Note, decode_note}
use solnado_cash.App.NoteVault.{
  PendingNote, Status, unsent, sent, confirmed, Vault, pending_notes, mark_note_status,
}
use solnado_cash.App.Rebuild.{Rebuilt, Failure}

abbrev pub grace_ms : ℕ
grace_ms = 2 * 60 * 1000

pub record ReconcileResult : Type 0 where
  pub confirmed_count : ℕ
  pub not_found : ℕ
  pub unresolved : ℕ

-- What becomes of one note.
pub data Judgement : Type 0 where
  skipped undecided found absent : Judgement

abbrev pub answer_of : Bool → Judgement
answer_of true = found
answer_of false = absent

module _ (of_base58 : List ℕ → Option Key) (hash : List ℕ → ℕ)
    (rebuilt : Key → Outcome Failure Rebuilt) where
  unfoldable pub look_in : Outcome Failure Rebuilt → ℕ → Judgement
  unfolding has_leaf
  look_in (ok r) commitment = answer_of (has_leaf r.tree commitment)
  look_in (err e) commitment = undecided

  -- The `try` of the loop.
  unfoldable pub look_up : Option Note → Judgement
  unfolding look_in
  look_up none = undecided
  look_up (some n) =
      look_in (rebuilt n.pool_address) (hash (n.nullifier ∷ n.secret ∷ n.denomination ∷ []))

  -- A note that was broadcast long enough ago is looked up.
  abbrev pub judge_sent : ℕ → Option ℕ → List ℕ → Judgement
  judge_sent now none note = undecided
  judge_sent now (some t) note =
      if ltb now (t + grace_ms) then undecided else look_up (decode_note of_base58 note)

  unfoldable pub judge_by : ℕ → Status → Option ℕ → List ℕ → Judgement
  unfolding look_up
  judge_by now confirmed sent_at note = skipped
  judge_by now unsent sent_at note = undecided
  judge_by now sent sent_at note = judge_sent now sent_at note

  abbrev pub judge : ℕ → PendingNote → Judgement
  judge now entry = judge_by now entry.status entry.sent_at entry.note

abbrev pub count : Judgement → ReconcileResult → ReconcileResult
count skipped r = r
count undecided r = record r { unresolved = r.unresolved + 1 }
count found r = record r { confirmed_count = r.confirmed_count + 1 }
count absent r = record r { not_found = r.not_found + 1 }

-- Only a note that is found is written to.
abbrev pub apply_judgement : Bool → ℕ → List ℕ → Judgement → Vault → Vault
apply_judgement works now note found vault = mark_note_status works now note confirmed none vault
apply_judgement works now note skipped vault = vault
apply_judgement works now note undecided vault = vault
apply_judgement works now note absent vault = vault

module _ (of_base58 : List ℕ → Option Key) (hash : List ℕ → ℕ)
    (rebuilt : Key → Outcome Failure Rebuilt) (clock : List ℕ → ℕ) (works : List ℕ → Bool) where
  -- The loop, over the notes read at its start.
  unfoldable pub reconcile_all :
      List PendingNote → Vault → ReconcileResult → Vault × ReconcileResult
  unfolding judge_by mark_note_status
  reconcile_all [] vault r = (vault, r)
  reconcile_all (entry ∷ entries) vault r =
      let j = judge of_base58 hash rebuilt (clock entry.note) entry in
      reconcile_all entries
        (apply_judgement (works entry.note) (clock entry.note) entry.note j vault) (count j r)

  unfoldable pub reconcile_pending_notes : Vault → Vault × ReconcileResult
  unfolding pending_notes reconcile_all
  reconcile_pending_notes vault =
      reconcile_all (pending_notes vault) vault
        (record { confirmed_count = 0; not_found = 0; unresolved = 0 })
