-- ===== src/App/NoteVault.antt =====
-- app/src/utils/noteVault.ts: the notes in localStorage, one entry for each note under a key of its own.
-- An entry is listed under its note, so its key always fits it; entries of other shapes, which
-- `readAll` skips, and the migration from the two array formats are left out. `works` says whether the
-- storage accepts a call, `now` is Date.now(), and the events for the other tabs are not modelled.
pub mod Kept
use solnado_cash.Base.{
  ℕ, zero, suc, ◌+◌, Bool, true, false, not, ◌&&◌, ◌||◌, Option, none, some, List, [], ◌∷◌, ◌++◌,
  ltb, if◌then◌else◌, length, codes_eq,
}

pub data Status : Type 0 where
  unsent sent confirmed : Status

pub record PendingNote : Type 0 where
  pub note : List ℕ
  pub pool_address : List ℕ
  pub denomination_sol : ℕ
  pub signature : Option (List ℕ)
  pub status : Status
  pub created_at : ℕ
  pub sent_at : Option ℕ
  pub session : Option (List ℕ)

-- The entries in the order of the storage's keys.
abbrev pub Vault : Type 0
Vault = List PendingNote

unfoldable pub read_one : List ℕ → Vault → Option PendingNote
read_one note [] = none
read_one note (n ∷ ns) = if codes_eq n.note note then some n else read_one note ns

-- setItem: the entry under the same key is replaced.
unfoldable pub set_item : PendingNote → Vault → Vault
set_item entry [] = entry ∷ []
set_item entry (n ∷ ns) =
    let rest = set_item entry ns in if codes_eq n.note entry.note then entry ∷ ns else n ∷ rest

-- The vault after the call, and whether it succeeded.
unfoldable pub write_one : Bool → PendingNote → Vault → Bool × Vault
unfolding set_item
write_one works entry vault = if works then (true, set_item entry vault) else (false, vault)

pub record Staged : Type 0 where
  pub note : List ℕ
  pub pool_address : List ℕ
  pub denomination_sol : ℕ

unfoldable pub stage_note : Bool → ℕ → List ℕ → Staged → Vault → Bool × Vault
unfolding write_one
stage_note works now session entry vault =
    write_one works
      (record {
        note = entry.note;
        pool_address = entry.pool_address;
        denomination_sol = entry.denomination_sol;
        signature = none;
        status = unsent;
        created_at = now;
        sent_at = none;
        session = some session;
      })
      vault

abbrev pub or_else {ℓ} : {A : Type ℓ} → Option A → Option A → Option A
or_else none b = b
or_else (some a) b = some a

-- The first transition out of 'unsent' is stamped, and the stamp is kept.
abbrev pub sent_at_after : Status → ℕ → Option ℕ → Option ℕ
sent_at_after unsent now old = old
sent_at_after sent now old = or_else old (some now)
sent_at_after confirmed now old = or_else old (some now)

abbrev pub marked : ℕ → Status → Option (List ℕ) → PendingNote → PendingNote
marked now status signature n = record n {
  status = status;
  signature = or_else signature n.signature;
  sent_at = sent_at_after status now n.sent_at;
}

abbrev pub mark_found : Bool → ℕ → Status → Option (List ℕ) → Option PendingNote → Vault → Vault
mark_found works now status signature none vault = vault
mark_found works now status signature (some n) vault =
    (write_one works (marked now status signature n) vault).1

unfoldable pub mark_note_status : Bool → ℕ → List ℕ → Status → Option (List ℕ) → Vault → Vault
unfolding read_one write_one
mark_note_status works now note status signature vault =
    mark_found works now status signature (read_one note vault) vault

unfoldable pub remove_item : List ℕ → Vault → Vault
remove_item note [] = []
remove_item note (n ∷ ns) =
    let rest = remove_item note ns in if codes_eq n.note note then ns else n ∷ rest

unfoldable pub clear_note : Bool → List ℕ → Vault → Vault
unfolding remove_item
clear_note works note vault = if works then remove_item note vault else vault

-- The newest first; the sort is stable.
unfoldable pub put_by_age : PendingNote → List PendingNote → List PendingNote
put_by_age n [] = n ∷ []
put_by_age n (m ∷ ms) =
    let rest = put_by_age n ms in if ltb n.created_at m.created_at then m ∷ rest else n ∷ m ∷ ms

unfoldable pub pending_notes : Vault → List PendingNote
unfolding put_by_age
pending_notes [] = []
pending_notes (n ∷ ns) = put_by_age n (pending_notes ns)

abbrev pub has_pending_notes : Vault → Bool
has_pending_notes vault = ltb 0 (length vault)

abbrev pub staged_this_session : List ℕ → PendingNote → Bool
staged_this_session session_id n = elim n.session [ none ↦ false | some s ↦ codes_eq s session_id ]

-- What a tab of the app does to the shared storage, with the time of it and whether the storage works.
pub data Action : Type 0 where
  stage : Bool → ℕ → List ℕ → Staged → Action
  mark : Bool → ℕ → List ℕ → Status → Option (List ℕ) → Action
  clear : Bool → List ℕ → Action

unfoldable pub act : Action → Vault → Vault
unfolding stage_note mark_note_status clear_note
act (stage works now session entry) vault = (stage_note works now session entry vault).1
act (mark works now note status signature) vault =
    mark_note_status works now note status signature vault
act (clear works note) vault = clear_note works note vault

-- The actions of all tabs, in the order in which they reach the storage.
unfoldable pub act_all : List Action → Vault → Vault
unfolding act
act_all [] vault = vault
act_all (a ∷ actions) vault = act_all actions (act a vault)
