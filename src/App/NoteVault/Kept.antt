-- ===== src/App/NoteVault/Kept.antt =====
-- Which notes an operation of the vault can change: its own only. None but the user's removes one.
use solnado_cash.Base.{
  ℕ, ◌≡◌, refl, sym, ap, ◌∙◌, ◌≢◌, inl, inr, Bool, true, false, Option, some, List, [], ◌∷◌,
  Bool-cases, Option-cases, All, codes_eq, codes_eq_iff,
}
use mathlib.Core.Path.{subst}
use solnado_cash.App.NoteVault.{
  Status, unsent, sent, confirmed, PendingNote, Vault, read_one, set_item, write_one, stage_note,
  sent_at_after, Action, stage, mark, clear, act, act_all, marked, mark_note_status, remove_item,
  clear_note,
}

codes_eq_refl : (t : List ℕ) → codes_eq t t ≡ true
codes_eq_refl t = (codes_eq_iff t t).1 refl

codes_ne : (t u : List ℕ) → t ≢ u → codes_eq t u ≡ false
codes_ne t u h = elim (Bool-cases (codes_eq t u)) [
  | inl e ↦ absurd (h ((codes_eq_iff t u).0 e))
  | inr e ↦ e
]

some-injective : {A : Type 0} {a b : A} → some a ≡ some b → a ≡ b
some-injective h = cc

read_one-note :
    (note : List ℕ) (vault : Vault) (n : PendingNote) → read_one note vault ≡ some n → n.note ≡ note
unfolding read_one
read_one-note note [] n h = cc
read_one-note note (m ∷ ms) n h = elim (Bool-cases (codes_eq m.note note)) [
  | inl same ↦
      ap (λ (p : PendingNote). p.note) (sym (some-injective (rw same at h)))
      ∙ (codes_eq_iff m.note note).0 same
  | inr differs ↦ read_one-note note ms n (rw differs at h)
]

pub read_one-set_item_self :
    (entry : PendingNote) (vault : Vault) → read_one entry.note (set_item entry vault) ≡ some entry
unfolding read_one set_item
read_one-set_item_self entry [] = rw (codes_eq_refl entry.note) refl
read_one-set_item_self entry (m ∷ ms) = elim (Bool-cases (codes_eq m.note entry.note)) [
  | inl same ↦ rw (same, codes_eq_refl entry.note) refl
  | inr differs ↦ rw (differs, differs) (read_one-set_item_self entry ms)
]

pub read_one-set_item_ne :
    (entry : PendingNote) (note : List ℕ) (vault : Vault)
    → note ≢ entry.note
    → read_one note (set_item entry vault) ≡ read_one note vault
unfolding read_one set_item
read_one-set_item_ne entry note [] h = rw (codes_ne entry.note note (λ e. h (sym e))) refl
read_one-set_item_ne entry note (m ∷ ms) h = elim (Bool-cases (codes_eq m.note entry.note)) [
  | inl same ↦
      let other : codes_eq m.note note ≡ false =
        codes_ne m.note note (λ e. h (sym e ∙ (codes_eq_iff m.note entry.note).0 same)) in
      rw (same, codes_ne entry.note note (λ e. h (sym e)), other) refl
  | inr differs ↦ rw differs (elim (Bool-cases (codes_eq m.note note)) [
    | inl here ↦ rw here refl
    | inr away ↦ rw away (read_one-set_item_ne entry note ms h)
  ])
]

read_one-remove_item_ne :
    (gone note : List ℕ) (vault : Vault)
    → note ≢ gone
    → read_one note (remove_item gone vault) ≡ read_one note vault
unfolding read_one remove_item
read_one-remove_item_ne gone note [] h = refl
read_one-remove_item_ne gone note (m ∷ ms) h = elim (Bool-cases (codes_eq m.note gone)) [
  | inl same ↦
      rw (same, codes_ne m.note note (λ e. h (sym e ∙ (codes_eq_iff m.note gone).0 same))) refl
  | inr differs ↦ rw differs (elim (Bool-cases (codes_eq m.note note)) [
    | inl here ↦ rw here refl
    | inr away ↦ rw away (read_one-remove_item_ne gone note ms h)
  ])
]

-- The note that an action is about.
abbrev pub subject : Action → List ℕ
subject (stage works now session entry) = entry.note
subject (mark works now note status signature) = note
subject (clear works note) = note

write_one-other :
    (works : Bool) (entry : PendingNote) (note : List ℕ) (vault : Vault)
    → note ≢ entry.note
    → read_one note (write_one works entry vault).1 ≡ read_one note vault
unfolding write_one
write_one-other true entry note vault h = read_one-set_item_ne entry note vault h
write_one-other false entry note vault h = refl

-- An action of any tab leaves every other note's entry as it was.
pub act-other :
    (a : Action) (note : List ℕ) (vault : Vault)
    → note ≢ subject a
    → read_one note (act a vault) ≡ read_one note vault
unfolding act stage_note mark_note_status clear_note
act-other (stage works now session entry) note vault h = write_one-other works _ note vault h
act-other (mark works now own status signature) note vault h =
    elim (Option-cases (read_one own vault)) [
      | inl e ↦ rw e refl
      | inr (n, e) ↦ rw e (
          write_one-other works (marked now status signature n) note vault
            (λ same. h (same ∙ read_one-note own vault n e)))
    ]
act-other (clear true own) note vault h = read_one-remove_item_ne own note vault h
act-other (clear false own) note vault h = refl

-- The action is a user's removal of the note.
abbrev pub Clears : List ℕ → Action → Type 0
Clears note (clear works own) = own ≡ note
Clears note _ = ⊥

abbrev pub IsStored : List ℕ → Vault → Type 0
IsStored note vault = (n : PendingNote) × (read_one note vault ≡ some n)

write_one-IsStored :
    (works : Bool) (entry : PendingNote) (note : List ℕ) (vault : Vault)
    → IsStored note vault
    → IsStored note (write_one works entry vault).1
unfolding write_one
write_one-IsStored false entry note vault h = h
write_one-IsStored true entry note vault h = elim (Bool-cases (codes_eq entry.note note)) [
  | inl same ↦
      (entry, rw (sym ((codes_eq_iff entry.note note).0 same)) (read_one-set_item_self entry vault))
  | inr differs ↦ (
    h.0,
    read_one-set_item_ne entry note vault (λ e.
          (let t : codes_eq entry.note note ≡ true = (codes_eq_iff entry.note note).1 (sym e) in
            cc))
        ∙ h.1,
  )
]

pub act-IsStored :
    (a : Action) (note : List ℕ) (vault : Vault)
    → ¬ Clears note a
    → IsStored note vault
    → IsStored note (act a vault)
unfolding act stage_note mark_note_status
act-IsStored (stage works now session entry) note vault c h =
    write_one-IsStored works _ note vault h
act-IsStored (mark works now own status signature) note vault c h =
    elim (Option-cases (read_one own vault)) [
      | inl e ↦ rw e h
      | inr (n, e) ↦ rw e (write_one-IsStored works (marked now status signature n) note vault h)
    ]
act-IsStored (clear works own) note vault c h =
    (h.0, act-other (clear works own) note vault (λ e. c (sym e)) ∙ h.1)

-- However the tabs' actions interleave, a stored note stays stored until the user removes it.
pub act_all-IsStored :
    (actions : List Action) (note : List ℕ) (vault : Vault)
    → All (λ a. ¬ Clears note a) actions
    → IsStored note vault
    → IsStored note (act_all actions vault)
unfolding act_all
act_all-IsStored [] note vault c h = h
act_all-IsStored (a ∷ actions) note vault (first, rest) h =
    act_all-IsStored actions note (act a vault) rest (act-IsStored a note vault first h)

sent_at_after-stamp :
    (status : Status) (now : ℕ) (old : Option ℕ) (t : ℕ)
    → old ≡ some t
    → sent_at_after status now old ≡ some t
sent_at_after-stamp unsent now old t h = h
sent_at_after-stamp sent now old t h = rw h refl
sent_at_after-stamp confirmed now old t h = rw h refl

mark_other :
    (works : Bool) (now : ℕ) (own note : List ℕ) (status : Status) (signature : Option (List ℕ))
    (vault : Vault)
    → codes_eq own note ≡ false
    → read_one note (mark_note_status works now own status signature vault) ≡ read_one note vault
unfolding act
mark_other works now own note status signature vault h =
    act-other (mark works now own status signature) note vault
      (λ e. (let t : codes_eq own note ≡ true = (codes_eq_iff own note).1 (sym e) in cc))

mark_self :
    (works : Bool) (now : ℕ) (note : List ℕ) (status : Status) (signature : Option (List ℕ))
    (vault : Vault) (n : PendingNote) (t : ℕ)
    → read_one note vault ≡ some n
    → n.sent_at ≡ some t
    → (m : PendingNote) × (read_one note (mark_note_status works now note status signature vault)
        ≡ some m)
      × (m.sent_at ≡ some t)
unfolding mark_note_status write_one
mark_self false now note status signature vault n t h k = rw h (n, h, k)
mark_self true now note status signature vault n t h k =
    let entry : PendingNote = marked now status signature n in
    rw h (
      entry,
      ap (λ own. read_one own (set_item entry vault)) (sym (read_one-note note vault n h))
          ∙ read_one-set_item_self entry vault,
      sent_at_after-stamp status now n.sent_at t k,
    )

-- A note that has been broadcast keeps the time of its first broadcast through every later marking, by
-- whichever tab.
pub mark_note_status-stamp :
    (works : Bool) (now : ℕ) (own note : List ℕ) (status : Status) (signature : Option (List ℕ))
    (vault : Vault) (n : PendingNote) (t : ℕ)
    → read_one note vault ≡ some n
    → n.sent_at ≡ some t
    → (m : PendingNote) × (read_one note (mark_note_status works now own status signature vault)
        ≡ some m)
      × (m.sent_at ≡ some t)
unfolding mark_note_status
mark_note_status-stamp works now own note status signature vault n t h k =
    elim (Bool-cases (codes_eq own note)) [
      | inl same ↦
          subst
            (λ u.
              (m : PendingNote) × (read_one note
                  (mark_note_status works now u status signature vault)
                ≡ some m)
              × (m.sent_at ≡ some t))
            (sym ((codes_eq_iff own note).0 same))
            (mark_self works now note status signature vault n t h k)
      | inr differs ↦ (n, mark_other works now own note status signature vault differs ∙ h, k)
    ]
