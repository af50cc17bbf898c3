-- ===== src/App/Reconcile/Judged.antt =====
-- A pass over the pending notes removes none, accounts for each, and confirms only what a verified tree
-- holds.
use solnado_cash.Base.{
  ℕ, suc, ◌+◌, ◌≤◌, ◌≡◌, refl, ap, ◌∙◌, inl, inr, Bool, true, false, Option, none, some, List, [],
  ◌∷◌, arith, Bool-cases, length, ltb,
}
use solnado_cash.Base.Chain.{Key}
use solnado_cash.Base.Outcome.{Outcome, ok, err}
use solnado_cash.Sdk.MerkleTree.{has_leaf}
use solnado_cash.Sdk.Note.{Note, decode_note}
use solnado_cash.App.NoteVault.{
  PendingNote, Status, unsent, sent, confirmed, Vault, pending_notes, put_by_age, mark, act,
}
use solnado_cash.App.NoteVault.Kept.{IsStored, act-IsStored}
use solnado_cash.App.Rebuild.{Rebuilt, Failure}
use solnado_cash.App.Reconcile.{
  grace_ms, ReconcileResult, Judgement, skipped, undecided, found, absent, look_in, look_up,
  judge_by, judge, count, apply_judgement, reconcile_all, reconcile_pending_notes,
}

apply_judgement-IsStored :
    (works : Bool) (now : ℕ) (own note : List ℕ) (j : Judgement) (vault : Vault)
    → IsStored note vault
    → IsStored note (apply_judgement works now own j vault)
unfolding act
apply_judgement-IsStored works now own note found vault h =
    act-IsStored (mark works now own confirmed none) note vault (λ e. e) h
apply_judgement-IsStored works now own note skipped vault h = h
apply_judgement-IsStored works now own note undecided vault h = h
apply_judgement-IsStored works now own note absent vault h = h

undecided_found : {C : Type 0} → undecided ≡ found → C
undecided_found h = cc

ltb-false : (a b : ℕ) → ltb a b ≡ false → b ≤ a
ltb-false a b h = ground arith

module _ (of_base58 : List ℕ → Option Key) (hash : List ℕ → ℕ)
    (rebuilt : Key → Outcome Failure Rebuilt) where
  -- The note decodes, and its commitment is a leaf of the tree rebuilt for its pool.
  pub record IsInTree (note : List ℕ) : Type 0 where
    pub decoded : Note
    pub tree : Rebuilt
    pub decodes : decode_note of_base58 note ≡ some decoded
    pub rebuilds : rebuilt decoded.pool_address ≡ ok tree
    pub holds :
        has_leaf tree.tree (hash (decoded.nullifier ∷ decoded.secret ∷ decoded.denomination ∷ []))
        ≡ true

  look_in-found :
      (o : Outcome Failure Rebuilt) (commitment : ℕ)
      → look_in of_base58 hash rebuilt o commitment ≡ found
      → (r : Rebuilt) × (o ≡ ok r) × (has_leaf r.tree commitment ≡ true)
  unfolding look_in
  look_in-found (ok r) commitment h = elim (Bool-cases (has_leaf r.tree commitment)) [
    | inl e ↦ (r, refl, e)
    | inr e ↦ cc
  ]
  look_in-found (err e) commitment h = cc

  look_up-found :
      (o : Option Note) (note : List ℕ)
      → decode_note of_base58 note ≡ o
      → look_up of_base58 hash rebuilt o ≡ found
      → IsInTree note
  unfolding look_up
  look_up-found none note e h = cc
  look_up-found (some n) note e h =
      let (r, rebuilds, holds) = look_in-found (rebuilt n.pool_address) _ h in
      record { decoded = n; tree = r; decodes = e; rebuilds = rebuilds; holds = holds }

  judge_by-found :
      (now : ℕ) (status : Status) (sent_at : Option ℕ) (note : List ℕ)
      → judge_by of_base58 hash rebuilt now status sent_at note ≡ found
      → (t : ℕ) × (sent_at ≡ some t) × (t + grace_ms ≤ now) × IsInTree note
  unfolding judge_by
  judge_by-found now confirmed sent_at note h = cc
  judge_by-found now unsent sent_at note h = cc
  judge_by-found now sent none note h = cc
  judge_by-found now sent (some t) note h = elim (Bool-cases (ltb now (t + grace_ms))) [
    | inl early ↦ undecided_found (rw early at h)
    | inr late ↦
        (t, refl, ltb-false now (t + grace_ms) late, look_up-found _ note refl (rw late at h))
  ]

  -- A note is found only if it was broadcast and the grace period has passed, and its commitment is in
  -- the tree that was rebuilt.
  pub judge-found :
      (now : ℕ) (entry : PendingNote)
      → judge of_base58 hash rebuilt now entry ≡ found
      → (t : ℕ) × (entry.sent_at ≡ some t) × (t + grace_ms ≤ now) × IsInTree entry.note
  judge-found now entry h = judge_by-found now entry.status entry.sent_at entry.note h

  module _ (clock : List ℕ → ℕ) (works : List ℕ → Bool) where
    reconcile_all-IsStored :
        (entries : List PendingNote) (vault : Vault) (r : ReconcileResult) (note : List ℕ)
        → IsStored note vault
        → IsStored note (reconcile_all of_base58 hash rebuilt clock works entries vault r).0
    unfolding reconcile_all
    reconcile_all-IsStored [] vault r note h = h
    reconcile_all-IsStored (entry ∷ entries) vault r note h =
        reconcile_all-IsStored entries _ _ note
          (apply_judgement-IsStored (works entry.note) (clock entry.note) entry.note note _ vault h)

    -- However the chain is answered, a pass removes no note.
    pub reconcile_pending_notes-IsStored :
        (vault : Vault) (note : List ℕ)
        → IsStored note vault
        → IsStored note (reconcile_pending_notes of_base58 hash rebuilt clock works vault).0
    unfolding reconcile_pending_notes
    reconcile_pending_notes-IsStored vault note h =
        reconcile_all-IsStored (pending_notes vault) vault _ note h

abbrev pub one_if_confirmed : Status → ℕ
one_if_confirmed confirmed = 1
one_if_confirmed unsent = 0
one_if_confirmed sent = 0

abbrev pub already_confirmed : List PendingNote → ℕ
already_confirmed [] = 0
already_confirmed (n ∷ ns) = one_if_confirmed n.status + already_confirmed ns

abbrev pub counted : ReconcileResult → ℕ
counted r = r.confirmed_count + (r.not_found + r.unresolved)

length-put_by_age :
    (n : PendingNote) (ns : List PendingNote) → length (put_by_age n ns) ≡ suc (length ns)
unfolding put_by_age
length-put_by_age n [] = refl
length-put_by_age n (m ∷ ms) = ground (arith, length-put_by_age n ms)

confirmed-put_by_age :
    (n : PendingNote) (ns : List PendingNote)
    → already_confirmed (put_by_age n ns) ≡ one_if_confirmed n.status + already_confirmed ns
unfolding put_by_age
confirmed-put_by_age n [] = refl
confirmed-put_by_age n (m ∷ ms) = ground (arith, confirmed-put_by_age n ms)

length-pending_notes : (vault : Vault) → length (pending_notes vault) ≡ length vault
unfolding pending_notes
length-pending_notes [] = refl
length-pending_notes (n ∷ ns) =
    length-put_by_age n (pending_notes ns) ∙ ap suc (length-pending_notes ns)

confirmed-pending_notes :
    (vault : Vault) → already_confirmed (pending_notes vault) ≡ already_confirmed vault
unfolding pending_notes
confirmed-pending_notes [] = refl
confirmed-pending_notes (n ∷ ns) =
    confirmed-put_by_age n (pending_notes ns)
    ∙ ap (λ k. one_if_confirmed n.status + k) (confirmed-pending_notes ns)

module _ (of_base58 : List ℕ → Option Key) (hash : List ℕ → ℕ)
    (rebuilt : Key → Outcome Failure Rebuilt) (clock : List ℕ → ℕ) (works : List ℕ → Bool) where
  counted-look_in :
      (o : Outcome Failure Rebuilt) (commitment : ℕ) (r : ReconcileResult)
      → counted (count (look_in of_base58 hash rebuilt o commitment) r) ≡ suc (counted r)
  unfolding look_in
  counted-look_in (ok b) commitment r = elim (Bool-cases (has_leaf b.tree commitment)) [
    | inl e ↦ rw e (omega arith)
    | inr e ↦ rw e (omega arith)
  ]
  counted-look_in (err e) commitment r = omega arith

  counted-look_up :
      (o : Option Note) (r : ReconcileResult)
      → counted (count (look_up of_base58 hash rebuilt o) r) ≡ suc (counted r)
  unfolding look_up
  counted-look_up none r = omega arith
  counted-look_up (some n) r = counted-look_in (rebuilt n.pool_address) _ r

  counted-count :
      (now : ℕ) (status : Status) (sent_at : Option ℕ) (note : List ℕ) (r : ReconcileResult)
      → one_if_confirmed status
          + counted (count (judge_by of_base58 hash rebuilt now status sent_at note) r)
        ≡ suc (counted r)
  unfolding judge_by
  counted-count now confirmed sent_at note r = omega arith
  counted-count now unsent sent_at note r = omega arith
  counted-count now sent none note r = omega arith
  counted-count now sent (some t) note r = elim (Bool-cases (ltb now (t + grace_ms))) [
    | inl early ↦ rw early (omega arith)
    | inr late ↦ rw late (omega (arith, counted-look_up (decode_note of_base58 note) r))
  ]

  counted-reconcile_all :
      (entries : List PendingNote) (vault : Vault) (r : ReconcileResult)
      → counted (reconcile_all of_base58 hash rebuilt clock works entries vault r).1
          + already_confirmed entries
        ≡ counted r + length entries
  unfolding reconcile_all
  counted-reconcile_all [] vault r = refl
  counted-reconcile_all (entry ∷ entries) vault r = omega (
    arith,
    counted-reconcile_all entries _ _,
    counted-count (clock entry.note) entry.status entry.sent_at entry.note r,
  )

  -- Every note of the vault is either confirmed already or counted once: as confirmed, as not found, or as
  -- unresolved.
  pub reconcile_pending_notes-counted :
      (vault : Vault)
      → counted (reconcile_pending_notes of_base58 hash rebuilt clock works vault).1
          + already_confirmed vault
        ≡ length vault
  unfolding reconcile_pending_notes
  reconcile_pending_notes-counted vault = omega (
    arith,
    counted-reconcile_all (pending_notes vault) vault _,
    length-pending_notes vault,
    confirmed-pending_notes vault,
  )
