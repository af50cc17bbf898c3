-- ===== src/Tests/Note.antt =====
-- sdk/src/note.js: a note's text, and app/src/utils/noteReconcile.ts: the note found in its pool's tree.
use solnado_cash.Base.{
  ℕ, ◌+◌, ◌*◌, ◌≤◌, ◌≡◌, refl, false, Option, none, some, List, [], ◌∷◌, arith, replicate,
}
use solnado_cash.Base.Outcome.{Outcome, ok}
use solnado_cash.Sdk.MerkleTree.{new_tree, rebuild}
use solnado_cash.App.NoteVault.{PendingNote, sent}
use solnado_cash.App.Rebuild.{Rebuilt, Failure}
use solnado_cash.App.Reconcile.{judge, judge_by, look_in, look_up, found, grace_ms}
use solnado_cash.App.Reconcile.Judged.{IsInTree, judge-found}
use solnado_cash.Base.Text.{codes}
use solnado_cash.Base.Chain.{Key}
use solnado_cash.Sdk.Note.{Note, encode_note, decode_note}
use solnado_cash.Sdk.Note.Codec.{IsSound, decode_note-encode_note, decode_note-IsSound}

abbrev key : Key
key = replicate 32 1

abbrev to_base58 : Key → List ℕ
to_base58 k = codes "4vJ9"

abbrev of_base58 : List ℕ → Option Key
of_base58 text = some key

abbrev note : Note
note = record {
  encoded = [];
  nullifier = 255;
  secret = 4096;
  denomination = 1_000_000_000;
  pool_address = key;
}

round_trip :
    decode_note of_base58 (encode_note to_base58 note)
    ≡ some (record note { encoded = encode_note to_base58 note })
round_trip =
    decode_note-encode_note to_base58 of_base58 note (refl, (refl, (refl, (refl, tt)))) refl
      (omega arith) (omega arith) (omega arith)

decode_note-encode_note_example :
    decode_note of_base58 (encode_note to_base58 note)
    ≡ some (record note { encoded = encode_note to_base58 note })
decode_note-encode_note_example =
    decode_note-encode_note to_base58 of_base58 note (refl, (refl, (refl, (refl, tt)))) refl
      (omega arith) (omega arith) (omega arith)

decode_note-IsSound_example :
    IsSound (encode_note to_base58 note) (record note { encoded = encode_note to_base58 note })
decode_note-IsSound_example =
    decode_note-IsSound of_base58 (encode_note to_base58 note)
      (record note { encoded = encode_note to_base58 note }) round_trip

-- A sum in the place of Poseidon, and a tree that holds the note's commitment.
abbrev hash : List ℕ → ℕ
hash [] = 1
hash (x ∷ xs) = x + 2 * hash xs

abbrev commitment : ℕ
commitment = hash (255 ∷ 4096 ∷ 1_000_000_000 ∷ [])

abbrev rebuilt : Key → Outcome Failure Rebuilt
rebuilt pool = ok (record {
  tree = rebuild hash (new_tree hash 2) (commitment ∷ []);
  leaves = commitment ∷ [];
  newest_signature = none;
  cleared = false;
})

abbrev entry : PendingNote
entry = record {
  note = encode_note to_base58 note;
  pool_address = [];
  denomination_sol = 1;
  signature = none;
  status = sent;
  created_at = 10;
  sent_at = some 20;
  session = none;
}

finds : judge of_base58 hash rebuilt 200_000 entry ≡ found
unfolding judge_by look_up look_in rebuild new_tree
finds = rw round_trip refl

judge-found_example :
    (t : ℕ) × (entry.sent_at ≡ some t)
    × (t + grace_ms ≤ 200_000)
    × IsInTree of_base58 hash rebuilt entry.note
judge-found_example = judge-found of_base58 hash rebuilt 200_000 entry finds
