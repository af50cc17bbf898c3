-- ===== src/Sdk/Withdraw/Relaying.antt =====
-- The client and the relayer agree: what the client proves passes the relayer's checks, and only for
-- the relayer, the fee ceiling and the recipient that it was proved for.
use mathlib.Core.Path.{subst}
use solnado_cash.Base.{
  ℕ, ◌<◌, ◌≡◌, sym, ◌∙◌, ◌↔◌, ◌⊎◌, inl, inr, Option, some, List, [], ◌∷◌, pos, codes_eq,
  codes_eq_iff, Bool-cases,
}
use solnado_cash.Base.Json.{Json, str, decimal, to_bigint}
use solnado_cash.Base.Json.Laws.{string_to_bigint-decimal}
use solnado_cash.Base.Chain.{Key, Thrown, reply}
use solnado_cash.Relayer.Preflight
use solnado_cash.Relayer.Preflight.{Lookup, Submission, preflight, pass, expected_commitment}
use solnado_cash.Relayer.Preflight.Keys.{IsKey, pubkey_to_field-Collision}
use solnado_cash.Relayer.Preflight.Roots.{InRing}
use solnado_cash.Relayer.Preflight.Verdicts.{IsSpent, preflight-pass}
use solnado_cash.Sdk.MerkleTree.{MerkleProof}
use solnado_cash.Sdk.MerkleTree.Proofs.{HashCollision}
use solnado_cash.Sdk.Withdraw.{SecretNote, FeeTerms, CircomInputs, inputs_of}

-- What a client posts: its three public inputs as decimal texts.
abbrev pub posted : CircomInputs → List ℕ → Key → ℕ → Key → Option Lookup → Submission
posted w pool_bytes relayer fee_max recipient lookup = record {
  pool_bytes = pool_bytes;
  nullifier = str (decimal w.nullifier_hash);
  root = str (decimal w.root);
  commitment = str (decimal w.withdrawal_commitment);
  relayer = relayer;
  recipient = recipient;
  fee_max = fee_max;
  lookup = lookup;
}

posted_number : (n : ℕ) → to_bigint (str (decimal n)) ≡ some (pos n)
unfolding to_bigint
posted_number n = string_to_bigint-decimal n

pos_injective : (n m : ℕ) → some (pos n) ≡ some (pos m) → n ≡ m
pos_injective n m e = cc e

head_eq : {a b c x y z : ℕ} → ◌≡◌ {A = List ℕ} (a ∷ b ∷ c ∷ []) (x ∷ y ∷ z ∷ []) → a ≡ x
head_eq e = cc e

second_eq : {a b c x y z : ℕ} → ◌≡◌ {A = List ℕ} (a ∷ b ∷ c ∷ []) (x ∷ y ∷ z ∷ []) → b ≡ y
second_eq e = cc e

third_eq : {a b c x y z : ℕ} → ◌≡◌ {A = List ℕ} (a ∷ b ∷ c ∷ []) (x ∷ y ∷ z ∷ []) → c ≡ z
third_eq e = cc e

module _ (hash : List ℕ → ℕ) (bigint_error : Json → Thrown) where
  -- The public inputs of any proof for a quote pass the quoting relayer's checks for the quoted
  -- ceiling and the proved recipient, if the pool's ring holds the proved root, the root is not zero,
  -- and the nullifier account was not read to hold bytes; and they pass only then.
  pub inputs_of-preflight :
      (note : SecretNote) (quote : FeeTerms) (recipient : Key) (p : MerkleProof)
      → (pool_bytes : List ℕ) (lookup : Option Lookup)
      → let w = inputs_of hash note quote recipient p in
        let s = posted w pool_bytes quote.relayer_address quote.relayer_fee_max recipient lookup in
        (preflight hash bigint_error s ≡ reply pass)
        ↔ ((0 < p.proof_root) × InRing pool_bytes p.proof_root × ¬ IsSpent s)
  unfolding inputs_of expected_commitment
  inputs_of-preflight note quote recipient p pool_bytes lookup =
      let w = inputs_of hash note quote recipient p in
      let s = posted w pool_bytes quote.relayer_address quote.relayer_fee_max recipient lookup in
      let (there, back) = preflight-pass hash bigint_error s in
      (
        λ h.
            let (b, fresh) = there h in
            let same : b.root ≡ p.proof_root =
              pos_injective _ _ (sym b.root_value ∙ posted_number p.proof_root) in
            (
              subst (λ r. 0 < r) same b.root_not_zero,
              subst (InRing pool_bytes) same b.root-InRing,
              fresh,
            ),
        λ (not_zero, ring, fresh). back (
          record {
            root = p.proof_root;
            root_value = posted_number p.proof_root;
            root_not_zero = not_zero;
            root-InRing = ring;
            commitment_value = posted_number w.withdrawal_commitment;
          },
          fresh,
        ),
      )

  terms_equal : (a b : List ℕ) → hash a ≡ hash b → (a ≡ b) ⊎ HashCollision hash
  terms_equal a b e = elim (Bool-cases (codes_eq a b)) [
    | inl same ↦ inl ((codes_eq_iff a b).0 same)
    | inr other ↦ inr (record {
      first = a;
      second = b;
      different = λ p. cc (other, (codes_eq_iff a b).1 p);
      same = e;
    })
  ]

  keys_equal :
      (a b : Key)
      → IsKey a
      → IsKey b
      → Preflight.pubkey_to_field hash a ≡ Preflight.pubkey_to_field hash b
      → (a ≡ b) ⊎ HashCollision hash
  keys_equal a b ha hb e = elim (Bool-cases (codes_eq a b)) [
    | inl same ↦ inl ((codes_eq_iff a b).0 same)
    | inr other ↦
        let c =
          pubkey_to_field-Collision hash a b ha hb (λ p. cc (other, (codes_eq_iff a b).1 p)) e in
        inr (record { first = c.first; second = c.second; different = c.different; same = c.same })
  ]

  commitment_terms :
      (a b c d : Key) (f g : ℕ)
      → IsKey a
      → IsKey b
      → IsKey c
      → IsKey d
      → expected_commitment hash a f c ≡ expected_commitment hash b g d
      → ((a ≡ b) × (f ≡ g) × (c ≡ d)) ⊎ HashCollision hash
  unfolding expected_commitment
  commitment_terms a b c d f g ha hb hc hd e = elim (terms_equal _ _ e) [
    | inr collision ↦ inr collision
    | inl terms ↦ elim (keys_equal a b ha hb (head_eq terms)) [
      | inr collision ↦ inr collision
      | inl relayer ↦ elim (keys_equal c d hc hd (third_eq terms)) [
        | inr collision ↦ inr collision
        | inl recipient ↦ inl (relayer, second_eq terms, recipient)
      ]
    ]
  ]

  -- If a proof's public inputs pass a relayer's checks for some relayer key, ceiling and recipient,
  -- those are the ones that it was proved for, or a collision of the hash is at hand.
  pub inputs_of-bound :
      (note : SecretNote) (quote : FeeTerms) (recipient : Key) (p : MerkleProof)
      → (pool_bytes : List ℕ) (lookup : Option Lookup) (relayer other : Key) (fee_max : ℕ)
      → IsKey quote.relayer_address
      → IsKey recipient
      → IsKey relayer
      → IsKey other
      → preflight hash bigint_error
          (posted (inputs_of hash note quote recipient p) pool_bytes relayer fee_max other lookup)
        ≡ reply pass
      → ((quote.relayer_address ≡ relayer)
          × (quote.relayer_fee_max ≡ fee_max)
          × (recipient ≡ other))
        ⊎ HashCollision hash
  unfolding inputs_of expected_commitment
  inputs_of-bound note quote recipient p pool_bytes lookup relayer other fee_max hq hr ha ho h =
      let w = inputs_of hash note quote recipient p in
      let s = posted w pool_bytes relayer fee_max other lookup in
      let (b, fresh) = (preflight-pass hash bigint_error s).0 h in
      commitment_terms quote.relayer_address relayer recipient other quote.relayer_fee_max fee_max
        hq ha hr ho
        (pos_injective _ _ (sym (posted_number w.withdrawal_commitment) ∙ b.commitment_value))
