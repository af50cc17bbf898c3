-- ===== src/Relayer/Tx/Built.antt =====
-- The fields of a transaction, by the withdrawal that it was built from.
use mathlib.Core.Path.{subst}
use solnado_cash.Base.{ℕ, ◌≡◌, refl, ap, Option, none, some, [], ◌∷◌, arith, ltb, if◌then◌else◌, ℤ}
use solnado_cash.Base.Json.{Json, to_bigint}
use solnado_cash.Base.Chain.{Reply, reply, throw, ◌>>=◌}
use solnado_cash.Relayer.Tx.{
  Throws, Cluster, Transaction, Withdrawal, build_withdraw, bigint_of, bigint_or, bigint_to_bytes32,
  nullifier_seed, vault_seed, snarkjs_proof_to_bytes,
}

pub reply-injective {ℓ} : {A : Type ℓ} (a b : A) → reply a ≡ reply b → a ≡ b
reply-injective a b h = cc h

pub reply_inv {ℓ κ} :
    {A : Type ℓ} {B : Type κ} (m : Reply A) (f : A → Reply B) (b : B)
    → (m >>= f) ≡ reply b
    → (a : A) × (m ≡ reply a) × (f a ≡ reply b)
reply_inv (reply a) f b h = (a, refl, h)
reply_inv (throw e) f b h = absurd (cc h)

bigint_of_inv :
    (throws : Throws) (v : Json) (z : ℤ) → bigint_of throws v ≡ reply z → to_bigint v ≡ some z
unfolding bigint_of
bigint_of_inv throws v z h = go (to_bigint v) h
  where
    go : (o : Option ℤ) → bigint_or (throws.bigint v) o ≡ reply z → o ≡ some z
    go none h = absurd (cc h)
    go (some y) h = ap some (reply-injective y z h)

abbrev pub price_of : Transaction → ℕ
price_of t = elim (t.unit_price) [ none ↦ 0 | some p ↦ p ]

-- The fields of a transaction, by the withdrawal that it was built from.
pub record IsBuilt (w : Withdrawal) (t : Transaction) : Type 0 where
  pub pool : t.pool ≡ w.pool
  pub recipient : t.recipient ≡ w.recipient
  pub treasury : t.treasury ≡ w.treasury
  pub relayer : t.relayer ≡ w.relayer
  pub fee_max : t.relayer_fee_max ≡ w.fee_max
  pub fee_taken : t.relayer_fee_taken ≡ w.fee_taken
  pub price : price_of t ≡ w.price
  pub nullifier : ℤ
  pub nullifier_value : to_bigint w.nullifier ≡ some nullifier
  pub nullifier_bytes : t.nullifier_hash ≡ bigint_to_bytes32 nullifier
  pub root : ℤ
  pub root_value : to_bigint w.root ≡ some root
  pub root_bytes : t.root ≡ bigint_to_bytes32 root
  pub commitment : ℤ
  pub commitment_value : to_bigint w.commitment ≡ some commitment
  pub commitment_bytes : t.withdrawal_commitment ≡ bigint_to_bytes32 commitment

price_of_option : (p : ℕ) → (elim (if ltb 0 p then some p else none) [ none ↦ 0 | some q ↦ q ]) ≡ p
price_of_option p = ground arith

pub build_inv :
    (throws : Throws) (cluster : Cluster) (w : Withdrawal) (t : Transaction)
    → build_withdraw throws cluster w ≡ reply t
    → IsBuilt w t
unfolding build_withdraw
build_inv throws cluster w t h =
    let (i, idl, h0) = reply_inv cluster.load_idl _ _ h in
    let (n, nullifier, h1) = reply_inv (bigint_of throws w.nullifier) _ _ h0 in
    let (pda, pda_value, h2) =
      reply_inv (cluster.find_pda (nullifier_seed ∷ w.pool ∷ bigint_to_bytes32 n ∷ []) w.program) _
        _ h1 in
    let (vault, vault_value, h3) =
      reply_inv (cluster.find_pda (vault_seed ∷ w.pool ∷ []) w.program) _ _ h2 in
    let (proof, proof_value, h4) = reply_inv (snarkjs_proof_to_bytes throws w.proof) _ _ h3 in
    let (root, root_value, h5) = reply_inv (bigint_of throws w.root) _ _ h4 in
    let (wc, wc_value, h6) = reply_inv (bigint_of throws w.commitment) _ _ h5 in
    let (u, instruction, h7) = reply_inv cluster.instruction _ _ h6 in
    let (v, blockhash, h8) = reply_inv cluster.latest_blockhash _ _ h7 in
    subst (λ x. IsBuilt w x) (reply-injective _ _ h8)
      (record {
        pool = refl;
        recipient = refl;
        treasury = refl;
        relayer = refl;
        fee_max = refl;
        fee_taken = refl;
        price = price_of_option w.price;
        nullifier = n;
        nullifier_value = bigint_of_inv throws w.nullifier n nullifier;
        nullifier_bytes = refl;
        root = root;
        root_value = bigint_of_inv throws w.root root root_value;
        root_bytes = refl;
        commitment = wc;
        commitment_value = bigint_of_inv throws w.commitment wc wc_value;
        commitment_bytes = refl;
      })
