-- ===== src/Relayer/Preflight/Verdicts.antt =====
-- Exactly which submissions pass, and with which error the others are refused.
use solnado_cash.Base.{
  ap, sym, ◌∙◌, ℕ, ◌<◌, ◌≡◌, refl, ◌≢◌, ◌↔◌, ◌⊎◌, inl, inr, Bool, true, false, not, Option-cases,
  Option, none, some, List, [], ◌∷◌, arith, if◌then◌else◌, length, ℤ, pos, negsuc,
}
use solnado_cash.Base.Json.{Json, to_bigint}
use solnado_cash.Base.Chain.{Key, Account, Thrown, Reply, reply, throw}
use solnado_cash.Relayer.Response.{nullifier_spent, stale_root, invalid_withdrawal_commitment}
use solnado_cash.Relayer.Preflight.{
  nullifier_seed, Lookup, Verdict, pass, refuse, root_known, is_number, spent_account, spent_pda,
  spent_bigint, converted, check_spent, expected_commitment, Submission, preflight,
  field_to_bytes32,
}
use solnado_cash.Relayer.Preflight.Roots.{InRing, elem-read_root_history}

-- The note's nullifier account was read and holds bytes.
pub record IsSpent (s : Submission) : Type 0 where
  pub via : Lookup
  pub via_lookup : s.lookup ≡ some via
  pub nullifier : ℤ
  pub nullifier_value : to_bigint s.nullifier ≡ some nullifier
  pub pda : Key
  pub pda_value :
      via.find_pda (nullifier_seed ∷ via.pool ∷ field_to_bytes32 nullifier ∷ []) via.program
      ≡ some pda
  pub info : Account
  pub read : via.get_account_info pda ≡ reply (some info)
  pub holds : 0 < length info.bytes

-- The root is one of the pool's and not zero, and the commitment is the hash of this relayer, this
-- fee ceiling and this recipient.
pub record IsBound (hash : List ℕ → ℕ) (s : Submission) : Type 0 where
  pub root : ℕ
  pub root_value : to_bigint s.root ≡ some (pos root)
  pub root_not_zero : 0 < root
  pub root-InRing : InRing s.pool_bytes root
  pub commitment_value :
      to_bigint s.commitment ≡ some (pos (expected_commitment hash s.relayer s.fee_max s.recipient))

root_known_iff :
    (bs : List ℕ) (root : ℕ) → (root_known bs (pos root) ≡ true) ↔ ((0 < root) × InRing bs root)
unfolding root_known
root_known_iff bs root =
    let (there, back) = elem-read_root_history bs root in
    (λ h. (ground arith, there (ground arith)), λ (p, r). let e = back r in ground arith)

is_number_iff : (z : ℤ) (m : ℕ) → (is_number z m ≡ true) ↔ (z ≡ pos m)
is_number_iff (pos n) m = ground arith
is_number_iff (negsuc n) m = ground arith

check_spent_value :
    (l : Option Lookup) (v : Json)
    → (check_spent l v ≡ pass) ⊎ (check_spent l v ≡ refuse nullifier_spent)
unfolding check_spent
check_spent_value l v = ground arith

-- A reply is an account, nothing, or an error.
Reply-cases :
    (r : Reply (Option Account))
    → ((info : Account) × (r ≡ reply (some info))) ⊎ (spent_account r ≡ pass)
Reply-cases (throw e) = inr refl
Reply-cases (reply none) = inr refl
Reply-cases (reply (some info)) = inl (info, refl)

spent_account-holds :
    (info : Account)
    → spent_account (reply (some info)) ≡ refuse nullifier_spent
    → 0 < length info.bytes
spent_account-holds info h = ground arith

module _ (s : Submission) where
  refused_of_spent : IsSpent s → check_spent s.lookup s.nullifier ≡ refuse nullifier_spent
  unfolding check_spent
  refused_of_spent h =
      rw (h.via_lookup, h.nullifier_value, h.pda_value, h.read)
        (let holds : 0 < length h.info.bytes = h.holds in ground arith)

  IsSpent-of_refused : check_spent s.lookup s.nullifier ≡ refuse nullifier_spent → IsSpent s
  unfolding check_spent
  IsSpent-of_refused h = elim (Option-cases s.lookup) [
    | inl e ↦ absurd (cc (ap (λ l. check_spent l s.nullifier) e))
    | inr (l, via_l) ↦ elim (Option-cases (to_bigint s.nullifier)) [
      | inl e ↦ absurd (cc (ap (λ l. check_spent l s.nullifier) via_l, ap (spent_bigint l) e))
      | inr (z, value) ↦
          elim (Option-cases
            (l.find_pda (nullifier_seed ∷ l.pool ∷ field_to_bytes32 z ∷ []) l.program)) [
              | inl e ↦ absurd (
                  cc (
                    ap (λ l. check_spent l s.nullifier) via_l,
                    ap (spent_bigint l) value,
                    ap (spent_pda l) e,
                  ))
              | inr (pda, found) ↦ elim (Reply-cases (l.get_account_info pda)) [
                | inr e ↦ absurd (
                    cc (
                      e,
                      ap (λ l. check_spent l s.nullifier) via_l,
                      ap (spent_bigint l) value,
                      ap (spent_pda l) found,
                    ))
                | inl (info, was_read) ↦ record {
                  via = l;
                  via_lookup = via_l;
                  nullifier = z;
                  nullifier_value = value;
                  pda = pda;
                  pda_value = found;
                  info = info;
                  read = was_read;
                  holds = spent_account-holds info (
                      cc (
                        h,
                        ap (λ l. check_spent l s.nullifier) via_l,
                        ap (spent_bigint l) value,
                        ap (spent_pda l) found,
                        ap spent_account was_read,
                      ));
                }
              ]
            ]
    ]
  ]

converted_inv :
    (error : Thrown) (o : Option ℤ) (k : ℤ → Reply Verdict) (v : Verdict)
    → converted error o k ≡ reply v
    → (z : ℤ) × (o ≡ some z) × (k z ≡ reply v)
converted_inv error none k v h = absurd (cc)
converted_inv error (some z) k v h = (z, refl, h)

test_inv :
    (b : Bool) (x v : Verdict) (rest : Reply Verdict)
    → (if not b then reply x else rest) ≡ reply v
    → v ≢ x
    → (b ≡ true) × (rest ≡ reply v)
test_inv true x v rest h n = (refl, h)
test_inv false x v rest h n = absurd (n (cc))

reply-injective : {v w : Verdict} → reply v ≡ reply w → v ≡ w
reply-injective e = cc e

known_pos : (bs : List ℕ) (z : ℤ) → root_known bs z ≡ true → (root : ℕ) × (z ≡ pos root)
unfolding root_known
known_pos bs (pos n) h = (n, refl)
known_pos bs (negsuc n) h = absurd (cc)

module _ (hash : List ℕ → ℕ) (bigint_error : Json → Thrown) (s : Submission) where
  abbrev verdict : Reply Verdict
  verdict = preflight hash bigint_error s

  bound_verdict : IsBound hash s → verdict ≡ reply (check_spent s.lookup s.nullifier)
  unfolding preflight
  bound_verdict b = rw (
    b.root_value,
    (root_known_iff s.pool_bytes b.root).1 (b.root_not_zero, b.root-InRing),
    b.commitment_value,
    (is_number_iff _ _).1 refl,
  )

  -- A verdict other than the two refusals of the earlier checks comes from the last one.
  IsBound-of_verdict :
      (v : Verdict)
      → verdict ≡ reply v
      → v ≢ refuse stale_root
      → v ≢ refuse invalid_withdrawal_commitment
      → IsBound hash s
  unfolding preflight
  IsBound-of_verdict v h n m =
      let (z, root_value, h1) = converted_inv _ _ _ v h in
      let (known, h2) = test_inv _ _ v _ h1 n in
      let (w, wc_value, h3) = converted_inv _ _ _ v h2 in
      let (same, h4) = test_inv _ _ v _ h3 m in
      let (root, is_root) = known_pos s.pool_bytes z known in
      let (not_zero, in_ring) =
        (root_known_iff s.pool_bytes root).0 (ap (root_known s.pool_bytes) (sym is_root) ∙ known) in
      record {
        root = root;
        root_value = root_value ∙ ap some is_root;
        root_not_zero = not_zero;
        root-InRing = in_ring;
        commitment_value = wc_value ∙ ap some ((is_number_iff w _).0 same);
      }

  -- A submission passes exactly when its root and its commitment are right and its nullifier account
  -- was not read to hold bytes; a lookup that fails does not refuse it.
  pub preflight-pass : (verdict ≡ reply pass) ↔ (IsBound hash s × ¬ IsSpent s)
  preflight-pass = (
    λ h.
        let bound = IsBound-of_verdict pass h (λ e. cc e) (λ e. cc e) in
        (bound, λ spent. cc (h, bound_verdict bound, refused_of_spent s spent)),
    λ (bound, fresh). elim (check_spent_value s.lookup s.nullifier) [
      | inl e ↦ bound_verdict bound ∙ ap reply e
      | inr e ↦ absurd (fresh (IsSpent-of_refused s e))
    ],
  )

  -- A submission is refused as spent exactly when its root and its commitment are right and its
  -- nullifier account was read to hold bytes.
  pub preflight-IsSpent : (verdict ≡ reply (refuse nullifier_spent)) ↔ (IsBound hash s × IsSpent s)
  preflight-IsSpent = (
    λ h.
        let bound = IsBound-of_verdict (refuse nullifier_spent) h (λ e. cc e) (λ e. cc e) in
        (bound, IsSpent-of_refused s (reply-injective (sym (bound_verdict bound) ∙ h))),
    λ (bound, spent). bound_verdict bound ∙ ap reply (refused_of_spent s spent),
  )
