-- ===== src/Relayer/Submit/Answers.antt =====
-- What the answers say of what happened on the cluster.
use solnado_cash.Base.{
  ℕ, ◌≡◌, refl, sym, ap, ◌∙◌, inl, inr, true, Option, none, some, List, [], ◌∷◌, ◌++◌, arith, ◌≢◌,
  ◌↔◌, Bool-cases,
}
use solnado_cash.Base.Radix.{digits, digits_onto}
use solnado_cash.Base.Json.{digit_char}
use solnado_cash.Base.Text.{codes, starts_with, includes}
use solnado_cash.Base.Chain.{Thrown, Reply, reply, throw}
use solnado_cash.Relayer.Response.{refusal, failure, withdrawn, nullifier_spent}
use solnado_cash.Relayer.Fees.{RentCache}
use solnado_cash.Relayer.Tx.{
  Delivery, send_threw, confirm_threw, confirmed, ChainError, reverted, custom_suffix, signature_of,
  Transaction, Withdrawal, send_withdraw, submit_withdraw, build_withdraw,
}
use solnado_cash.Relayer.Steps.{Step, go, answer, raise}
use solnado_cash.Relayer.Node.{Node}
use solnado_cash.Relayer.Request.{Body}
use solnado_cash.Relayer.Submit.{response_of, finish, handle_submit}
use solnado_cash.Relayer.Tx.Built.{build_inv}
use solnado_cash.Relayer.Submit.Errors.{Rule, has_any, first_rule, rules, error_response}

starts_with-append : (part rest : List ℕ) → starts_with (part ++ rest) part ≡ true
unfolding starts_with
starts_with-append [] rest = refl
starts_with-append (c ∷ cs) rest = ground (arith, starts_with-append cs rest)

starts_includes : (text part : List ℕ) → starts_with text part ≡ true → includes text part ≡ true
unfolding includes
starts_includes [] part h = h
starts_includes (c ∷ cs) part h = ground (arith, h)

-- A text includes every part that it is put together from.
includes-append :
    (before text part : List ℕ) → includes text part ≡ true → includes (before ++ text) part ≡ true
unfolding includes
includes-append [] text part h = h
includes-append (c ∷ cs) text part h = ground (arith, includes-append cs text part h)

-- The number of the program's NullifierAlreadySpent error, as the suffix of a reverted withdrawal.
spent_suffix : includes (custom_suffix (some 6004)) (codes "0x1774") ≡ true
unfolding includes starts_with digits digits_onto digit_char
spent_suffix = refl

spent_rule :
    (message : List ℕ)
    → includes message (codes "0x1774") ≡ true
    → first_rule message rules ≡ failure 400 nullifier_spent
unfolding first_rule rules has_any
spent_rule message h = elim (Bool-cases (includes message (codes "NullifierAlreadySpent"))) [
  | inl named ↦ rw named
  | inr other ↦ rw (other, h)
]

-- Whatever its JSON text says, a revert with the program's number 6004 is answered as a spent note.
reverted_spent :
    (e : ChainError)
    → e.custom ≡ some 6004
    → error_response (reverted e) ≡ failure 400 nullifier_spent
unfolding error_response
reverted_spent e h = spent_rule _ (
    includes-append (codes "Withdrawal reverted on-chain: ") (e.json ++ custom_suffix e.custom) _
      (includes-append e.json (custom_suffix e.custom) _ (rw h spent_suffix)))

first_rule_fails :
    (message : List ℕ) (rs : List Rule) (signature : List ℕ) (fee : ℕ)
    → first_rule message rs ≢ withdrawn signature fee
unfolding first_rule
first_rule_fails message [] signature fee h = cc h
first_rule_fails message (r ∷ rs) signature fee h = elim (Bool-cases (has_any message r.parts)) [
  | inl has ↦ cc (rw has at h)
  | inr lacks ↦ first_rule_fails message rs signature fee (rw lacks at h)
]

error_response_fails :
    (e : Thrown) (signature : List ℕ) (fee : ℕ) → error_response e ≢ withdrawn signature fee
unfolding error_response
error_response_fails e signature fee = first_rule_fails e.message rules signature fee

-- What a delivery is answered with.
delivered :
    (d : Delivery) (fee : ℕ) (signature : List ℕ) (f : ℕ)
    → (response_of fee (signature_of d) ≡ withdrawn signature f)
      ↔ ((d ≡ confirmed signature none) × (f ≡ fee))
unfolding signature_of
delivered (send_threw e) fee signature f =
    (λ h. absurd (error_response_fails e signature f h), λ (c, g). absurd (cc c))
delivered (confirm_threw e) fee signature f =
    (λ h. absurd (error_response_fails e signature f h), λ (c, g). absurd (cc c))
delivered (confirmed s none) fee signature f = (λ h. (cc h, cc h), λ (c, g). cc (c, g))
delivered (confirmed s (some e)) fee signature f =
    (λ h. absurd (error_response_fails (reverted e) signature f h), λ (c, g). absurd (cc c))

module _ (node : Node) (signature : List ℕ) (fee : ℕ) where
  -- The cluster confirmed the transaction without an error, and the fee is the one it takes.
  abbrev pub Confirms : Option Transaction → Type 0
  Confirms handed =
      (t : Transaction) × (handed ≡ some t)
      × (node.cluster.deliver t ≡ confirmed signature none)
      × (fee ≡ t.relayer_fee_taken)

  sent_withdrawn :
      (built : Reply Transaction) (taken : ℕ)
      → ((t : Transaction) → built ≡ reply t → t.relayer_fee_taken ≡ taken)
      → (response_of taken (send_withdraw node.cluster built).outcome ≡ withdrawn signature fee)
        ↔ Confirms (send_withdraw node.cluster built).handed
  unfolding send_withdraw
  sent_withdrawn (throw e) taken same =
      (λ h. absurd (error_response_fails e signature fee h), λ (t, h, d, f). absurd (cc h))
  sent_withdrawn (reply u) taken same =
      let (there, back) = delivered (node.cluster.deliver u) taken signature fee in
      (
        λ h. let (d, f) = there h in (u, refl, d, f ∙ sym (same u refl)),
        λ (t, h, d, f).
            let is : u ≡ t = cc h in
            back (
              ap node.cluster.deliver is ∙ d,
              f ∙ ap (λ x. x.relayer_fee_taken) (sym is) ∙ same u refl,
            ),
      )

  finish_withdrawn :
      (cache : RentCache) (s : Step Withdrawal)
      → ((finish node cache s).response ≡ withdrawn signature fee)
        ↔ Confirms (finish node cache s).handed
  unfolding submit_withdraw
  finish_withdrawn cache (answer (refusal status code)) =
      (λ h. absurd (cc h), λ (t, h, d, f). absurd (cc h))
  finish_withdrawn cache (raise e) =
      (λ h. absurd (error_response_fails e signature fee h), λ (t, h, d, f). absurd (cc h))
  finish_withdrawn cache (go w) =
      sent_withdrawn (build_withdraw node.throws node.cluster w) w.fee_taken
        (λ t h. (build_inv node.throws node.cluster w t h).fee_taken)

  -- The relayer answers that a withdrawal was made exactly when a transaction was handed to the
  -- cluster and confirmed without an error, and then with its signature and with the fee it takes.
  -- A transaction that was included and reverted is never answered as a withdrawal.
  pub handle_submit-withdrawn :
      (cache : RentCache) (b : Body)
      → ((handle_submit node cache b).response ≡ withdrawn signature fee)
        ↔ Confirms (handle_submit node cache b).handed
  unfolding handle_submit
  handle_submit-withdrawn cache b = finish_withdrawn _ _

sent_spent :
    (node : Node) (built : Reply Transaction) (taken : ℕ) (t : Transaction)
    → (signature : List ℕ) (e : ChainError) → (send_withdraw node.cluster built).handed ≡ some t
    → node.cluster.deliver t ≡ confirmed signature (some e)
    → e.custom ≡ some 6004
    → response_of taken (send_withdraw node.cluster built).outcome ≡ failure 400 nullifier_spent
unfolding send_withdraw signature_of
sent_spent node (throw x) taken t signature e h d c = absurd (cc h)
sent_spent node (reply u) taken t signature e h d c =
    let is : u ≡ t = cc h in
    let delivers : node.cluster.deliver u ≡ confirmed signature (some e) =
      ap node.cluster.deliver is ∙ d in
    ap (λ x. response_of taken (signature_of x)) delivers ∙ reverted_spent e c

finish_spent :
    (node : Node) (cache : RentCache) (s : Step Withdrawal) (t : Transaction)
    → (signature : List ℕ) (e : ChainError) → (finish node cache s).handed ≡ some t
    → node.cluster.deliver t ≡ confirmed signature (some e)
    → e.custom ≡ some 6004
    → (finish node cache s).response ≡ failure 400 nullifier_spent
unfolding submit_withdraw
finish_spent node cache (answer r) t signature e h d c = absurd (cc h)
finish_spent node cache (raise x) t signature e h d c = absurd (cc h)
finish_spent node cache (go w) t signature e h d c =
    sent_spent node (build_withdraw node.throws node.cluster w) w.fee_taken t signature e h d c

-- A withdrawal that is included and then reverts because its note was spent first, the program's
-- error 6004, is answered as a spent note, whatever else the cluster says of the error.
pub handle_submit-reverted_spent :
    (node : Node) (cache : RentCache) (b : Body) (t : Transaction) (signature : List ℕ)
    → (e : ChainError) → (handle_submit node cache b).handed ≡ some t
    → node.cluster.deliver t ≡ confirmed signature (some e)
    → e.custom ≡ some 6004
    → (handle_submit node cache b).response ≡ failure 400 nullifier_spent
unfolding handle_submit
handle_submit-reverted_spent node cache b t signature e h d c =
    finish_spent node _ _ t signature e h d c
