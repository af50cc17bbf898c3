-- ===== src/Sdk/Fees/Checked.antt =====
-- What a checked quote guarantees, and that the relayer's own quotes pass the check.
use solnado_cash.Base.{
  ℕ, ◌+◌, ◌-◌, ◌*◌, ◌/◌, ◌≤◌, ◌<◌, ◌≡◌, refl, sym, ap, ◌⊎◌, true, false, Option, none, some, pos,
  arith, ltb, leb, ◌==◌, ==_iff,
}
use solnado_cash.Base.Outcome.{ok}
use solnado_cash.Relayer.Response.{Quote}
use solnado_cash.Relayer.Node.{Node}
use solnado_cash.Relayer.Quote.Terms.{IsFair}
use solnado_cash.Sdk.Fees.{FeeQuote, FeeBreakdown, compute_treasury_fee, cap_of, validate_fee_quote}

-- Everything that the user is shown follows from the denomination and the ceiling.
pub record IsSound (now denomination : ℕ) (quote : FeeQuote) (cap : Option ℕ) (b : FeeBreakdown)
    : Type 0 where
  pub fresh : now < quote.valid_until
  pub ceiling : quote.relayer_fee_max ≡ pos b.relayer_fee_max
  pub same : b.denomination ≡ denomination
  pub treasury : b.treasury_fee ≡ denomination / 500
  pub capped : b.relayer_fee_max ≤ cap_of denomination cap
  pub adds_up : b.user_receives_min + (b.treasury_fee + b.relayer_fee_max) ≡ denomination
  pub something : 0 < b.user_receives_min
  pub told :
      (quote.estimated_user_receives ≡ none)
      ⊎ (quote.estimated_user_receives ≡ some (pos b.user_receives_min))

-- The quote as the client reads it from the relayer's answer.
abbrev pub read_quote : Quote → FeeQuote
read_quote q = record {
  relayer_address = q.relayer_address;
  relayer_fee_max = pos q.relayer_fee_max;
  valid_until = q.valid_until;
  estimated_user_receives = some q.estimated_user_receives;
}

-- The client accepts every fair quote of a relayer, until it expires: the check passes under the program's
-- cap, with the relayer's own figures, for a denomination of at least 500 lamports.
pub validate_fee_quote-fair :
    (node : Node) (rent now : ℕ) (q : Quote)
    → IsFair node rent q
    → now < q.valid_until
    → 500 ≤ q.denomination
    → (b : FeeBreakdown) × (validate_fee_quote now q.denomination (read_quote q) none ≡ ok b)
      × (b.relayer_fee_max ≡ q.relayer_fee_max)
      × (b.treasury_fee ≡ q.treasury_fee)
      × (q.estimated_user_receives ≡ pos b.user_receives_min)
unfolding validate_fee_quote compute_treasury_fee
validate_fee_quote-fair node rent now q fair fresh large =
    let is_fresh : leb q.valid_until now ≡ false = ground arith in
    let is_large : ltb q.denomination 500 ≡ false = ground arith in
    let within : q.relayer_fee_max ≤ q.denomination / 50 = ground (arith, fair.ceiling) in
    let is_capped : ltb (q.denomination / 50) q.relayer_fee_max ≡ false = ground arith in
    let treasury : q.treasury_fee ≡ q.denomination / 500 = fair.treasury in
    let total : fair.receives + q.treasury_fee + q.relayer_fee_max ≡ q.denomination =
      fair.adds_up in
    let most : 978 * q.denomination ≤ 1000 * fair.receives = fair.most in
    let is_left : leb q.denomination (q.denomination / 500 + q.relayer_fee_max) ≡ false =
      ground (arith, treasury, total, most, large) in
    let rest : fair.receives ≡ q.denomination - (q.denomination / 500 + q.relayer_fee_max) =
      omega (arith, treasury, total) in
    let same : (fair.receives == q.denomination - (q.denomination / 500 + q.relayer_fee_max))
        ≡ true =
      (==_iff fair.receives _).1 rest in
    rw (is_fresh, is_large, is_capped, is_left, fair.receives_value, same)
      (_, refl, refl, sym treasury, ap pos rest)
