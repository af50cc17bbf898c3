-- ===== src/Sdk/Fees.antt =====
-- sdk/src/fees.ts: the treasury's fee, what is left for the recipient, and the client's check of a relayer's
-- quote. The percentage for display, a floating-point number, is left out, and so is the request itself
-- up to the parsed quote.
pub mod Checked
use solnado_cash.Base.{
  ℕ, ◌+◌, ◌-◌, ◌/◌, Bool, true, false, not, Option, none, some, ℤ, pos, negsuc, ltb, leb, ◌==◌,
  if◌then◌else◌, sub_ℕ,
}
use solnado_cash.Base.Chain.{Key}
use solnado_cash.Base.Outcome.{Outcome, ok, err, ◌>>=◌}

-- The estimate is `none` when the quote has none.
pub record FeeQuote : Type 0 where
  pub relayer_address : Key
  pub relayer_fee_max : ℤ
  pub valid_until : ℕ
  pub estimated_user_receives : Option ℤ

pub data QuoteError : Type 0 where
  small_denomination expired negative_fee above_cap nothing_left inconsistent : QuoteError

pub record FeeBreakdown : Type 0 where
  pub denomination : ℕ
  pub treasury_fee : ℕ
  pub relayer_fee_max : ℕ
  pub user_receives_min : ℕ

abbrev pub max_relayer_fee_divisor : ℕ
max_relayer_fee_divisor = 50

unfoldable pub compute_treasury_fee : ℕ → Outcome QuoteError ℕ
compute_treasury_fee denomination =
    if ltb denomination 500 then err small_denomination else ok (denomination / 500)

abbrev pub minus : ℕ → ℕ → ℤ → ℤ
minus denomination treasury (pos m) = sub_ℕ denomination (treasury + m)
minus denomination treasury (negsuc m) = pos (denomination - treasury + (m + 1))

-- denomination - treasuryFee - relayerFeeMax, where the treasury's fee is within the denomination
unfoldable pub compute_min_user_receives : ℕ → ℤ → Outcome QuoteError ℤ
unfolding compute_treasury_fee
compute_min_user_receives denomination fee_max = do
  treasury ← compute_treasury_fee denomination
  ok (minus denomination treasury fee_max)

abbrev pub natural : ℤ → Outcome QuoteError ℕ
natural (pos m) = ok m
natural (negsuc m) = err negative_fee

-- The cap that the caller sets, or the program's.
abbrev pub cap_of : ℕ → Option ℕ → ℕ
cap_of denomination none = denomination / max_relayer_fee_divisor
cap_of denomination (some cap) = cap

abbrev pub claims : ℕ → Option ℤ → Bool
claims receives none = true
claims receives (some (pos n)) = n == receives
claims receives (some (negsuc n)) = false

abbrev pub refuse_when : Bool → QuoteError → Outcome QuoteError (Unit {0})
refuse_when true e = err e
refuse_when false e = ok tt

unfoldable pub validate_fee_quote : ℕ → ℕ → FeeQuote → Option ℕ → Outcome QuoteError FeeBreakdown
unfolding compute_treasury_fee
validate_fee_quote now denomination quote max_relayer_fee = do
  fresh ← refuse_when (leb quote.valid_until now) expired
  fee ← natural quote.relayer_fee_max
  treasury ← compute_treasury_fee denomination
  capped ← refuse_when (ltb (cap_of denomination max_relayer_fee) fee) above_cap
  left ← refuse_when (leb denomination (treasury + fee)) nothing_left
  consistent ←
      refuse_when (not (claims (denomination - (treasury + fee)) quote.estimated_user_receives))
        inconsistent
  ok (record {
    denomination = denomination;
    treasury_fee = treasury;
    relayer_fee_max = fee;
    user_receives_min = denomination - (treasury + fee);
  })

-- The end of `getFeeQuote`: a quote that has expired is refused at once.
unfoldable pub accept_quote : ℕ → FeeQuote → Outcome QuoteError FeeQuote
accept_quote now quote = if leb quote.valid_until now then err expired else ok quote
