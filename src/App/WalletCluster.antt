-- ===== src/App/WalletCluster.antt =====
-- app/src/utils/walletCluster.ts: whether the connected address can pay for a deposit on the cluster that
-- the app acts on. The balance is `none` when it cannot be read. The message shows amounts through
-- floating-point numbers, so it is left out.
use solnado_cash.Base.{ℕ, ◌+◌, Option, none, some, leb, if◌then◌else◌}

abbrev pub deposit_fee_headroom_lamports : ℕ
deposit_fee_headroom_lamports = 10_000

pub data WalletVerdict : Type 0 where
  can_pay : ℕ → WalletVerdict
  insufficient : ℕ → ℕ → WalletVerdict
  unreadable : ℕ → WalletVerdict

abbrev pub compare_balance : ℕ → Option ℕ → WalletVerdict
compare_balance required none = unreadable required
compare_balance required (some balance) =
    if leb required balance then can_pay balance else insufficient balance required

unfoldable pub check_wallet_can_deposit : Option ℕ → ℕ → WalletVerdict
check_wallet_can_deposit balance denomination =
    compare_balance (denomination + deposit_fee_headroom_lamports) balance
