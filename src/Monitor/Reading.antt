-- ===== src/Monitor/Reading.antt =====
-- monitor/src/index.js, `readPool` and `readUpgradeAuthority`: what the monitor reads of the chain.
-- `to_key` is `new PublicKey(text)`, `of_bytes` is `new PublicKey(bytes).toBase58()`, and `label_of`
-- prints a denomination in SOL.
pub mod Agreement
use solnado_cash.Base.{
  ℕ, ◌+◌, Bool, true, false, not, ◌||◌, Option, none, some, List, [], ◌∷◌, ltb, ◌==◌, if◌then◌else◌,
  codes_eq, length, get_or,
}
use solnado_cash.Base.Buffer.{subarray, read_u64_le}
use solnado_cash.Base.Text.{codes}
use solnado_cash.Base.Chain.{Key, key_eq, Account, Reply, reply, throw, ◌>>=◌}
use solnado_cash.Monitor.Checks.{Text, PoolState, Authority, unread, nobody, held_by}
use solnado_cash.Monitor.Watch.{PoolRead, read_threw, read_refused, read_pool}

abbrev pub off_admin : ℕ
off_admin = 8

abbrev pub off_denom : ℕ
off_denom = 8 + 64

abbrev pub off_next_index : ℕ
off_next_index = 8 + 80

abbrev pub off_treasury : ℕ
off_treasury = 8 + 88

abbrev pub off_is_paused : ℕ
off_is_paused = 8 + 123

abbrev pub pool_len : ℕ
pool_len = 8 + 8968

abbrev pub pool_discriminator : List ℕ
pool_discriminator = 0xf1 ∷ 0x9a ∷ 0x6d ∷ 0x04 ∷ 0x11 ∷ 0xb1 ∷ 0x6d ∷ 0xbc ∷ []

abbrev pub vault_space : ℕ
vault_space = 8

pub record Reader : Type 0 where
  pub program : Key
  pub loader : Key
  pub to_key : Text → Reply Key
  pub find_pda : List (List ℕ) → Key → Reply Key
  pub of_bytes : List ℕ → Text
  pub label_of : ℕ → Text
  pub get_account_info : Key → Reply (Option Account)
  pub get_balance : Key → Reply ℕ
  pub get_rent : ℕ → Reply ℕ

-- From the three answers on.
unfoldable pub read_account : Reader → Option Account → ℕ → ℕ → PoolRead
read_account r none vault_lamports vault_rent = read_refused
read_account r (some info) vault_lamports vault_rent =
    if not (key_eq info.owner r.program)
    then read_refused
    else if ltb (length info.bytes) pool_len
        || not (codes_eq (subarray info.bytes 0 8) pool_discriminator)
    then read_refused
    else read_pool
        (record {
          label = r.label_of (read_u64_le info.bytes off_denom);
          denomination = read_u64_le info.bytes off_denom;
          deposits = read_u64_le info.bytes off_next_index;
          vault_lamports = vault_lamports;
          vault_rent = vault_rent;
          is_paused = get_or info.bytes off_is_paused 0 == 1;
        })
        (r.of_bytes (subarray info.bytes off_admin 32))
        (r.of_bytes (subarray info.bytes off_treasury 32))

-- The three requests run together; one that fails fails them all.
abbrev pub answers : Reader → Text → Reply (Option Account × ℕ × ℕ)
answers r address = do
  pool ← r.to_key address
  vault ← r.find_pda (codes "vault" ∷ pool ∷ []) r.program
  info ← r.get_account_info pool
  vault_lamports ← r.get_balance vault
  vault_rent ← r.get_rent vault_space
  reply (info, vault_lamports, vault_rent)

abbrev pub read_of : Reader → Reply (Option Account × ℕ × ℕ) → PoolRead
read_of r (throw e) = read_threw
read_of r (reply (info, vault_lamports, vault_rent)) = read_account r info vault_lamports vault_rent

unfoldable pub pool_read : Reader → Text → PoolRead
unfolding read_account
pool_read r address = read_of r (answers r address)

abbrev pub authority_in : Reader → Option Account → Authority
authority_in r none = unread
authority_in r (some info) =
    if get_or info.bytes 12 0 == 1 then held_by (r.of_bytes (subarray info.bytes 13 32)) else nobody

unfoldable pub read_upgrade_authority : Reader → Reply Authority
read_upgrade_authority r = do
  program_data ← r.find_pda (r.program ∷ []) r.loader
  info ← r.get_account_info program_data
  reply (authority_in r info)
