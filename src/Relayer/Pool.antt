-- ===== src/Relayer/Pool.antt =====
-- relayer/src/pool.js: an account is a pool before any byte of it is read as one.
pub mod Layout
use solnado_cash.Base.{
  ℕ, ◌+◌, Bool, not, Option, none, some, List, [], ◌∷◌, ltb, ◌==◌, if◌then◌else◌, length, get_or,
  codes_eq,
}
use solnado_cash.Base.Buffer.{subarray, read_u64_le}
use solnado_cash.Base.Chain.{Key, key_eq, Account, Reply, reply, throw, ◌>>=◌}
use solnado_cash.Relayer.Response.{ErrorCode, pool_not_found, not_a_pool}

abbrev pub pool_discriminator : List ℕ
pool_discriminator = 0xf1 ∷ 0x9a ∷ 0x6d ∷ 0x04 ∷ 0x11 ∷ 0xb1 ∷ 0x6d ∷ 0xbc ∷ []

abbrev pub pool_account_len : ℕ
pool_account_len = 8 + 8968

abbrev pub off_denomination : ℕ
off_denomination = 8 + 64

abbrev pub off_next_index : ℕ
off_next_index = 8 + 80

abbrev pub off_treasury : ℕ
off_treasury = 8 + 88

abbrev pub off_is_paused : ℕ
off_is_paused = 8 + 123

pub record PoolInfo : Type 0 where
  pub bytes : List ℕ
  pub denomination : ℕ
  pub treasury : Key
  pub next_index : ℕ
  pub is_paused : Bool

pub data Loaded : Type 0 where
  loaded : PoolInfo → Loaded
  refused : ℕ → ErrorCode → Loaded

-- The fields, at their offsets.
unfoldable pub pool_info : List ℕ → PoolInfo
pool_info bytes = record {
  bytes = bytes;
  denomination = read_u64_le bytes off_denomination;
  treasury = subarray bytes off_treasury 32;
  next_index = read_u64_le bytes off_next_index;
  is_paused = get_or bytes off_is_paused 0 == 1;
}

unfoldable pub check_pool : Key → Option Account → Loaded
check_pool program none = refused 404 pool_not_found
check_pool program (some info) =
    if not (key_eq info.owner program)
    then refused 400 not_a_pool
    else if ltb (length info.bytes) pool_account_len
    then refused 400 not_a_pool
    else if not (codes_eq (subarray info.bytes 0 8) pool_discriminator)
    then refused 400 not_a_pool
    else loaded (pool_info info.bytes)

-- `rpc` is `connection.getAccountInfo`.
unfoldable pub load_pool : (Key → Reply (Option Account)) → Key → Key → Reply Loaded
unfolding check_pool
load_pool rpc program pool = do info ← rpc pool; reply (check_pool program info)
