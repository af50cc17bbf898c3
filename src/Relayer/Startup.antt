-- ===== src/Relayer/Startup.antt =====
-- relayer/src/startup.js: the relayer refuses to run as the key that can replace the program. The
-- key file is I/O; `of_bytes` is `new PublicKey(bytes)`.
pub mod Authority
use solnado_cash.Base.{
  ℕ, ◌+◌, Bool, true, false, not, ◌||◌, Option, none, some, List, [], ◌∷◌, ltb, ◌==◌, if◌then◌else◌,
  length, get_or,
}
use solnado_cash.Base.Buffer.{subarray, read_u32_le}
use solnado_cash.Base.Chain.{Key, key_eq, Account, Thrown, Reply, reply, throw, ◌>>=◌}

-- What the check is given. `loader` is the address of the upgradeable loader, `key_error` the error
-- that stops the start.
pub record Setup : Type 0 where
  pub get_account_info : Key → Reply (Option Account)
  pub of_bytes : List ℕ → Reply Key
  pub loader : Key
  pub key_error : Thrown

-- The bytes of an upgradeable program's account.
unfoldable pub program_bytes : Setup → Option Account → Reply (List ℕ)
program_bytes s none = throw s.key_error
program_bytes s (some program) =
    if not (key_eq program.owner s.loader) || ltb (length program.bytes) 36
    then throw s.key_error
    else if not (read_u32_le program.bytes 0 == 2)
    then throw s.key_error
    else reply program.bytes

unfoldable pub program_data_bytes : Setup → Option Account → Reply (List ℕ)
program_data_bytes s none = throw s.key_error
program_data_bytes s (some pd) =
    if ltb (length pd.bytes) 13 || not (read_u32_le pd.bytes 0 == 3)
    then throw s.key_error
    else reply pd.bytes

-- pd.data[12] === 0 ? null : new PublicKey(pd.data.subarray(13, 45))
unfoldable pub authority_of : Setup → List ℕ → Reply (Option Key)
authority_of s bytes =
    if get_or bytes 12 0 == 0
    then reply none
    else do authority ← s.of_bytes (subarray bytes 13 32); reply (some authority)

-- `none` for an immutable program.
unfoldable pub upgrade_authority : Setup → Key → Reply (Option Key)
unfolding program_bytes program_data_bytes authority_of
upgrade_authority s program_id = do
  program ← s.get_account_info program_id
  bytes ← program_bytes s program
  program_data ← s.of_bytes (subarray bytes 4 32)
  pd ← s.get_account_info program_data
  pd_bytes ← program_data_bytes s pd
  authority_of s pd_bytes

abbrev pub refuse_key : Setup → Key → Option Key → Reply {0} Unit
refuse_key s relayer none = reply tt
refuse_key s relayer (some authority) =
    if key_eq authority relayer then throw s.key_error else reply tt

unfoldable pub assert_not_upgrade_authority : Setup → Key → Key → Reply {0} Unit
unfolding upgrade_authority
assert_not_upgrade_authority s program_id relayer = do
  authority ← upgrade_authority s program_id
  refuse_key s relayer authority
